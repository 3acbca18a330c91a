-- ===== src/Strings.antt =====
-- The methods of Python's `str` that the program calls, over code points: `split`, `strip`,
-- `startswith`, `endswith`, `in`, `isspace`, and the character classes of its regular expressions.
pub mod Words
use idol_id_agents.Prelude.{
  ℕ, Text, text, Bool, true, false, ◌&&◌, ◌||◌, not, List, [], ◌∷◌, ◌==◌, nat_eq, leb, any, all,
  is_empty, reverse, if◌then◌else◌,
}

abbrev pub slash : ℕ
slash = b'/'

-- `s.split(sep)` at one code point: the first word, and those behind it.
pub words : ℕ → Text → Text × List Text
words sep [] = ([], [])
words sep (c ∷ s) = let (w, ws) = words sep s in if nat_eq c sep then ([], w ∷ ws) else (c ∷ w, ws)

unfoldable pub split : ℕ → Text → List Text
unfolding words
split sep s = let (w, ws) = words sep s in w ∷ ws

-- `s.lstrip(c)`, `s.rstrip(c)`, `s.strip(c)` for the code points that `p` accepts.
unfoldable pub lstrip : (ℕ → Bool) → Text → Text
lstrip p [] = []
lstrip p (c ∷ s) = let rest = lstrip p s in if p c then rest else c ∷ s

unfoldable pub rstrip : (ℕ → Bool) → Text → Text
rstrip p [] = []
rstrip p (c ∷ s) = let rest = rstrip p s in if p c && is_empty rest then [] else c ∷ rest

unfoldable pub strip_of : (ℕ → Bool) → Text → Text
unfolding lstrip rstrip
strip_of p s = rstrip p (lstrip p s)

unfoldable pub starts_with : Text → Text → Bool
starts_with [] s = true
starts_with (c ∷ p) [] = false
starts_with (c ∷ p) (d ∷ s) = nat_eq c d && starts_with p s

unfoldable pub ends_with : Text → Text → Bool
unfolding starts_with
ends_with p s = starts_with (reverse p) (reverse s)

-- `p in s`.
unfoldable pub contains : Text → Text → Bool
unfolding starts_with
contains p [] = is_empty p
contains p (c ∷ s) = starts_with p (c ∷ s) || contains p s

-- `c.isspace()`.
unfoldable pub is_space : ℕ → Bool
is_space c =
    (leb 9 c && leb c 13)
    || (leb 28 c && leb c 32)
    || nat_eq c 0x85
    || nat_eq c 0xa0
    || nat_eq c 0x1680
    || (leb 0x2000 c && leb c 0x200a)
    || nat_eq c 0x2028
    || nat_eq c 0x2029
    || nat_eq c 0x202f
    || nat_eq c 0x205f
    || nat_eq c 0x3000

-- `s.strip()`.
unfoldable pub strip : Text → Text
unfolding strip_of is_space
strip s = strip_of is_space s

unfoldable pub is_alnum : ℕ → Bool
is_alnum c = (leb b'A' c && leb c b'Z') || (leb b'a' c && leb c b'z') || (leb b'0' c && leb c b'9')

-- `[0-9a-f]`.
unfoldable pub is_hex : ℕ → Bool
is_hex c = (leb b'0' c && leb c b'9') || (leb b'a' c && leb c b'f')
