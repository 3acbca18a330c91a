-- ===== src/Model/Atoms.antt =====
-- The regular expressions of model.py, matched against the whole text, and sets of texts.
use idol_id_agents.Prelude.{
  ℕ, Text, Bool, true, false, ◌&&◌, ◌||◌, not, List, [], ◌∷◌, ◌==◌, nat_eq, leb, all, any, length,
  ◌≡◌, All, All-map, eq_refl, arith,
}
use idol_id_agents.Strings.{is_alnum, is_hex}

-- `value in values`.
unfoldable pub member : Text → List Text → Bool
unfolding ◌==◌
member value values = any (λ v. value == v) values

-- `len(set(values)) == len(values)`.
unfoldable pub distinct : List Text → Bool
unfolding member
distinct [] = true
distinct (v ∷ rest) = not (member v rest) && distinct rest

abbrev atom_char : ℕ → Bool
atom_char c = is_alnum c || nat_eq c b'.' || nat_eq c b'_' || nat_eq c b':' || nat_eq c b'-'

-- `_ATOM_RE`.
unfoldable pub is_atom : Text → Bool
unfolding is_alnum
is_atom [] = false
is_atom (c ∷ rest) = is_alnum c && all atom_char rest

-- `_SHA_RE`.
unfoldable pub is_sha : Text → Bool
unfolding is_hex
is_sha value = nat_eq (length value) 40 && all is_hex value

-- `[0-9a-f]{64}`.
unfoldable pub is_digest : Text → Bool
unfolding is_hex
is_digest value = nat_eq (length value) 64 && all is_hex value

abbrev env_head : ℕ → Bool
env_head c = (leb b'A' c && leb c b'Z') || nat_eq c b'_'

-- `_SAFE_ENV_RE`.
unfoldable pub is_env_name : Text → Bool
is_env_name [] = false
is_env_name (c ∷ rest) = env_head c && all (λ d. env_head d || (leb b'0' d && leb d b'9')) rest

member-cons :
    (v w : Text) (values : List Text) → member v values ≡ true → member v (w ∷ values) ≡ true
unfolding member
member-cons v w values h = ground arith

-- Each value of a list is in it.
pub member_self : (values : List Text) → All (λ v. member v values ≡ true) values
unfolding member
member_self [] = tt
member_self (v ∷ rest) =
    (ground (arith, eq_refl v), All-map (λ w h. member-cons w v rest h) rest (member_self rest))
