-- ===== src/Model/Paths.antt =====
-- The validators of claims and branches in model.py. Each is the condition under which the source
-- does not raise.
use idol_id_agents.Prelude.{
  Text, text, Bool, ◌&&◌, ◌||◌, not, List, [], ◌∷◌, ◌==◌, nat_eq, ltb, all, any, keep, is_empty,
}
use idol_id_agents.Strings.{slash, split, starts_with, ends_with, contains, is_space}
use idol_id_agents.Model.Atoms.{is_atom, member}

abbrev pub dot : Text
dot = b'.' ∷ []

abbrev pub dotdot : Text
dotdot = b'.' ∷ b'.' ∷ []

-- `PurePosixPath(value).parts` below the root: empty parts and single dots are dropped.
unfoldable pub pure_parts : Text → List Text
unfolding split ◌==◌
pure_parts value = keep (λ part. not (is_empty part || (part == dot))) (split slash value)

-- `validate_relative_path` does not raise. Both tests of characters are of one code point.
unfoldable pub relative_path_ok : Text → Bool
unfolding pure_parts starts_with
relative_path_ok value = not (
    is_empty value
    || starts_with (slash ∷ []) value
    || any (λ c. nat_eq c b'\\') value
    || any (λ part. is_empty part || (part == dot) || (part == dotdot)) (pure_parts value)
    || any (λ c. nat_eq c 0 || nat_eq c b'~') value)

-- `validate_semantic_target` does not raise.
unfoldable pub semantic_target_ok : Text → Bool
unfolding split starts_with ends_with contains is_atom
semantic_target_ok value =
    not (
      is_empty value
      || starts_with (slash ∷ []) value
      || ends_with (slash ∷ []) value
      || contains (slash ∷ slash ∷ []) value)
    && all is_atom (split slash value)

-- `validate_branch` does not raise.
unfoldable pub branch_ok : Text → Bool
unfolding split starts_with ends_with contains is_space ◌==◌ member
branch_ok value = not (
    is_empty value
    || starts_with (slash ∷ []) value
    || starts_with dot value
    || ends_with (slash ∷ []) value
    || ends_with dot value
    || ends_with (text ".lock") value
    || contains dotdot value
    || contains (text "@{") value
    || any (λ c. nat_eq c b'\\') value
    || any (λ part. is_empty part || (part == dot) || (part == dotdot)) (split slash value)
    || any (λ c. is_space c || ltb c 32 || any (nat_eq c) (text "~^:?*[")) value)
