-- ===== src/Model/DotPaths.antt =====
-- A leading `./` is invisible to the validator of paths and visible to their overlap.
use mathlib.Core.Path.{ap₂}
use idol_id_agents.Prelude.{
  Text, Bool, true, false, ◌≡◌, ◌≢◌, refl, sym, ap, ◌∙◌, List, [], ◌∷◌, ◌++◌, not, ◌&&◌, ◌||◌, ◌==◌,
  eq_iff, keep, is_empty, arith,
}
use idol_id_agents.Strings.{slash}
use idol_id_agents.Strings.Words.{split-append}
use idol_id_agents.Overlap.{parts, path_overlap, heads_agree}
use idol_id_agents.Overlap.Parts.{parts-append}
use idol_id_agents.Overlap.Prefix.{heads_agree-cons}
use idol_id_agents.Model.Paths.{dot, pure_parts, relative_path_ok}

-- The path behind `./`.
abbrev pub under_dot : Text → Text
under_dot path = dot ++ slash ∷ path

pure_parts-under_dot : (path : Text) → pure_parts (under_dot path) ≡ pure_parts path
unfolding pure_parts
pure_parts-under_dot path =
    ap (keep (λ part. not (is_empty part || (part == dot)))) (split-append slash dot path)

relative-under_dot :
    (path : Text) → relative_path_ok path ≡ true → relative_path_ok (under_dot path) ≡ true
unfolding relative_path_ok
relative-under_dot path h = ground (arith, pure_parts-under_dot path)

parts-dot : parts dot ≡ dot ∷ []
unfolding parts
parts-dot = refl

other_head : (part other : Text) (rest : Bool) → part ≢ other → ((part == other) && rest) ≡ false
other_head part other rest apart = ground (arith, eq_iff part other)

-- Every valid path whose first part is not a dot stays valid behind `./`, and then no longer
-- overlaps itself: the validator drops the dot from the path's parts and the overlap keeps it, so
-- two orders may claim one file under these two names.
pub path_overlap-under_dot :
    (path first : Text) (rest : List Text)
    → relative_path_ok path ≡ true
    → parts path ≡ first ∷ rest
    → first ≢ dot
    → (relative_path_ok (under_dot path) ≡ true) × (path_overlap (under_dot path) path ≡ false)
unfolding path_overlap
path_overlap-under_dot path first rest valid shape apart =
    let both : parts (under_dot path) ≡ dot ∷ first ∷ rest =
      parts-append dot path ∙ ap (λ l. l ++ parts path) parts-dot ∙ ap (λ l. dot ∷ l) shape in
    let split_test : heads_agree (dot ∷ first ∷ rest) (first ∷ rest) ≡ false =
      heads_agree-cons dot first (first ∷ rest) rest
      ∙ other_head dot first (heads_agree (first ∷ rest) rest) (λ e. apart (sym e)) in
    (relative-under_dot path valid, ap₂ heads_agree both shape ∙ split_test)
