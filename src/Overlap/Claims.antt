-- ===== src/Overlap/Claims.antt =====
-- What the overlap of two claims means.
use mathlib.Core.List.{append-nil}
use idol_id_agents.Prelude.{Text, true, ◌≡◌, sym, ◌↔◌, ◌⊎◌, List, [], ◌∷◌, ◌++◌, inl, inr}
use idol_id_agents.Strings.{slash}
use idol_id_agents.Overlap.{parts, heads_agree, path_overlap, semantic_overlap}
use idol_id_agents.Overlap.Parts.{parts-append}
use idol_id_agents.Overlap.Prefix.{Begins, heads_agree→Begins, Begins→heads_agree, heads_agree_sym}

-- One claim is the other or stands above it.
abbrev pub Related : Text → Text → Type 0
Related left right = Begins (parts left) (parts right) ⊎ Begins (parts right) (parts left)

related-heads_agree :
    (xs ys : List Text) → (heads_agree xs ys ≡ true) ↔ (Begins xs ys ⊎ Begins ys xs)
related-heads_agree xs ys = (heads_agree→Begins xs ys, back)
  where
    back : Begins xs ys ⊎ Begins ys xs → heads_agree xs ys ≡ true
    back (inl p) = Begins→heads_agree xs ys p
    back (inr p) = rw (heads_agree_sym xs ys) (Begins→heads_agree ys xs p)

-- Two path claims overlap exactly when the parts of one are an initial segment of the parts of the
-- other, and two semantic claims likewise.
pub overlap-iff-Related :
    (left right : Text)
    → ((path_overlap left right ≡ true) ↔ Related left right)
      × ((semantic_overlap left right ≡ true) ↔ Related left right)
unfolding path_overlap semantic_overlap
overlap-iff-Related left right =
    (related-heads_agree (parts left) (parts right), related-heads_agree (parts left) (parts right))

-- Overlap does not depend on the order of the two claims.
pub path_overlap_sym : (left right : Text) → path_overlap left right ≡ path_overlap right left
unfolding path_overlap
path_overlap_sym left right = heads_agree_sym (parts left) (parts right)

pub semantic_overlap_sym :
    (left right : Text) → semantic_overlap left right ≡ semantic_overlap right left
unfolding semantic_overlap
semantic_overlap_sym left right = heads_agree_sym (parts left) (parts right)

-- A claim overlaps every claim below it, whatever is appended behind a slash; this holds of paths
-- and of semantic targets, in either order of the two.
pub overlap_below :
    (top below : Text)
    → (path_overlap top (top ++ slash ∷ below) ≡ true)
      × (semantic_overlap (top ++ slash ∷ below) top ≡ true)
overlap_below top below = (
  (overlap-iff-Related _ _).0.1 (inl (parts below, sym (parts-append top below))),
  (overlap-iff-Related _ _).1.1 (inr (parts below, sym (parts-append top below))),
)

pub overlap_self : (claim : Text) → path_overlap claim claim ≡ true
overlap_self claim = (overlap-iff-Related claim claim).0.1 (inl ([], append-nil _))
