-- ===== src/Claims/Disjoint.antt =====
-- Claims of different holders never overlap, in any file that the store's operations write.
use mathlib.Core.Path.{subst, ap₂}
use idol_id_agents.Prelude.{
  ℕ, Text, Bool, true, false, ◌≡◌, refl, sym, ap, ◌∙◌, ◌⊎◌, inl, inr, List, [], ◌∷◌, ◌++◌, map,
  eq_iff, All, All-map, All-of_map, All-always, Pairwise, Pairwise-append, Bool-cases, none, some,
  ok, arith,
}
use idol_id_agents.Overlap.{semantic_overlap}
use idol_id_agents.Overlap.Claims.{semantic_overlap_sym}
use idol_id_agents.Claims.{
  Claim, Store, held_by, overlapped, check_targets, claim_for, renewed, validate, read,
}

-- Two claims of one holder, or of targets that do not overlap.
abbrev pub Coexist : Claim → Claim → Type 0
Coexist a b =
    ((a.owner ≡ b.owner) × (a.task_id ≡ b.task_id)) ⊎ (semantic_overlap a.target b.target ≡ false)

-- What a file holds: claims that coexist pairwise, or nothing readable.
abbrev pub IsDisjoint : Store → Type 0
IsDisjoint none = Unit
IsDisjoint (some rows) = Pairwise Coexist rows

module _ (owner task_id : Text) where
  held_by-eq :
      (row : Claim)
      → held_by owner task_id row ≡ true
      → (row.owner ≡ owner) × (row.task_id ≡ task_id)
  unfolding held_by
  held_by-eq row h =
      (ground (arith, eq_iff row.owner owner), ground (arith, eq_iff row.task_id task_id))

  -- A target that no live claim of another holder overlaps.
  abbrev pub Free : Text → Claim → Type 0
  Free target row =
      (held_by owner task_id row ≡ true) ⊎ (semantic_overlap target row.target ≡ false)

  overlapped-cons :
      (target : Text) (row : Claim) (rest : List Claim)
      → overlapped owner task_id target (row ∷ rest) ≡ none
      → Free target row × (overlapped owner task_id target rest ≡ none)
  unfolding overlapped
  overlapped-cons target row rest h = elim (Bool-cases (held_by owner task_id row)) [
    | inl own ↦ (inl own, ground arith)
    | inr other ↦ (inr (ground arith), ground arith)
  ]

  overlapped-none :
      (target : Text) (rows : List Claim)
      → overlapped owner task_id target rows ≡ none
      → All (Free target) rows
  overlapped-none target [] h = tt
  overlapped-none target (row ∷ rest) h =
      let (free, others) = overlapped-cons target row rest h in
      (free, overlapped-none target rest others)

  check_targets-cons :
      (target : Text) (rest : List Text) (rows : List Claim)
      → check_targets owner task_id (target ∷ rest) rows ≡ ok tt
      → (overlapped owner task_id target rows ≡ none)
        × (check_targets owner task_id rest rows ≡ ok tt)
  unfolding check_targets
  check_targets-cons target rest rows h = (ground arith, ground arith)

  pub check_targets-Free :
      (targets : List Text) (rows : List Claim)
      → check_targets owner task_id targets rows ≡ ok tt
      → All (λ target. All (Free target) rows) targets
  check_targets-Free [] rows h = tt
  check_targets-Free (target ∷ rest) rows h =
      let (free, others) = check_targets-cons target rest rows h in
      (overlapped-none target rows free, check_targets-Free rest rows others)

  Free-Coexist :
      (ttl now : ℕ) (row : Claim) (target : Text)
      → Free target row
      → Coexist row (claim_for owner task_id ttl now target)
  Free-Coexist ttl now row target (inl own) = inl (held_by-eq row own)
  Free-Coexist ttl now row target (inr free) = inr (semantic_overlap_sym row.target target ∙ free)

  created-Coexist :
      (ttl now : ℕ) (targets : List Text)
      → Pairwise Coexist (map (claim_for owner task_id ttl now) targets)
  created-Coexist ttl now [] = tt
  created-Coexist ttl now (target ∷ rest) = (
    All-of_map _ (claim_for owner task_id ttl now) rest (All-always (λ t. inl (refl, refl)) rest),
    created-Coexist ttl now rest,
  )

  -- The claims of an acquisition coexist with the live rows and with one another.
  pub acquired-Pairwise :
      (ttl now : ℕ) (targets : List Text) (rows : List Claim)
      → Pairwise Coexist rows
      → All (λ target. All (Free target) rows) targets
      → Pairwise Coexist (rows ++ map (claim_for owner task_id ttl now) targets)
  acquired-Pairwise ttl now targets rows h free =
      Pairwise-append Coexist rows (map (claim_for owner task_id ttl now) targets) h
        (created-Coexist ttl now targets) (All-swap rows targets free)
    where
      All-swap :
          (rs : List Claim) (ts : List Text)
          → All (λ t. All (Free t) rs) ts
          → All (λ r. All (Coexist r) (map (claim_for owner task_id ttl now) ts)) rs
      All-swap [] ts k = tt
      All-swap (r ∷ rs) ts k = (
        All-of_map _ (claim_for owner task_id ttl now) ts
            (All-map (λ t fs. Free-Coexist ttl now r t fs.0) ts k),
        All-swap rs ts (All-map (λ t fs. fs.1) ts k),
      )

  renewed-same :
      (ttl now : ℕ) (row : Claim)
      → ((renewed owner task_id ttl now row).owner ≡ row.owner)
        × ((renewed owner task_id ttl now row).task_id ≡ row.task_id)
        × ((renewed owner task_id ttl now row).target ≡ row.target)
  renewed-same ttl now row = (ground arith, ground arith, ground arith)

  renewed-Coexist :
      (ttl now : ℕ) (a b : Claim)
      → Coexist a b
      → Coexist (renewed owner task_id ttl now a) (renewed owner task_id ttl now b)
  renewed-Coexist ttl now a b (inl (o, t)) =
      let (oa, ta, ga) = renewed-same ttl now a in
      let (ob, tb, gb) = renewed-same ttl now b in inl (oa ∙ o ∙ sym ob, ta ∙ t ∙ sym tb)
  renewed-Coexist ttl now a b (inr free) =
      let (oa, ta, ga) = renewed-same ttl now a in
      let (ob, tb, gb) = renewed-same ttl now b in inr (ap₂ semantic_overlap ga gb ∙ free)

  pub renewed-Pairwise :
      (ttl now : ℕ) (rows : List Claim)
      → Pairwise Coexist rows
      → Pairwise Coexist (map (renewed owner task_id ttl now) rows)
  renewed-Pairwise ttl now [] h = tt
  renewed-Pairwise ttl now (r ∷ rows) h = (
    All-of_map _ (renewed owner task_id ttl now) rows
        (All-map (λ s e. renewed-Coexist ttl now r s e) rows h.0),
    renewed-Pairwise ttl now rows h.1,
  )

module _ (valid_target : Text → Bool) where
  pub validate-same :
      (rows : List Claim) {written : List Claim}
      → validate valid_target rows ≡ ok written
      → rows ≡ written
  unfolding validate
  validate-same rows h = ground arith

  pub read-some :
      (store : Store) {rows : List Claim} → read valid_target store ≡ ok rows → store ≡ some rows
  unfolding read
  read-some none h = cc
  read-some (some rows) h = ap some (validate-same rows h)

  pub read-Disjoint :
      (store : Store) {rows : List Claim}
      → read valid_target store ≡ ok rows
      → IsDisjoint store
      → Pairwise Coexist rows
  read-Disjoint store h d = subst IsDisjoint (read-some store h) d
