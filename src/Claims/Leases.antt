-- ===== src/Claims/Leases.antt =====
-- When an acquisition is granted, and what it leaves.
use idol_id_agents.Prelude.{
  ℕ, ◌≡◌, Text, Bool, true, false, refl, sym, ap, ◌∙◌, ◌↔◌, List, [], ◌∷◌, ◌++◌, map, is_empty, All,
  none, some, Result, ok, ok-injective, arith,
}
use idol_id_agents.Model.Atoms.{distinct}
use idol_id_agents.Claims.{
  Claim, ClaimError, live, overlapped, check_ttl, check_targets, claim_for, validate, read, acquire,
}
use idol_id_agents.Claims.Disjoint.{Free, check_targets-Free}
use idol_id_agents.Claims.Exclusion.{acquire-parts}

module _ (owner task_id : Text) where
  overlapped-Free :
      (target : Text) (rows : List Claim)
      → All (Free owner task_id target) rows
      → overlapped owner task_id target rows ≡ none
  unfolding overlapped
  overlapped-Free target [] h = refl
  overlapped-Free target (row ∷ rest) h = ground (arith, h.0, overlapped-Free target rest h.1)

  Free-check_targets :
      (targets : List Text) (rows : List Claim)
      → All (λ target. All (Free owner task_id target) rows) targets
      → check_targets owner task_id targets rows ≡ ok tt
  unfolding check_targets
  Free-check_targets [] rows h = refl
  Free-check_targets (target ∷ rest) rows h =
      ground (arith, overlapped-Free target rows h.0, Free-check_targets rest rows h.1)

  module _ (valid : Text → Bool) (targets : List Text) (ttl now : ℕ) (rows : List Claim) where
    abbrev pub created : List Claim
    created = map (claim_for owner task_id ttl now) targets

    abbrev pub granted : Result ClaimError (List Claim × List Claim)
    granted = ok (created, live rows now ++ created)

    abbrev pub AllFree : Type 0
    AllFree = All (λ target. All (Free owner task_id target) (live rows now)) targets

    granted-AllFree :
        read valid (some rows) ≡ ok rows
        → acquire valid owner task_id targets ttl now (some rows) ≡ granted
        → AllFree
    granted-AllFree readable h =
        let parts = acquire-parts valid owner task_id targets ttl now (some rows) h in
        let same : parts.rows ≡ rows = ok-injective (sym parts.readable ∙ readable) in
        check_targets-Free owner task_id targets (live rows now)
          (ap (λ r. check_targets owner task_id targets (live r now)) (sym same) ∙ parts.free)

    AllFree-granted :
        check_ttl ttl ≡ ok tt
        → is_empty targets ≡ false
        → distinct targets ≡ true
        → read valid (some rows) ≡ ok rows
        → validate valid (live rows now ++ created) ≡ ok (live rows now ++ created)
        → AllFree
        → acquire valid owner task_id targets ttl now (some rows) ≡ granted
    unfolding acquire
    AllFree-granted in_bounds some_targets unique readable writable free = rw in_bounds (
        rw some_targets (
          rw unique (
            rw readable (rw (Free-check_targets targets (live rows now) free) (rw writable refl)))))

    -- A well-formed acquisition on a readable store, whose claims would themselves be valid, is
    -- granted exactly when each target is free of the live claims of other holders; it then returns
    -- the new claims and writes them behind all the live ones.
    pub acquire-iff-free :
        check_ttl ttl ≡ ok tt
        → is_empty targets ≡ false
        → distinct targets ≡ true
        → read valid (some rows) ≡ ok rows
        → validate valid (live rows now ++ created) ≡ ok (live rows now ++ created)
        → (acquire valid owner task_id targets ttl now (some rows) ≡ granted) ↔ AllFree
    acquire-iff-free in_bounds some_targets unique readable writable =
        (granted-AllFree readable, AllFree-granted in_bounds some_targets unique readable writable)
