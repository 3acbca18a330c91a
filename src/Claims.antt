-- ===== src/Claims.antt =====
-- fleet_control/claims.py, `SemanticClaimStore`: leases on semantic targets in one file, each
-- operation under the file lock. `valid_target` is the store's `target_validator`. A store is what
-- its file holds, `none` if that cannot be read as a list of claims; an operation returns what the
-- method returns and the rows that it writes, and one that raises writes nothing.
pub mod Disjoint
pub mod Exclusion
pub mod Leases
use idol_id_agents.Prelude.{
  ℕ, ◌+◌, ◌*◌, Text, Bool, true, false, ◌&&◌, ◌||◌, not, List, [], ◌∷◌, ◌++◌, map, all, any, keep,
  ◌==◌, is_empty, ltb, leb, Option, none, some, Result, ok, err, ◌>>=◌, ◌>>◌, refuse_if,
  if◌then◌else◌,
}
use idol_id_agents.Strings.{strip}
use idol_id_agents.Overlap.{semantic_overlap}
use idol_id_agents.Model.{second}
use idol_id_agents.Model.Atoms.{distinct}

pub record Claim : Type 0 where
  pub owner : Text
  pub task_id : Text
  pub target : Text
  pub acquired_at : ℕ
  pub expires_at : ℕ

pub data ClaimError : Type 0 where
  ttl_bounds targets_required duplicate_target store_unreadable store_invalid : ClaimError
  overlaps_live : Text → Text → ClaimError
  lease_not_live : ClaimError

abbrev pub Store : Type 0
Store = Option (List Claim)

-- `row.get("owner") == owner and row.get("task_id") == task_id`.
unfoldable pub held_by : Text → Text → Claim → Bool
unfolding ◌==◌
held_by owner task_id row = (row.owner == owner) && (row.task_id == task_id)

-- `_live`.
abbrev pub live : List Claim → ℕ → List Claim
live rows now = keep (λ row. ltb now row.expires_at) rows

unfoldable pub check_ttl : ℕ → Result ClaimError (Unit {0})
check_ttl ttl = refuse_if (not (leb 30 ttl && leb ttl 86400)) ttl_bounds

-- The first live claim of another holder that the target overlaps.
unfoldable pub overlapped : Text → Text → Text → List Claim → Option Text
unfolding held_by semantic_overlap
overlapped owner task_id target [] = none
overlapped owner task_id target (row ∷ rest) =
    let later = overlapped owner task_id target rest in
    if held_by owner task_id row
    then later
    else if semantic_overlap target row.target
    then some row.target
    else later

unfoldable pub check_targets : Text → Text → List Text → List Claim → Result ClaimError (Unit {0})
unfolding overlapped
check_targets owner task_id [] rows = ok tt
check_targets owner task_id (target ∷ rest) rows =
    let later = check_targets owner task_id rest rows in
    elim (overlapped owner task_id target rows) [
      | some other ↦ err (overlaps_live target other)
      | none ↦ later
    ]

abbrev pub claim_for : Text → Text → ℕ → ℕ → Text → Claim
claim_for owner task_id ttl now target = record {
  owner = owner;
  task_id = task_id;
  target = target;
  acquired_at = now;
  expires_at = now + ttl * second;
}

abbrev pub renewed : Text → Text → ℕ → ℕ → Claim → Claim
renewed owner task_id ttl now row =
    if held_by owner task_id row then record row { expires_at = now + ttl * second } else row

module _ (valid_target : Text → Bool) where
  abbrev pub valid_claim : Claim → Bool
  valid_claim row =
      not (is_empty (strip row.owner))
      && not (is_empty (strip row.task_id))
      && not (is_empty (strip row.target))
      && valid_target row.target
      && ltb row.acquired_at row.expires_at

  -- `_validate`.
  unfoldable pub validate : List Claim → Result ClaimError (List Claim)
  unfolding strip
  validate rows = if all valid_claim rows then ok rows else err store_invalid

  -- `_read`.
  unfoldable pub read : Store → Result ClaimError (List Claim)
  unfolding validate
  read none = err store_unreadable
  read (some rows) = validate rows

  -- `list`.
  unfoldable pub list_claims : ℕ → Store → Result ClaimError (List Claim × List Claim)
  unfolding read
  list_claims now store = do
    rows ← read store
    written ← validate (live rows now)
    ok (written, written)

  -- `acquire`.
  unfoldable pub acquire :
      Text → Text → List Text → ℕ → ℕ → Store → Result ClaimError (List Claim × List Claim)
  unfolding read check_ttl check_targets distinct
  acquire owner task_id targets ttl now store = do
    check_ttl ttl
    refuse_if (is_empty targets) targets_required
    refuse_if (not (distinct targets)) duplicate_target
    rows ← read store
    check_targets owner task_id targets (live rows now)
    let created = map (claim_for owner task_id ttl now) targets
    written ← validate (live rows now ++ created)
    ok (created, written)

  -- `renew`.
  unfoldable pub renew : Text → Text → ℕ → ℕ → Store → Result ClaimError (List Claim × List Claim)
  unfolding read check_ttl
  renew owner task_id ttl now store = do
    check_ttl ttl
    rows ← read store
    let updated = map (renewed owner task_id ttl now) (live rows now)
    refuse_if (not (any (held_by owner task_id) (live rows now))) lease_not_live
    written ← validate updated
    ok (keep (held_by owner task_id) updated, written)

  -- `release`.
  unfoldable pub release : Text → Text → Store → Result ClaimError (Unit {0} × List Claim)
  unfolding read
  release owner task_id store = do
    rows ← read store
    written ← validate (keep (λ row. not (held_by owner task_id row)) rows)
    ok (tt, written)

-- The file after an operation.
abbrev pub after : {A : Type 0} → Store → Result ClaimError (A × List Claim) → Store
after store (ok (result, rows)) = some rows
after store (err e) = store
