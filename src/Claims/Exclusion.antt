-- ===== src/Claims/Exclusion.antt =====
-- Any sequence of operations of any processes keeps the claims of different holders apart.
use mathlib.Core.Path.{subst}
use idol_id_agents.Prelude.{
  ℕ, Text, Bool, ◌≡◌, refl, sym, ap, ◌∙◌, List, ◌++◌, map, any, keep, not, is_empty, Pairwise,
  Pairwise-keep, some, Result, ok, err, >>=-ok, >>-ok, refuse_if-ok, ok-injective,
}
use idol_id_agents.Model.Atoms.{distinct}
use idol_id_agents.Claims.{
  Claim, ClaimError, Store, held_by, live, check_ttl, check_targets, claim_for, renewed, validate,
  read, list_claims, acquire, renew, release, after, duplicate_target, targets_required,
  lease_not_live,
}
use idol_id_agents.Claims.Disjoint.{
  Coexist, IsDisjoint, check_targets-Free, acquired-Pairwise, renewed-Pairwise, validate-same,
  read-Disjoint,
}

module _ (valid : Text → Bool) where
  -- The parts of an acquisition that succeeds.
  pub record IsAcquired (owner task_id : Text) (targets : List Text) (ttl now : ℕ) (store : Store)
      (created written : List Claim) : Type 0 where
    pub rows : List Claim
    pub readable : read valid store ≡ ok rows
    pub free : check_targets owner task_id targets (live rows now) ≡ ok tt
    pub made : created ≡ map (claim_for owner task_id ttl now) targets
    pub kept : written ≡ live rows now ++ map (claim_for owner task_id ttl now) targets

  pub acquire-parts :
      (owner task_id : Text) (targets : List Text) (ttl now : ℕ) (store : Store)
      {created written : List Claim}
      → acquire valid owner task_id targets ttl now store ≡ ok (created, written)
      → IsAcquired owner task_id targets ttl now store created written
  unfolding acquire
  acquire-parts owner task_id targets ttl now store h =
      let (_, h₁) = >>-ok (check_ttl ttl) _ h in
      let (_, h₂) = refuse_if-ok (is_empty targets) targets_required _ h₁ in
      let (_, h₃) = refuse_if-ok (not (distinct targets)) duplicate_target _ h₂ in
      let (rows, readable, h₄) = >>=-ok (read valid store) _ h₃ in
      let (free, h₅) = >>-ok (check_targets owner task_id targets (live rows now)) _ h₄ in
      let (all, valid_all, same) =
        >>=-ok (validate valid (live rows now ++ map (claim_for owner task_id ttl now) targets)) _
          h₅ in
      let whole =
        validate-same valid (live rows now ++ map (claim_for owner task_id ttl now) targets)
          valid_all in
      record {
        rows = rows;
        readable = readable;
        free = free;
        made = ap (λ p. p.0) (sym (ok-injective same));
        kept = ap (λ p. p.1) (sym (ok-injective same)) ∙ sym whole;
      }

  acquire-Disjoint :
      (owner task_id : Text) (targets : List Text) (ttl now : ℕ) (store : Store)
      {created written : List Claim}
      → IsDisjoint store
      → acquire valid owner task_id targets ttl now store ≡ ok (created, written)
      → IsDisjoint (some written)
  acquire-Disjoint owner task_id targets ttl now store d h =
      let parts = acquire-parts owner task_id targets ttl now store h in
      let old = Pairwise-keep Coexist _ parts.rows (read-Disjoint valid store parts.readable d) in
      subst (Pairwise Coexist) (sym parts.kept) (
        acquired-Pairwise owner task_id ttl now targets (live parts.rows now) old
          (check_targets-Free owner task_id targets (live parts.rows now) parts.free))

  list-Disjoint :
      (now : ℕ) (store : Store) {result written : List Claim}
      → IsDisjoint store
      → list_claims valid now store ≡ ok (result, written)
      → IsDisjoint (some written)
  unfolding list_claims
  list-Disjoint now store d h =
      let (rows, readable, h₁) = >>=-ok (read valid store) _ h in
      let (kept, checked, same) = >>=-ok (validate valid (live rows now)) _ h₁ in
      subst (Pairwise Coexist)
        (validate-same valid (live rows now) checked ∙ ap (λ p. p.1) (ok-injective same))
        (Pairwise-keep Coexist _ rows (read-Disjoint valid store readable d))

  renew-Disjoint :
      (owner task_id : Text) (ttl now : ℕ) (store : Store) {result written : List Claim}
      → IsDisjoint store
      → renew valid owner task_id ttl now store ≡ ok (result, written)
      → IsDisjoint (some written)
  unfolding renew
  renew-Disjoint owner task_id ttl now store d h =
      let (_, h₁) = >>-ok (check_ttl ttl) _ h in
      let (rows, readable, h₂) = >>=-ok (read valid store) _ h₁ in
      let (_, h₃) =
        refuse_if-ok (not (any (held_by owner task_id) (live rows now))) lease_not_live _ h₂ in
      let (kept, checked, same) =
        >>=-ok (validate valid (map (renewed owner task_id ttl now) (live rows now))) _ h₃ in
      subst (Pairwise Coexist) (validate-same valid _ checked ∙ ap (λ p. p.1) (ok-injective same)) (
        renewed-Pairwise owner task_id ttl now (live rows now)
          (Pairwise-keep Coexist _ rows (read-Disjoint valid store readable d)))

  release-Disjoint :
      (owner task_id : Text) (store : Store) {written : List Claim}
      → IsDisjoint store
      → release valid owner task_id store ≡ ok (tt, written)
      → IsDisjoint (some written)
  unfolding release
  release-Disjoint owner task_id store d h =
      let (rows, readable, h₁) = >>=-ok (read valid store) _ h in
      let (kept, checked, same) =
        >>=-ok (validate valid (keep (λ row. not (held_by owner task_id row)) rows)) _ h₁ in
      subst (Pairwise Coexist) (validate-same valid _ checked ∙ ap (λ p. p.1) (ok-injective same))
        (Pairwise-keep Coexist _ rows (read-Disjoint valid store readable d))

  after-Disjoint :
      {A : Type 0} (store : Store) (r : Result ClaimError (A × List Claim))
      → IsDisjoint store
      → ((a : A) (rows : List Claim) → r ≡ ok (a, rows) → IsDisjoint (some rows))
      → IsDisjoint (after store r)
  after-Disjoint store (ok (a, rows)) d h = h a rows refl
  after-Disjoint store (err e) d h = d

  -- One operation of some process at some time, whether it returns or raises. The file lock makes
  -- each one atomic; the clock may go backwards between two of them.
  pub data Step (s : Store) : Store → Type 0 where
    lists : (now : ℕ) → Step s (after s (list_claims valid now s))
    acquires :
        (owner task_id : Text) (targets : List Text) (ttl now : ℕ)
        → Step s (after s (acquire valid owner task_id targets ttl now s))
    renews :
        (owner task_id : Text) (ttl now : ℕ)
        → Step s (after s (renew valid owner task_id ttl now s))
    releases : (owner task_id : Text) → Step s (after s (release valid owner task_id s))

  pub data Reach (s : Store) : Store → Type 0 where
    here : Reach s s
    next : {t u : Store} → Reach s t → Step t u → Reach s u

  Step-Disjoint : {s t : Store} → Step s t → IsDisjoint s → IsDisjoint t
  Step-Disjoint {s} (lists now) d =
      after-Disjoint s (list_claims valid now s) d (λ a rows e. list-Disjoint now s d e)
  Step-Disjoint {s} (acquires owner task_id targets ttl now) d =
      after-Disjoint s (acquire valid owner task_id targets ttl now s) d
        (λ a rows e. acquire-Disjoint owner task_id targets ttl now s d e)
  Step-Disjoint {s} (renews owner task_id ttl now) d =
      after-Disjoint s (renew valid owner task_id ttl now s) d
        (λ a rows e. renew-Disjoint owner task_id ttl now s d e)
  Step-Disjoint {s} (releases owner task_id) d =
      after-Disjoint s (release valid owner task_id s) d
        (λ a rows e. release-Disjoint owner task_id s d e)

  -- Whatever operations run on a store, in any order and at any times, if its claims of different
  -- holders do not overlap at the start, then those in the store that they reach do not overlap.
  pub Reach-exclusive : {s t : Store} → Reach s t → IsDisjoint s → IsDisjoint t
  Reach-exclusive here d = d
  Reach-exclusive (next r step) d = Step-Disjoint step (Reach-exclusive r d)
