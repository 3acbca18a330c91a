-- ===== src/Control/Permits.antt =====
-- What a state lets pass: `_authorize`, `_verify_token`, the transitions of `_Transition` and the
-- permits of `_ClaimGuard`.
use idol_id_agents.Prelude.{
  ℕ, ◌+◌, Text, text, Bool, true, false, ◌||◌, not, List, [], ◌∷◌, ◌==◌, any, is_empty, length, ltb,
  leb, Option, none, some, Result, ok, err, refuse_if, ◌>>=◌, ◌>>◌, if◌then◌else◌,
}
use idol_id_agents.Model.Atoms.{member}
use idol_id_agents.Control.{
  ControlError, ControlState, ControlStatus, Mode, enabled, disabled, skew, status_for, valid_epoch,
  valid_subject_hash, lock_missing, dispatch_refused, draining_refuses_claims, permit_invalid,
  permit_not_authentic, permit_epoch, permit_generation, guard_closed, already_issued,
  epoch_missing, lease_over, unknown_boundary, permit_required, permit_not_accepted,
  attempt_id_invalid, subject_invalid,
}
use idol_id_agents.Control.Records.{Disk, Crypto, Key}
use idol_id_agents.Control.Files.{load_verified}

-- `AttemptPermit` without its `mac`.
pub record PermitPayload : Type 0 where
  pub schema : Text
  pub attempt_id : Text
  pub subject_hash : Text
  pub enable_epoch : Text
  pub issued_generation : ℕ
  pub issued_at : ℕ
  pub admission_expires_at : ℕ

pub record AttemptPermit : Type 0 where
  pub payload : PermitPayload
  pub mac : Text

abbrev pub token_schema : Text
token_schema = text "idol.fleet.attempt-permit.v2"

abbrev pub is_mode_disabled : Mode → Bool
is_mode_disabled disabled = true
is_mode_disabled _ = false

abbrev pub is_mode_enabled : Mode → Bool
is_mode_enabled enabled = true
is_mode_enabled _ = false

-- `state.enable_epoch if state.mode == "enabled" else state.drain_epoch`.
abbrev pub allowed_epoch : ControlState → Option Text
allowed_epoch s = if is_mode_enabled s.mode then s.enable_epoch else s.drain_epoch

abbrev pub is_epoch : Option Text → Text → Bool
is_epoch none t = false
is_epoch (some epoch) t = t == epoch

-- The set `BOUNDARIES`.
pub data Boundary : Type 0 where
  claim maintenance worktree process : Boundary

unfoldable pub boundary_of : Text → Option Boundary
unfolding ◌==◌
boundary_of t =
    if t == text "claim"
    then some claim
    else if t == text "maintenance"
    then some maintenance
    else if t == text "worktree"
    then some worktree
    else if t == text "process"
    then some process
    else none

-- `_ClaimGuard`.
pub record ClaimGuard : Type 0 where
  pub state : ControlState
  pub secret : Text
  pub active : Bool
  pub issued_ids : List Text

-- What entering a boundary gives.
pub data Entered : Type 0 where
  with_guard : ClaimGuard → Entered
  with_status : ControlStatus → Entered

-- The tests of `_Transition.__enter__` before its session.
unfoldable pub boundary_refusal :
    Option Boundary → Option AttemptPermit → Result ControlError Boundary
boundary_refusal none token = err unknown_boundary
boundary_refusal (some claim) token = ok claim
boundary_refusal (some maintenance) none = ok maintenance
boundary_refusal (some maintenance) (some t) = err permit_not_accepted
boundary_refusal (some worktree) none = err permit_required
boundary_refusal (some worktree) (some t) = ok worktree
boundary_refusal (some process) none = err permit_required
boundary_refusal (some process) (some t) = ok process

-- A claim without a permit enters with a guard, all else with the status.
unfoldable pub entered : Boundary → Option AttemptPermit → ControlState → Text → ℕ → Entered
unfolding status_for
entered claim none s secret now =
    with_guard (record { state = s; secret = secret; active = true; issued_ids = [] })
entered claim (some t) s secret now = with_status (status_for s now)
entered maintenance token s secret now = with_status (status_for s now)
entered worktree token s secret now = with_status (status_for s now)
entered process token s secret now = with_status (status_for s now)

abbrev pub load : Crypto → ℕ → Disk → Result ControlError (ControlState × Key)
load c most d = elim d.lock [ none ↦ err lock_missing | some lock ↦ load_verified c most lock d ]

-- The lease that a guard needs: the clock is not behind, and the lease is not over.
abbrev pub lease_refused : ControlState → ℕ → ℕ → Bool
lease_refused s expires now = ltb (now + skew) s.updated_at || leb expires now

abbrev pub permit_payload : Text → Text → Text → ℕ → ℕ → ℕ → PermitPayload
permit_payload id subject epoch generation now expires = record {
  schema = token_schema;
  attempt_id = id;
  subject_hash = subject;
  enable_epoch = epoch;
  issued_generation = generation;
  issued_at = now;
  admission_expires_at = expires;
}

-- HMAC-SHA-256 of a permit's payload under a secret.
module _ (mac_permit : Text → PermitPayload → Text) where
  -- `_verify_token`.
  unfoldable pub verify_token : AttemptPermit → Text → Result ControlError (Unit {0})
  unfolding ◌==◌ valid_subject_hash valid_epoch
  verify_token token secret = do
    let p = token.payload
    refuse_if (not (p.schema == token_schema)) permit_invalid
    refuse_if
        (is_empty p.attempt_id
          || not (valid_subject_hash p.subject_hash)
          || not (valid_epoch p.enable_epoch)
          || ltb p.issued_generation 1
          || leb p.admission_expires_at p.issued_at)
        permit_invalid
    refuse_if (not (token.mac == mac_permit secret p)) permit_not_authentic

  -- `_authorize` with a permit, behind the test of the status.
  unfoldable pub authorize_token :
      ControlState → Text → AttemptPermit → Result ControlError (Unit {0})
  unfolding verify_token ◌==◌
  authorize_token s secret token = do
    verify_token token secret
    refuse_if (not (is_epoch (allowed_epoch s) token.payload.enable_epoch)) permit_epoch
    refuse_if (ltb s.generation token.payload.issued_generation) permit_generation

  unfoldable pub authorize_claim : ControlState → ℕ → Result ControlError (Unit {0})
  unfolding status_for
  authorize_claim s now = do
    refuse_if (not (is_mode_enabled s.mode)) draining_refuses_claims
    refuse_if (not (status_for s now).permitted) dispatch_refused

  -- `_authorize`.
  unfoldable pub authorize :
      ControlState → Text → Option AttemptPermit → ℕ → Result ControlError (Unit {0})
  unfolding authorize_token authorize_claim status_for
  authorize s secret token now = do
    refuse_if (is_mode_disabled s.mode || not (status_for s now).integrity_valid) dispatch_refused
    elim token [ none ↦ authorize_claim s now | some t ↦ authorize_token s secret t ]

  module _ (c : Crypto) (most : ℕ) where
    -- `_Transition.__enter__`.
    unfoldable pub enter : Text → Option AttemptPermit → ℕ → Disk → Result ControlError Entered
    unfolding boundary_of boundary_refusal load_verified authorize entered
    enter boundary token now d = do
      b ← boundary_refusal (boundary_of boundary) token
      (s, key) ← load c most d
      authorize s key.secret token now
      ok (entered b token s key.secret now)

  abbrev pub sign : Text → PermitPayload → AttemptPermit
  sign secret p = record { payload = p; mac = mac_permit secret p }

  -- `issue_attempt_permit` behind its tests of the identifiers.
  unfoldable pub issue_in :
      ClaimGuard
      → Text
      → Text
      → ℕ
      → Option Text
      → Option ℕ
      → Result ControlError AttemptPermit × ClaimGuard
  issue_in g id subject now (some epoch) (some expires) =
      if lease_refused g.state expires now then (err lease_over, g) else (
        ok (sign g.secret (permit_payload id subject epoch g.state.generation now expires)),
        record g { issued_ids = id ∷ g.issued_ids },
      )
  issue_in g id subject now none expires = (err epoch_missing, g)
  issue_in g id subject now (some epoch) none = (err epoch_missing, g)

  -- `issue_attempt_permit`.
  unfoldable pub issue :
      ClaimGuard → Text → Text → ℕ → Result ControlError AttemptPermit × ClaimGuard
  unfolding issue_in valid_subject_hash member
  issue g id subject now =
      if not g.active
      then (err guard_closed, g)
      else if is_empty id || ltb 200 (length id) || any (λ ch. ltb ch 32) id
      then (err attempt_id_invalid, g)
      else if not (valid_subject_hash subject)
      then (err subject_invalid, g)
      else if member id g.issued_ids
      then (err already_issued, g)
      else issue_in g id subject now g.state.enable_epoch g.state.enable_expires_at

  -- `close`.
  abbrev pub close : ClaimGuard → ClaimGuard
  close g = record g { active = false }
