-- ===== src/Control.antt =====
-- fleet_control/control.py: the local switch that lets work be dispatched. Its state is one signed
-- record, bound to a lock file by an anchor that the lock holds. `Records` and `Files` have the three
-- files, `Mutations` has the four operations, `Permits` what a state and a permit allow.
pub mod Records
pub mod Files
pub mod Mutations
pub mod Permits
pub mod RoundTrip
pub mod Machine
pub mod Valid
pub mod Reached
pub mod Revoked
pub mod Issued
pub mod Stuck
use idol_id_agents.Prelude.{
  ℕ, ◌+◌, ◌*◌, Text, text, Bool, true, false, ◌&&◌, ◌||◌, not, List, [], ◌∷◌, ◌==◌, nat_eq, leb,
  all, length, Option, none, some, if◌then◌else◌,
}
use idol_id_agents.Strings.{is_hex}
use idol_id_agents.Model.{second}

pub data ControlError : Type 0 where
  -- `_ControlMissing` and `ControlIntegrityError`
  lock_missing file_missing invalid_record invalid_anchor unexpected_sibling : ControlError
  key_not_bound key_secret_length key_not_anchored state_not_anchored : ControlError
  state_not_authentic generation_invalid state_not_bound mode_invalid fields_invalid : ControlError
  -- `ControlRefusal`
  generation_changed clock_rollback already_enabled draining_first not_enabled : ControlError
  dispatch_refused draining_refuses_claims permit_invalid permit_not_authentic : ControlError
  permit_epoch permit_generation guard_closed already_issued epoch_missing lease_over : ControlError
  -- `ValueError`
  ttl_bounds expected_invalid unknown_boundary permit_required permit_not_accepted : ControlError
  attempt_id_invalid subject_invalid : ControlError

pub data Mode : Type 0 where
  enabled disabled draining : Mode

-- `_State`.
pub record ControlState : Type 0 where
  pub mode : Mode
  pub generation : ℕ
  pub updated_at : ℕ
  pub enable_expires_at : Option ℕ
  pub enable_epoch : Option Text
  pub drain_epoch : Option Text

-- The reasons of a status that the code gives to a state.
pub data StatusReason : Type 0 where
  rollback lease_expired lease_current : StatusReason
  off_as : Mode → StatusReason

-- `ControlStatus`, of a control that is there.
pub record ControlStatus : Type 0 where
  pub mode : Mode
  pub permitted : Bool
  pub reason : StatusReason
  pub generation : ℕ
  pub updated_at : ℕ
  pub enable_expires_at : Option ℕ
  pub integrity_valid : Bool

-- `MAX_CLOCK_SKEW_SECONDS`.
abbrev pub skew : ℕ
skew = 5 * second

abbrev pub is_fromhex_space : ℕ → Bool
is_fromhex_space c = nat_eq c 32 || (leb 9 c && leb c 13)

abbrev pub is_hex_digit : ℕ → Bool
is_hex_digit c =
    (leb b'0' c && leb c b'9') || (leb b'a' c && leb c b'f') || (leb b'A' c && leb c b'F')

-- `bytes.fromhex` does not raise: pairs of digits, with white space between the pairs.
unfoldable pub fromhex_ok : Text → Bool
fromhex_ok [] = true
fromhex_ok (c ∷ []) = is_fromhex_space c
fromhex_ok (c ∷ (d ∷ rest)) =
    let behind_space = fromhex_ok (d ∷ rest) in
    let behind_pair = fromhex_ok rest in
    if is_fromhex_space c then behind_space else is_hex_digit c && is_hex_digit d && behind_pair

-- `_valid_epoch`, and `_valid_digest`, which has the same body.
unfoldable pub valid_epoch : Text → Bool
unfolding fromhex_ok
valid_epoch value = nat_eq (length value) 64 && fromhex_ok value

-- `_valid_subject_hash`.
unfoldable pub valid_subject_hash : Text → Bool
unfolding is_hex
valid_subject_hash value = nat_eq (length value) 64 && all is_hex value

-- `_status_for`, at a time.
unfoldable pub status_for : ControlState → ℕ → ControlStatus
status_for s current =
    let base : ControlStatus = record {
      mode = s.mode;
      permitted = false;
      reason = off_as s.mode;
      generation = s.generation;
      updated_at = s.updated_at;
      enable_expires_at = s.enable_expires_at;
      integrity_valid = true;
    } in
    let leased : ControlStatus = elim s.enable_expires_at [
      | none ↦ base
      | some expires ↦
          if leb expires current
          then record base { reason = lease_expired }
          else record base { permitted = true; reason = lease_current }
    ] in
    if not (leb s.updated_at (current + skew))
    then record base { reason = rollback; integrity_valid = false }
    else elim s.mode [ enabled ↦ leased | disabled ↦ base | draining ↦ base ]
