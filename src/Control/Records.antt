-- ===== src/Control/Records.antt =====
-- The three files of a control: the lock with its anchor, the key and the state. A file that holds no
-- JSON object of the fields below, or is no private regular file, is `unreadable`.
use idol_id_agents.Prelude.{
  ℕ, ◌-◌, ◌*◌, Text, text, Bool, true, false, ◌&&◌, ◌||◌, not, ◌==◌, nat_eq, ltb, leb, Option, none,
  some, Result, ok, err, refuse_if, ◌>>◌, if◌then◌else◌,
}
use idol_id_agents.Model.{second}
use idol_id_agents.Control.{
  ControlError, Mode, enabled, disabled, draining, valid_epoch, file_missing, invalid_record,
  invalid_anchor,
}

-- Device and inode.
pub record FileId : Type 0 where
  pub device : ℕ
  pub inode : ℕ

pub data Named (A : Type 0) : Type 0 where
  missing unreadable : Named A
  holds : FileId → A → Named A

-- `secret` is what the base64 text decodes to, if it does.
pub record KeyRecord : Type 0 where
  pub schema : Text
  pub lock_device : ℕ
  pub lock_inode : ℕ
  pub secret : Text

-- The state record without its `mac`.
pub record StatePayload : Type 0 where
  pub schema : Text
  pub mode : Text
  pub generation : ℕ
  pub updated_at : ℕ
  pub enable_expires_at : Option ℕ
  pub enable_epoch : Option Text
  pub drain_epoch : Option Text
  pub state_device : ℕ
  pub state_inode : ℕ

pub record StateRecord : Type 0 where
  pub payload : StatePayload
  pub mac : Text

pub record Anchor : Type 0 where
  pub schema : Text
  pub generation : ℕ
  pub key_device : ℕ
  pub key_inode : ℕ
  pub key_sha256 : Text
  pub state_device : ℕ
  pub state_inode : ℕ
  pub state_sha256 : Text

-- The lock file has an identity; its content is an anchor, or nothing that reads as one.
pub record Disk : Type 0 where
  pub lock : Option FileId
  pub anchor : Option Anchor
  pub key : Named KeyRecord
  pub state : Named StateRecord

-- SHA-256 of the bytes of a record, and HMAC-SHA-256 of a payload under a secret.
pub record Crypto : Type 0 where
  pub sha_key : KeyRecord → Text
  pub sha_state : StateRecord → Text
  pub mac_state : Text → StatePayload → Text

-- `_Key`.
pub record Key : Type 0 where
  pub secret : Text
  pub id : FileId
  pub digest : Text

abbrev pub state_schema : Text
state_schema = text "idol.fleet.control.v1"

abbrev pub key_schema : Text
key_schema = text "idol.fleet.control-key.v1"

abbrev pub anchor_schema : Text
anchor_schema = text "idol.fleet.control-anchor.v1"

abbrev pub mode_text : Mode → Text
mode_text enabled = text "enabled"
mode_text disabled = text "disabled"
mode_text draining = text "draining"

-- `mode not in ("enabled", "disabled", "draining")`.
unfoldable pub mode_of : Text → Option Mode
unfolding ◌==◌
mode_of t =
    if t == text "enabled"
    then some enabled
    else if t == text "disabled"
    then some disabled
    else if t == text "draining"
    then some draining
    else none

-- `_read_anchor`.
unfoldable pub check_anchor : Option Anchor → Result ControlError Anchor
unfolding ◌==◌ valid_epoch
check_anchor none = err invalid_record
check_anchor (some a) = do
  refuse_if (not (a.schema == anchor_schema)) invalid_anchor
  refuse_if
      (ltb a.generation 1
        || ltb a.key_device 1
        || ltb a.key_inode 1
        || ltb a.state_device 1
        || ltb a.state_inode 1)
      invalid_anchor
  refuse_if (not (valid_epoch a.key_sha256 && valid_epoch a.state_sha256)) invalid_anchor
  ok a

-- `_read_named`.
abbrev pub read_named : {A : Type 0} → Named A → Result ControlError (FileId × A)
read_named missing = err file_missing
read_named unreadable = err invalid_record
read_named (holds id value) = ok (id, value)

abbrev pub is_at : FileId → ℕ → ℕ → Bool
is_at id device inode = nat_eq device id.device && nat_eq inode id.inode

-- The lease of an enabled state: it is over after the update, by at most `most` seconds.
abbrev pub lease_ok : ℕ → ℕ → Option ℕ → Bool
lease_ok most updated_at none = false
lease_ok most updated_at (some expires) =
    ltb updated_at expires && leb (expires - updated_at) (most * second)

abbrev pub epoch_ok : Option Text → Bool
epoch_ok none = false
epoch_ok (some epoch) = valid_epoch epoch

abbrev pub is_absent : {A : Type 0} → Option A → Bool
is_absent none = true
is_absent (some a) = false

-- The fields that each mode admits.
unfoldable pub fields_ok : ℕ → Mode → StatePayload → Bool
unfolding valid_epoch
fields_ok most enabled p =
    lease_ok most p.updated_at p.enable_expires_at
    && epoch_ok p.enable_epoch
    && is_absent p.drain_epoch
fields_ok most disabled p =
    is_absent p.enable_expires_at && is_absent p.enable_epoch && is_absent p.drain_epoch
fields_ok most draining p =
    is_absent p.enable_expires_at
    && is_absent p.enable_epoch
    && (is_absent p.drain_epoch || epoch_ok p.drain_epoch)

abbrev pub require : {A : Type 0} → Option A → ControlError → Result ControlError A
require none e = err e
require (some a) e = ok a
