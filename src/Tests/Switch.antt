-- ===== src/Tests/Switch.antt =====
-- A control that is enabled at second 1 for a minute, and a permit of its epoch.
use idol_id_agents.Prelude.{
  ℕ, Text, text, true, ◌≡◌, ◌≢◌, refl, arith, none, some, ok, err, [], ◌∷◌, ◌*◌, ◌==◌, false≢true,
  ap,
}
use mathlib.Core.Path.{subst}
use idol_id_agents.Model.{second}
use idol_id_agents.Control.{
  ControlError, ControlState, enabled, disabled, draining, valid_epoch, valid_subject_hash,
  status_for,
}
use idol_id_agents.Control.Records.{
  FileId, Disk, Crypto, Key, KeyRecord, Anchor, missing, holds, key_schema, is_at,
}
use idol_id_agents.Control.Files.{load_verified, write_state}
use idol_id_agents.Control.Mutations.{
  enable, refresh, drain, disable, Fresh, on_state, off_state, mutate,
}
use idol_id_agents.Control.Permits.{
  AttemptPermit, PermitPayload, ClaimGuard, Entered, permit_payload, sign, enter, issue, authorize,
}
use idol_id_agents.Control.RoundTrip.{
  IsDigesting, IsBound, IsValid, record-reads, load_verified-write_state,
}
use idol_id_agents.Control.Reached.{IsFresh, IsLive, Acts, mutate-refines}
use idol_id_agents.Control.Revoked.{here, next, IsLeft, Reach-refuses}
use idol_id_agents.Control.Issued.{issue-authorize}
use idol_id_agents.Control.Stuck.{no_control, refresh-sticks}

abbrev digest : Text
digest = text "0123456789abcdef0123456789abcdef0123456789abcdef0123456789abcdef"

abbrev other_epoch : Text
other_epoch = text "fedcba9876543210fedcba9876543210fedcba9876543210fedcba9876543210"

abbrev crypto : Crypto
crypto = record { sha_key = λ k. digest; sha_state = λ r. digest; mac_state = λ secret p. secret }

abbrev mac_permit : Text → PermitPayload → Text
mac_permit secret p = secret

abbrev file : ℕ → FileId
file inode = record { device = 1; inode = inode }

abbrev secret : Text
secret = text "0123456789abcdef0123456789abcdef"

abbrev fresh_at : ℕ → Text → Fresh
fresh_at n epoch = record {
  lock = file 1;
  key = file 2;
  state = file n;
  secret = secret;
  epoch = epoch;
}

abbrev key_record : KeyRecord
key_record = record { schema = key_schema; lock_device = 1; lock_inode = 1; secret = secret }

abbrev key : Key
key = record { secret = secret; id = file 2; digest = digest }

abbrev keyed : Disk
keyed = record {
  lock = some (file 1);
  anchor = none;
  key = holds (file 2) key_record;
  state = missing;
}

abbrev is_on : ControlState
is_on = on_state 1 second 60 (some digest)

abbrev is_off : ControlState
is_off = off_state disabled 2 (2 * second) none

digest_ok : valid_epoch digest ≡ true
unfolding valid_epoch
digest_ok = refl

other_epoch_ok : valid_epoch other_epoch ≡ true
unfolding valid_epoch
other_epoch_ok = refl

crypto-IsDigesting : IsDigesting crypto
crypto-IsDigesting = record { key = λ k. digest_ok; state = λ r. digest_ok }

key-IsBound : IsBound crypto (file 1) key keyed.key
key-IsBound = record {
  reads = λ a at same. record-reads crypto (file 1) (file 2) key_record a refl refl refl at same;
  digest = digest_ok;
  device = omega arith;
  inode = omega arith;
}

is_on-IsValid : IsValid crypto 3600 is_on
unfolding idol_id_agents.Control.Records.fields_ok valid_epoch
is_on-IsValid = record { generation = omega arith; fields = λ id. refl }

is_off-IsValid : IsValid crypto 3600 is_off
unfolding idol_id_agents.Control.Records.fields_ok
is_off-IsValid = record { generation = omega arith; fields = λ id. refl }

load_verified-write_state_example :
    load_verified crypto 3600 (file 1) (write_state crypto is_on key (file 3) keyed)
    ≡ ok (is_on, key)
load_verified-write_state_example =
    load_verified-write_state crypto 3600 (file 1) (file 3) is_on key keyed crypto-IsDigesting
      key-IsBound is_on-IsValid (omega arith) (omega arith)

abbrev on_disk : Disk
on_disk = write_state crypto is_on key (file 3) keyed

abbrev off_disk : Disk
off_disk = write_state crypto is_off key (file 4) keyed

on_disk-IsLive : IsLive crypto 3600 crypto-IsDigesting (file 1) is_on key on_disk
unfolding write_state
on_disk-IsLive = record {
  locked = refl;
  loads =
      load_verified-write_state crypto 3600 (file 1) (file 3) is_on key keyed crypto-IsDigesting
        key-IsBound is_on-IsValid (omega arith) (omega arith);
}

off_disk-IsLive : IsLive crypto 3600 crypto-IsDigesting (file 1) is_off key off_disk
unfolding write_state
off_disk-IsLive = record {
  locked = refl;
  loads =
      load_verified-write_state crypto 3600 (file 1) (file 4) is_off key keyed crypto-IsDigesting
        key-IsBound is_off-IsValid (omega arith) (omega arith);
}

fresh_at-IsFresh : IsFresh (fresh_at 5 other_epoch)
fresh_at-IsFresh = record {
  key_device = omega arith;
  key_inode = omega arith;
  state_device = omega arith;
  state_inode = omega arith;
  secret = refl;
  epoch = other_epoch_ok;
}

mutate-refines_example :
    Acts crypto 3600 crypto-IsDigesting drain
      (fresh_at 5 other_epoch)
      (2 * second)
      (file 1)
      is_on
      key
      on_disk
      (mutate crypto 3600 drain (some 1) (2 * second) (fresh_at 5 other_epoch) on_disk)
mutate-refines_example =
    mutate-refines crypto 3600 crypto-IsDigesting drain (some 1) (2 * second)
      (fresh_at 5 other_epoch) (file 1) is_on key on_disk fresh_at-IsFresh on_disk-IsLive

abbrev token : AttemptPermit
token =
    sign mac_permit secret (permit_payload (text "attempt-1") digest digest 1 second (61 * second))

other_epoch-apart : other_epoch ≢ digest
unfolding ◌==◌
other_epoch-apart h = false≢true (ap (λ t. t == digest) h)

-- Enabled again after it was disabled.
abbrev again : Disk
again = (mutate crypto 3600 (enable 60) none (3 * second) (fresh_at 5 other_epoch) off_disk).1

off_disk-IsLeft : IsLeft mac_permit crypto 3600 crypto-IsDigesting digest off_disk
off_disk-IsLeft = record {
  lock = file 1;
  state = is_off;
  key = key;
  live = off_disk-IsLive;
  left = λ h. cc;
}

Reach-refuses_example :
    enter mac_permit crypto 3600 (text "worktree") (some token) (4 * second) again
    ≢ ok (Entered.with_status (status_for is_on (4 * second)))
Reach-refuses_example =
    Reach-refuses mac_permit crypto 3600 crypto-IsDigesting {d = off_disk} {e = again} token
      (text "worktree") (4 * second) (Entered.with_status (status_for is_on (4 * second)))
      (next (enable 60) none (3 * second) (fresh_at 5 other_epoch) here fresh_at-IsFresh
        other_epoch-apart)
      off_disk-IsLeft

digests_ok : (t : Text) → is_on.enable_epoch ≡ some t → valid_epoch t ≡ true
digests_ok t h = subst (λ k. valid_epoch k ≡ true) (cc) digest_ok

abbrev guard : ClaimGuard
guard = record { state = is_on; secret = secret; active = true; issued_ids = [] }

issued :
    issue mac_permit guard (text "attempt-1") digest second
    ≡ (ok token, record guard { issued_ids = text "attempt-1" ∷ [] })
unfolding issue
issued = refl

clock_ok : (status_for is_on (2 * second)).integrity_valid ≡ true
unfolding status_for
clock_ok = refl

issue-authorize_example : authorize mac_permit is_on secret (some token) (2 * second) ≡ ok tt
issue-authorize_example =
    issue-authorize mac_permit guard (record guard { issued_ids = text "attempt-1" ∷ [] })
      (text "attempt-1") digest second (2 * second) token is_on issued digests_ok (omega arith)
      (omega arith) refl clock_ok

minute_fits : idol_id_agents.Control.Mutations.ttl_ok 3600 (refresh 60) ≡ true
unfolding idol_id_agents.Control.Mutations.ttl_ok
minute_fits = refl

refresh-sticks_example :
    (e : ControlError) × (mutate crypto 3600
        (enable 60)
        none
        (2 * second)
        (fresh_at 5 other_epoch)
        (mutate crypto 3600 (refresh 60) none second (fresh_at 3 digest) no_control).1
      ≡ (err e, (mutate crypto 3600 (refresh 60) none second (fresh_at 3 digest) no_control).1))
refresh-sticks_example =
    refresh-sticks crypto 3600 60 none second (fresh_at 3 digest) (enable 60) none (2 * second)
      (fresh_at 5 other_epoch) minute_fits refl

-- Enabled, drained and disabled.
switched :
    load_verified crypto 3600
      (file 1)
      (mutate crypto 3600 disable
        (some 2)
        (3 * second)
        (fresh_at 5 digest)
        (mutate crypto 3600 drain none
          (2 * second)
          (fresh_at 4 digest)
          (mutate crypto 3600 (enable 60) none second (fresh_at 3 digest) no_control).1).1).1
    ≡ ok (off_state disabled 3 (3 * second) none, key)
unfolding mutate load_verified
switched = refl
