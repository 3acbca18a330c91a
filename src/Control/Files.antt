-- ===== src/Control/Files.antt =====
-- The checks of the key and of the state, and the writes of the state and of a new key.
use idol_id_agents.Prelude.{
  ℕ, Text, ◌&&◌, ◌||◌, not, ◌==◌, nat_eq, ltb, length, some, Result, ok, err, refuse_if, ◌>>=◌,
  ◌>>◌,
}
use idol_id_agents.Control.{
  ControlError, ControlState, invalid_record, unexpected_sibling, key_not_bound, key_secret_length,
  key_not_anchored, state_not_anchored, state_not_authentic, generation_invalid, state_not_bound,
  mode_invalid, fields_invalid,
}
use idol_id_agents.Control.Records.{
  Anchor, Crypto, Disk, FileId, Key, KeyRecord, Named, StatePayload, StateRecord, anchor_schema,
  check_anchor, fields_ok, holds, is_at, key_schema, missing, mode_of, mode_text, read_named,
  require, state_schema, unreadable,
}

module _ (c : Crypto) where
  -- `_read_key`.
  unfoldable pub read_key : FileId → Anchor → Named KeyRecord → Result ControlError Key
  unfolding ◌==◌
  read_key lock a file = do
    (id, k) ← read_named file
    refuse_if (not (k.schema == key_schema)) invalid_record
    refuse_if (not (is_at lock k.lock_device k.lock_inode)) key_not_bound
    refuse_if (not (nat_eq (length k.secret) 32)) key_secret_length
    refuse_if (not (is_at id a.key_device a.key_inode && (a.key_sha256 == c.sha_key k)))
        key_not_anchored
    ok (record { secret = k.secret; id = id; digest = c.sha_key k })

  -- The checks of the state record, from its payload's schema on.
  unfoldable pub check_state :
      ℕ → Anchor → Key → FileId → StateRecord → Result ControlError ControlState
  unfolding ◌==◌ mode_of fields_ok
  check_state most a key id r = do
    let p = r.payload
    refuse_if (not (p.schema == state_schema)) invalid_record
    refuse_if (not (r.mac == c.mac_state key.secret p)) state_not_authentic
    refuse_if (ltb p.generation 1 || not (nat_eq p.generation a.generation)) generation_invalid
    refuse_if (not (is_at id p.state_device p.state_inode)) state_not_bound
    mode ← require (mode_of p.mode) mode_invalid
    refuse_if (not (fields_ok most mode p)) fields_invalid
    ok (record {
      mode = mode;
      generation = p.generation;
      updated_at = p.updated_at;
      enable_expires_at = p.enable_expires_at;
      enable_epoch = p.enable_epoch;
      drain_epoch = p.drain_epoch;
    })

  -- `_load_verified` from the state file on.
  unfoldable pub load_state :
      ℕ → Anchor → Key → FileId → StateRecord → Result ControlError (ControlState × Key)
  load_state most a key id r = do
    refuse_if (not (is_at id a.state_device a.state_inode && (a.state_sha256 == c.sha_state r)))
        state_not_anchored
    state ← check_state most a key id r
    ok (state, key)

  -- `_load_verified` in a session, whose lock is there.
  unfoldable pub load_verified : ℕ → FileId → Disk → Result ControlError (ControlState × Key)
  unfolding check_anchor read_key load_state check_state ◌==◌
  load_verified most lock d = do
    a ← check_anchor d.anchor
    key ← read_key lock a d.key
    (id, r) ← read_named d.state
    load_state most a key id r

  abbrev pub payload_of : ControlState → FileId → StatePayload
  payload_of s id = record {
    schema = state_schema;
    mode = mode_text s.mode;
    generation = s.generation;
    updated_at = s.updated_at;
    enable_expires_at = s.enable_expires_at;
    enable_epoch = s.enable_epoch;
    drain_epoch = s.drain_epoch;
    state_device = id.device;
    state_inode = id.inode;
  }

  -- The record that `_write_state` writes to a new file.
  abbrev pub record_of : ControlState → Key → FileId → StateRecord
  record_of s key id = record {
    payload = payload_of s id;
    mac = c.mac_state key.secret (payload_of s id);
  }

  -- `_write_state`: the new file takes the state's name, and the lock a new anchor.
  unfoldable pub write_state : ControlState → Key → FileId → Disk → Disk
  write_state s key id d = record d {
    state = holds id (record_of s key id);
    anchor = some (record {
      schema = anchor_schema;
      generation = s.generation;
      key_device = key.id.device;
      key_inode = key.id.inode;
      key_sha256 = key.digest;
      state_device = id.device;
      state_inode = id.inode;
      state_sha256 = c.sha_state (record_of s key id);
    });
  }

  -- `_create_key`, in a session whose lock is new.
  unfoldable pub create_key : FileId → FileId → Text → Disk → Result ControlError (Key × Disk)
  create_key lock id secret d =
      let k : KeyRecord = record {
        schema = key_schema;
        lock_device = lock.device;
        lock_inode = lock.inode;
        secret = secret;
      } in
      elim d.key [
        | missing ↦ elim d.state [
          | missing ↦ ok (
            record { secret = secret; id = id; digest = c.sha_key k },
            record d { key = holds id k },
          )
          | unreadable ↦ err unexpected_sibling
          | holds sid r ↦ err unexpected_sibling
        ]
        | unreadable ↦ err unexpected_sibling
        | holds kid r ↦ err unexpected_sibling
      ]
