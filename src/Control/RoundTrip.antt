-- ===== src/Control/RoundTrip.antt =====
-- A state that is written under a key of the control is the state that is read back.
use mathlib.Core.Path.{subst}
use idol_id_agents.Prelude.{
  ℕ, ◌≤◌, true, false, ◌≡◌, refl, ◌&&◌, ◌||◌, not, not-false, and_true, ◌==◌, eq_iff, eq_refl,
  nat_eq, ltb, length, Option, none, some, ok, refuse_if-ok, ok-injective, arith,
}
use idol_id_agents.Control.{ControlState, Mode, enabled, disabled, draining, valid_epoch}
use idol_id_agents.Control.Records.{
  FileId, Named, missing, unreadable, holds, KeyRecord, StateRecord, Anchor, Disk, Crypto, Key,
  check_anchor, is_at, anchor_schema, key_schema, mode_of, mode_text, fields_ok,
}
use idol_id_agents.Control.Files.{
  read_key, check_state, load_state, load_verified, write_state, payload_of, record_of,
}

is_at_self : (id : FileId) → is_at id id.device id.inode ≡ true
is_at_self id = ground arith

is_at-eq : (id : FileId) (d i : ℕ) → is_at id d i ≡ true → (d ≡ id.device) × (i ≡ id.inode)
is_at-eq id d i h = (ground arith, ground arith)

mode_of-text : (m : Mode) → mode_of (mode_text m) ≡ some m
unfolding mode_of ◌==◌
mode_of-text enabled = refl
mode_of-text disabled = refl
mode_of-text draining = refl

module _ (c : Crypto) where
  -- The digests have the form of a digest.
  pub record IsDigesting : Type 0 where
    pub key : (k : KeyRecord) → valid_epoch (c.sha_key k) ≡ true
    pub state : (r : StateRecord) → valid_epoch (c.sha_state r) ≡ true

  -- The key is the one that the control's files hold, whatever state the anchor names.
  pub record IsBound (lock : FileId) (key : Key) (file : Named KeyRecord) : Type 0 where
    pub reads :
        (a : Anchor)
        → is_at key.id a.key_device a.key_inode ≡ true
        → a.key_sha256 ≡ key.digest
        → read_key c lock a file ≡ ok key
    pub digest : valid_epoch key.digest ≡ true
    pub device : 1 ≤ key.id.device
    pub inode : 1 ≤ key.id.inode

  -- A key record of the lock, in a file, gives a key that reads back.
  pub record-reads :
      (lock id : FileId) (k : KeyRecord) (a : Anchor)
      → k.schema ≡ key_schema
      → is_at lock k.lock_device k.lock_inode ≡ true
      → length k.secret ≡ 32
      → is_at id a.key_device a.key_inode ≡ true
      → a.key_sha256 ≡ c.sha_key k
      → read_key c lock a (holds id k)
        ≡ ok (record { secret = k.secret; id = id; digest = c.sha_key k })
  unfolding read_key
  record-reads lock id k a schema bound len at digest =
      let named : (k.schema == key_schema) ≡ true = (eq_iff _ _).1 schema in
      let long : nat_eq (length k.secret) 32 ≡ true = ground arith in
      let same : (a.key_sha256 == c.sha_key k) ≡ true = (eq_iff _ _).1 digest in
      rw (named, bound, long, at, same) refl

  -- What the anchor's checks guarantee.
  pub record IsAnchor (a : Anchor) : Type 0 where
    pub schema : a.schema ≡ anchor_schema
    pub generation : 1 ≤ a.generation
    pub key_device : 1 ≤ a.key_device
    pub key_inode : 1 ≤ a.key_inode
    pub state_device : 1 ≤ a.state_device
    pub state_inode : 1 ≤ a.state_inode
    pub key_sha256 : valid_epoch a.key_sha256 ≡ true
    pub state_sha256 : valid_epoch a.state_sha256 ≡ true

  pub check_anchor-IsAnchor :
      (found : Option Anchor) {a : Anchor} → check_anchor found ≡ ok a → IsAnchor a
  unfolding check_anchor
  check_anchor-IsAnchor none h = cc
  check_anchor-IsAnchor (some b) {a} h =
      let (schema, h₁) = refuse_if-ok _ _ _ h in
      let (ints, h₂) = refuse_if-ok _ _ _ h₁ in
      let (hashes, h₃) = refuse_if-ok _ _ _ h₂ in
      let both = and_true _ _ (not-false _ hashes) in
      let read : IsAnchor b = record {
        schema = (eq_iff _ _).0 (not-false _ schema);
        generation = ground arith;
        key_device = ground arith;
        key_inode = ground arith;
        state_device = ground arith;
        state_inode = ground arith;
        key_sha256 = both.0;
        state_sha256 = both.1;
      } in
      subst IsAnchor (ok-injective h₃) read

  pub IsAnchor-check_anchor : (a : Anchor) → IsAnchor a → check_anchor (some a) ≡ ok a
  unfolding check_anchor
  IsAnchor-check_anchor a h =
      let named : (a.schema == anchor_schema) ≡ true = (eq_iff _ _).1 h.schema in
      let positive : (ltb a.generation 1
            || ltb a.key_device 1
            || ltb a.key_inode 1
            || ltb a.state_device 1
            || ltb a.state_inode 1)
          ≡ false =
        ground (arith, h.generation, h.key_device, h.key_inode, h.state_device, h.state_inode) in
      rw (named, positive, h.key_sha256, h.state_sha256) refl

  pub read_key-IsBound :
      (lock : FileId) (a : Anchor) (file : Named KeyRecord) {key : Key}
      → read_key c lock a file ≡ ok key
      → IsAnchor a
      → IsBound lock key file
  unfolding read_key
  read_key-IsBound lock a missing h anchor = cc
  read_key-IsBound lock a unreadable h anchor = cc
  read_key-IsBound lock a (holds id k) {key} h anchor =
      let (schema, h₁) = refuse_if-ok _ _ _ h in
      let (bound, h₂) = refuse_if-ok _ _ _ h₁ in
      let (len, h₃) = refuse_if-ok _ _ _ h₂ in
      let (match, h₄) = refuse_if-ok _ _ _ h₃ in
      let (at, sha) = and_true _ _ (not-false _ match) in
      let (device, inode) = is_at-eq id _ _ at in
      let digest : a.key_sha256 ≡ c.sha_key k = (eq_iff _ _).0 sha in
      subst (λ t. IsBound lock t (holds id k)) (ok-injective h₄)
        (record {
          reads = λ b there same.
              record-reads lock id k b ((eq_iff _ _).0 (not-false _ schema)) (not-false _ bound)
                (ground arith) there same;
          digest = rw (← digest) anchor.key_sha256;
          device = rw (← device) anchor.key_device;
          inode = rw (← inode) anchor.key_inode;
        })

  -- A state whose fields are those of its mode, with a positive generation.
  pub record IsValid (most : ℕ) (s : ControlState) : Type 0 where
    pub generation : 1 ≤ s.generation
    pub fields : (id : FileId) → fields_ok most s.mode (payload_of c s id) ≡ true

  pub check_state-record :
      (most : ℕ) (s : ControlState) (a : Anchor) (key : Key) (id : FileId)
      → IsValid most s
      → a.generation ≡ s.generation
      → check_state c most a key id (record_of c s key id) ≡ ok s
  unfolding check_state
  check_state-record most s a key id v same =
      let authentic = eq_refl (c.mac_state key.secret (payload_of c s id)) in
      let counted : (ltb s.generation 1 || not (nat_eq s.generation a.generation)) ≡ false =
        ground (arith, v.generation) in
      rw (authentic, counted, is_at_self id, mode_of-text s.mode, v.fields id) refl

  -- The anchor that is written with a state.
  abbrev pub anchor_of : ControlState → Key → FileId → Anchor
  anchor_of s key id = record {
    schema = anchor_schema;
    generation = s.generation;
    key_device = key.id.device;
    key_inode = key.id.inode;
    key_sha256 = key.digest;
    state_device = id.device;
    state_inode = id.inode;
    state_sha256 = c.sha_state (record_of c s key id);
  }

  load_state-record :
      (most : ℕ) (s : ControlState) (key : Key) (id : FileId)
      → IsValid most s
      → load_state c most (anchor_of s key id) key id (record_of c s key id) ≡ ok (s, key)
  unfolding load_state
  load_state-record most s key id v =
      let anchored : (is_at id id.device id.inode
            && (c.sha_state (record_of c s key id) == c.sha_state (record_of c s key id)))
          ≡ true =
        ground (arith, is_at_self id, eq_refl (c.sha_state (record_of c s key id))) in
      rw (anchored, check_state-record most s (anchor_of s key id) key id v refl) refl

  -- A valid state, written to a new file under the key of the control, is what is read back.
  pub load_verified-write_state :
      (most : ℕ) (lock id : FileId) (s : ControlState) (key : Key) (d : Disk)
      → IsDigesting
      → IsBound lock key d.key
      → IsValid most s
      → 1 ≤ id.device
      → 1 ≤ id.inode
      → load_verified c most lock (write_state c s key id d) ≡ ok (s, key)
  unfolding load_verified write_state
  load_verified-write_state most lock id s key d digests bound v device inode =
      let anchored : IsAnchor (anchor_of s key id) = record {
        schema = refl;
        generation = v.generation;
        key_device = bound.device;
        key_inode = bound.inode;
        state_device = device;
        state_inode = inode;
        key_sha256 = bound.digest;
        state_sha256 = digests.state _;
      } in
      let read : check_anchor (some (anchor_of s key id)) ≡ ok (anchor_of s key id) =
        IsAnchor-check_anchor (anchor_of s key id) anchored in
      let keyed : read_key c lock (anchor_of s key id) d.key ≡ ok key =
        bound.reads (anchor_of s key id) (is_at_self key.id) refl in
      rw (read, keyed) (load_state-record most s key id v)
