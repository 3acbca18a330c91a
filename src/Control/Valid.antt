-- ===== src/Control/Valid.antt =====
-- A state that is loaded is valid, and so is the state that an operation makes of it.
use mathlib.Core.Path.{subst}
use idol_id_agents.Prelude.{
  ℕ, suc, ◌+◌, ◌-◌, ◌*◌, ◌≤◌, Text, true, false, ◌≡◌, refl, sym, ap, ◌∙◌, ◌&&◌, ◌||◌, not,
  not-false, and_true, nat_eq, ◌==◌, ltb, leb, Option, none, some, ok, refuse_if-ok, >>=-ok, >>-ok,
  ok-injective, arith,
}
use idol_id_agents.Model.{second}
use idol_id_agents.Control.{
  ControlError, ControlState, Mode, enabled, disabled, draining, valid_epoch,
}
use idol_id_agents.Control.Records.{
  is_at, state_schema, FileId, Disk, Crypto, Key, StatePayload, StateRecord, Anchor, fields_ok,
  lease_ok, epoch_ok, is_absent, check_anchor, read_named, mode_of, require,
}
use idol_id_agents.Control.Files.{payload_of, check_state, load_state, read_key, load_verified}
use idol_id_agents.Control.Mutations.{
  Operation, enable, refresh, drain, disable, ttl_ok, generation_of, drained_epoch, on_state,
  off_state, enable_refusal, refresh_epoch, next_state,
}
use idol_id_agents.Control.RoundTrip.{IsBound, IsValid, check_anchor-IsAnchor, read_key-IsBound}
use idol_id_agents.Control.Machine.{refresh-on, position, on}

module _ (c : Crypto) (most : ℕ) where
  -- The fields that a mode admits do not depend on the file.
  fields_ok-payload :
      (m : Mode) (p : StatePayload) (id : FileId)
      → fields_ok most m p
        ≡ fields_ok most m (
            payload_of c
              (record {
                mode = m;
                generation = p.generation;
                updated_at = p.updated_at;
                enable_expires_at = p.enable_expires_at;
                enable_epoch = p.enable_epoch;
                drain_epoch = p.drain_epoch;
              })
              id)
  unfolding fields_ok
  fields_ok-payload enabled p id = refl
  fields_ok-payload disabled p id = refl
  fields_ok-payload draining p id = refl

  check_state-IsValid :
      (a : Anchor) (key : Key) (id : FileId) (r : StateRecord) {s : ControlState}
      → check_state c most a key id r ≡ ok s
      → IsValid c most s
  unfolding check_state
  check_state-IsValid a key id r {s} h =
      let p = r.payload in
      let (schema, h₁) =
        refuse_if-ok (not (p.schema == state_schema)) ControlError.invalid_record _ h in
      let (authentic, h₂) =
        refuse_if-ok (not (r.mac == c.mac_state key.secret p)) ControlError.state_not_authentic _
          h₁ in
      let (counted, h₃) =
        refuse_if-ok (ltb p.generation 1 || not (nat_eq p.generation a.generation))
          ControlError.generation_invalid _ h₂ in
      let (bound, h₄) =
        refuse_if-ok (not (is_at id p.state_device p.state_inode)) ControlError.state_not_bound _
          h₃ in
      let (mode, found, h₅) =
        >>=-ok (require (mode_of r.payload.mode) ControlError.mode_invalid) _ h₄ in
      let (fields, same) = refuse_if-ok _ _ _ h₅ in
      let at_least : 1 ≤ r.payload.generation = positive _ _ counted in
      subst (IsValid c most) (ok-injective same) (record {
        generation = at_least;
        fields = λ other. sym (fields_ok-payload mode r.payload other) ∙ not-false _ fields;
      })
    where
      positive : (n m : ℕ) → (ltb n 1 || not (nat_eq n m)) ≡ false → 1 ≤ n
      positive n m e = ground arith

  -- What a control that loads is made of.
  pub record IsLoaded (lock : FileId) (d : Disk) (s : ControlState) (key : Key) : Type 0 where
    pub valid : IsValid c most s
    pub bound : IsBound c lock key d.key

  load_state-IsValid :
      (a : Anchor) (key : Key) (id : FileId) (r : StateRecord) {s : ControlState} {k : Key}
      → load_state c most a key id r ≡ ok (s, k)
      → IsValid c most s × (key ≡ k)
  unfolding load_state
  load_state-IsValid a key id r h =
      let (anchored, h₁) = refuse_if-ok _ _ _ h in
      let (state, checked, same) = >>=-ok (check_state c most a key id r) _ h₁ in
      let pair = ok-injective same in
      (
        subst (IsValid c most) (ap (λ p. p.0) pair) (check_state-IsValid a key id r checked),
        ap (λ p. p.1) pair,
      )

  pub load_verified-IsLoaded :
      (lock : FileId) (d : Disk) {s : ControlState} {key : Key}
      → load_verified c most lock d ≡ ok (s, key)
      → IsLoaded lock d s key
  unfolding load_verified
  load_verified-IsLoaded lock d {s} {key} h =
      let (a, anchor, h₁) = >>=-ok (check_anchor d.anchor) _ h in
      let (k, keyed, h₂) = >>=-ok (read_key c lock a d.key) _ h₁ in
      let (file, found, h₃) = >>=-ok (read_named d.state) _ h₂ in
      let (valid, same) = load_state-IsValid a k file.0 file.1 h₃ in
      record {
        valid = valid;
        bound =
            subst (λ t. IsBound c lock t d.key) same
              (read_key-IsBound c lock a d.key keyed (check_anchor-IsAnchor c d.anchor anchor));
      }

  -- A state before an operation, if there is one, is valid.
  abbrev pub IsValidOption : Option ControlState → Type 0
  IsValidOption none = Unit
  IsValidOption (some s) = IsValid c most s

  lease-fits :
      (now ttl : ℕ)
      → (leb 30 ttl && leb ttl most) ≡ true
      → lease_ok most now (some (now + ttl * second)) ≡ true
  lease-fits now ttl h =
      let low : 30 ≤ ttl = ground arith in
      let high : ttl ≤ most = ground arith in
      let starts : ltb now (now + ttl * second) ≡ true = ground arith in
      let ends : leb (now + ttl * second - now) (most * second) ≡ true = ground arith in
      ground (arith, starts, ends)

  on_state-IsValid :
      (g now ttl : ℕ) (epoch : Text)
      → (leb 30 ttl && leb ttl most) ≡ true
      → valid_epoch epoch ≡ true
      → IsValid c most (on_state (suc g) now ttl (some epoch))
  unfolding fields_ok
  on_state-IsValid g now ttl epoch fits h = record {
    generation = omega arith;
    fields = λ id. rw (lease-fits now ttl fits, h) refl;
  }

  -- The epochs of a valid state have the form of an epoch.
  enabled-epoch :
      (m : Mode) (s : ControlState) (id : FileId) (epoch : Text)
      → fields_ok most m (payload_of c s id) ≡ true
      → position (some (record s { mode = m })) ≡ on (some epoch)
      → valid_epoch epoch ≡ true
  unfolding fields_ok
  enabled-epoch enabled s id epoch h e =
      let found : s.enable_epoch ≡ some epoch = cc in
      let ok_epoch = (and_true _ _ (and_true _ _ h).0).1 in
      subst (λ o. epoch_ok o ≡ true) found ok_epoch
  enabled-epoch disabled s id epoch h e = cc
  enabled-epoch draining s id epoch h e = cc

  -- What a drained control keeps is an epoch, or nothing.
  abbrev pub IsDrain : Option Text → Type 0
  IsDrain epoch = (is_absent epoch || epoch_ok epoch) ≡ true

  drained-IsDrain :
      (m : Mode) (s : ControlState) (id : FileId)
      → fields_ok most m (payload_of c s id) ≡ true
      → IsDrain (elim m [ enabled ↦ s.enable_epoch | draining ↦ s.drain_epoch | disabled ↦ none ])
  unfolding fields_ok
  drained-IsDrain enabled s id h = ground arith
  drained-IsDrain disabled s id h = refl
  drained-IsDrain draining s id h = (and_true _ _ h).1

  off_state-IsValid :
      (g now : ℕ) (epoch : Option Text)
      → IsDrain epoch
      → IsValid c most (off_state draining (suc g) now epoch)
  unfolding fields_ok
  off_state-IsValid g now epoch h = record { generation = omega arith; fields = λ id. h }

  drained_epoch-IsDrain :
      (previous : Option ControlState) → IsValidOption previous → IsDrain (drained_epoch previous)
  drained_epoch-IsDrain none v = refl
  drained_epoch-IsDrain (some s) v =
      drained-IsDrain s.mode s (record { device = 1; inode = 1 })
        (v.fields (record { device = 1; inode = 1 }))

  -- An operation within its bounds makes a valid state of a valid one.
  pub next_state-IsValid :
      (op : Operation) (fresh : Text) (now : ℕ) (previous : Option ControlState) {s : ControlState}
      → ttl_ok most op ≡ true
      → valid_epoch fresh ≡ true
      → IsValidOption previous
      → next_state op fresh now previous ≡ ok s
      → IsValid c most s
  unfolding next_state ttl_ok refresh_epoch
  next_state-IsValid (enable ttl) fresh now previous fits epoch v h =
      let (free, same) = >>-ok (enable_refusal now previous) _ h in
      subst (IsValid c most) (ok-injective same)
        (on_state-IsValid (generation_of previous) now ttl fresh fits epoch)
  next_state-IsValid (refresh ttl) fresh now none fits epoch v h = cc
  next_state-IsValid (refresh ttl) fresh now (some s) fits epoch v h =
      let (kept, found, same) = >>=-ok (refresh_epoch now (some s)) _ h in
      let here : FileId = record { device = 1; inode = 1 } in
      subst (IsValid c most) (ok-injective same) (
        on_state-IsValid s.generation now ttl kept fits
          (enabled-epoch s.mode s here kept (v.fields here) (refresh-on now (some s) found)))
  next_state-IsValid drain fresh now previous fits epoch v h =
      subst (IsValid c most) (ok-injective h) (
        off_state-IsValid (generation_of previous) now (drained_epoch previous)
          (drained_epoch-IsDrain previous v))
  next_state-IsValid disable fresh now previous fits epoch v h =
      subst (IsValid c most) (ok-injective h) off_valid
    where
      off_valid : IsValid c most (off_state disabled (suc (generation_of previous)) now none)
      off_valid = record { generation = omega arith; fields = λ id. unfold fields_ok in refl }
