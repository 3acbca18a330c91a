-- ===== src/Control/Reached.antt =====
-- The operations on the files carry out the moves of the switch.
use mathlib.Core.Path.{subst}
use idol_id_agents.Prelude.{
  ℕ, suc, ◌≤◌, true, ◌≡◌, refl, sym, ap, ◌∙◌, length, Option, some, Result, ok, err, Bool-cases,
  inl, inr, ◌⊎◌,
}
use idol_id_agents.Control.{ControlError, ControlState, ControlStatus, valid_epoch, status_for}
use idol_id_agents.Control.Records.{FileId, Disk, Crypto, Key}
use idol_id_agents.Control.Files.{load_verified, write_state}
use idol_id_agents.Control.Mutations.{
  Operation, refresh, Fresh, ttl_ok, expected_ok, is_expected, next_state, verify_written,
  write_next, advance, advance_new, advance_loaded, in_session, mutate,
}
use idol_id_agents.Control.RoundTrip.{IsDigesting, IsBound, load_verified-write_state}
use idol_id_agents.Control.Machine.{Moves, position, next_state-Moves}
use idol_id_agents.Control.Valid.{
  IsLoaded, IsValidOption, load_verified-IsLoaded, next_state-IsValid,
}

-- What the system makes anew: real files, and a secret and an epoch of their lengths.
pub record IsFresh (x : Fresh) : Type 0 where
  pub key_device : 1 ≤ x.key.device
  pub key_inode : 1 ≤ x.key.inode
  pub state_device : 1 ≤ x.state.device
  pub state_inode : 1 ≤ x.state.inode
  pub secret : length x.secret ≡ 32
  pub epoch : valid_epoch x.epoch ≡ true

abbrev pub Written : Type 0
Written = Result ControlError ControlStatus × Disk

module _ (c : Crypto) (most : ℕ) (digests : IsDigesting c) where
  -- The control is there and loads.
  pub record IsLive (lock : FileId) (s : ControlState) (key : Key) (d : Disk) : Type 0 where
    pub locked : d.lock ≡ some lock
    pub loads : load_verified c most lock d ≡ ok (s, key)

  -- An operation that is carried out: a move of the switch from `p`, with generation `n`.
  pub record IsMoved (op : Operation) (x : Fresh) (now n : ℕ) (lock : FileId) (key : Key)
      (previous : Option ControlState) (w : Written) : Type 0 where
    pub state : ControlState
    pub returned : w.0 ≡ ok (status_for state now)
    pub live : IsLive lock state key w.1
    pub moves : Moves x.epoch op (position previous) (position (some state))
    pub generation : state.generation ≡ n
    pub updated_at : state.updated_at ≡ now

  written :
      (op : Operation) (now : ℕ) (x : Fresh) (lock : FileId) (previous : Option ControlState)
      (key : Key) (d : Disk) (n : ℕ) (s : ControlState)
      → IsFresh x
      → ttl_ok most op ≡ true
      → IsValidOption c most previous
      → IsBound c lock key d.key
      → d.lock ≡ some lock
      → next_state op x.epoch now previous ≡ ok s
      → suc (idol_id_agents.Control.Mutations.generation_of previous) ≡ n
      → IsMoved op x now n lock key previous
          (write_next c most lock x now key d (next_state op x.epoch now previous))
  unfolding write_next verify_written
  written op now x lock previous key d n s fresh fits valid bound locked next counted =
      let moved = next_state-Moves op x.epoch now previous next in
      let good = next_state-IsValid c most op x.epoch now previous fits fresh.epoch valid next in
      let back =
        load_verified-write_state c most lock x.state s key d digests bound good fresh.state_device
          fresh.state_inode in
      rw next (
        rw back (record {
          state = s;
          returned = refl;
          live = record { locked = kept; loads = back };
          moves = moved.0;
          generation = moved.1 ∙ counted;
          updated_at = moved.2;
        }))
    where
      kept : (write_state c s key x.state d).lock ≡ some lock
      kept = unfold write_state in locked

  -- What an operation does to a live control: it is refused and changes nothing, or it moves.
  abbrev pub Acts : Operation → Fresh → ℕ → FileId → ControlState → Key → Disk → Written → Type 0
  Acts op x now lock s key d w =
      ((e : ControlError) × (w ≡ (err e, d)))
      ⊎ IsMoved op x now (suc s.generation) lock key (some s) w

  advance-Acts :
      (op : Operation) (expected : Option ℕ) (now : ℕ) (x : Fresh) (lock : FileId)
      (s : ControlState) (key : Key) (d : Disk)
      → IsFresh x
      → ttl_ok most op ≡ true
      → IsLoaded c most lock d s key
      → d.lock ≡ some lock
      → Acts op x now lock s key d (advance c most op expected now x lock (some s) key d)
  unfolding advance write_next
  advance-Acts op expected now x lock s key d fresh fits loaded locked =
      elim (Bool-cases (is_expected expected (some s))) [
        | inr other ↦ inl (ControlError.generation_changed, rw other refl)
        | inl wanted ↦ rw wanted (by_next (next_state op x.epoch now (some s)) refl)
      ]
    where
      by_next :
          (r : Result ControlError ControlState)
          → next_state op x.epoch now (some s) ≡ r
          → Acts op x now lock s key d
              (write_next c most lock x now key d (next_state op x.epoch now (some s)))
      by_next (err e) h = inl (e, ap (write_next c most lock x now key d) h)
      by_next (ok s') h = inr (
          written op now x lock (some s) key d (suc s.generation) s' fresh fits loaded.valid
            loaded.bound locked h refl)

  -- An operation on a live control, at any time and with any expected generation, is refused and
  -- leaves the files as they are, or it is a move of the switch: the files then load as the state
  -- that it moves to, with the same key and the next generation.
  pub mutate-refines :
      (op : Operation) (expected : Option ℕ) (now : ℕ) (x : Fresh) (lock : FileId)
      (s : ControlState) (key : Key) (d : Disk)
      → IsFresh x
      → IsLive lock s key d
      → Acts op x now lock s key d (mutate c most op expected now x d)
  unfolding mutate in_session advance_loaded
  mutate-refines op expected now x lock s key d fresh live = elim (Bool-cases (ttl_ok most op)) [
    | inr short ↦ inl (ControlError.ttl_bounds, rw short refl)
    | inl fits ↦ elim (Bool-cases (expected_ok expected)) [
      | inr bad ↦ inl (ControlError.expected_invalid, rw (fits, bad) refl)
      | inl good ↦
          rw (fits, good)
            (subst (λ l. Acts op x now lock s key d (in_session c most op expected now x l d))
              (sym live.locked)
              (rw live.loads (
                advance-Acts op expected now x lock s key d fresh fits
                  (load_verified-IsLoaded c most lock d live.loads) live.locked)))
    ]
  ]
