-- ===== src/Control/Stuck.antt =====
-- A refresh of a control that was never set.
use idol_id_agents.Prelude.{ℕ, true, ◌≡◌, refl, Option, none, some, err, Bool-cases, inl, inr}
use idol_id_agents.Control.{ControlError}
use idol_id_agents.Control.Records.{Disk, Crypto, missing, holds, key_schema, check_anchor}
use idol_id_agents.Control.Files.{load_verified, create_key}
use idol_id_agents.Control.Mutations.{
  Operation, refresh, Fresh, ttl_ok, expected_ok, is_expected, next_state, refresh_epoch,
  write_next, advance, advance_new, advance_loaded, in_session, mutate,
}

-- A root without a control.
abbrev pub no_control : Disk
no_control = record { lock = none; anchor = none; key = missing; state = missing }

-- The root with a lock and a key, and nothing that the lock anchors.
abbrev half_made : Fresh → Disk
half_made x = record {
  lock = some x.lock;
  anchor = none;
  key = holds x.key (record {
    schema = key_schema;
    lock_device = x.lock.device;
    lock_inode = x.lock.inode;
    secret = x.secret;
  });
  state = missing;
}

module _ (c : Crypto) (most : ℕ) where
  refresh-half_made :
      (ttl : ℕ) (expected : Option ℕ) (now : ℕ) (x : Fresh)
      → ttl_ok most (refresh ttl) ≡ true
      → expected_ok expected ≡ true
      → (mutate c most (refresh ttl) expected now x no_control).1 ≡ half_made x
  unfolding mutate in_session advance_new advance create_key write_next next_state refresh_epoch
  refresh-half_made ttl expected now x fits good =
      rw (fits, good)
        (elim (Bool-cases (is_expected expected none)) [
          | inl same ↦ rw same refl
          | inr other ↦ rw other refl
        ])

  half_made-refuses :
      (op : Operation) (expected : Option ℕ) (now : ℕ) (x fresh : Fresh)
      → (e : ControlError) × (mutate c most op expected now fresh (half_made x)
          ≡ (err e, half_made x))
  unfolding mutate in_session advance_loaded load_verified check_anchor
  half_made-refuses op expected now x fresh = elim (Bool-cases (ttl_ok most op)) [
    | inr short ↦ (ControlError.ttl_bounds, rw short refl)
    | inl fits ↦ elim (Bool-cases (expected_ok expected)) [
      | inr bad ↦ (ControlError.expected_invalid, rw (fits, bad) refl)
      | inl good ↦ (ControlError.invalid_record, rw (fits, good) refl)
    ]
  ]

  -- After a refresh, with admissible arguments, of a control that was never set, every operation
  -- is refused for good: it leaves the files as the refresh left them.
  pub refresh-sticks :
      (ttl : ℕ) (expected : Option ℕ) (now : ℕ) (x : Fresh) (op : Operation) (wanted : Option ℕ)
      (later : ℕ) (fresh : Fresh)
      → ttl_ok most (refresh ttl) ≡ true
      → expected_ok expected ≡ true
      → (e : ControlError) × (mutate c most op wanted later fresh
            (mutate c most (refresh ttl) expected now x no_control).1
          ≡ (err e, (mutate c most (refresh ttl) expected now x no_control).1))
  refresh-sticks ttl expected now x op wanted later fresh fits good =
      rw (refresh-half_made ttl expected now x fits good)
        (half_made-refuses op wanted later x fresh)
