-- ===== src/Control/Mutations.antt =====
-- `LocalControl._mutate`, which the operations `enable`, `refresh`, `drain` and `disable` call.
use idol_id_agents.Prelude.{
  ℕ, suc, ◌+◌, ◌*◌, Text, Bool, true, ◌&&◌, not, nat_eq, ltb, leb, Option, none, some, Result, ok,
  err, refuse_if, ◌>>=◌, ◌>>◌, if◌then◌else◌,
}
use idol_id_agents.Model.{second}
use idol_id_agents.Control.{
  ControlError, ControlState, ControlStatus, Mode, enabled, disabled, draining, skew, status_for,
  generation_changed, clock_rollback, already_enabled, draining_first, not_enabled, ttl_bounds,
  expected_invalid,
}
use idol_id_agents.Control.Records.{FileId, Disk, Crypto, Key}
use idol_id_agents.Control.Files.{load_verified, write_state, create_key}

pub data Operation : Type 0 where
  enable refresh : ℕ → Operation
  drain disable : Operation

-- What `status` returns: a control that is missing, one that does not load, or a state's status.
pub data Report : Type 0 where
  control_missing : Report
  control_invalid : ControlError → Report
  control_read : ControlStatus → Report

-- What the call makes anew: the files' identities, `token_bytes(32)` and `token_hex(32)`.
pub record Fresh : Type 0 where
  pub lock : FileId
  pub key : FileId
  pub state : FileId
  pub secret : Text
  pub epoch : Text

-- `_validate_ttl`, where the operation takes one.
unfoldable pub ttl_ok : ℕ → Operation → Bool
ttl_ok most (enable ttl) = leb 30 ttl && leb ttl most
ttl_ok most (refresh ttl) = leb 30 ttl && leb ttl most
ttl_ok most drain = true
ttl_ok most disable = true

abbrev pub expected_ok : Option ℕ → Bool
expected_ok none = true
expected_ok (some n) = leb 1 n

abbrev pub generation_of : Option ControlState → ℕ
generation_of none = 0
generation_of (some s) = s.generation

-- `expected_generation` is none, or the generation that is there.
abbrev pub is_expected : Option ℕ → Option ControlState → Bool
is_expected none previous = true
is_expected (some n) previous = nat_eq (generation_of previous) n

-- The epoch that a drained control keeps for the attempts that run.
abbrev pub drained_epoch : Option ControlState → Option Text
drained_epoch none = none
drained_epoch (some s) = elim s.mode [
  | enabled ↦ s.enable_epoch
  | draining ↦ s.drain_epoch
  | disabled ↦ none
]

abbrev pub off_state : Mode → ℕ → ℕ → Option Text → ControlState
off_state mode generation now epoch = record {
  mode = mode;
  generation = generation;
  updated_at = now;
  enable_expires_at = none;
  enable_epoch = none;
  drain_epoch = epoch;
}

abbrev pub on_state : ℕ → ℕ → ℕ → Option Text → ControlState
on_state generation now ttl epoch = record {
  mode = enabled;
  generation = generation;
  updated_at = now;
  enable_expires_at = some (now + ttl * second);
  enable_epoch = epoch;
  drain_epoch = none;
}

abbrev pub is_ahead : ControlState → ℕ → Bool
is_ahead s now = ltb (now + skew) s.updated_at

-- The tests of `enable` on the state before it.
unfoldable pub enable_refusal : ℕ → Option ControlState → Result ControlError (Unit {0})
enable_refusal now none = ok tt
enable_refusal now (some s) = do
  refuse_if (is_ahead s now) clock_rollback
  elim s.mode [ enabled ↦ err already_enabled | draining ↦ err draining_first | disabled ↦ ok tt ]

-- The epoch that `refresh` keeps.
unfoldable pub refresh_epoch : ℕ → Option ControlState → Result ControlError Text
refresh_epoch now none = err not_enabled
refresh_epoch now (some s) = elim s.mode [
  | enabled ↦ elim s.enable_epoch [
    | none ↦ err not_enabled
    | some epoch ↦ if is_ahead s now then err clock_rollback else ok epoch
  ]
  | draining ↦ err not_enabled
  | disabled ↦ err not_enabled
]

-- The state that the operation writes.
unfoldable pub next_state :
    Operation → Text → ℕ → Option ControlState → Result ControlError ControlState
unfolding enable_refusal refresh_epoch
next_state (enable ttl) epoch now previous = do
  enable_refusal now previous
  ok (on_state (suc (generation_of previous)) now ttl (some epoch))
next_state (refresh ttl) epoch now previous = do
  kept ← refresh_epoch now previous
  ok (on_state (suc (generation_of previous)) now ttl (some kept))
next_state drain epoch now previous =
    ok (off_state draining (suc (generation_of previous)) now (drained_epoch previous))
next_state disable epoch now previous =
    ok (off_state disabled (suc (generation_of previous)) now none)

module _ (c : Crypto) (most : ℕ) where
  -- The read behind the write.
  unfoldable pub verify_written :
      ℕ → Disk → Result ControlError (ControlState × Key) → Result ControlError ControlStatus × Disk
  verify_written now d (err e) = (err e, d)
  verify_written now d (ok (s, key)) = (ok (status_for s now), d)

  unfoldable pub write_next :
      FileId
      → Fresh
      → ℕ
      → Key
      → Disk
      → Result ControlError ControlState
      → Result ControlError ControlStatus × Disk
  write_next lock fresh now key d (err e) = (err e, d)
  write_next lock fresh now key d (ok s) =
      let d' = write_state c s key fresh.state d in
      verify_written now d' (load_verified c most lock d')

  -- From the generation on, in a session with its key.
  unfoldable pub advance :
      Operation
      → Option ℕ
      → ℕ
      → Fresh
      → FileId
      → Option ControlState
      → Key
      → Disk
      → Result ControlError ControlStatus × Disk
  unfolding write_next verify_written next_state load_verified write_state status_for
  advance op expected now fresh lock previous key d =
      if not (is_expected expected previous)
      then (err generation_changed, d)
      else write_next lock fresh now key d (next_state op fresh.epoch now previous)

  -- A new lock: its key is made first.
  unfoldable pub advance_new :
      Operation
      → Option ℕ
      → ℕ
      → Fresh
      → Disk
      → Result ControlError (Key × Disk)
      → Result ControlError ControlStatus × Disk
  advance_new op expected now fresh d (err e) = (err e, d)
  advance_new op expected now fresh d (ok (key, d')) =
      advance op expected now fresh fresh.lock none key d'

  unfoldable pub advance_loaded :
      Operation
      → Option ℕ
      → ℕ
      → Fresh
      → FileId
      → Disk
      → Result ControlError (ControlState × Key)
      → Result ControlError ControlStatus × Disk
  advance_loaded op expected now fresh lock d (err e) = (err e, d)
  advance_loaded op expected now fresh lock d (ok (previous, key)) =
      advance op expected now fresh lock (some previous) key d

  -- The session, on a lock that is there or is created.
  unfoldable pub in_session :
      Operation
      → Option ℕ
      → ℕ
      → Fresh
      → Option FileId
      → Disk
      → Result ControlError ControlStatus × Disk
  in_session op expected now fresh none d =
      let d' = record d { lock = some fresh.lock; anchor = none } in
      advance_new op expected now fresh d' (create_key c fresh.lock fresh.key fresh.secret d')
  in_session op expected now fresh (some lock) d =
      advance_loaded op expected now fresh lock d (load_verified c most lock d)

  -- `_mutate`.
  unfoldable pub mutate :
      Operation → Option ℕ → ℕ → Fresh → Disk → Result ControlError ControlStatus × Disk
  unfolding in_session advance_new advance_loaded advance ttl_ok create_key load_verified
  mutate op expected now fresh d =
      if not (ttl_ok most op)
      then (err ttl_bounds, d)
      else if not (expected_ok expected)
      then (err expected_invalid, d)
      else in_session op expected now fresh d.lock d

  unfoldable pub report : ℕ → Result ControlError (ControlState × Key) → Report
  report now (err e) = control_invalid e
  report now (ok (s, key)) = control_read (status_for s now)

  -- `status`.
  unfoldable pub status : ℕ → Disk → Report
  unfolding report load_verified status_for
  status now d = elim d.lock [
    | none ↦ control_missing
    | some lock ↦ report now (load_verified c most lock d)
  ]
