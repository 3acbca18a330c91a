-- ===== src/Health.antt =====
-- fleet_control/health.py: the circuit breaker of each route, computed from the journal.
-- `subject_hash` is the parameter of the policy. The order of the record's keys is the source's; the
-- values are texts and numbers.
pub mod Breaker
pub mod Circuits
pub mod Failures
use idol_id_agents.Prelude.{
  ℕ, zero, suc, ◌+◌, ◌-◌, ◌*◌, max, Text, text, Bool, true, false, ◌&&◌, ◌||◌, not, List, [], ◌∷◌,
  map, ◌==◌, ltb, Option, none, some, Json, Fields, obj, str, num, end, field, get, is_text, Result,
  ok, err, if◌then◌else◌,
}
use idol_id_agents.Model.{Route, second}
use idol_id_agents.Journal.{Row, JournalError, Codec, File, Journal, events, snapshot, append}

-- `_BACKOFF_SECONDS[min(failures - 1, len(_BACKOFF_SECONDS) - 1)]`, from `failures - 1`.
unfoldable pub backoff_seconds : ℕ → ℕ
backoff_seconds zero = 300
backoff_seconds (suc zero) = 900
backoff_seconds (suc (suc zero)) = 3600
backoff_seconds _ = 21600

pub record CircuitState : Type 0 where
  pub route_id : Text
  pub route_subject : Text
  pub consecutive_failures : ℕ
  pub opened_until : ℕ

-- `CircuitState.open`.
unfoldable pub is_open : CircuitState → ℕ → Bool
is_open s now = ltb 0 s.consecutive_failures && ltb now s.opened_until

abbrev pub failed_kind : Text
failed_kind = text "route.failed"

abbrev pub succeeded_kind : Text
succeeded_kind = text "route.succeeded"

-- `fact` is a mapping that names the route and its subject.
unfoldable pub names_route : Text → Text → Json → Bool
unfolding get
names_route id subject (obj fact) =
    is_text (get fact (text "route_id")) id && is_text (get fact (text "route_subject")) subject
names_route id subject _ = false

-- The body of the loop, on `failures` and `opened_until`.
unfoldable pub see_row : Text → Text → Row → ℕ × ℕ → ℕ × ℕ
unfolding names_route ◌==◌ backoff_seconds
see_row id subject row (failures, opened_until) =
    if not (names_route id subject row.fact)
    then (failures, opened_until)
    else if row.kind == succeeded_kind
    then (0, 0)
    else (failures + 1, max opened_until (row.at + backoff_seconds failures * second))

unfoldable pub see_rows : Text → Text → List Row → ℕ × ℕ → ℕ × ℕ
unfolding see_row
see_rows id subject [] acc = acc
see_rows id subject (row ∷ rest) acc = see_rows id subject rest (see_row id subject row acc)

module _ (subject_hash : Route → Text) where
  -- `circuit_state`, from the rows of the journal.
  unfoldable pub circuit_state : List Row → Route → CircuitState
  unfolding see_rows events
  circuit_state rows route =
      let subject = subject_hash route in
      let (failures, opened_until) =
        see_rows route.id subject (events (failed_kind ∷ succeeded_kind ∷ []) rows) (0, 0) in
      record {
        route_id = route.id;
        route_subject = subject;
        consecutive_failures = failures;
        opened_until = opened_until;
      }

  -- `{state.route_id: state for state in states}[id]`: of equal ids the last stays.
  unfoldable pub state_by_id : List CircuitState → Text → Option CircuitState
  unfolding ◌==◌
  state_by_id [] id = none
  state_by_id (s ∷ rest) id = elim (state_by_id rest id) [
    | some later ↦ some later
    | none ↦ if s.route_id == id then some s else none
  ]

  unfoldable pub gate : List CircuitState → ℕ → Route → Route
  unfolding state_by_id is_open
  gate states now route = elim (state_by_id states route.id) [
    | none ↦ route
    | some s ↦ if is_open s now then record route { enabled = false } else route
  ]

  -- `apply_circuits`. The dictionary has a state for each route, so its lookup never fails.
  unfoldable pub apply_circuits : List Route → List Row → ℕ → List Route × List CircuitState
  unfolding gate circuit_state
  apply_circuits routes rows now =
      let states = map (circuit_state rows) routes in (map (gate states now) routes, states)

  -- The fact that `record_failure` appends.
  unfoldable pub failure_fact : CircuitState → Route → Text → Text → ℕ → Fields
  unfolding backoff_seconds
  failure_fact previous route error_type error observed_at =
      let failures = previous.consecutive_failures + 1 in
      field (text "route_id") (str route.id) (
        field (text "route_subject") (str previous.route_subject) (
          field (text "error_type") (str error_type) (
            field (text "error") (str error) (
              field (text "consecutive_failures") (num failures) (
                field (text "retry_after")
                  (num (observed_at + backoff_seconds (failures - 1) * second)) end)))))

  -- The fact that `record_success` appends.
  unfoldable pub success_fact : Route → Fields
  success_fact route =
      field (text "route_id") (str route.id)
        (field (text "route_subject") (str (subject_hash route)) end)

  -- `record_failure`: a snapshot, and an append behind it.
  pub failure_behind :
      Codec
      → ℕ
      → Route
      → Text
      → Text
      → ℕ
      → File
      → Result JournalError (List Row) × Journal
      → Result JournalError Row × File × Journal
  unfolding circuit_state failure_fact append
  failure_behind c stamp route error_type error at f (err e, j) = (err e, f, j)
  failure_behind c stamp route error_type error at f (ok rows, j) =
      append c stamp failed_kind (failure_fact (circuit_state rows route) route error_type error at)
        at f j

  unfoldable pub record_failure :
      Codec
      → ℕ
      → Route
      → Text
      → Text
      → ℕ
      → File
      → Journal
      → Result JournalError Row × File × Journal
  unfolding failure_behind snapshot
  record_failure c stamp route error_type error at f j =
      failure_behind c stamp route error_type error at f (snapshot c f j)

  unfoldable pub record_success :
      Codec → ℕ → Route → ℕ → File → Journal → Result JournalError Row × File × Journal
  unfolding append success_fact
  record_success c stamp route at f j = append c stamp succeeded_kind (success_fact route) at f j
