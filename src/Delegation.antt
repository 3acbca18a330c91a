-- ===== src/Delegation.antt =====
-- fleet_control/coordination.py: assignments, their acknowledgement and delegation. A transaction
-- of the journal is the list of its rows, and a call is the whole transaction (the last line of the
-- file is taken to have its newline): the parameter `c` is the codec of the journal, `w` what stands
-- outside. `queue_dir` is a directory other than the root.
pub mod TextSets
pub mod Subjects
pub mod Queue
pub mod Acknowledge
pub mod Delegate
pub mod Rows
pub mod Published
pub mod Resumed
pub mod Marked
pub mod Again
pub mod Arrived
pub mod Stranded
pub mod Kept
pub mod Accepted
pub mod Authority
use idol_id_agents.Prelude.{
  ℕ, ◌+◌, Text, text, Bool, false, ◌&&◌, List, [], ◌∷◌, ◌++◌, ◌==◌, all, Option, none, some, Json,
  Fields, obj, end, str, get, is_text, Result, ok, err, refuse_if, not, if◌then◌else◌,
}
use idol_id_agents.Model.{WorkOrder, Coordination, Route}
use idol_id_agents.Model.Decode.{DecodeError, Readers}
use idol_id_agents.Journal.{Row, Codec, next_row}

-- The outside: SHA-256, `json.dumps` with sorted keys, `os.getuid`, the files of a repository
-- (`read_regular` of its `local_path`) and of a commit (`git show`), `current_sha` of a repository, each
-- none where it raises, the subject hash of a route, and what `from_mapping` takes from Python.
pub record Outside : Type 0 where
  pub sha256 : Text → Text
  pub canonical : Json → Text
  pub uid : ℕ
  pub read_file : Text → Text → Option Text
  pub show_file : Text → Text → Text → Option Text
  pub head_of : Text → Option Text
  pub subject_hash : Route → Text
  pub queue_dir : Text
  pub readers : Readers

pub data CoordinationRefusal : Type 0 where
  head_unreadable no_declaration ttl_bounds recipient_required not_exact : CoordinationRefusal
  other_parent other_owner other_repository not_accepted : CoordinationRefusal
  unknown_prerequisite : Text → CoordinationRefusal
  authority_absent : Text → CoordinationRefusal
  malformed : DecodeError → CoordinationRefusal
  no_mapping bytes_differ occupied irregular concurrent : CoordinationRefusal
  unknown_event missing_key : CoordinationRefusal

-- `require_exact_subject`.
unfoldable pub require_exact_subject : Outside → WorkOrder → Result CoordinationRefusal (Unit {0})
unfolding ◌==◌
require_exact_subject w o = elim (w.head_of o.repository) [
  | none ↦ err head_unreadable
  | some head ↦ refuse_if (not (head == o.base_sha)) not_exact
]

-- `declaration`.
unfoldable pub declaration : WorkOrder → Result CoordinationRefusal Coordination
declaration o = elim o.coordination [ none ↦ err no_declaration | some d ↦ ok d ]

-- `fact` of a row, where it is a mapping.
abbrev pub fact_of : Json → Option Fields
fact_of (obj fs) = some fs
fact_of other = none

abbrev pub carries : List (Text × Text) → Option Fields → Bool
carries wanted none = false
carries wanted (some fs) = all (λ kv. is_text (get fs kv.0) kv.1) wanted

-- The test of a row in `_last`, for wanted values that are texts.
unfoldable pub wanted_row : Text → List (Text × Text) → Row → Bool
unfolding ◌==◌ get
wanted_row kind wanted row = (row.kind == kind) && carries wanted (fact_of row.fact)

-- The last row that the test takes.
unfoldable pub last_match : (Row → Bool) → List Row → Option Row
last_match p [] = none
last_match p (row ∷ rest) =
    let later = last_match p rest in
    elim later [ some r ↦ some r | none ↦ if p row then some row else none ]

-- `_last`.
unfoldable pub last_row : Text → List (Text × Text) → List Row → Option Row
unfolding wanted_row last_match
last_row kind wanted = last_match (wanted_row kind wanted)

-- `latest_assignment_ack`.
abbrev pub latest_assignment_ack : List Row → Text → Option Row
latest_assignment_ack rows task_id =
    last_row (text "assignment.ack") ((text "task_id", task_id) ∷ []) rows

-- `transaction.append` in a transaction with the rows.
abbrev pub add_row : Codec → Text → Fields → ℕ → List Row → List Row
add_row c kind fact at rows = rows ++ next_row c rows kind fact at ∷ []
