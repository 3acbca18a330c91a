-- ===== src/Lib.antt =====
-- Fleet control: a controller that hands work orders to AI worker routes which cost nothing beyond
-- what is already paid. A work order claims paths and semantic targets of one repository; a route is
-- a command with a proof of its billing. The planner chooses pairs of orders and routes whose claims
-- do not meet; a journal with a hash chain records what happened; circuit breakers computed from the
-- journal switch failing routes off; a store of leases keeps semantic claims apart between processes.
--
-- The files, and the code that each models:
--   Prelude     the shared types, tests, lemmas: texts as lists of code points, results, JSON values
--   Strings     the string methods of Python that the code uses (split, strip, startswith, ...)
--   Overlap     fleet_control/scheduler.py: path_overlap, semantic_overlap
--   Model       fleet_control/model.py: the data classes, their `__post_init__` checks, the
--               validators (`relative_path_ok` is "validate_relative_path does not raise"),
--               BillingProof.valid, load_routes; Model/Decode has the `from_mapping` of work orders and
--               their coordination, Model/Encode the `order_mapping` of fleet_control/coordination.py
--   Policy      fleet_control/policy.py: route_verdict, assert_order_route, assert_zero_paygo
--   Scheduler   fleet_control/scheduler.py: orders_conflict, reset_urgency, score_pair, build_plan;
--               Scheduler/Plan has the two loops of build_plan as `gather` and `choose`, and
--               Scheduler/Plan/Laws what the plan guarantees
--   Journal     fleet_control/journal.py: _read_locked, verify, _snapshot, append and its transaction;
--               `File` has the lines and whether the last one has its newline, and `write_line` is
--               what a write at the end makes of them
--   Health      fleet_control/health.py: circuit_state, apply_circuits, record_failure,
--               record_success
--   Claims      fleet_control/claims.py: SemanticClaimStore (list, acquire, renew, release), and
--               sequences of these operations as the relation `Reach`
--   Reconcile   fleet_control/reconcile.py: reconcile_expired_attempts over the journal
--   Outcomes    fleet_control/performance.py: _validate_receipt and record_outcome; Outcomes/Latest
--               and Outcomes/Closed tell what its loop over the journal has seen by the rows
--               alone
--   Control     fleet_control/control.py: LocalControl with its three files as `Disk`, _mutate as
--               `mutate`, _Transition as `enter`, _ClaimGuard's permits as `issue`; the switch as a
--               machine of three positions, and sequences of operations as the relation `Reach`
--   Allowance   scripts/allowance_plan.py: a second planner, of tasks on providers with allowance
--               windows; `add_tasks` and `select` are the two loops of its `plan`
--   Usage       fleet_control/usage.py: observe_usage and refresh_routes
--   Delegation  fleet_control/coordination.py: the subjects of assignments, acknowledge, delegate,
--               recover_delegation and _publish_queue; `Desk` is the journal and the directory
--   Tests       sample inputs and runs on them
--
-- The parts meet as in the code: Scheduler takes the verdicts of Policy and the checked orders of
-- Model, Claims uses the overlap of Scheduler, Health, Reconcile and Outcomes read and append through
-- Journal, Usage gives the routes the allowances that Scheduler weighs. Control stands before
-- dispatch, Delegation journals the work orders that Model decodes, and Allowance is a script of its
-- own.
--
-- A check that raises is an entry of a list of refusals in the source's order, or an `err` of a
-- result; an operation on the journal or the store that raises writes nothing, and a call of
-- `reconcile` that raises keeps the cancellations that it has appended. A loop over a sequence is
-- structural recursion, so no fuel is needed. Times are natural numbers of microseconds and
-- fractions of an allowance are millionths. A mapping is the function of its lookups.
--
-- Parameters stand for what is computed outside the code: `subject_hash` (the SHA-256 of a route and
-- of the files that its proof names), `Floats` (floating point numbers: an order that is asymmetric
-- and whose negation is transitive, and operations without laws), `Codec` (SHA-256 of a record, JSON
-- decoding and encoding of a line), the signature that a write leaves on a file, and the validator
-- of semantic targets. `ttl` of Reconcile is the configured claim_ttl_seconds. In Outcomes,
-- `candidate` is the result of validate_candidate_evidence of fleet_control/evidence.py, which reads a
-- file, `str_of` is `str` at a JSON value that is no text, and `families` the configured families. In
-- Control, `Crypto` is SHA-256 and HMAC-SHA-256 of records, `mac_permit` the HMAC of a permit, and
-- `Fresh` the random bytes and the identities of the files that a call makes; JSON texts are typed
-- records, and a session under the lock is one step.
-- In Usage, `Outside` is the environment, the adapter's process, str.format_map, json.loads, the
-- subject_hash of a route, and the result of UsageObservation.from_mapping. Allowance reads integers
-- as natural numbers and has the fields of its JSON input as a record.
--
-- In Delegation, `Outside` is SHA-256, `json.dumps` with sorted keys, the files of a repository and of
-- a commit, the commit of a repository and the user's identity, and `Readers` of Model is what the
-- decoding of a work order takes from Python: `str` and `int` at other values, and paths. A queued file
-- is published in one step, before which another process may have made a file of the name (`race`).
--
-- Not modelled: the decoding of JSON into routes, proofs and windows, the recipes of coordination.py,
-- which run processes, the reading of proof subject files, file locks (each operation of the journal
-- and of the store is one step, and each call of Delegation), the owners, modes, links and signatures
-- of the files of Control, the text of messages, and the modules that run git, processes, probes and
-- threads (controller, runtime, gitops but for require_exact_subject, native_dispatch, processes, cli,
-- the other scripts).
pub mod Prelude
pub mod Strings
pub mod Overlap
pub mod Model
pub mod Policy
pub mod Scheduler
pub mod Journal
pub mod Health
pub mod Claims
pub mod Reconcile
pub mod Outcomes
pub mod Control
pub mod Allowance
pub mod Usage
pub mod Delegation
pub mod Tests
