-- ===== src/Reconcile.antt =====
-- fleet_control/reconcile.py: attempts that a crashed controller left behind are cancelled once
-- their lease has run out. `ttl` is `controller.config.claim_ttl_seconds`, and `stamps` gives the
-- file signature that each append of the call leaves.
pub mod Orphans
pub mod Settled
use idol_id_agents.Prelude.{
  ℕ, suc, ◌+◌, ◌*◌, Text, text, Bool, true, false, ◌&&◌, ◌||◌, not, List, [], ◌∷◌, map, ◌==◌, ltb,
  text_lt, Option, none, some, or_else, Json, Fields, null, bool, str, obj, end, field, get, Result,
  ok, err, if◌then◌else◌,
}
use idol_id_agents.Model.{second}
use idol_id_agents.Model.Atoms.{member}
use idol_id_agents.Scheduler.Sort.{sort}
use idol_id_agents.Journal.{Row, JournalError, Codec, File, Journal, events, snapshot, append}

abbrev pub started : Text
started = text "attempt.started"

abbrev pub cancelled : Text
cancelled = text "attempt.cancelled"

-- `_TERMINAL`.
abbrev pub terminal : List Text
terminal =
    text "attempt.ready"
    ∷ text "attempt.refused"
    ∷ text "attempt.failed"
    ∷ cancelled
    ∷ text "attempt.no-change"
    ∷ []

-- An item of the dictionary `latest`, in its place.
pub record Latest : Type 0 where
  pub order_id : Text
  pub kind : Text
  pub at : ℕ
  pub fact : Fields

-- `latest[order_id] = …`: a key that is there keeps its place.
unfoldable pub put : Latest → List Latest → List Latest
unfolding ◌==◌
put e [] = e ∷ []
put e (x ∷ rest) =
    let later = put e rest in if x.order_id == e.order_id then e ∷ rest else x ∷ later

-- The body of the first loop, from `fact.get("order_id")`.
unfoldable pub see_named : Row → Fields → Option Json → List Latest → List Latest
unfolding put
see_named row fact (some (str id)) latest =
    put (record { order_id = id; kind = row.kind; at = row.at; fact = fact }) latest
see_named row fact _ latest = latest

unfoldable pub see_fact : Row → Json → List Latest → List Latest
unfolding see_named get
see_fact row (obj fact) latest = see_named row fact (get fact (text "order_id")) latest
see_fact row _ latest = latest

-- The first loop.
unfoldable pub see_attempts : List Row → List Latest → List Latest
unfolding see_fact
see_attempts [] latest = latest
see_attempts (row ∷ rest) latest = see_attempts rest (see_fact row row.fact latest)

-- The kinds that the function asks the journal for.
abbrev pub attempt_kinds : List Text
attempt_kinds = started ∷ terminal

-- The dictionary `latest` behind the first loop.
unfoldable pub latest_of : List Row → List Latest
unfolding see_attempts events
latest_of rows = see_attempts (events attempt_kinds rows) []

-- Neither `continue` of the second loop is taken.
unfoldable pub is_orphan : ℕ → ℕ → Latest → Bool
unfolding member ◌==◌
is_orphan ttl now e =
    not (member e.kind terminal || not (e.kind == started)) && not (ltb now (e.at + ttl * second))

abbrev pub copied : Fields → Text → Json
copied fact key = or_else (get fact key) null

-- The fact that cancels an attempt.
unfoldable pub cancellation : Latest → Fields
unfolding get
cancellation e = field (text "order_id") (str e.order_id) (
    field (text "task_id") (copied e.fact (text "task_id")) (
      field (text "attempt_id") (copied e.fact (text "attempt_id")) (
        field (text "reason") (str (text "controller-lease-expired")) (
          field (text "worktree") (copied e.fact (text "worktree"))
            (field (text "worktree_preserved") (bool true) end)))))

abbrev pub Outcome : Type 0
Outcome = Result JournalError (List Text) × File × Journal

-- The order's id, before those of the orders that follow.
pub with_id : Text → Outcome → Outcome
with_id id (ok ids, f, j) = (ok (id ∷ ids), f, j)
with_id id (err e, f, j) = (err e, f, j)

-- `tuple(sorted(expired))`.
pub sorted_ids : Outcome → Outcome
sorted_ids (ok ids, f, j) = (ok (sort text_lt ids), f, j)
sorted_ids (err e, f, j) = (err e, f, j)

module _ (c : Codec) (stamps : ℕ → ℕ) (ttl now : ℕ) where
  -- The second loop, from its append of number `n` on.
  pub expire : ℕ → List Latest → File → Journal → Outcome
  expire n [] f j = (ok [], f, j)
  expire n (e ∷ rest) f j = elim (is_orphan ttl now e) [
    | false ↦ expire n rest f j
    | true ↦
        let (result, f', j') = append c (stamps n) cancelled (cancellation e) now f j in
        elim result [
          | err x ↦ (err x, f', j')
          | ok row ↦ with_id e.order_id (expire (suc n) rest f' j')
        ]
  ]

  pub reconcile_behind : File → Result JournalError (List Row) × Journal → Outcome
  reconcile_behind f (err e, j) = (err e, f, j)
  reconcile_behind f (ok rows, j) = sorted_ids (expire 0 (latest_of rows) f j)

  -- `reconcile_expired_attempts`.
  unfoldable pub reconcile : File → Journal → Outcome
  unfolding reconcile_behind expire sorted_ids sort with_id append snapshot latest_of is_orphan
      cancellation
  reconcile f j = reconcile_behind f (snapshot c f j)
