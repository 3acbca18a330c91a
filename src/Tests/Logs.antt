-- ===== src/Tests/Logs.antt =====
-- The journal and the breakers on small inputs.
use idol_id_agents.Prelude.{
  true, Text, text, false, ◌≡◌, ◌≢◌, refl, sym, ◌∙◌, inl, inr, [], ◌∷◌, map, Any, false≢true, ◌==◌,
  eq_iff, some, ok, err,
}
use idol_id_agents.Journal.{Row, File, Journal, kind_required, read_locked, append, next_row}
use idol_id_agents.Journal.Tamper.{SameRecord, NoCollision, tamper_evident}
use idol_id_agents.Journal.Append.{IsCoherent, append-reads}
use idol_id_agents.Health.{circuit_state, apply_circuits}
use idol_id_agents.Health.Breaker.{BreakerStep, circuit_state-step}
use idol_id_agents.Health.Circuits.{gated, apply_circuits-gates}
use idol_id_agents.Tests.Samples.{
  subject, route, metered_route, failed_fact, row, codec, empty_file, fresh_journal,
}

abbrev line : Text
line = text "x"

abbrev full_file : File
full_file = record { lines = line ∷ []; terminated = true; stamp = 1 }

line_read : read_locked codec (line ∷ []) ≡ ok (row ∷ [])
unfolding read_locked
line_read = refl

other_line_read : read_locked codec (text "y" ∷ []) ≡ ok (row ∷ [])
unfolding read_locked
other_line_read = refl

same_record : (r s : Row) → r ≡ s → SameRecord r s
same_record r s e = record {
  sequence = λ i. (e i).sequence;
  at = λ i. (e i).at;
  kind = λ i. (e i).kind;
  previous = λ i. (e i).previous;
  fact = λ i. (e i).fact;
}

only : (r : Row) → Any (λ x. x ≡ r) (row ∷ []) → row ≡ r
only r (inl e) = e
only r (inr h) = absurd h

no_collision : NoCollision codec (row ∷ []) (row ∷ [])
no_collision r s mr ms e = same_record r s (sym (only r mr) ∙ only s ms)

tamper_evident_example : row ∷ [] ≡ row ∷ []
tamper_evident_example =
    tamper_evident codec (line ∷ []) (text "y" ∷ []) (row ∷ []) (row ∷ []) row row line_read
      other_line_read refl refl refl no_collision

empty_read : read_locked codec [] ≡ ok []
unfolding read_locked
empty_read = refl

empty-IsCoherent : IsCoherent codec empty_file fresh_journal
empty-IsCoherent h = cc

named_kind : text "route.failed" ≢ []
named_kind h = cc

line_filled : line ≢ []
line_filled h = cc

append-reads_example :
    (let (result, f', j') =
        append codec 1 (text "route.failed") failed_fact 5 empty_file fresh_journal in
      (result ≡ ok (next_row codec [] (text "route.failed") failed_fact 5))
      × (read_locked codec f'.lines
          ≡ ok (next_row codec [] (text "route.failed") failed_fact 5 ∷ []))
      × IsCoherent codec f' j'
      × (f'.terminated ≡ true))
append-reads_example =
    append-reads codec 1 (text "route.failed") failed_fact 5 empty_file fresh_journal [] named_kind
      empty-IsCoherent refl empty_read line_filled refl

unnamed_refused : (append codec 1 [] failed_fact 5 empty_file fresh_journal).0 ≡ err kind_required
unfolding append
unnamed_refused = refl

abbrev read_journal : Journal
read_journal = record { rows = row ∷ []; signature = some 1 }

full-IsCoherent : IsCoherent codec full_file read_journal
full-IsCoherent h = line_read

-- One failure opens the breaker of its route for five minutes.
failure_counts : (circuit_state subject (row ∷ []) route).consecutive_failures ≡ 1
unfolding circuit_state
failure_counts = refl

circuit_state-step_example :
    BreakerStep subject route row
      (circuit_state subject (row ∷ []) route)
      (circuit_state subject (row ∷ row ∷ []) route)
circuit_state-step_example = circuit_state-step subject route (row ∷ []) row

ids_tested : (route.id == metered_route.id) ≡ false
unfolding ◌==◌
ids_tested = refl

ids_differ : route.id ≢ metered_route.id
ids_differ h = false≢true (sym ids_tested ∙ (eq_iff _ _).1 h)

apply_circuits-gates_example :
    (apply_circuits subject (route ∷ metered_route ∷ []) (row ∷ []) 9).0
    ≡ map (gated subject (row ∷ []) 9) (route ∷ metered_route ∷ [])
apply_circuits-gates_example =
    apply_circuits-gates subject (row ∷ []) (route ∷ metered_route ∷ []) 9
      ((ids_differ, tt), (tt, tt))
