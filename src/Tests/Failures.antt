-- ===== src/Tests/Failures.antt =====
-- A first failure of the sample route, in an empty journal.
use idol_id_agents.Prelude.{text, ◌≡◌, ◌≢◌, refl, [], some, ok}
use idol_id_agents.Journal.{Row, Codec, read_locked}
use idol_id_agents.Journal.Append.{IsCoherent}
use idol_id_agents.Health.{record_failure}
use idol_id_agents.Health.Failures.{failed_row, IsOpened, record_failure-IsOpened}
use idol_id_agents.Tests.Samples.{subject, route, codec, empty_file, fresh_journal}

abbrev first_failure : Row
first_failure = failed_row subject route (text "Timeout") (text "late") 5 codec []

abbrev failure_codec : Codec
failure_codec = record codec { decode = λ line. some first_failure }

nothing_read : read_locked failure_codec [] ≡ ok []
unfolding read_locked
nothing_read = refl

nothing-IsCoherent : IsCoherent failure_codec empty_file fresh_journal
nothing-IsCoherent h = cc

written : text "x" ≢ []
written h = cc

record_failure-IsOpened_example :
    IsOpened subject route (text "Timeout") (text "late") 5 failure_codec [] (
      record_failure subject failure_codec 1 route
        (text "Timeout")
        (text "late")
        5
        empty_file
        fresh_journal)
record_failure-IsOpened_example =
    record_failure-IsOpened subject route (text "Timeout") (text "late") 5 failure_codec 1
      empty_file fresh_journal [] nothing-IsCoherent refl nothing_read written refl
