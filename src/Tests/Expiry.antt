-- ===== src/Tests/Expiry.antt =====
-- A journal with one orphan, which a first call cancels and a second one leaves alone.
use mathlib.Core.Path.{subst}
use idol_id_agents.Prelude.{
  true, ℕ, ◌*◌, Text, text, ◌≡◌, refl, sym, [], ◌∷◌, All, Option, none, some, Fields, obj, str, end,
  field, ok,
}
use idol_id_agents.Model.{second}
use idol_id_agents.Journal.{Row, Codec, File, genesis, read_locked}
use idol_id_agents.Journal.Append.{IsCoherent}
use idol_id_agents.Reconcile.{Latest, started, cancelled, cancellation, latest_of, reconcile}
use idol_id_agents.Reconcile.Settled.{Encodes, IsSettled, reconcile-IsSettled, reconcile-reconcile}
use idol_id_agents.Tests.Samples.{fresh_journal}

abbrev started_fact : Fields
started_fact =
    field (text "order_id") (str (text "a")) (field (text "attempt_id") (str (text "n")) end)

abbrev started_row : Row
started_row = record {
  sequence = 1;
  at = 0;
  kind = started;
  previous = genesis;
  fact = obj started_fact;
  hash = text "d";
}

abbrev orphan : Latest
orphan = record { order_id = text "a"; kind = started; at = 0; fact = started_fact }

-- One letter is the started row; a longer line has the number, the time and the predecessor of a
-- cancellation.
abbrev decode_line : Text → Option Row
decode_line [] = none
decode_line (x ∷ []) = some started_row
decode_line (n ∷ at ∷ previous) = some (record {
  sequence = n;
  at = at;
  kind = cancelled;
  previous = previous;
  fact = obj (cancellation orphan);
  hash = text "d";
})

abbrev log_codec : Codec
log_codec = record {
  digest = λ n at kind previous fact. text "d";
  decode = decode_line;
  encode = λ r. r.sequence ∷ r.at ∷ r.previous;
}

abbrev log : File
log = record { lines = text "x" ∷ []; terminated = true; stamp = 0 }

abbrev later : ℕ
later = 100 * second

log_read : read_locked log_codec log.lines ≡ ok (started_row ∷ [])
unfolding read_locked
log_read = refl

log-IsCoherent : IsCoherent log_codec log fresh_journal
log-IsCoherent h = cc

latest_run : latest_of (started_row ∷ []) ≡ orphan ∷ []
unfolding latest_of
latest_run = refl

orphan-Encodes : Encodes log_codec (λ n. n) 60 later orphan
orphan-Encodes rows = (λ h. cc, refl)

log-Encodes : All (Encodes log_codec (λ n. n) 60 later) (latest_of (started_row ∷ []))
log-Encodes =
    subst (All (Encodes log_codec (λ n. n) 60 later)) (sym latest_run) (orphan-Encodes, tt)

reconcile_run : (reconcile log_codec (λ n. n) 60 later log fresh_journal).0 ≡ ok (text "a" ∷ [])
unfolding reconcile
reconcile_run = refl

reconcile-IsSettled_example :
    IsSettled log_codec (λ n. n) 60 later (reconcile log_codec (λ n. n) 60 later log fresh_journal)
reconcile-IsSettled_example =
    reconcile-IsSettled log_codec (λ n. n) 60 later log fresh_journal (started_row ∷ [])
      log-IsCoherent refl log_read log-Encodes

reconcile-reconcile_example :
    (let (first, f', j') = reconcile log_codec (λ n. n) 60 later log fresh_journal in
      let (second_result, f'', j'') = reconcile log_codec (λ n. n) 60 later f' j' in
      (second_result ≡ ok []) × (f'' ≡ f'))
reconcile-reconcile_example =
    reconcile-reconcile log_codec (λ n. n) 60 later log fresh_journal (started_row ∷ [])
      log-IsCoherent refl log_read log-Encodes
