-- ===== src/Journal/Append.antt =====
-- A record that is appended to a readable journal leaves it readable.
use mathlib.Core.Path.{subst, ap₂}
use idol_id_agents.Prelude.{
  ℕ, suc, ◌+◌, Text, true, false, ◌≡◌, ◌≢◌, refl, sym, ap, ◌∙◌, List, [], ◌∷◌, ◌++◌, eq_iff, length,
  is_empty, some, Fields, Result, ok, err, >>=-ok, ok-injective, if◌then◌else◌, Bool-cases, inl,
  inr, arith,
}
use idol_id_agents.Journal.{
  write_line, remember, Row, JournalError, Codec, File, Journal, genesis, last_hash, row_digest,
  next_row, is_fresh, check_row, check_decoded, check_line, read_from, read_locked, append_behind,
  append, snapshot, verify,
}
use idol_id_agents.Journal.Chain.{end_hash, check_line-IsLinked}

not_empty : (t : Text) → t ≢ [] → is_empty t ≡ false
not_empty [] h = absurd (h refl)
not_empty (x ∷ t) h = refl

module _ (c : Codec) where
  check_row-passes :
      (row : Row) (n : ℕ) (previous : Text)
      → row.sequence ≡ n
      → row.previous ≡ previous
      → row.hash ≡ row_digest c row
      → check_row c n previous row ≡ ok row
  unfolding check_row
  check_row-passes row n previous s p h =
      ground (arith, eq_iff row.previous previous, eq_iff row.hash (row_digest c row))

  -- A line that a well-placed row gives passes its checks.
  check_line-encode :
      (row : Row) (n : ℕ) (previous : Text)
      → c.encode row ≢ []
      → c.decode (c.encode row) ≡ some row
      → row.sequence ≡ n
      → row.previous ≡ previous
      → row.hash ≡ row_digest c row
      → check_line c n previous (c.encode row) ≡ ok row
  unfolding check_line check_decoded
  check_line-encode row n previous line decoded s p h =
      let filled : is_empty (c.encode row) ≡ false = not_empty (c.encode row) line in
      rw filled (ap (check_decoded c n previous) decoded ∙ check_row-passes row n previous s p h)

  read_from-snoc :
      (n : ℕ) (p : Text) (lines : List Text) (rows : List Row) (l : Text) (row : Row)
      → read_from c n p lines ≡ ok rows
      → check_line c (n + length rows) (end_hash p rows) l ≡ ok row
      → read_from c n p (lines ++ l ∷ []) ≡ ok (rows ++ row ∷ [])
  unfolding read_from
  read_from-snoc n p [] [] l row h k =
      let k' : check_line c n p l ≡ ok row = ap (λ m. check_line c m p l) (omega arith) ∙ k in rw k'
  read_from-snoc n p [] (x ∷ xs) l row h k = cc
  read_from-snoc n p (line ∷ rest) rows l row h k =
      let (r, one, more) = >>=-ok (check_line c n p line) _ h in
      let (rs, others, same) = >>=-ok (read_from c (suc n) (row_digest c r) rest) _ more in
      let linked = check_line-IsLinked c n p line one in
      let rows_eq : r ∷ rs ≡ rows = ok-injective same in
      let k₁ : check_line c (n + length (r ∷ rs)) (end_hash p (r ∷ rs)) l ≡ ok row =
        subst (λ t. check_line c (n + length t) (end_hash p t) l ≡ ok row) (sym rows_eq) k in
      let k₂ : check_line c (suc n + length rs) (end_hash (row_digest c r) rs) l ≡ ok row =
        ap₂ (λ m t. check_line c m (end_hash t rs) l) (omega arith) (sym linked.hash) ∙ k₁ in
      rw one (
        rw (read_from-snoc (suc n) (row_digest c r) rest rs l row others k₂)
          (ap (λ t. ok (t ++ row ∷ [])) rows_eq))

  last_hash-end : (rows : List Row) → last_hash rows ≡ end_hash genesis rows
  last_hash-end [] = refl
  last_hash-end (x ∷ []) = refl
  last_hash-end (x ∷ (y ∷ ys)) = last_hash-end (y ∷ ys)

  -- Reading a readable journal with one more record gives the rows and that record.
  pub read_locked-next :
      (lines : List Text) (rows : List Row) (kind : Text) (fact : Fields) (at : ℕ)
      → read_locked c lines ≡ ok rows
      → c.encode (next_row c rows kind fact at) ≢ []
      → c.decode (c.encode (next_row c rows kind fact at)) ≡ some (next_row c rows kind fact at)
      → read_locked c (lines ++ c.encode (next_row c rows kind fact at) ∷ [])
        ≡ ok (rows ++ next_row c rows kind fact at ∷ [])
  unfolding read_locked
  read_locked-next lines rows kind fact at h filled decoded =
      read_from-snoc 1 genesis lines rows _ _ h (
        check_line-encode (next_row c rows kind fact at) (1 + length rows) (end_hash genesis rows)
          filled decoded (omega arith) (last_hash-end rows) refl)

  -- The cache of a journal object holds what its file says, whenever the signatures agree.
  abbrev pub IsCoherent : File → Journal → Type 0
  IsCoherent f j = is_fresh f j ≡ true → read_locked c f.lines ≡ ok j.rows

  known_rows :
      (f : File) (j : Journal) (rows : List Row)
      → IsCoherent f j
      → read_locked c f.lines ≡ ok rows
      → (if is_fresh f j then ok j.rows else read_locked c f.lines) ≡ ok rows
  known_rows f j rows coherent h = elim (Bool-cases (is_fresh f j)) [
    | inl fresh ↦ rw fresh (sym (coherent fresh) ∙ h)
    | inr stale ↦ rw stale h
  ]

  -- A transaction that returns the next record, and leaves a readable file and a coherent cache.
  abbrev Reads :
      ℕ → Text → Fields → ℕ → File → Journal → List Row → Result JournalError (List Row) → Type 0
  Reads stamp kind fact at f j rows known =
      let (result, f', j') = append_behind c stamp kind fact at f j known in
      (result ≡ ok (next_row c rows kind fact at))
      × (read_locked c f'.lines ≡ ok (rows ++ next_row c rows kind fact at ∷ []))
      × IsCoherent f' j'
      × (f'.terminated ≡ true)

  behind-Reads :
      (stamp : ℕ) (kind : Text) (fact : Fields) (at : ℕ) (f : File) (j : Journal) (rows : List Row)
      → kind ≢ []
      → f.terminated ≡ true
      → read_locked c (f.lines ++ c.encode (next_row c rows kind fact at) ∷ [])
        ≡ ok (rows ++ next_row c rows kind fact at ∷ [])
      → Reads stamp kind fact at f j rows (ok rows)
  unfolding append_behind write_line
  behind-Reads stamp [] fact at f j rows named ended h = absurd (named refl)
  behind-Reads stamp (k ∷ kind) fact at f j rows named ended h =
      rw ended (refl, h, (λ fresh. h), refl)

  -- Appending a record of a non-empty kind to a readable journal with a coherent cache, whose last
  -- line has its newline, returns the next record and leaves a file that is readable, as the old rows
  -- and that record, whose last line has its newline, with a coherent cache; this supposes that the
  -- record's line is not empty and decodes to the record.
  pub append-reads :
      (stamp : ℕ) (kind : Text) (fact : Fields) (at : ℕ) (f : File) (j : Journal) (rows : List Row)
      → kind ≢ []
      → IsCoherent f j
      → f.terminated ≡ true
      → read_locked c f.lines ≡ ok rows
      → c.encode (next_row c rows kind fact at) ≢ []
      → c.decode (c.encode (next_row c rows kind fact at)) ≡ some (next_row c rows kind fact at)
      → (let (result, f', j') = append c stamp kind fact at f j in
          (result ≡ ok (next_row c rows kind fact at))
          × (read_locked c f'.lines ≡ ok (rows ++ next_row c rows kind fact at ∷ []))
          × IsCoherent f' j'
          × (f'.terminated ≡ true))
  unfolding append
  append-reads stamp kind fact at f j rows named coherent ended h filled decoded =
      subst (Reads stamp kind fact at f j rows) (sym (known_rows f j rows coherent h)) (
        behind-Reads stamp kind fact at f j rows named ended
          (read_locked-next f.lines rows kind fact at h filled decoded))

  refused_behind :
      (stamp : ℕ) (kind : Text) (fact : Fields) (at : ℕ) (f : File) (j : Journal)
      (known : Result JournalError (List Row)) {e : JournalError}
      → (append_behind c stamp kind fact at f j known).0 ≡ err e
      → ((append_behind c stamp kind fact at f j known).1 ≡ f)
        × ((append_behind c stamp kind fact at f j known).2 ≡ j)
  unfolding append_behind
  refused_behind stamp kind fact at f j (err e) h = (refl, refl)
  refused_behind stamp [] fact at f j (ok rows) h = (refl, refl)
  refused_behind stamp (k ∷ kind) fact at f j (ok rows) h = cc

  -- An append that raises has changed neither the file nor the object.
  pub append-refused :
      (stamp : ℕ) (kind : Text) (fact : Fields) (at : ℕ) (f : File) (j : Journal) (e : JournalError)
      → (append c stamp kind fact at f j).0 ≡ err e
      → ((append c stamp kind fact at f j).1 ≡ f) × ((append c stamp kind fact at f j).2 ≡ j)
  unfolding append
  append-refused stamp kind fact at f j e h = refused_behind stamp kind fact at f j _ h

  remember-result :
      (f : File) (j : Journal) (known : Result JournalError (List Row))
      → (remember c f j known).0 ≡ known
  unfolding remember
  remember-result f j (ok rows) = refl
  remember-result f j (err e) = refl

  -- The reader of a coherent cache gets what a reader of the file gets, rows and errors alike.
  pub snapshot-verify :
      (f : File) (j : Journal) → IsCoherent f j → (snapshot c f j).0 ≡ (verify c f j).0
  unfolding snapshot verify
  snapshot-verify f j coherent = elim (Bool-cases (is_fresh f j)) [
    | inl fresh ↦ rw fresh (sym (remember-result f j (read_locked c f.lines) ∙ coherent fresh))
    | inr stale ↦ rw stale refl
  ]

  -- A snapshot of a readable journal returns its rows, and leaves the cache coherent.
  pub snapshot-reads :
      (f : File) (j : Journal) (rows : List Row)
      → IsCoherent f j
      → read_locked c f.lines ≡ ok rows
      → ((snapshot c f j).0 ≡ ok rows) × IsCoherent f (snapshot c f j).1
  unfolding snapshot verify remember
  snapshot-reads f j rows coherent readable = elim (Bool-cases (is_fresh f j)) [
    | inl fresh ↦ rw fresh (sym (coherent fresh) ∙ readable, coherent)
    | inr stale ↦ rw (stale, readable) (refl, λ h. refl)
  ]
