-- ===== src/Reconcile/Settled.antt =====
-- One call of `reconcile` leaves nothing for a second one.
use mathlib.Core.Path.{subst}
use idol_id_agents.Prelude.{
  ℕ, suc, ◌+◌, Text, true, false, ◌≡◌, ◌≢◌, refl, sym, ap, ◌∙◌, List, [], ◌∷◌, ◌++◌, Bool-cases,
  inl, inr, length, All, Result, ok, err, some, text_lt, ok-injective,
}
use idol_id_agents.Scheduler.Sort.{sort}
use idol_id_agents.Journal.{
  Row, JournalError, Codec, File, Journal, next_row, read_locked, snapshot, append, last_hash,
}
use idol_id_agents.Journal.Append.{IsCoherent, append-reads, snapshot-reads}
use idol_id_agents.Reconcile.{
  Latest, Outcome, cancelled, is_orphan, cancellation, latest_of, expire, with_id, sorted_ids,
  reconcile_behind, reconcile,
}
use idol_id_agents.Reconcile.Orphans.{
  IsKeyed, Pending, Settled, Pending-Settled, Pending-skip, Pending-self, put-IsKeyed, put-Pending,
  closed, closed-settled, latest_of-cancellation, latest_of-IsKeyed,
}

cancelled-named : cancelled ≢ []
cancelled-named h = cc

module _ (c : Codec) (stamps : ℕ → ℕ) (ttl now : ℕ) where
  -- The cancellation of an attempt, written behind some rows, gives a line that decodes to it.
  abbrev pub Encodes : Latest → Type 0
  Encodes e =
      (rows : List Row)
      → (c.encode (next_row c rows cancelled (cancellation e) now) ≢ [])
        × (c.decode (c.encode (next_row c rows cancelled (cancellation e) now))
            ≡ some (next_row c rows cancelled (cancellation e) now))

  -- The call returned; its journal is readable, with a coherent cache, and has no orphan.
  pub record IsSettled (outcome : Outcome) : Type 0 where
    pub ids : List Text
    pub returned : outcome.0 ≡ ok ids
    pub rows : List Row
    pub readable : read_locked c outcome.1.lines ≡ ok rows
    pub coherent : IsCoherent c outcome.1 outcome.2
    pub terminated : outcome.1.terminated ≡ true
    pub settled : Settled ttl now (latest_of rows)

  with_id-IsSettled : (id : Text) (o : Outcome) → IsSettled o → IsSettled (with_id id o)
  unfolding with_id
  with_id-IsSettled id (ok ids, f, j) h = record {
    ids = id ∷ ids;
    returned = refl;
    rows = h.rows;
    readable = h.readable;
    coherent = h.coherent;
    terminated = h.terminated;
    settled = h.settled;
  }
  with_id-IsSettled id (err e, f, j) h = absurd (cc h.returned)

  sorted_ids-IsSettled : (o : Outcome) → IsSettled o → IsSettled (sorted_ids o)
  unfolding sorted_ids
  sorted_ids-IsSettled (ok ids, f, j) h = record {
    ids = sort text_lt ids;
    returned = refl;
    rows = h.rows;
    readable = h.readable;
    coherent = h.coherent;
    terminated = h.terminated;
    settled = h.settled;
  }
  sorted_ids-IsSettled (err e, f, j) h = absurd (cc h.returned)

  expire-skip :
      (n : ℕ) (e : Latest) (rest : List Latest) (f : File) (j : Journal)
      → is_orphan ttl now e ≡ false
      → expire c stamps ttl now n (e ∷ rest) f j ≡ expire c stamps ttl now n rest f j
  unfolding expire
  expire-skip n e rest f j h = rw (h, expire) refl

  -- The loop behind an append that returned.
  expire-append :
      (n : ℕ) (e : Latest) (rest : List Latest) (f : File) (j : Journal) {row : Row}
      → is_orphan ttl now e ≡ true
      → (append c (stamps n) cancelled (cancellation e) now f j).0 ≡ ok row
      → (let (result, f', j') = append c (stamps n) cancelled (cancellation e) now f j in
          expire c stamps ttl now n (e ∷ rest) f j
          ≡ with_id e.order_id (expire c stamps ttl now (suc n) rest f' j'))
  unfolding expire
  expire-append n e rest f j h k = rw (h, k, expire) refl

  expire-IsSettled :
      (n : ℕ) (todo : List Latest) (f : File) (j : Journal) (rows : List Row)
      → All Encodes todo
      → IsCoherent c f j
      → f.terminated ≡ true
      → read_locked c f.lines ≡ ok rows
      → IsKeyed (latest_of rows)
      → Pending ttl now todo (latest_of rows)
      → IsSettled (expire c stamps ttl now n todo f j)
  unfolding expire
  expire-IsSettled n [] f j rows lines coherent ended readable keyed pending = record {
    ids = [];
    returned = refl;
    rows = rows;
    readable = readable;
    coherent = coherent;
    terminated = ended;
    settled = Pending-Settled ttl now (latest_of rows) pending;
  }
  expire-IsSettled n (e ∷ rest) f j rows lines coherent ended readable keyed pending =
      elim (Bool-cases (is_orphan ttl now e)) [
        | inr other ↦ subst IsSettled (sym (expire-skip n e rest f j other)) (
            expire-IsSettled n rest f j rows lines.1 coherent ended readable keyed
              (Pending-skip ttl now e rest (latest_of rows) other pending))
        | inl orphan ↦
            let (filled, decoded) = lines.0 rows in
            let (done, reads, fresh, ended_after) =
              append-reads c (stamps n) cancelled (cancellation e) now f j rows cancelled-named
                coherent ended readable filled decoded in
            let next = next_row c rows cancelled (cancellation e) now in
            let put_one =
              latest_of-cancellation ttl now rows (length rows + 1) (last_hash rows) next.hash e in
            let (result, f', j') = append c (stamps n) cancelled (cancellation e) now f j in
            subst IsSettled (sym (expire-append n e rest f j orphan done)) (
              with_id-IsSettled e.order_id (expire c stamps ttl now (suc n) rest f' j') (
                expire-IsSettled (suc n) rest f' j' (rows ++ next ∷ []) lines.1 fresh ended_after
                  reads
                  (subst IsKeyed (sym put_one)
                    (put-IsKeyed (closed ttl now e) (latest_of rows) keyed))
                  (subst (Pending ttl now rest) (sym put_one) (
                    put-Pending ttl now (closed ttl now e) e rest (latest_of rows) refl
                      (closed-settled ttl now e) keyed pending))))
      ]

  reconcile-behind_ok :
      (f : File) (known : Result JournalError (List Row) × Journal) (rows : List Row)
      → known.0 ≡ ok rows
      → reconcile_behind c stamps ttl now f known
        ≡ sorted_ids (expire c stamps ttl now 0 (latest_of rows) f known.1)
  unfolding reconcile_behind
  reconcile-behind_ok f (ok xs, j) rows h = rw (ok-injective h) refl
  reconcile-behind_ok f (err e, j) rows h = absurd (cc h)

  -- On a readable journal with a coherent cache, whose last line has its newline and whose
  -- cancellations encode, `reconcile` returns, and leaves such a journal in which no attempt is an
  -- orphan.
  pub reconcile-IsSettled :
      (f : File) (j : Journal) (rows : List Row)
      → IsCoherent c f j
      → f.terminated ≡ true
      → read_locked c f.lines ≡ ok rows
      → All Encodes (latest_of rows)
      → IsSettled (reconcile c stamps ttl now f j)
  unfolding reconcile
  reconcile-IsSettled f j rows coherent ended readable lines =
      let (known, kept) = snapshot-reads c f j rows coherent readable in
      subst IsSettled (sym (reconcile-behind_ok f (snapshot c f j) rows known)) (
        sorted_ids-IsSettled _ (
          expire-IsSettled 0 (latest_of rows) f (snapshot c f j).1 rows lines kept ended readable
            (latest_of-IsKeyed rows) (Pending-self ttl now (latest_of rows))))

  idle-expire :
      (n : ℕ) (todo : List Latest) (f : File) (j : Journal)
      → Settled ttl now todo
      → expire c stamps ttl now n todo f j ≡ (ok [], f, j)
  unfolding expire
  idle-expire n [] f j h = refl
  idle-expire n (e ∷ rest) f j h = expire-skip n e rest f j h.0 ∙ idle-expire n rest f j h.1

  -- A call on a journal without orphans.
  idle-reconcile :
      (f : File) (j : Journal) (rows : List Row)
      → IsCoherent c f j
      → read_locked c f.lines ≡ ok rows
      → Settled ttl now (latest_of rows)
      → reconcile c stamps ttl now f j ≡ (ok [], f, (snapshot c f j).1)
  unfolding reconcile sorted_ids sort
  idle-reconcile f j rows coherent readable settled =
      let (known, kept) = snapshot-reads c f j rows coherent readable in
      reconcile-behind_ok f (snapshot c f j) rows known
      ∙ ap sorted_ids (idle-expire 0 (latest_of rows) f (snapshot c f j).1 settled)

  -- A second `reconcile` at the same time, behind the first one of a readable journal with a
  -- coherent cache, whose last line has its newline and whose cancellations encode, cancels nothing and leaves the file as it is.
  pub reconcile-reconcile :
      (f : File) (j : Journal) (rows : List Row)
      → IsCoherent c f j
      → f.terminated ≡ true
      → read_locked c f.lines ≡ ok rows
      → All Encodes (latest_of rows)
      → (let (first, f', j') = reconcile c stamps ttl now f j in
          let (second, f'', j'') = reconcile c stamps ttl now f' j' in
          (second ≡ ok []) × (f'' ≡ f'))
  reconcile-reconcile f j rows coherent ended readable lines =
      let h = reconcile-IsSettled f j rows coherent ended readable lines in
      let (first, f', j') = reconcile c stamps ttl now f j in
      let idle = idle-reconcile f' j' h.rows h.coherent h.readable h.settled in
      (ap (λ o. o.0) idle, ap (λ o. o.1) idle)
