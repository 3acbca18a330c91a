-- ===== src/Journal/Tamper.antt =====
-- The last hash of a journal pins down every record of it.
use mathlib.Core.Path.{subst}
use idol_id_agents.Prelude.{
  ℕ, suc, ◌+◌, Text, ◌≡◌, refl, sym, ap, ◌∙◌, List, [], ◌∷◌, last?, length, some, ok, arith, Any,
  inl, inr,
}
use idol_id_agents.Journal.{Row, Codec, genesis, row_digest, read_locked}
use idol_id_agents.Journal.Chain.{Chained, end_hash, read_locked-Chained}

-- Two rows with the same record, their hashes left aside.
pub record SameRecord (r s : Row) : Type 0 where
  pub sequence : r.sequence ≡ s.sequence
  pub at : r.at ≡ s.at
  pub kind : r.kind ≡ s.kind
  pub previous : r.previous ≡ s.previous
  pub fact : r.fact ≡ s.fact

module _ (c : Codec) where
  -- The digest tells the records of two journals apart.
  abbrev pub NoCollision : List Row → List Row → Type 0
  NoCollision xs ys =
      (r s : Row)
      → Any (λ x. x ≡ r) xs
      → Any (λ y. y ≡ s) ys
      → row_digest c r ≡ row_digest c s
      → SameRecord r s

  same_row : (r s : Row) → SameRecord r s → r.hash ≡ s.hash → r ≡ s
  same_row r s h e = λ i. record {
    sequence = h.sequence i;
    at = h.at i;
    kind = h.kind i;
    previous = h.previous i;
    fact = h.fact i;
    hash = e i;
  }

  rewind :
      (n : ℕ) (p q : Text) (xs ys : List Row)
      → Chained c n p xs
      → Chained c n q ys
      → length xs ≡ length ys
      → NoCollision xs ys
      → end_hash p xs ≡ end_hash q ys
      → (p ≡ q) × (xs ≡ ys)
  rewind n p q [] [] h k l clash e = (e, refl)
  rewind n p q [] (y ∷ ys) h k l clash e = absurd (omega arith)
  rewind n p q (x ∷ xs) [] h k l clash e = absurd (omega arith)
  rewind n p q (x ∷ xs) (y ∷ ys) h k l clash e =
      let (hashes, rests) =
        rewind (suc n) x.hash y.hash xs ys h.1 k.1 (omega arith)
          (λ r s mr ms. clash r s (inr mr) (inr ms)) e in
      let same = clash x y (inl refl) (inl refl) (sym h.0.hash ∙ hashes ∙ k.0.hash) in
      (sym h.0.previous ∙ same.previous ∙ k.0.previous, λ i. same_row x y same hashes i ∷ rests i)

  last_row :
      (n : ℕ) (p : Text) (xs : List Row) {r : Row}
      → Chained c n p xs
      → last? xs ≡ some r
      → (suc r.sequence ≡ n + length xs)
        × (end_hash p xs ≡ r.hash)
        × Any (λ x. x ≡ r) xs
        × (r.hash ≡ row_digest c r)
  last_row n p [] h e = cc
  last_row n p (x ∷ []) {r} h e =
      let same : x ≡ r = cc in
      (
        ap (λ t. suc t.sequence) (sym same) ∙ omega (arith, h.0.sequence),
        ap (λ t. t.hash) same,
        inl same,
        subst (λ t. t.hash ≡ row_digest c t) same h.0.hash,
      )
  last_row n p (x ∷ (y ∷ ys)) h e =
      let (sequence, ends, member, hash) = last_row (suc n) x.hash (y ∷ ys) h.1 e in
      (omega arith, ends, inr member, hash)

  -- Two journals that read without an error and end in rows of the same hash are the same journal,
  -- as long as the digest does not collide on their records: no earlier row can be changed, dropped,
  -- added or moved without changing the last hash.
  pub tamper_evident :
      (a b : List Text) (xs ys : List Row) (r s : Row)
      → read_locked c a ≡ ok xs
      → read_locked c b ≡ ok ys
      → last? xs ≡ some r
      → last? ys ≡ some s
      → r.hash ≡ s.hash
      → NoCollision xs ys
      → xs ≡ ys
  tamper_evident a b xs ys r s ra rb lr ls e clash =
      let hx = read_locked-Chained c a ra in
      let hy = read_locked-Chained c b rb in
      let (nx, ex, mx, dx) = last_row 1 genesis xs hx lr in
      let (ny, ey, my, dy) = last_row 1 genesis ys hy ls in
      let same = clash r s mx my (sym dx ∙ e ∙ dy) in
      let lengths : length xs ≡ length ys = omega (arith, same.sequence) in
      (rewind 1 genesis genesis xs ys hx hy lengths clash (ex ∙ e ∙ sym ey)).1
