-- ===== src/Journal/Chain.antt =====
-- What a journal that is read without an error looks like, and what its last hash pins down.
use mathlib.Core.Path.{subst}
use idol_id_agents.Prelude.{
  >>=-ok, ok-injective, ℕ, suc, Text, ◌≡◌, List, [], ◌∷◌, eq_iff, Option, none, some, ok, arith,
}
use idol_id_agents.Journal.{
  Row, Codec, genesis, row_digest, check_row, check_decoded, check_line, read_from, read_locked,
}

-- The hash behind which a further row would stand.
abbrev pub end_hash : Text → List Row → Text
end_hash p [] = p
end_hash p (r ∷ rest) = end_hash r.hash rest

module _ (c : Codec) where
  -- A row in its place: its number, the hash before it, and its own hash.
  pub record IsLinked (n : ℕ) (before : Text) (r : Row) : Type 0 where
    pub sequence : r.sequence ≡ n
    pub previous : r.previous ≡ before
    pub hash : r.hash ≡ row_digest c r

  -- The rows from number `n` on, behind the hash `previous`.
  abbrev pub Chained : ℕ → Text → List Row → Type 0
  Chained n previous [] = Unit
  Chained n previous (r ∷ rest) = IsLinked n previous r × Chained (suc n) r.hash rest

  check_row-IsLinked :
      (n : ℕ) (previous : Text) (row : Row) {r : Row}
      → check_row c n previous row ≡ ok r
      → (row ≡ r) × IsLinked n previous row
  unfolding check_row
  check_row-IsLinked n previous row h = (
    ground arith,
    record {
      sequence = ground arith;
      previous = ground (arith, eq_iff row.previous previous);
      hash = ground (arith, eq_iff row.hash (row_digest c row));
    },
  )

  check_decoded-IsLinked :
      (n : ℕ) (previous : Text) (found : Option Row) {r : Row}
      → check_decoded c n previous found ≡ ok r
      → IsLinked n previous r
  unfolding check_decoded
  check_decoded-IsLinked n previous none h = cc
  check_decoded-IsLinked n previous (some row) h =
      let (same, linked) = check_row-IsLinked n previous row h in
      subst (IsLinked n previous) same linked

  pub check_line-IsLinked :
      (n : ℕ) (previous line : Text) {r : Row}
      → check_line c n previous line ≡ ok r
      → IsLinked n previous r
  unfolding check_line
  check_line-IsLinked n previous [] h = cc
  check_line-IsLinked n previous (b ∷ line) h =
      check_decoded-IsLinked n previous (c.decode (b ∷ line)) h

  pub read_from-Chained :
      (n : ℕ) (previous : Text) (lines : List Text) {rows : List Row}
      → read_from c n previous lines ≡ ok rows
      → Chained n previous rows
  unfolding read_from
  read_from-Chained n previous [] {rows} h = subst (Chained n previous) (ok-injective h) tt
  read_from-Chained n previous (line ∷ rest) {rows} h =
      let (r, one, more) = >>=-ok (check_line c n previous line) _ h in
      let (rs, others, same) = >>=-ok (read_from c (suc n) (row_digest c r) rest) _ more in
      let linked = check_line-IsLinked n previous line one in
      subst (Chained n previous) (ok-injective same)
        (linked, rw linked.hash (read_from-Chained (suc n) (row_digest c r) rest others))

  -- A journal that reads without an error is a chain: its rows are numbered from 1, each names the
  -- hash of the row before it (the first names 64 zeros), and carries the digest of its own record.
  pub read_locked-Chained :
      (lines : List Text) {rows : List Row} → read_locked c lines ≡ ok rows → Chained 1 genesis rows
  unfolding read_locked
  read_locked-Chained lines h = read_from-Chained 1 genesis lines h
