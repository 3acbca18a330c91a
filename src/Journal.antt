-- ===== src/Journal.antt =====
-- fleet_control/journal.py: the append-only journal with its hash chain. The parameters stand for
-- the library calls: `digest` is the SHA-256 of a record without its hash, `decode` and `encode` are
-- `json.loads` and `json.dumps` of one record (a line that gives no record of the fields below is
-- refused like one that is no JSON), and `stamp_after` is the file signature that a write leaves.
pub mod Chain
pub mod Tamper
pub mod Append
use idol_id_agents.Prelude.{
  ℕ, suc, ◌+◌, Text, text, Bool, true, false, ◌&&◌, ◌||◌, not, List, [], ◌∷◌, ◌++◌, ◌==◌, nat_eq,
  any, keep, last?, length, is_empty, Option, none, some, Json, Fields, obj, Result, ok, err, ◌>>=◌,
  if◌then◌else◌,
}

pub record Row : Type 0 where
  pub sequence : ℕ
  pub at : ℕ
  pub kind : Text
  pub previous : Text
  pub fact : Json
  pub hash : Text

pub data JournalError : Type 0 where
  not_decoded empty_line broken_sequence broken_predecessor broken_hash : ℕ → JournalError
  kind_required : JournalError

abbrev pub zeros : ℕ → Text
zeros ℕ.zero = []
zeros (suc n) = b'0' ∷ zeros n

-- `"0" * 64`.
abbrev pub genesis : Text
genesis = zeros 64

pub record Codec : Type 0 where
  pub digest : ℕ → ℕ → Text → Text → Json → Text
  pub decode : Text → Option Row
  pub encode : Row → Text

-- The file: its lines without their newlines, whether the last one has its newline (an empty file
-- counts as such), and what `_file_signature` tells of it.
pub record File : Type 0 where
  pub lines : List Text
  pub terminated : Bool
  pub stamp : ℕ

-- The attributes `_rows` and `_signature` of a `Journal`.
pub record Journal : Type 0 where
  pub rows : List Row
  pub signature : Option ℕ

-- `rows[-1]["hash"] if rows else "0" * 64`.
abbrev pub last_hash : List Row → Text
last_hash rows = elim (last? rows) [ none ↦ genesis | some r ↦ r.hash ]

-- `journal.events(kinds)` of a snapshot.
unfoldable pub events : List Text → List Row → List Row
unfolding ◌==◌
events kinds rows = keep (λ r. any (λ k. r.kind == k) kinds) rows

-- The lines behind a write of a text and a newline at the end of the file: the text continues a last
-- line that has no newline.
unfoldable pub write_line : Bool → List Text → Text → List Text
write_line true lines line = lines ++ line ∷ []
write_line false [] line = line ∷ []
write_line false (last ∷ []) line = (last ++ line) ∷ []
write_line false (l ∷ (m ∷ rest)) line = l ∷ write_line false (m ∷ rest) line

-- The signature of the file is the one under which the object read it.
abbrev pub is_fresh : File → Journal → Bool
is_fresh f j = elim j.signature [ none ↦ false | some s ↦ nat_eq s f.stamp ]

module _ (c : Codec) where
  abbrev pub row_digest : Row → Text
  row_digest r = c.digest r.sequence r.at r.kind r.previous r.fact

  -- The checks of one line; `number` and `expected_sequence` are one number here, since the source
  -- counts both from 1.
  pub check_row : ℕ → Text → Row → Result JournalError Row
  unfolding ◌==◌
  check_row n previous row =
      if not (nat_eq row.sequence n)
      then err (broken_sequence n)
      else if not (row.previous == previous)
      then err (broken_predecessor n)
      else if not (row.hash == row_digest row)
      then err (broken_hash n)
      else ok row

  pub check_decoded : ℕ → Text → Option Row → Result JournalError Row
  unfolding check_row
  check_decoded n previous none = err (not_decoded n)
  check_decoded n previous (some row) = check_row n previous row

  pub check_line : ℕ → Text → Text → Result JournalError Row
  unfolding check_decoded
  check_line n previous line =
      if is_empty line then err (empty_line n) else check_decoded n previous (c.decode line)

  pub read_from : ℕ → Text → List Text → Result JournalError (List Row)
  unfolding check_line
  read_from n previous [] = ok []
  read_from n previous (line ∷ rest) = do
    row ← check_line n previous line
    rows ← read_from (suc n) (row_digest row) rest
    ok (row ∷ rows)

  -- `_read_locked`.
  unfoldable pub read_locked : List Text → Result JournalError (List Row)
  unfolding read_from
  read_locked = read_from 1 genesis

  -- `verify`, which always reads the file and keeps what it has read without an error.
  pub remember :
      File → Journal → Result JournalError (List Row) → Result JournalError (List Row) × Journal
  remember f j (ok rows) = (ok rows, record { rows = rows; signature = some f.stamp })
  remember f j (err e) = (err e, j)

  unfoldable pub verify : File → Journal → Result JournalError (List Row) × Journal
  unfolding read_locked remember
  verify f j = remember f j (read_locked f.lines)

  -- `_snapshot`, which trusts what it has read under the same signature.
  unfoldable pub snapshot : File → Journal → Result JournalError (List Row) × Journal
  unfolding verify
  snapshot f j = if is_fresh f j then (ok j.rows, j) else verify f j

  -- The record that `append` writes behind `rows`.
  abbrev pub next_row : List Row → Text → Fields → ℕ → Row
  next_row rows kind fact at =
      let sequence = length rows + 1 in
      let previous = last_hash rows in
      record {
        sequence = sequence;
        at = at;
        kind = kind;
        previous = previous;
        fact = obj fact;
        hash = c.digest sequence at kind previous (obj fact);
      }

  -- The transaction behind `rows = …`, and `JournalTransaction.append` in it.
  pub append_behind :
      ℕ
      → Text
      → Fields
      → ℕ
      → File
      → Journal
      → Result JournalError (List Row)
      → Result JournalError Row × File × Journal
  unfolding write_line
  append_behind stamp_after kind fact at f j (err e) = (err e, f, j)
  append_behind stamp_after kind fact at f j (ok rows) =
      let row = next_row rows kind fact at in
      if is_empty kind then (err kind_required, f, j) else (
        ok row,
        record {
          lines = write_line f.terminated f.lines (c.encode row);
          terminated = true;
          stamp = stamp_after;
        },
        record { rows = rows ++ row ∷ []; signature = some stamp_after },
      )

  -- `append`, a transaction of one record, on the file and the object. A transaction whose
  -- signature differs reads the file and leaves the cache alone until it appends.
  unfoldable pub append :
      ℕ → Text → Fields → ℕ → File → Journal → Result JournalError Row × File × Journal
  unfolding read_locked append_behind write_line
  append stamp_after kind fact at f j =
      append_behind stamp_after kind fact at f j
        (if is_fresh f j then ok j.rows else read_locked f.lines)
