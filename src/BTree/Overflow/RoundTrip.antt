-- ===== src/BTree/Overflow/RoundTrip.antt =====
-- A row is read back from its cell and its overflow pages.
use custom_db.Prelude.{
  ℕ, ◌+◌, ◌*◌, ◌^◌, ◌≤◌, ◌<◌, ◌≡◌, ◌==◌, refl, sym, ap, ◌⊎◌, inl, inr, true, false, Option, none,
  some, List, [], ◌∷◌, All, length, length-take, get_or, take, drop, ltb, ltb→lt, arith, Bool-cases,
}
use custom_db.Catalog.Varint.{Memory}
use custom_db.Catalog.Row.Encode.{le_bytes}
use custom_db.BTree.Keys.{cell_is_overflow_stub}
use custom_db.BTree.Cursor.{Pages}
use custom_db.BTree.Overflow.{
  Unused, btree_write_overflow_chain, btree_read_overflow_chain, serialize_cell_for_leaf,
  cursor_value,
}
use custom_db.BTree.Overflow.Rounds.{Fresh, Outside, length-drop}
use custom_db.BTree.Overflow.Stub.{Stands, stub, chain_written, not_leb, not_ltb, cursor_value-stub}
use mathlib.Core.Path.{subst}

is_ltb : (a b : ℕ) → a < b → ltb a b ≡ true
is_ltb a b h = ground (arith, h)

ltb→ge : (a b : ℕ) → ltb a b ≡ false → b ≤ a
ltb→ge a b h = ground (arith, h)

stub-size :
    (total first : ℕ) (chunk : List ℕ)
    → length chunk ≡ 1016
    → length (stub total first chunk) ≡ 1024
unfolding le_bytes
stub-size total first chunk h = omega (arith, h)

-- The cell of a short row, and of a long one.
inline_cell :
    (unused : List Unused) (row : List ℕ) (pages : Pages)
    → length row < 1024
    → serialize_cell_for_leaf unused row pages ≡ some (row, pages)
unfolding serialize_cell_for_leaf
inline_cell unused row pages h = let short = is_ltb (length row) 1024 h in rw short refl

stub_cell :
    (unused : List Unused) (row : List ℕ) (first : ℕ) (pages ps : Pages)
    → 1024 ≤ length row
    → btree_write_overflow_chain unused (drop 1016 row) pages ≡ some (first, ps)
    → serialize_cell_for_leaf unused row pages ≡ some (stub (length row) first (take 1016 row), ps)
unfolding serialize_cell_for_leaf
stub_cell unused row first pages ps h run =
    let long = not_ltb (length row) 1024 h in
    let go : Option (ℕ × Pages) → Option (List ℕ × Pages) = λ o. elim o [
      | none ↦ none
      | some (f, written) ↦ some (stub (length row) f (take 1016 row), written)
    ] in
    rw long (ap go run)

-- What serializing a row's cell gives: a cell that fits a leaf, from which the row is read back.
pub record Kept (unused : List Unused) (row : List ℕ) (reserved : ℕ) (pages : Pages) (cell : List ℕ)
    (ps : Pages) : Type 0 where
  pub fits : length cell ≤ 1024
  pub read :
      (m : Memory)
      → Stands m cell
      → (k : ℕ) → k < length row
      → cursor_value ps reserved (length cell) m k ≡ get_or row k 0
  pub apart : (q b : ℕ) → Outside q unused → ((q == 0) ≡ false) ⊎ (b < 4092) → ps q b ≡ pages q b

inline-Kept :
    (unused : List Unused) (row : List ℕ) (reserved : ℕ) (pages : Pages)
    → length row < 1024
    → Kept unused row reserved pages row pages
unfolding cursor_value cell_is_overflow_stub
inline-Kept unused row reserved pages h =
    let short = not_leb 1024 (length row) h in
    record {
      fits = omega (arith, h);
      read = λ m stands k h'. rw short (stands k h');
      apart = λ q b out side. refl;
    }

stub-Kept :
    (u : Unused) (us : List Unused) (row : List ℕ) (reserved : ℕ) (pages ps : Pages)
    → Fresh (u ∷ us)
    → reserved ≤ u.page_num
    → 1024 ≤ length row
    → length row < 2 ^ 32
    → btree_read_overflow_chain ps u.page_num (length (drop 1016 row)) ≡ drop 1016 row
    → ((q b : ℕ) → Outside q (u ∷ us) → ((q == 0) ≡ false) ⊎ (b < 4092) → ps q b ≡ pages q b)
    → Kept (u ∷ us) row reserved pages (stub (length row) u.page_num (take 1016 row)) ps
stub-Kept u us row reserved pages ps (some_, valid, others, fresh) kept long small chain apart =
    let whole = length-take 1016 row (omega (arith, long)) in
    let n = u.page_num in
    let size : length (stub (length row) n (take 1016 row)) ≡ 1024 =
      stub-size (length row) n (take 1016 row) whole in
    record {
      fits = omega (arith, size);
      read = λ m stands k h.
          subst (λ s. cursor_value ps reserved s m k ≡ get_or row k 0) (sym size)
            (ap (λ (r : Memory). r k)
              (cursor_value-stub ps reserved n row m long small some_ valid kept chain stands));
      apart = apart;
    }

long_row :
    (unused : List Unused) (row : List ℕ) (reserved : ℕ) (pages : Pages)
    → Fresh unused
    → All (λ u. reserved ≤ u.page_num) unused
    → length row < 2 ^ 32
    → 1024 ≤ length row
    → length row ≤ 1016 + 4092 * length unused
    → (cell : List ℕ) × (ps : Pages) × (serialize_cell_for_leaf unused row pages ≡ some (cell, ps))
      × Kept unused row reserved pages cell ps
long_row [] row reserved pages fresh kept small long enough = absurd (omega (arith, long, enough))
long_row (u ∷ us) row reserved pages fresh kept small long enough =
    let left = length-drop 1016 row in
    let (ps, run, chain, apart) =
      chain_written u us (drop 1016 row) pages fresh (omega (arith, left, long))
        (omega (arith, left, enough)) in
    (
      stub (length row) u.page_num (take 1016 row),
      ps,
      stub_cell (u ∷ us) row u.page_num pages ps long run,
      stub-Kept u us row reserved pages ps fresh (kept.0) long small chain apart,
    )

-- A row whose bytes have been made, fewer than 2 ^ 32, given enough pages for those that a cell has no
-- room for, freed ones or new ones, whose numbers differ from each other and are neither 0 nor the
-- invalid one nor the catalog's, gets a cell of at most 1,024 bytes, from which, wherever these bytes
-- stand, `cursor_value` reads back all bytes of the row, through the overflow pages if there are any.
-- No byte of another page changes, but for the last four of page 0, where the head of the free list is.
pub cursor_value-serialize_cell_for_leaf :
    (unused : List Unused) (row : List ℕ) (reserved : ℕ) (pages : Pages)
    → Fresh unused
    → All (λ u. reserved ≤ u.page_num) unused
    → length row < 2 ^ 32
    → (length row ≤ 1016 + 4092 * length unused) ⊎ (length row < 1024)
    → (cell : List ℕ) × (ps : Pages) × (serialize_cell_for_leaf unused row pages ≡ some (cell, ps))
      × Kept unused row reserved pages cell ps
cursor_value-serialize_cell_for_leaf unused row reserved pages fresh kept small enough =
    elim (Bool-cases (ltb (length row) 1024)) [
      | inl e ↦
          (let short = ltb→lt (length row) 1024 e in
            (
              row,
              pages,
              inline_cell unused row pages short,
              inline-Kept unused row reserved pages short,
            ))
      | inr e ↦
          long_row unused row reserved pages fresh kept small (ltb→ge (length row) 1024 e)
            (elim enough [
              | inl h ↦ h
              | inr h ↦ absurd (omega (arith, h, ltb→ge (length row) 1024 e))
            ])
    ]
