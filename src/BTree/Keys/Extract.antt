-- ===== src/BTree/Keys/Extract.antt =====
-- The key that the tree reads from a cell, and the row that is stored there.
use custom_db.Prelude.{ℕ, ◌^◌, ◌≤◌, ◌<◌, ◌≡◌, ap, ◌∙◌, false, List, [], ◌∷◌, length, leb, arith}
use custom_db.Catalog.Types.{ColumnType, int, Value, Floats, is_double}
use custom_db.Catalog.Varint.{Memory, from, IsU64, get_varint}
use custom_db.Catalog.Varint.RoundTrip.{Holds}
use custom_db.Catalog.Row.Encode.{serialize_row_with_mvcc}
use custom_db.Catalog.Row.Decode.{
  u32, set_int, set_double, set_constant, set_text, decode_value, decode_columns,
  deserialize_row_with_mvcc,
}
use custom_db.Catalog.Row.Cells.{read_back, typed_value}
use custom_db.Catalog.Row.Columns.{Stored, read_all}
use custom_db.Catalog.Row.RoundTrip.{deserialize_row_with_mvcc-serialize_row_with_mvcc}
use custom_db.BTree.Keys.{
  cell_is_overflow_stub, extract_constant, extract_value, extract_col0_from_packed_record,
}

abbrev int_of_first : List Value → ℕ
int_of_first [] = 0
int_of_first (v ∷ vs) = v.int_val

-- An INT column is read alike by the tree and by the row format.
extract_value-int :
    (fl : Floats) (t : ℕ) (p : Memory)
    → (extract_value fl int t p).int_val ≡ (decode_value fl int t p).0.int_val
unfolding extract_value decode_value set_int set_double set_constant extract_constant set_text
    is_double
extract_value-int fl t p = ground arith

extract-deserialize :
    (fl : Floats) (cols : List ColumnType) (size : ℕ) (p : Memory)
    → size < 1024
    → (extract_col0_from_packed_record fl int size p).int_val
      ≡ int_of_first (deserialize_row_with_mvcc fl (int ∷ cols) p).values
unfolding extract_col0_from_packed_record deserialize_row_with_mvcc decode_columns
    cell_is_overflow_stub
extract-deserialize fl cols size p h =
    let inline : leb 1024 size ≡ false = ground arith in
    let (n, total) = get_varint p in
    rw inline (extract_value-int fl (get_varint (from p n)).1 (from p (u32 total)))

-- From the bytes of a row of at most sixteen stored values, the first of them of type INT and not NULL,
-- in a cell that is not an overflow stub, the tree reads that value as its key.
pub extract-serialize :
    (fl : Floats) (cols : List ColumnType) (v : Value) (vs : List Value) (e x y size : ℕ)
    (p : Memory)
    → v.is_null ≡ false
    → Stored (int ∷ cols) (v ∷ vs)
    → length (int ∷ cols) ≤ 16
    → IsU64 e × IsU64 x × IsU64 y
    → length (serialize_row_with_mvcc fl (int ∷ cols) (v ∷ vs) e x y) < 2 ^ 32
    → size < 1024
    → Holds p 0 (serialize_row_with_mvcc fl (int ∷ cols) (v ∷ vs) e x y)
    → (extract_col0_from_packed_record fl int size p).int_val ≡ v.int_val
unfolding read_all read_back typed_value
extract-serialize fl cols v vs e x y size p there stored few words small inline held =
    extract-deserialize fl cols size p inline
    ∙ ap (λ r. int_of_first r.values)
        (deserialize_row_with_mvcc-serialize_row_with_mvcc fl (int ∷ cols) (v ∷ vs) e x y p stored
          few words small held)
    ∙ simp there
