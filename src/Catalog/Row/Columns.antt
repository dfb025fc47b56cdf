-- ===== src/Catalog/Row/Columns.antt =====
-- The column loops of `serialize_row_with_mvcc` and `deserialize_row_with_mvcc`, in step.
use custom_db.Prelude.{
  ℕ, ◌+◌, ◌*◌, ◌^◌, ◌≤◌, ◌<◌, ◌≡◌, arith, List, [], ◌∷◌, ◌++◌, length, length-append, Bool-cases,
  inl, inr, ◌∙◌,
}
use custom_db.Catalog.Types.{
  ColumnType, int, float, double, bool, blob, numeric, decimal, Value, Floats,
}
use custom_db.Catalog.Varint.{Memory, from, IsU64, put_varint}
use custom_db.Catalog.Varint.RoundTrip.{
  Holds, Holds-from, Holds-append, get_varint-put_varint, put_varint_shape,
}
use custom_db.Catalog.Row.Encode.{
  encode_int, encode_text, encode_by_type, encode_value, add_type, encode_columns,
}
use custom_db.Catalog.Row.Decode.{u32, decode_columns}
use custom_db.Catalog.Row.Cells.{IsStored, encode_text_stored, read_back, decode_value-encode_value}
use mathlib.Core.List.{append_assoc, append-nil}
use native.Mathlib.Nat.{mod-eq_of_lt}

-- A row of stored values, one to a column.
abbrev pub Stored : List ColumnType → List Value → Type 0
Stored [] [] = Unit
Stored (col ∷ cols) (v ∷ vs) = IsStored v × Stored cols vs
Stored _ _ = ⊥

-- The guard on the header buffer passes while there is room.
pub add_type_room :
    (hdr : List ℕ) (t : ℕ) → length hdr + 16 ≤ 4096 → add_type hdr t ≡ hdr ++ put_varint t
unfolding add_type
add_type_room hdr t h = ground arith

module _ (fl : Floats) where
  -- The header and the body that the columns take, and the values that a reader finds.
  unfoldable pub types : List ColumnType → List Value → List ℕ
  types (col ∷ cols) (v ∷ vs) = put_varint (encode_value fl col v).0 ++ types cols vs
  types _ _ = []

  unfoldable pub bodies : List ColumnType → List Value → List ℕ
  bodies (col ∷ cols) (v ∷ vs) = (encode_value fl col v).1 ++ bodies cols vs
  bodies _ _ = []

  unfoldable pub read_all : List ColumnType → List Value → List Value
  read_all (col ∷ cols) (v ∷ vs) = read_back fl col v ∷ read_all cols vs
  read_all _ _ = []

  text_type-IsU64 : (tag : ℕ) (v : Value) → tag ≤ 13 → IsStored v → IsU64 (encode_text tag v).0
  text_type-IsU64 tag v h stored =
      rw (encode_text_stored tag v stored) (omega (arith, stored.text_fits))

  int_type-IsU64 : (w : ℕ) → IsU64 (encode_int w).0
  unfolding encode_int
  int_type-IsU64 w = ground arith

  by_type-IsU64 : (col : ColumnType) (v : Value) → IsStored v → IsU64 (encode_by_type fl col v).0
  unfolding encode_by_type
  by_type-IsU64 int v s = int_type-IsU64 v.int_val
  by_type-IsU64 bool v s = ground arith
  by_type-IsU64 float v s = omega arith
  by_type-IsU64 double v s = omega arith
  by_type-IsU64 numeric v s = omega arith
  by_type-IsU64 decimal v s = omega arith
  by_type-IsU64 blob v s = text_type-IsU64 12 v (omega arith) s
  by_type-IsU64 col v s = text_type-IsU64 13 v (omega arith) s

  type-IsU64 : (col : ColumnType) (v : Value) → IsStored v → IsU64 (encode_value fl col v).0
  unfolding encode_value
  type-IsU64 col v s = elim (Bool-cases v.is_null) [
    | inl null ↦ simp null (omega arith)
    | inr there ↦ simp there (by_type-IsU64 col v s)
  ]

  pub length-types :
      (cols : List ColumnType) (vs : List Value)
      → Stored cols vs
      → length (types cols vs) ≤ 10 * length cols
  unfolding types
  length-types [] [] s = omega arith
  length-types [] (v ∷ vs) s = absurd s
  length-types (col ∷ cols) [] s = absurd s
  length-types (col ∷ cols) (v ∷ vs) (s, ss) = omega (
    arith,
    length-append (put_varint (encode_value fl col v).0) (types cols vs),
    put_varint_shape (encode_value fl col v).0 (type-IsU64 col v s),
    length-types cols vs ss,
  )

  pub encode_columns_lem :
      (cols : List ColumnType) (vs : List Value) (hdr body : List ℕ)
      → Stored cols vs
      → length hdr + 10 * length cols + 16 ≤ 4096
      → encode_columns fl cols vs hdr body ≡ (hdr ++ types cols vs, body ++ bodies cols vs)
  unfolding types bodies encode_columns
  encode_columns_lem [] [] hdr body s h = rw (append-nil, append-nil)
  encode_columns_lem [] (v ∷ vs) hdr body s h = absurd s
  encode_columns_lem (col ∷ cols) [] hdr body s h = absurd s
  encode_columns_lem (col ∷ cols) (v ∷ vs) hdr body (s, ss) h =
      let bytes = put_varint (encode_value fl col v).0 in
      let room : length (hdr ++ bytes) + 10 * length cols + 16 ≤ 4096 = omega (
        arith,
        length-append hdr bytes,
        put_varint_shape (encode_value fl col v).0 (type-IsU64 col v s),
      ) in
      rw (add_type_room hdr (encode_value fl col v).0 (omega arith)) (
        encode_columns_lem cols vs (hdr ++ bytes) (body ++ (encode_value fl col v).1) ss room
        ∙ rw (append_assoc, append_assoc))

  pub decode_columns_lem :
      (cols : List ColumnType) (vs : List Value) (p : Memory) (h b : ℕ)
      → Stored cols vs
      → Holds p h (types cols vs)
      → Holds p b (bodies cols vs)
      → h + length (types cols vs) < 2 ^ 32
      → b + length (bodies cols vs) < 2 ^ 32
      → decode_columns fl cols p h b
        ≡ (read_all cols vs, h + length (types cols vs), b + length (bodies cols vs))
  unfolding types bodies read_all decode_columns
  decode_columns_lem [] [] p h b s ht hb lh lb = ground arith
  decode_columns_lem [] (v ∷ vs) p h b s ht hb lh lb = absurd s
  decode_columns_lem (col ∷ cols) [] p h b s ht hb lh lb = absurd s
  decode_columns_lem (col ∷ cols) (v ∷ vs) p h b (s, ss) ht hb lh lb =
      let t = (encode_value fl col v).0 in
      let bytes = (encode_value fl col v).1 in
      let (ht0, ht1) = Holds-append p h (put_varint t) (types cols vs) ht in
      let (hb0, hb1) = Holds-append p b bytes (bodies cols vs) hb in
      let lt = length-append (put_varint t) (types cols vs) in
      let lbs = length-append bytes (bodies cols vs) in
      let eh : u32 (h + length (put_varint t)) ≡ h + length (put_varint t) =
        mod-eq_of_lt (omega (arith, lt)) in
      let eb : u32 (b + length bytes) ≡ b + length bytes = mod-eq_of_lt (omega (arith, lbs)) in
      rw
        (
          get_varint-put_varint t p h (type-IsU64 col v s) ht0,
          decode_value-encode_value fl v (from p b) s col
              (Holds-from p b 0 b bytes (omega arith) hb0),
          eh,
          eb,
          decode_columns_lem cols vs p (h + length (put_varint t)) (b + length bytes) ss ht1 hb1
              (omega (arith, lt)) (omega (arith, lbs)),
        )
        (ground (arith, lt, lbs))
