-- ===== src/BTree/Keys.antt =====
-- The keys of src/btree.c: `compare_keys`, `compare_values`, `serialize_col0_key` and
-- `extract_col0_from_packed_record`.
pub mod Order
pub mod Extract
use custom_db.Prelude.{
  ℕ, zero, suc, ◌+◌, ◌-◌, ◌*◌, ◌/◌, ◌%◌, ◌^◌, Bool, true, false, not, ◌&&◌, List, [], ◌∷◌, ◌++◌,
  take, ltb, leb, ◌==◌, if◌then◌else◌,
}
use custom_db.Catalog.Types.{
  ColumnType, int, text, float, double, bool, varchar, blob, datetime, date, time, timestamp,
  numeric, decimal, vector, Value, value_init, Floats, is_nonzero, is_double,
}
use custom_db.Catalog.Varint.{Memory, from, get_varint}
use custom_db.Catalog.Row.Encode.{le_bytes, strlen}
use custom_db.Catalog.Row.Decode.{
  u32, read_le, sign_extend, set_double, set_constant, set_text, text_length,
}
use custom_db.Pager.Cache.{store_bytes}

-- A C comparison's result: below zero, zero, above zero.
pub data Sign : Type 0 where
  negative nil positive : Sign

-- How the machine orders floats and doubles, by their bit patterns: `a < b`.
pub record FloatOrder : Type 0 where
  pub float_lt : ℕ → ℕ → Bool
  pub double_lt : ℕ → ℕ → Bool

-- `(v1 > v2) - (v1 < v2)`
abbrev pub difference : Bool → Bool → Sign
difference true true = nil
difference true false = positive
difference false true = negative
difference false false = nil

abbrev pub sign_of : ℕ → ℕ → Sign
sign_of a b = difference (ltb b a) (ltb a b)

-- An `int32_t` pattern's place in the order of the integers.
abbrev pub biased : ℕ → ℕ
biased w = (w + 2 ^ 31) % 2 ^ 32

-- `strcmp` on two keys, which are 32 bytes, the last of a text being zero.
unfoldable pub strcmp_loop : ℕ → Memory → Memory → Sign
strcmp_loop zero p q = nil
strcmp_loop (suc n) p q =
    let rest = strcmp_loop n (from p 1) (from q 1) in
    if not (p 0 == q 0) then sign_of (p 0) (q 0) else if p 0 == 0 then nil else rest

unfoldable pub memcmp : ℕ → Memory → Memory → Sign
memcmp zero p q = nil
memcmp (suc n) p q =
    let rest = memcmp n (from p 1) (from q 1) in
    if not (p 0 == q 0) then sign_of (p 0) (q 0) else rest

unfoldable pub compare_varchar : Memory → Memory → Sign
unfolding memcmp read_le
compare_varchar k1 k2 =
    let len1 = read_le 2 k1 in
    let len2 = read_le 2 k2 in
    let res = memcmp (if ltb len1 len2 then len1 else len2) (from k1 2) (from k2 2) in
    elim res [ negative ↦ negative | positive ↦ positive | nil ↦ sign_of len1 len2 ]

abbrev pub key_size : ℕ
key_size = 32

-- A `double` key of one of the three types.
abbrev pub compare_double : FloatOrder → Memory → Memory → Sign
unfolding read_le
compare_double fo k1 k2 =
    difference (fo.double_lt (read_le 8 k2) (read_le 8 k1))
      (fo.double_lt (read_le 8 k1) (read_le 8 k2))

unfoldable pub compare_keys : FloatOrder → ColumnType → Memory → Memory → Sign
unfolding read_le strcmp_loop compare_varchar
compare_keys fo int k1 k2 = sign_of (biased (read_le 4 k1)) (biased (read_le 4 k2))
compare_keys fo float k1 k2 =
    difference (fo.float_lt (read_le 4 k2) (read_le 4 k1))
      (fo.float_lt (read_le 4 k1) (read_le 4 k2))
compare_keys fo double k1 k2 = compare_double fo k1 k2
compare_keys fo numeric k1 k2 = compare_double fo k1 k2
compare_keys fo decimal k1 k2 = compare_double fo k1 k2
compare_keys fo bool k1 k2 = sign_of (k1 0) (k2 0)
compare_keys fo varchar k1 k2 = compare_varchar k1 k2
compare_keys fo _ k1 k2 = strcmp_loop key_size k1 k2

-- `strcmp` on texts, whose end is a zero.
unfoldable pub compare_texts : List ℕ → List ℕ → Sign
compare_texts [] [] = nil
compare_texts [] (d ∷ ds) = if d == 0 then nil else negative
compare_texts (c ∷ cs) [] = if c == 0 then nil else positive
compare_texts (c ∷ cs) (d ∷ ds) =
    let rest = compare_texts cs ds in
    if not (c == d) then sign_of c d else if c == 0 then nil else rest

abbrev pub bit : Bool → ℕ
bit b = if b then 1 else 0

-- The double of a value, which a FLOAT or DOUBLE column may have left in either field.
abbrev pub float_of : Floats → Value → ℕ
unfolding is_nonzero
float_of fl v = if is_nonzero v.double_val then fl.narrow v.double_val else v.float_val

abbrev pub double_of : Floats → Value → ℕ
unfolding is_nonzero
double_of fl v = if is_nonzero v.double_val then v.double_val else fl.widen v.float_val

unfoldable pub compare_present : Floats → FloatOrder → ColumnType → Value → Value → Sign
unfolding compare_texts
compare_present fl fo int v1 v2 = sign_of (biased v1.int_val) (biased v2.int_val)
compare_present fl fo float v1 v2 =
    difference (fo.float_lt (float_of fl v2) (float_of fl v1))
      (fo.float_lt (float_of fl v1) (float_of fl v2))
compare_present fl fo bool v1 v2 = sign_of (bit v1.bool_val) (bit v2.bool_val)
compare_present fl fo col v1 v2 =
    if is_double col
    then difference (fo.double_lt (double_of fl v2) (double_of fl v1))
        (fo.double_lt (double_of fl v1) (double_of fl v2))
    else compare_texts v1.text_val v2.text_val

unfoldable pub compare_values : Floats → FloatOrder → ColumnType → Value → Value → Sign
unfolding compare_present
compare_values fl fo col v1 v2 =
    if v1.is_null && v2.is_null
    then nil
    else if v1.is_null
    then negative
    else if v2.is_null
    then positive
    else compare_present fl fo col v1 v2

-- The bytes of a key; the rest of its 32 bytes is zero.
unfoldable pub key_bytes : ColumnType → Value → List ℕ
unfolding le_bytes strlen
key_bytes int v = le_bytes 4 v.int_val
key_bytes float v = le_bytes 4 v.float_val
key_bytes double v = le_bytes 8 v.double_val
key_bytes numeric v = le_bytes 8 v.double_val
key_bytes decimal v = le_bytes 8 v.double_val
key_bytes bool v = bit v.bool_val ∷ []
key_bytes varchar v =
    let len = strlen v.text_val % 2 ^ 16 in
    let kept = if ltb (key_size - 2) len then key_size - 2 else len in
    le_bytes 2 kept ++ take kept v.text_val
key_bytes _ v = take (key_size - 1) (take (strlen v.text_val) v.text_val)

unfoldable pub serialize_col0_key : ColumnType → Value → Memory
unfolding key_bytes store_bytes
serialize_col0_key col v = store_bytes 0 (key_bytes col v) (λ i. 0)

-- `cell_is_overflow_stub`
unfoldable pub cell_is_overflow_stub : ℕ → Bool
cell_is_overflow_stub slot_size = leb 1024 slot_size

-- The constants 0 and 1 in a column of type `col`, as in the row format but for FLOAT.
unfoldable pub extract_constant : ColumnType → Bool → ℕ → ℕ → ℕ → Value
unfolding set_constant
extract_constant float b n d f = record value_init { float_val = f; double_val = d }
extract_constant col b n d f = set_constant col b n d f

-- Column 0 by its serial type; `p` is `in + body_offset`.
unfoldable pub extract_value : Floats → ColumnType → ℕ → Memory → Value
unfolding read_le sign_extend set_text text_length set_double extract_constant
extract_value fl col t p =
    if t == 1
    then record value_init { int_val = sign_extend 128 (read_le 1 p) }
    else if t == 2
    then record value_init { int_val = sign_extend 32768 (read_le 2 p) }
    else if t == 4
    then record value_init { int_val = read_le 4 p }
    else if t == 7
    then set_double fl col (read_le 8 p)
    else if t == 8
    then extract_constant col false 0 0 0
    else if t == 9
    then extract_constant col true 1 0x3ff0_0000_0000_0000 0x3f80_0000
    else if leb 12 t
    then set_text p (text_length t)
    else value_init

-- `btree_get_varint` and `extract_col0_from_packed_record`: the value of column 0 in a cell of
-- `cell_size` bytes at `p`.
unfoldable pub extract_col0_from_packed_record : Floats → ColumnType → ℕ → Memory → Value
unfolding get_varint cell_is_overflow_stub extract_value
extract_col0_from_packed_record fl col cell_size p =
    let at = if cell_is_overflow_stub cell_size then from p 8 else p in
    let (n, total_hdr_size) = get_varint at in
    let (m, t) = get_varint (from at n) in extract_value fl col t (from at (u32 total_hdr_size))
