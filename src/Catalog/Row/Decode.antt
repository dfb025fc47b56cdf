-- ===== src/Catalog/Row/Decode.antt =====
-- `deserialize_row_with_mvcc` of src/catalog.c, over the memory from `src` on.
use custom_db.Prelude.{
  ℕ, zero, suc, ◌+◌, ◌-◌, ◌*◌, ◌/◌, ◌%◌, ◌^◌, Bool, true, false, List, [], ◌∷◌, ltb, leb, ◌==◌,
  if◌then◌else◌,
}
use custom_db.Catalog.Types.{ColumnType, float, bool, Value, value_init, Floats, is_double}
use custom_db.Catalog.Varint.{Memory, from, get_varint}
use custom_db.Catalog.Row.Encode.{serial_type_ttl, serial_type_xmin, serial_type_xmax}

abbrev pub u32 : ℕ → ℕ
u32 n = n % 2 ^ 32

-- `memcpy(&v, p, n)` on a little-endian machine
unfoldable pub read_le : ℕ → Memory → ℕ
read_le zero p = 0
read_le (suc n) p = p 0 + 256 * read_le n (from p 1)

unfoldable pub read_bytes : ℕ → Memory → List ℕ
read_bytes zero p = []
read_bytes (suc n) p = p 0 ∷ read_bytes n (from p 1)

-- The conversion of an `int8_t` or `int16_t` to `int32_t`: `half` is the weight of the sign bit.
unfoldable pub sign_extend : ℕ → ℕ → ℕ
sign_extend half w = if ltb w half then w else w + 2 ^ 32 - 2 * half

-- An integer read into a column of type `col`.
unfoldable pub set_int : Floats → ColumnType → ℕ → Value
unfolding is_double
set_int fl float w = record value_init { float_val = fl.float_of_int w }
set_int fl col w =
    if is_double col
    then record value_init { double_val = fl.double_of_int w }
    else record value_init { int_val = w }

-- A double read into a column of type `col`.
unfoldable pub set_double : Floats → ColumnType → ℕ → Value
unfolding is_double
set_double fl float d = record value_init { float_val = fl.narrow d; double_val = d }
set_double fl col d =
    if is_double col
    then record value_init { double_val = d }
    else record value_init { int_val = fl.int_of_double d }

-- The constants 0 and 1: the integer, the `double` pattern and the `float` pattern.
unfoldable pub set_constant : ColumnType → Bool → ℕ → ℕ → ℕ → Value
unfolding is_double
set_constant bool b n d f = record value_init { bool_val = b }
set_constant float b n d f = record value_init { float_val = f }
set_constant col b n d f =
    if is_double col
    then record value_init { double_val = d }
    else record value_init { int_val = n }

-- The length that a text or blob serial type stands for.
unfoldable pub text_length : ℕ → ℕ
text_length t = if t % 2 == 0 then u32 ((t - 12) / 2) else u32 ((t - 13) / 2)

-- `value_set_text_len(&values[i], in + cur_body, len)` on a fresh value
unfoldable pub set_text : Memory → ℕ → Value
unfolding read_bytes
set_text p len = record value_init { text_val = read_bytes len p; text_len = len }

-- One column: the value, and how far `cur_body` advances. `p` is `in + cur_body`.
unfoldable pub decode_value : Floats → ColumnType → ℕ → Memory → Value × ℕ
unfolding set_int set_double set_constant text_length set_text sign_extend read_le
decode_value fl col t p =
    if t == 0
    then (record value_init { is_null = true }, 0)
    else if t == 1
    then (set_int fl col (sign_extend 128 (read_le 1 p)), 1)
    else if t == 2
    then (set_int fl col (sign_extend 32768 (read_le 2 p)), 2)
    else if t == 4
    then (set_int fl col (read_le 4 p), 4)
    else if t == 7
    then (set_double fl col (read_le 8 p), 8)
    else if t == 8
    then (set_constant col false 0 0 0, 0)
    else if t == 9
    then (set_constant col true 1 0x3ff0_0000_0000_0000 0x3f80_0000, 0)
    else if leb 12 t
    then (set_text p (text_length t), text_length t)
    else (value_init, 0)

-- The loop over the columns: the values, and where `cur_hdr` and `cur_body` end.
unfoldable pub decode_columns : Floats → List ColumnType → Memory → ℕ → ℕ → List Value × ℕ × ℕ
unfolding get_varint decode_value
decode_columns fl [] p cur_hdr cur_body = ([], cur_hdr, cur_body)
decode_columns fl (col ∷ cols) p cur_hdr cur_body =
    let (n, t) = get_varint (from p cur_hdr) in
    let (v, m) = decode_value fl col t (from p cur_body) in
    let (vs, h, b) = decode_columns fl cols p (u32 (cur_hdr + n)) (u32 (cur_body + m)) in
    (v ∷ vs, h, b)

-- The output parameters, and the returned `cur_body`.
pub record Extras : Type 0 where
  pub expire_at : ℕ
  pub xmin : ℕ
  pub xmax : ℕ
  pub cur_body : ℕ

-- `while (cur_hdr < body_offset)`. Each round reads a byte of the header at least, so `body_offset`
-- is fuel enough.
unfoldable pub decode_extras : ℕ → Memory → ℕ → ℕ → Extras → Extras
unfolding get_varint
decode_extras zero p body_offset cur_hdr x = x
decode_extras (suc fuel) p body_offset cur_hdr x =
    let (n, t) = get_varint (from p cur_hdr) in
    let w = read_le 8 (from p x.cur_body) in
    let b = u32 (x.cur_body + 8) in
    let next = decode_extras fuel p body_offset (u32 (cur_hdr + n)) in
    elim (ltb cur_hdr body_offset) [
      | false ↦ x
      | true ↦ elim (t == serial_type_ttl) [
        | true ↦ next (record x { expire_at = w; cur_body = b })
        | false ↦ elim (t == serial_type_xmin) [
          | true ↦ next (record x { xmin = w; cur_body = b })
          | false ↦ elim (t == serial_type_xmax) [
            | true ↦ next (record x { xmax = w; cur_body = b })
            | false ↦ x
          ]
        ]
      ]
    ]

pub record Row : Type 0 where
  pub values : List Value
  pub extras : Extras

unfoldable pub deserialize_row_with_mvcc : Floats → List ColumnType → Memory → Row
deserialize_row_with_mvcc fl cols p =
    let (hdr_start, total) = get_varint p in
    let body_offset = u32 total in
    let (vs, h, b) = decode_columns fl cols p hdr_start body_offset in
    record {
      values = vs;
      extras =
          decode_extras body_offset p body_offset h
            (record { expire_at = 0; xmin = 0; xmax = 0; cur_body = b });
    }
