-- ===== src/Catalog/Row/Encode.antt =====
-- `serialize_row_with_mvcc` of src/catalog.c. The header and the body are the lists of the bytes
-- written so far, so `hdr_len` and `body_len` are their lengths; allocation is taken to succeed. A
-- copy stands in the body whether or not it fits the buffer: Capacity has the size of the buffer,
-- whose uint32_t wraps around for a long body, and says whether every copy fits.
use custom_db.Prelude.{
  ℕ, zero, suc, ◌+◌, ◌-◌, ◌*◌, ◌/◌, ◌%◌, ◌^◌, true, false, ◌||◌, List, [], ◌∷◌, ◌++◌, length, take,
  ltb, leb, ◌==◌, if◌then◌else◌,
}
use custom_db.Catalog.Types.{
  ColumnType, int, float, double, bool, blob, numeric, decimal, Value, Floats, is_nonzero,
}
use custom_db.Catalog.Varint.{put_varint}

abbrev pub page_size : ℕ
page_size = 4096

abbrev pub serial_type_ttl : ℕ
serial_type_ttl = 10

abbrev pub serial_type_xmin : ℕ
serial_type_xmin = 14

abbrev pub serial_type_xmax : ℕ
serial_type_xmax = 15

-- `memcpy` of the `n` low bytes of a number, on a little-endian machine
unfoldable pub le_bytes : ℕ → ℕ → List ℕ
le_bytes zero v = []
le_bytes (suc n) v = v % 256 ∷ le_bytes n (v / 256)

-- `strlen`
unfoldable pub strlen : List ℕ → ℕ
strlen [] = 0
strlen (c ∷ s) = elim (c == 0) [ true ↦ 0 | false ↦ suc (strlen s) ]

-- The case COL_INT: the serial type and the bytes of the body.
unfoldable pub encode_int : ℕ → ℕ × List ℕ
unfolding le_bytes
encode_int w =
    if w == 0
    then (8, [])
    else if w == 1
    then (9, [])
    else if ltb w 128 || leb (2 ^ 32 - 128) w
    then (1, le_bytes 1 w)
    else if ltb w 32768 || leb (2 ^ 32 - 32768) w
    then (2, le_bytes 2 w)
    else (4, le_bytes 4 w)

-- The text cases. `even` is 12 for COL_BLOB and 13 for the others.
unfoldable pub encode_text : ℕ → Value → ℕ × List ℕ
unfolding strlen
encode_text tag v =
    let len = if ltb 0 v.text_len then v.text_len else strlen v.text_val % 2 ^ 32 in
    (tag + 2 * len, take len v.text_val)

-- `switch (col->type)`
unfoldable pub encode_by_type : Floats → ColumnType → Value → ℕ × List ℕ
unfolding encode_int encode_text is_nonzero le_bytes
encode_by_type fl int v = encode_int v.int_val
encode_by_type fl bool v = (if v.bool_val then 9 else 8, [])
encode_by_type fl float v =
    (7, le_bytes 8 (if is_nonzero v.double_val then v.double_val else fl.widen v.float_val))
encode_by_type fl double v = (7, le_bytes 8 v.double_val)
encode_by_type fl numeric v = (7, le_bytes 8 v.double_val)
encode_by_type fl decimal v = (7, le_bytes 8 v.double_val)
encode_by_type fl blob v = encode_text 12 v
encode_by_type fl _ v = encode_text 13 v

unfoldable pub encode_value : Floats → ColumnType → Value → ℕ × List ℕ
unfolding encode_by_type
encode_value fl col v = if v.is_null then (0, []) else encode_by_type fl col v

-- `if (hdr_len + 16 <= sizeof(hdr_buf)) hdr_len += put_varint(hdr_buf + hdr_len, serial_type);`
unfoldable pub add_type : List ℕ → ℕ → List ℕ
unfolding put_varint
add_type hdr t = if leb (length hdr + 16) page_size then hdr ++ put_varint t else hdr

-- the loop over the columns
unfoldable pub encode_columns :
    Floats → List ColumnType → List Value → List ℕ → List ℕ → List ℕ × List ℕ
unfolding encode_value add_type
encode_columns fl (col ∷ cols) (v ∷ vs) hdr body =
    let (t, bytes) = encode_value fl col v in
    encode_columns fl cols vs (add_type hdr t) (body ++ bytes)
encode_columns fl _ _ hdr body = (hdr, body)

unfoldable pub add_ttl : ℕ → List ℕ × List ℕ → List ℕ × List ℕ
unfolding add_type
add_ttl expire_at (hdr, body) =
    if ltb 0 expire_at
    then (add_type hdr serial_type_ttl, body ++ le_bytes 8 expire_at)
    else (hdr, body)

unfoldable pub add_mvcc : ℕ → ℕ → List ℕ × List ℕ → List ℕ × List ℕ
unfolding add_type
add_mvcc xmin xmax (hdr, body) =
    if ltb 0 xmin || ltb 0 xmax
    then (
      add_type (add_type hdr serial_type_xmin) serial_type_xmax,
      (body ++ le_bytes 8 xmin) ++ le_bytes 8 xmax,
    )
    else (hdr, body)

-- `while (1)`: the header's size includes its own varint. Fuel: two rounds serve any header buffer.
unfoldable pub hdr_size_loop : ℕ → ℕ → ℕ → ℕ
unfolding put_varint
hdr_size_loop zero hdr_len total = total
hdr_size_loop (suc fuel) hdr_len total =
    let vlen = length (put_varint total) in
    let more = hdr_size_loop fuel hdr_len (vlen + hdr_len) in
    if vlen + hdr_len == total then total else more

unfoldable pub total_hdr_size : ℕ → ℕ
unfolding hdr_size_loop
total_hdr_size hdr_len = hdr_size_loop 3 hdr_len (hdr_len + 1)

unfoldable pub assemble : List ℕ × List ℕ → List ℕ
unfolding total_hdr_size
assemble (hdr, body) = put_varint (total_hdr_size (length hdr)) ++ (hdr ++ body)

unfoldable pub serialize_row_with_mvcc : Floats → List ColumnType → List Value → ℕ → ℕ → ℕ → List ℕ
unfolding encode_columns add_ttl add_mvcc assemble
serialize_row_with_mvcc fl cols values expire_at xmin xmax =
    assemble (add_mvcc xmin xmax (add_ttl expire_at (encode_columns fl cols values [] [])))

unfoldable pub serialize_row_with_ttl : Floats → List ColumnType → List Value → ℕ → List ℕ
unfolding serialize_row_with_mvcc
serialize_row_with_ttl fl cols values expire_at =
    serialize_row_with_mvcc fl cols values expire_at 0 0

unfoldable pub serialize_row : Floats → List ColumnType → List Value → List ℕ
unfolding serialize_row_with_mvcc
serialize_row fl cols values = serialize_row_with_mvcc fl cols values 0 0 0
