-- ===== src/Catalog/Row/RoundTrip.antt =====
-- Whole rows: `deserialize_row_with_mvcc` reads back what `serialize_row_with_mvcc` wrote.
use custom_db.Prelude.{
  ℕ, ◌+◌, ◌^◌, ◌≤◌, ◌<◌, ◌≡◌, ap, true, arith, List, [], ◌++◌, length, length-append,
}
use custom_db.Catalog.Types.{ColumnType, Value, Floats}
use custom_db.Catalog.Varint.{Memory, from, IsU64, put_varint, get_varint}
use custom_db.Catalog.Varint.RoundTrip.{
  Holds, Holds-append, get_varint-put_varint, put_varint_shape,
}
use custom_db.Catalog.Row.Encode.{total_hdr_size, assemble, serialize_row_with_mvcc}
use custom_db.Catalog.Row.Decode.{u32, deserialize_row_with_mvcc}
use custom_db.Catalog.Row.Columns.{
  Stored, types, bodies, read_all, length-types, encode_columns_lem, decode_columns_lem,
}
use custom_db.Catalog.Row.Extras.{
  ttl_mark, ttl_word, mvcc_marks, mvcc_words, found, add_ttl_lem, add_mvcc_lem, total_hdr_size_lem,
  total_hdr_size-le, all_extras, length-ttl_mark, length-mvcc_marks,
}
use custom_db.Catalog.Row.Capacity.{row_fits, row_fits-small}
use mathlib.Core.Path.{fun_ext}
use mathlib.Core.List.{append_assoc}
use native.Mathlib.Nat.{mod-eq_of_lt}

module _ (fl : Floats) (cols : List ColumnType) (vs : List Value) (e x y : ℕ) where
  hdr : List ℕ
  hdr = types fl cols vs ++ (ttl_mark e ++ mvcc_marks x y)

  body : List ℕ
  body = bodies fl cols vs ++ (ttl_word e ++ mvcc_words x y)

  length-hdr : Stored cols vs → length cols ≤ 16 → length hdr ≤ 163
  unfolding hdr
  length-hdr s few = omega (
    arith,
    length-append (types fl cols vs) (ttl_mark e ++ mvcc_marks x y),
    length-append (ttl_mark e) (mvcc_marks x y),
    length-types fl cols vs s,
    length-ttl_mark e,
    length-mvcc_marks x y,
  )

  serialized :
      Stored cols vs
      → length cols ≤ 16
      → serialize_row_with_mvcc fl cols vs e x y
        ≡ put_varint (total_hdr_size (length hdr)) ++ (hdr ++ body)
  unfolding serialize_row_with_mvcc assemble hdr body
  serialized s few =
      let lt = length-types fl cols vs s in
      let le = length-append (types fl cols vs) (ttl_mark e) in
      rw (
        encode_columns_lem fl cols vs [] [] s (omega arith),
        add_ttl_lem e (types fl cols vs) (bodies fl cols vs) (omega arith),
        add_mvcc_lem x y (types fl cols vs ++ ttl_mark e) (bodies fl cols vs ++ ttl_word e)
            (omega (arith, length-ttl_mark e)),
        append_assoc (types fl cols vs) (ttl_mark e) (mvcc_marks x y),
        append_assoc (bodies fl cols vs) (ttl_word e) (mvcc_words x y),
      )

get_varint_first :
    (v : ℕ) (p : Memory)
    → IsU64 v
    → Holds p 0 (put_varint v)
    → get_varint p ≡ (length (put_varint v), v)
get_varint_first v p h held =
    let e : from p 0 ≡ p = fun_ext (λ k. ap p (omega arith)) in
    rw e at (get_varint-put_varint v p 0 h held)

-- The bytes of a row, wherever they stand, are read back.
pub deserialize_row_with_mvcc-serialize_row_with_mvcc :
    (fl : Floats) (cols : List ColumnType) (vs : List Value) (e x y : ℕ) (p : Memory)
    → Stored cols vs
    → length cols ≤ 16
    → IsU64 e × IsU64 x × IsU64 y
    → length (serialize_row_with_mvcc fl cols vs e x y) < 2 ^ 32
    → Holds p 0 (serialize_row_with_mvcc fl cols vs e x y)
    → deserialize_row_with_mvcc fl cols p ≡ record {
      values = read_all fl cols vs;
      extras = found e x y (length (serialize_row_with_mvcc fl cols vs e x y));
    }
unfolding deserialize_row_with_mvcc
deserialize_row_with_mvcc-serialize_row_with_mvcc fl cols vs e x y p s few (fe, fx, fy) =
    rw (serialized fl cols vs e x y s few) (λ small held.
      unfold hdr body in
      let n = length (hdr fl cols vs e x y) in
      let total = total_hdr_size n in
      let pv = put_varint total in
      let ts = types fl cols vs in
      let ms = ttl_mark e ++ mvcc_marks x y in
      let bs = bodies fl cols vs in
      let ws = ttl_word e ++ mvcc_words x y in
      let small_hdr = length-hdr fl cols vs e x y s few in
      let size = total_hdr_size_lem n (omega arith) in
      let fits : IsU64 total = omega (arith, total_hdr_size-le n) in
      let shape = put_varint_shape total fits in
      let (hp, hrest) = Holds-append p 0 pv (ts ++ ms ++ (bs ++ ws)) held in
      let (hh, hb) = Holds-append p (0 + length pv) (ts ++ ms) (bs ++ ws) hrest in
      let (ht, hm) = Holds-append p (0 + length pv) ts ms hh in
      let (hbs, hws) = Holds-append p (0 + length pv + length (ts ++ ms)) bs ws hb in
      let l1 = length-append pv (ts ++ ms ++ (bs ++ ws)) in
      let l2 = length-append (ts ++ ms) (bs ++ ws) in
      let l3 = length-append ts ms in
      let l4 = length-append bs ws in
      let e1 : 0 + length pv ≡ length pv = omega arith in
      let e2 : 0 + length pv + length (ts ++ ms) ≡ total = omega arith in
      let e3 : u32 total ≡ total = mod-eq_of_lt (omega arith) in
      rw
        (
          get_varint_first total p fits hp,
          e3,
          decode_columns_lem fl cols vs p (length pv) total s (rw e1 at ht) (rw e2 at hbs)
              (omega arith) (omega arith),
          all_extras total p total (length pv + length ts) (total + length bs) e x y fe fx fy
              (rw e1 at hm) (rw e2 at hws) (omega arith) (omega arith) (omega arith) (omega arith),
        )
        (ground arith))

-- A row of at most sixteen stored values, whatever its column types, expiry time and transaction
-- ids, of fewer than 2 ^ 31 - 4096 bytes, is written without a copy passing the end of the body's
-- buffer, and is read back from its bytes by `deserialize_row_with_mvcc`: every value as a reader of
-- its column type is meant to find it, the expiry time, both transaction ids, and as end of the row
-- the number of bytes written.
pub deserialize-serialize :
    (fl : Floats) (cols : List ColumnType) (vs : List Value) (e x y : ℕ) (p : Memory)
    → Stored cols vs
    → length cols ≤ 16
    → IsU64 e × IsU64 x × IsU64 y
    → length (serialize_row_with_mvcc fl cols vs e x y) + 4096 < 2 ^ 31
    → Holds p 0 (serialize_row_with_mvcc fl cols vs e x y)
    → (row_fits fl cols vs e x y ≡ true)
      × (deserialize_row_with_mvcc fl cols p ≡ record {
        values = read_all fl cols vs;
        extras = found e x y (length (serialize_row_with_mvcc fl cols vs e x y));
      })
unfolding hdr body
deserialize-serialize fl cols vs e x y p s few words small held =
    let start = put_varint (total_hdr_size (length (hdr fl cols vs e x y))) in
    let written = ap length (serialized fl cols vs e x y s few) in
    (
      row_fits-small fl cols vs e x y (
          omega (
            arith,
            small,
            written,
            length-append start (hdr fl cols vs e x y ++ body fl cols vs e x y),
            length-append (hdr fl cols vs e x y) (body fl cols vs e x y),
          )),
      deserialize_row_with_mvcc-serialize_row_with_mvcc fl cols vs e x y p s few words
          (omega (arith, small)) held,
    )
