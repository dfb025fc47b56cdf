-- ===== src/Catalog/Row/Capacity.antt =====
-- The buffer of the body in `serialize_row_with_mvcc` of src/catalog.c, which grows before a copy that
-- it has no room for, to a size that is a uint32_t.
use custom_db.Prelude.{
  ℕ, ◌+◌, ◌*◌, ◌^◌, ◌≤◌, ◌<◌, ◌≡◌, refl, arith, Bool, true, ◌&&◌, ◌||◌, List, [], ◌∷◌, ◌++◌, length,
  length-append, ltb, leb, if◌then◌else◌,
}
use custom_db.Catalog.Types.{ColumnType, Value, Floats}
use custom_db.Catalog.Row.Encode.{le_bytes, encode_value}
use custom_db.Catalog.Row.Decode.{u32}
use custom_db.Catalog.Row.Columns.{bodies}
use custom_db.Catalog.Row.Extras.{ttl_word, mvcc_words}

-- `ser_body_cap`, before a copy of `len` bytes.
unfoldable pub make_room : ℕ → ℕ → ℕ → ℕ
make_room ser_body_cap body_len len =
    if ltb ser_body_cap (u32 (body_len + len))
    then u32 ((body_len + len + 4096) * 2)
    else ser_body_cap

-- Whether each copy, of these numbers of bytes one behind the other, ends within the buffer.
unfoldable pub copies_fit : ℕ → ℕ → List ℕ → Bool
copies_fit ser_body_cap body_len [] = true
copies_fit ser_body_cap body_len (len ∷ lens) =
    let new_cap = make_room ser_body_cap body_len len in
    leb (body_len + len) new_cap && copies_fit new_cap (u32 (body_len + len)) lens

-- The copies that the columns, the expiry time and the transaction ids take.
unfoldable pub column_copies : Floats → List ColumnType → List Value → List ℕ
column_copies fl (col ∷ cols) (v ∷ vs) = length (encode_value fl col v).1 ∷ column_copies fl cols vs
column_copies fl _ _ = []

abbrev pub ttl_copies : ℕ → List ℕ
ttl_copies expire_at = if ltb 0 expire_at then 8 ∷ [] else []

abbrev pub mvcc_copies : ℕ → ℕ → List ℕ
mvcc_copies xmin xmax = if ltb 0 xmin || ltb 0 xmax then 8 ∷ 8 ∷ [] else []

-- The buffer starts on the stack, with 16,384 bytes.
unfoldable pub row_fits : Floats → List ColumnType → List Value → ℕ → ℕ → ℕ → Bool
unfolding copies_fit column_copies
row_fits fl cols values expire_at xmin xmax =
    copies_fit 16384 0
      (column_copies fl cols values ++ (ttl_copies expire_at ++ mvcc_copies xmin xmax))

sum_of : List ℕ → ℕ
sum_of [] = 0
sum_of (len ∷ lens) = len + sum_of lens

sum_of-append : (a b : List ℕ) → sum_of (a ++ b) ≡ sum_of a + sum_of b
unfolding sum_of
sum_of-append [] b = omega arith
sum_of-append (len ∷ a) b = omega (arith, sum_of-append a b)

make_room-le : (cap n len : ℕ) → n + len + 4096 < 2 ^ 31 → n + len ≤ make_room cap n len
unfolding make_room
make_room-le cap n len small = ground (arith, small)

copies_fit-sum_of :
    (cap n : ℕ) (lens : List ℕ) → n + sum_of lens + 4096 < 2 ^ 31 → copies_fit cap n lens ≡ true
unfolding copies_fit sum_of
copies_fit-sum_of cap n [] small = refl
copies_fit-sum_of cap n (len ∷ lens) small =
    let fits : leb (n + len) (make_room cap n len) ≡ true =
      ground (arith, make_room-le cap n len (omega (arith, small))) in
    let kept : u32 (n + len) ≡ n + len = omega (arith, small) in
    rw (fits, kept) (copies_fit-sum_of (make_room cap n len) (n + len) lens (omega (arith, small)))

sum_of-column_copies :
    (fl : Floats) (cols : List ColumnType) (vs : List Value)
    → sum_of (column_copies fl cols vs) ≡ length (bodies fl cols vs)
unfolding sum_of column_copies bodies
sum_of-column_copies fl [] vs = refl
sum_of-column_copies fl (col ∷ cols) [] = refl
sum_of-column_copies fl (col ∷ cols) (v ∷ vs) = omega (
  arith,
  length-append (encode_value fl col v).1 (bodies fl cols vs),
  sum_of-column_copies fl cols vs,
)

sum_of-ttl_copies : (e : ℕ) → sum_of (ttl_copies e) ≡ length (ttl_word e)
unfolding sum_of ttl_word le_bytes
sum_of-ttl_copies e = ground arith

sum_of-mvcc_copies : (x y : ℕ) → sum_of (mvcc_copies x y) ≡ length (mvcc_words x y)
unfolding sum_of mvcc_words le_bytes
sum_of-mvcc_copies x y = ground arith

-- A body of fewer than 2 ^ 31 - 4096 bytes is within its buffer.
pub row_fits-small :
    (fl : Floats) (cols : List ColumnType) (vs : List Value) (e x y : ℕ)
    → length (bodies fl cols vs ++ (ttl_word e ++ mvcc_words x y)) + 4096 < 2 ^ 31
    → row_fits fl cols vs e x y ≡ true
unfolding row_fits
row_fits-small fl cols vs e x y small =
    let words = ttl_copies e ++ mvcc_copies x y in
    copies_fit-sum_of 16384 0 (column_copies fl cols vs ++ words) (
      omega (
        arith,
        small,
        sum_of-append (column_copies fl cols vs) words,
        sum_of-append (ttl_copies e) (mvcc_copies x y),
        sum_of-column_copies fl cols vs,
        sum_of-ttl_copies e,
        sum_of-mvcc_copies x y,
        length-append (bodies fl cols vs) (ttl_word e ++ mvcc_words x y),
        length-append (ttl_word e) (mvcc_words x y),
      ))
