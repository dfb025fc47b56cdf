-- ===== src/Catalog/Row/Cells.antt =====
-- One value of a row: `decode_value` against `encode_value`.
use custom_db.Prelude.{
  ℕ, zero, suc, ◌+◌, ◌*◌, ◌/◌, ◌%◌, ◌^◌, ◌<◌, ◌≡◌, refl, ap, arith, true, List, [], ◌∷◌, length,
  take, ltb, if◌then◌else◌, Bool-cases, ◌⊎◌, inl, inr,
}
use custom_db.Catalog.Types.{
  ColumnType, int, float, double, bool, blob, numeric, decimal, Value, value_init, Floats,
  is_nonzero,
}
use custom_db.Catalog.Varint.{Memory, from}
use custom_db.Catalog.Varint.RoundTrip.{Holds, Holds-from}
use custom_db.Catalog.Row.Encode.{
  le_bytes, strlen, encode_int, encode_text, encode_by_type, encode_value,
}
use custom_db.Catalog.Row.Decode.{
  read_le, read_bytes, set_double, set_constant, text_length, set_text, decode_value,
}
use native.Mathlib.Nat.{pow-suc}

-- A value as the executor keeps it: numbers in range, and the text's length beside the text.
pub record IsStored (v : Value) : Type 0 where
  pub int_fits : v.int_val < 2 ^ 32
  pub double_fits : v.double_val < 2 ^ 64
  pub measured : v.text_len ≡ length v.text_val
  pub text_fits : v.text_len < 2 ^ 32

-- What a reader finds in a column of each type after the value was stored there.
unfoldable pub float_stored : Floats → Value → ℕ
unfolding is_nonzero
float_stored fl v = if is_nonzero v.double_val then v.double_val else fl.widen v.float_val

unfoldable pub typed_value : Floats → ColumnType → Value → Value
unfolding float_stored
typed_value fl int v = record value_init { int_val = v.int_val }
typed_value fl bool v = record value_init { bool_val = v.bool_val }
typed_value fl float v = record value_init {
  float_val = fl.narrow (float_stored fl v);
  double_val = float_stored fl v;
}
typed_value fl double v = record value_init { double_val = v.double_val }
typed_value fl numeric v = record value_init { double_val = v.double_val }
typed_value fl decimal v = record value_init { double_val = v.double_val }
typed_value fl _ v = record value_init { text_val = v.text_val; text_len = v.text_len }

unfoldable pub read_back : Floats → ColumnType → Value → Value
unfolding typed_value
read_back fl col v =
    if v.is_null then record value_init { is_null = true } else typed_value fl col v

pub length-le_bytes : (n v : ℕ) → length (le_bytes n v) ≡ n
unfolding le_bytes
length-le_bytes zero v = refl
length-le_bytes (suc n) v = ap suc (length-le_bytes n (v / 256))

pub read_le-le_bytes :
    (n v : ℕ) (p : Memory) → v < 256 ^ n → Holds p 0 (le_bytes n v) → read_le n p ≡ v
unfolding le_bytes read_le
read_le-le_bytes zero v p h held = omega arith
read_le-le_bytes (suc n) v p h held =
    let small : v / 256 < 256 ^ n =
      (let h' : v < 256 ^ n * 256 = rw (pow-suc 256 n) at h in omega arith) in
    omega (
      arith,
      held.0,
      read_le-le_bytes n (v / 256) (from p 1) small
          (Holds-from p 1 0 1 (le_bytes n (v / 256)) refl held.1),
    )

pub read_bytes_held : (bs : List ℕ) (p : Memory) → Holds p 0 bs → read_bytes (length bs) p ≡ bs
unfolding read_bytes
read_bytes_held [] p held = refl
read_bytes_held (b ∷ bs) p held =
    cc (held.0, read_bytes_held bs (from p 1) (Holds-from p 1 0 1 bs refl held.1))

take_all {ℓ} : {A : Type ℓ} (xs : List A) → take (length xs) xs ≡ xs
take_all [] = refl
take_all (x ∷ xs) = ap (λ l. x ∷ l) (take_all xs)

text_length_kept :
    (n : ℕ) (xs : List ℕ) → n ≡ length xs → (if ltb 0 n then n else strlen xs % 2 ^ 32) ≡ length xs
unfolding strlen
text_length_kept n [] e = ground arith
text_length_kept n (x ∷ xs) e = ground arith

pub encode_text_stored :
    (tag : ℕ) (v : Value) → IsStored v → encode_text tag v ≡ (tag + 2 * v.text_len, v.text_val)
unfolding encode_text
encode_text_stored tag v stored =
    rw
      (text_length_kept v.text_len v.text_val stored.measured, take_all v.text_val, stored.measured)

module _ (fl : Floats) (v : Value) (p : Memory) (stored : IsStored v) where
  int_cell :
      Holds p 0 (encode_int v.int_val).1
      → decode_value fl int (encode_int v.int_val).0 p
        ≡ (typed_value fl int v, length (encode_int v.int_val).1)
  unfolding encode_int decode_value typed_value
  int_cell held = ground (arith, stored.int_fits)

  word_read : (d : ℕ) → d < 2 ^ 64 → Holds p 0 (le_bytes 8 d) → read_le 8 p ≡ d
  word_read d h held = read_le-le_bytes 8 d p (omega arith) held

  double_cell :
      (col : ColumnType) (d : ℕ)
      → d < 2 ^ 64
      → Holds p 0 (le_bytes 8 d)
      → decode_value fl col 7 p ≡ (set_double fl col d, 8)
  unfolding decode_value
  double_cell col d h held = ap (λ w. (set_double fl col w, 8)) (word_read d h held)

  text_cell :
      (col : ColumnType) (tag : ℕ)
      → (tag ≡ 12) ⊎ (tag ≡ 13)
      → Holds p 0 (encode_text tag v).1
      → decode_value fl col (encode_text tag v).0 p ≡ (
        record value_init { text_val = v.text_val; text_len = v.text_len },
        length (encode_text tag v).1,
      )
  unfolding decode_value text_length set_text
  text_cell col tag k =
      rw (encode_text_stored tag v stored) (λ held.
        ground (arith, stored.measured, stored.text_fits, read_bytes_held v.text_val p held))

  float_fits : float_stored fl v < 2 ^ 64
  unfolding float_stored
  float_fits = ground (arith, stored.double_fits, fl.widen_fits v.float_val)

  typed_cell :
      (col : ColumnType)
      → Holds p 0 (encode_by_type fl col v).1
      → decode_value fl col (encode_by_type fl col v).0 p
        ≡ (typed_value fl col v, length (encode_by_type fl col v).1)
  unfolding encode_by_type typed_value
  typed_cell int held = int_cell held
  typed_cell bool held = unfold decode_value set_constant in ground arith
  typed_cell float held = unfold set_double in double_cell float (float_stored fl v) float_fits held
  typed_cell double held =
      unfold set_double in double_cell double v.double_val stored.double_fits held
  typed_cell numeric held =
      unfold set_double in double_cell numeric v.double_val stored.double_fits held
  typed_cell decimal held =
      unfold set_double in double_cell decimal v.double_val stored.double_fits held
  typed_cell blob held = text_cell blob 12 (inl refl) held
  typed_cell col held = text_cell col 13 (inr refl) held

  -- A stored value, its numbers in range and its text of the length beside it, whose encoded
  -- bytes stand in memory is decoded to what a reader of its column is meant to find, and the
  -- reader advances over these bytes.
  pub decode_value-encode_value :
      (col : ColumnType)
      → Holds p 0 (encode_value fl col v).1
      → decode_value fl col (encode_value fl col v).0 p
        ≡ (read_back fl col v, length (encode_value fl col v).1)
  unfolding encode_value read_back
  decode_value-encode_value col = elim (Bool-cases v.is_null) [
    | inl null ↦ simp null (λ held. unfold decode_value in refl)
    | inr there ↦ simp there (typed_cell col)
  ]
