-- ===== src/Catalog/Varint.antt =====
-- `put_varint` and `get_varint` of src/catalog.c. A `const uint8_t*` is the function from offsets to
-- the bytes found there; what is written is the list of the bytes.
pub mod RoundTrip
use custom_db.Prelude.{
  ℕ, zero, suc, ◌+◌, ◌*◌, ◌/◌, ◌%◌, ◌^◌, ◌<◌, List, [], ◌∷◌, ltb, ◌==◌, if◌then◌else◌,
}
use Prim.Native.Nat.{bit_and, bit_or}

abbrev pub Memory : Type 0
Memory = ℕ → ℕ

-- `p + at`
abbrev pub from : Memory → ℕ → Memory
from p at = λ k. p (at + k)

abbrev pub IsU64 : ℕ → Type 0
IsU64 v = v < 2 ^ 64

-- The loop of `put_varint`, on fuel: each round takes seven bits off `v`.
unfoldable pub put_loop : ℕ → ℕ → List ℕ
put_loop zero v = bit_and v 0x7f % 256 ∷ []
put_loop (suc fuel) v =
    let more = (bit_or (bit_and v 0x7f) 0x80 % 256) ∷ put_loop fuel (v / 2 ^ 7) in
    if ltb v 0x80 then bit_and v 0x7f % 256 ∷ [] else more

-- Nine rounds take 63 bits off a `uint64_t`, and one bit is left for the last byte.
unfoldable pub put_varint : ℕ → List ℕ
unfolding put_loop
put_varint v = put_loop 9 v

-- `get_varint` after `i` rounds, with `n` of the ten rounds left: the number of bytes read, and `*v`.
unfoldable pub get_loop : ℕ → Memory → ℕ → ℕ → ℕ × ℕ
get_loop zero p i result = (i, result)
get_loop (suc n) p i result =
    let b = p i in
    let result' = bit_or result (bit_and b 0x7f * 2 ^ (7 * i) % 2 ^ 64) in
    let more = get_loop n p (i + 1) result' in
    if bit_and b 0x80 == 0 then (i + 1, result') else more

unfoldable pub get_varint : Memory → ℕ × ℕ
unfolding get_loop
get_varint p = get_loop 10 p 0 0
