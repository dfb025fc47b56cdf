-- ===== src/Catalog/Varint/RoundTrip.antt =====
-- `get_varint` reads back what `put_varint` writes.
use custom_db.Prelude.{
  ℕ, zero, suc, ◌+◌, ◌*◌, ◌/◌, ◌%◌, ◌^◌, ◌≤◌, ◌<◌, ◌≡◌, ap, arith, List, [], ◌∷◌, ◌++◌, length, All,
  ltb, if◌then◌else◌,
}
use custom_db.Prelude.Bits.{bit_and_127, bit_or_disjoint, continues, continued}
use custom_db.Catalog.Varint.{Memory, from, IsU64, put_loop, put_varint, get_loop, get_varint}
use Prim.Native.Nat.{bit_and, bit_or}
use native.Mathlib.Nat.{div-add-mod, mod-eq_of_lt}
use native.Mathlib.Numerals.{towards_suc}

-- The bytes `bs` stand in memory from offset `at` on.
abbrev pub Holds : Memory → ℕ → List ℕ → Type 0
Holds p at [] = Unit
Holds p at (b ∷ bs) = (p at ≡ b) × Holds p (at + 1) bs

-- The groups of seven bits of `v`, lowest first, in plain arithmetic.
unfoldable pub groups : ℕ → ℕ → List ℕ
groups zero v = v ∷ []
groups (suc k) v =
    let more = (v % 128 + 128) ∷ groups k (v / 128) in if ltb v 128 then v ∷ [] else more

pub put_loop-groups : (k v : ℕ) → v < 128 ^ suc k → put_loop k v ≡ groups k v
unfolding put_loop groups
put_loop-groups zero v h = ground (arith, bit_and_127 v)
put_loop-groups (suc k) v h =
    ground (arith, bit_and_127 v, continued (v % 128), put_loop-groups k (v / 128))

pub put_varint-groups : (v : ℕ) → IsU64 v → put_varint v ≡ groups 9 v
unfolding put_varint
put_varint-groups v h = put_loop-groups 9 v (omega arith)

pub length-groups : (k v : ℕ) → (1 ≤ length (groups k v)) × (length (groups k v) ≤ k + 1)
unfolding groups
length-groups zero v = omega arith
length-groups (suc k) v = ground (arith, length-groups k (v / 128))

-- One round of the reader, on a last byte and on a byte with the continuation bit.
group_added :
    (i result g : ℕ)
    → result < 2 ^ (7 * i)
    → g * 2 ^ (7 * i) < 2 ^ 64
    → bit_or result (g * 2 ^ (7 * i) % 2 ^ 64) ≡ result + g * 2 ^ (7 * i)
group_added i result g hr fits = rw (mod-eq_of_lt fits) (bit_or_disjoint (7 * i) result g hr)

last_round :
    (n : ℕ) (p : Memory) (i result g : ℕ)
    → p i ≡ g
    → g < 128
    → result < 2 ^ (7 * i)
    → g * 2 ^ (7 * i) < 2 ^ 64
    → get_loop (suc n) p i result ≡ (i + 1, result + g * 2 ^ (7 * i))
unfolding get_loop
last_round n p i result g e hg hr fits =
    let low : bit_and g 0x7f ≡ g = omega (arith, bit_and_127 g) in
    let top : bit_and g 0x80 ≡ 0 = omega (arith, continues g) in
    rw (e, low, top, group_added i result g hr fits)

inner_round :
    (n : ℕ) (p : Memory) (i result g : ℕ)
    → p i ≡ g + 128
    → g < 128
    → result < 2 ^ (7 * i)
    → g * 2 ^ (7 * i) < 2 ^ 64
    → get_loop (suc n) p i result ≡ get_loop n p (i + 1) (result + g * 2 ^ (7 * i))
unfolding get_loop
inner_round n p i result g e hg hr fits =
    let low : bit_and (g + 128) 0x7f ≡ g = omega (arith, bit_and_127 (g + 128)) in
    let top : bit_and (g + 128) 0x80 ≡ 128 = omega (arith, continues (g + 128)) in
    rw (e, low, top, group_added i result g hr fits)

shift_seven : (i : ℕ) → 2 ^ (7 * (i + 1)) ≡ 128 * 2 ^ (7 * i)
shift_seven i =
    let e : 7 * (i + 1) ≡ 7 * i + 7 = omega arith in rw e (simp towards_suc (omega arith))

-- The lowest group of `w` and the rest, both from bit 7 * i on.
split_group : (w i : ℕ) → w * 2 ^ (7 * i) ≡ w % 128 * 2 ^ (7 * i) + w / 128 * 2 ^ (7 * (i + 1))
split_group w i = omega (
  arith,
  ap (λ (t : ℕ). t * 2 ^ (7 * i)) (div-add-mod w 128),
  ap (λ (t : ℕ). w / 128 * t) (shift_seven i),
)

room_after :
    (i result g : ℕ) → result < 2 ^ (7 * i) → g < 128 → result + g * 2 ^ (7 * i) < 2 ^ (7 * (i + 1))
room_after i result g hr hg = rw (shift_seven i) (grind arith)

get_loop-groups :
    (k n w : ℕ) (p : Memory) (i result : ℕ)
    → k < n
    → w < 128 ^ suc k
    → result < 2 ^ (7 * i)
    → IsU64 (result + w * 2 ^ (7 * i))
    → Holds p i (groups k w)
    → get_loop n p i result ≡ (i + length (groups k w), result + w * 2 ^ (7 * i))
unfolding groups
get_loop-groups k zero w p i result hk hw hr fits held = elim hk [ ]
get_loop-groups zero (suc n) w p i result hk hw hr fits held =
    last_round n p i result w held.0 (omega arith) hr (omega arith)
get_loop-groups (suc k) (suc n) w p i result hk hw hr fits held = ground (
  arith,
  last_round n p i result w,
  split_group w i,
  inner_round n p i result (w % 128),
  room_after i result (w % 128),
  get_loop-groups k n (w / 128) p (i + 1) (result + w % 128 * 2 ^ (7 * i)),
)

pub Holds-from :
    (p : Memory) (at i j : ℕ) (bs : List ℕ) → at + i ≡ j → Holds p j bs → Holds (from p at) i bs
Holds-from p at i j [] e h = tt
Holds-from p at i j (b ∷ bs) e h = (rw e h.0, Holds-from p at (i + 1) (j + 1) bs (omega arith) h.1)

-- `get_varint` at an offset where the bytes of `put_varint v` stand returns their number and `v`,
-- for every uint64_t `v` and whatever stands behind them.
pub get_varint-put_varint :
    (v : ℕ) (p : Memory) (at : ℕ)
    → IsU64 v
    → Holds p at (put_varint v)
    → get_varint (from p at) ≡ (length (put_varint v), v)
unfolding get_varint
get_varint-put_varint v p at h held = rw (put_varint-groups v h) (
    ground (
      arith,
      get_loop-groups 9 10 v (from p at) 0 0,
      Holds-from p at 0 at (groups 9 v),
      (rw (put_varint-groups v h) at held),
    ))

groups-bytes : (k w : ℕ) → w < 128 ^ suc k → All (λ b. b < 256) (groups k w)
unfolding groups
groups-bytes zero w h = omega arith
groups-bytes (suc k) w h = ground (arith, groups-bytes k (w / 128))

-- For every uint64_t, `put_varint` writes 1 to 10 elements, and each of them is a byte.
pub put_varint_shape :
    (v : ℕ)
    → IsU64 v
    → All (λ b. b < 256) (put_varint v) × (1 ≤ length (put_varint v)) × (length (put_varint v) ≤ 10)
put_varint_shape v h =
    rw (put_varint-groups v h)
      (groups-bytes 9 v (omega arith), (length-groups 9 v).0, (length-groups 9 v).1)

pub Holds-append :
    (p : Memory) (at : ℕ) (xs ys : List ℕ)
    → Holds p at (xs ++ ys)
    → Holds p at xs × Holds p (at + length xs) ys
Holds-append p at [] ys h = (tt, let e : at + 0 ≡ at = omega arith in rw e h)
Holds-append p at (x ∷ xs) ys h =
    let (hx, hy) = Holds-append p (at + 1) xs ys h.1 in
    let e : at + suc (length xs) ≡ at + 1 + length xs = omega arith in ((h.0, hx), rw e hy)
