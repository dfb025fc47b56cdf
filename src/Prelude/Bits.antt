-- ===== src/Prelude/Bits.antt =====
-- The bit operations of the C code, as arithmetic.
use Prim.Native.Nat.{
  ℕ, zero, suc, ◌+◌, ◌*◌, ◌/◌, ◌%◌, ◌^◌, ◌≤◌, ◌<◌, min, max, bit_and, bit_or, digits,
  bit_and-bitwise, bit_or-bitwise,
}
use mathlib.Core.Path.{◌≡◌, refl, sym, ap, ◌∙◌}
use native.Mathlib.Omega.{arith}
use native.Mathlib.Nat.{pow-suc}
use custom_db.Prelude.Tests.{◌==◌, ==_iff, holds_below, holds_below_at}

-- An operation that works bit by bit: `bit` on two bits, `rest` once the left argument is used up.
module _ (rest : ℕ → ℕ) (bit : ℕ → ℕ → ℕ) where
  used_up : (n b : ℕ) → digits rest bit n 0 b ≡ rest b
  used_up zero b = refl
  used_up (suc n) b = refl

  -- The number of rounds does not matter, if it is enough.
  rounds : (a b n m : ℕ) → a ≤ n → a ≤ m → digits rest bit n a b ≡ digits rest bit m a b
  rounds zero b n m hn hm = used_up n b ∙ sym (used_up m b)
  rounds (suc a) b zero m hn hm = absurd (omega arith)
  rounds (suc a) b (suc n) zero hn hm = absurd (omega arith)
  rounds (suc a) b (suc n) (suc m) hn hm =
      let below = rounds (suc a / 2) (b / 2) n m (omega arith) (omega arith) in
      ap (λ high. high * 2 + bit (suc a % 2) (b % 2)) below

  split_lowest :
      ((b : ℕ) → rest b ≡ rest (b / 2) * 2 + bit 0 (b % 2))
      → (a b : ℕ)
      → digits rest bit a a b ≡ digits rest bit (a / 2) (a / 2) (b / 2) * 2 + bit (a % 2) (b % 2)
  split_lowest start zero b = start b
  split_lowest start (suc a) b =
      let high = rounds (suc a / 2) (b / 2) a (suc a / 2) (omega arith) (omega arith) in
      ap (λ h. h * 2 + bit (suc a % 2) (b % 2)) high

-- The lowest bit of `&` and of `|`.
bit_and_lowest : (a b : ℕ) → bit_and a b ≡ bit_and (a / 2) (b / 2) * 2 + min (a % 2) (b % 2)
bit_and_lowest a b =
    bit_and-bitwise a b
    ∙ split_lowest (λ k. zero) min (λ k. omega arith) a b
    ∙ ap (λ h. h * 2 + min (a % 2) (b % 2)) (sym (bit_and-bitwise (a / 2) (b / 2)))

bit_or_lowest : (a b : ℕ) → bit_or a b ≡ bit_or (a / 2) (b / 2) * 2 + max (a % 2) (b % 2)
bit_or_lowest a b =
    bit_or-bitwise a b
    ∙ split_lowest (λ k. k) max (λ k. omega arith) a b
    ∙ ap (λ h. h * 2 + max (a % 2) (b % 2)) (sym (bit_or-bitwise (a / 2) (b / 2)))

-- An empty mask leaves nothing; `n` is a bound to induct on.
no_mask : (n a : ℕ) → a ≤ n → bit_and a 0 ≡ 0
no_mask zero a h = let e : a ≡ 0 = omega arith in rw e refl
no_mask (suc n) a h = omega (arith, bit_and_lowest a 0, no_mask n (a / 2) (omega arith))

-- One more bit of a mask.
mask_two : (a : ℕ) → bit_and a 3 ≡ a % 4
mask_two a = omega (
  arith,
  bit_and_lowest a 3,
  bit_and_lowest (a / 2) 1,
  no_mask (a / 2 / 2) (a / 2 / 2) (omega arith),
)

mask_more :
    (a low bound : ℕ)
    → bit_and (a / 2) low ≡ a / 2 % bound
    → bit_and a (low * 2 + 1) ≡ a / 2 % bound * 2 + a % 2
mask_more a low bound h =
    let half : (low * 2 + 1) / 2 ≡ low = omega arith in
    let shorter : bit_and (a / 2) ((low * 2 + 1) / 2) ≡ a / 2 % bound = rw half h in
    omega (arith, bit_and_lowest a (low * 2 + 1), shorter)

mask_three : (a : ℕ) → bit_and a 7 ≡ a % 8
mask_three a = omega (arith, mask_more a 3 4 (mask_two (a / 2)))

mask_four : (a : ℕ) → bit_and a 15 ≡ a % 16
mask_four a = omega (arith, mask_more a 7 8 (mask_three (a / 2)))

mask_five : (a : ℕ) → bit_and a 31 ≡ a % 32
mask_five a = omega (arith, mask_more a 15 16 (mask_four (a / 2)))

mask_six : (a : ℕ) → bit_and a 63 ≡ a % 64
mask_six a = omega (arith, mask_more a 31 32 (mask_five (a / 2)))

-- `x & 0x7f`, at every width
pub bit_and_127 : (a : ℕ) → bit_and a 0x7f ≡ a % 128
bit_and_127 a = omega (arith, mask_more a 63 64 (mask_six (a / 2)))

-- `a | (g << s)` adds where the bits of `a` are all below bit `s`.
pub bit_or_disjoint : (s a g : ℕ) → a < 2 ^ s → bit_or a (g * 2 ^ s) ≡ a + g * 2 ^ s
bit_or_disjoint zero zero g h = omega (arith, bit_or-bitwise 0 (g * 2 ^ zero))
bit_or_disjoint zero (suc a) g h = absurd (omega arith)
bit_or_disjoint (suc s) a g h =
    let e : g * 2 ^ suc s ≡ g * 2 ^ s * 2 = rw (pow-suc 2 s) (omega arith) in
    let small : a < 2 ^ s * 2 = rw (pow-suc 2 s) at h in
    rw e (
      omega (
        arith,
        bit_or_lowest a (g * 2 ^ s * 2),
        bit_or_disjoint s (a / 2) g (omega arith),
        ap (λ (x : ℕ). bit_or (a / 2) x) halves,
      ))
  where
    halves : g * 2 ^ s * 2 / 2 ≡ g * 2 ^ s
    halves = omega arith

-- The continuation bit of a varint's byte: testing it, and setting it.
pub continues : (byte : ℕ) → byte < 256 → bit_and byte 0x80 ≡ byte / 128 * 128
continues byte h =
    (==_iff _ _).0 (
      holds_below_at 256 (λ x. bit_and x 0x80 == x / 128 * 128) byte (unfold holds_below in refl) h)

pub continued : (group : ℕ) → group < 128 → bit_or group 0x80 ≡ group + 128
continued group h =
    (==_iff _ _).0
      (holds_below_at 128 (λ x. bit_or x 0x80 == x + 128) group (unfold holds_below in refl) h)
