-- ===== src/Pager/Cache/Growth.antt =====
-- The capacity of the cache in `get_page` of src/pager.c, a uint32_t that starts with 32 and is doubled
-- until it is above the page number.
use custom_db.Prelude.{
  ℕ, zero, suc, ◌*◌, ◌^◌, ◌≤◌, ◌<◌, ◌≡◌, refl, ap, ◌∙◌, ◌⊎◌, inl, inr, ltb, if◌then◌else◌, arith,
  Bool-cases,
}
use custom_db.Catalog.Row.Decode.{u32}
use custom_db.Pager.Cache.{grow}
use native.Mathlib.Nat.{pow-suc, pow-le-pow_right}

-- The loop, for so many rounds at most.
unfoldable pub max_pages_loop : ℕ → ℕ → ℕ → ℕ
max_pages_loop zero page_num max_pages = max_pages
max_pages_loop (suc rounds) page_num max_pages =
    let more = max_pages_loop rounds page_num (u32 (max_pages * 2)) in
    if ltb page_num max_pages then max_pages else more

-- Below 2 ^ 31 nothing wraps around.
grow-max_pages_loop :
    (rounds n max : ℕ) → n < 2 ^ 31 → grow rounds n max ≡ max_pages_loop rounds n max
unfolding grow max_pages_loop
grow-max_pages_loop zero n max small = refl
grow-max_pages_loop (suc rounds) n max small = elim (Bool-cases (ltb n max)) [
  | inl e ↦ rw e refl
  | inr e ↦
      (let same : u32 (max * 2) ≡ max * 2 = (let h : max ≤ n = ground (arith, e) in omega arith) in
        rw (e, same) (grow-max_pages_loop rounds n (max * 2) small))
]

-- What the capacity can be: 32 doubled some times, or 0.
IsCapacity : ℕ → Type 0
IsCapacity max = (max ≡ 0) ⊎ ((k : ℕ) × (k ≤ 26) × (max ≡ 32 * 2 ^ k))

power-le : (k : ℕ) → k ≤ 26 → 2 ^ k ≤ 2 ^ 26
power-le k h = pow-le-pow_right (omega arith) h

doubled-IsCapacity : (max : ℕ) → IsCapacity max → IsCapacity (u32 (max * 2))
unfolding IsCapacity
doubled-IsCapacity max (inl e) = inl (omega (arith, e))
doubled-IsCapacity max (inr (k, small, e)) = elim (Bool-cases (ltb k 26)) [
  | inl h ↦
      (let more : suc k ≤ 26 = ground (arith, h) in
        let below : 2 ^ suc k ≤ 2 ^ 26 = power-le (suc k) more in
        let next : 2 ^ suc k ≡ 2 ^ k * 2 = pow-suc 2 k in
        inr (suc k, more, omega (arith, e, below, next)))
  | inr h ↦
      (let last : k ≡ 26 = ground (arith, h, small) in
        let full : max ≡ 2 ^ 31 = e ∙ ap (λ i. 32 * 2 ^ i) last in inl (omega (arith, full)))
]

capacity-le : (max : ℕ) → IsCapacity max → max ≤ 2 ^ 31
unfolding IsCapacity
capacity-le max (inl e) = omega (arith, e)
capacity-le max (inr (k, small, e)) = omega (arith, e, power-le k small)

-- From 2 ^ 31 on, no number of rounds brings the capacity above the page number.
max_pages_loop-le :
    (rounds n max : ℕ) → 2 ^ 31 ≤ n → IsCapacity max → max_pages_loop rounds n max ≤ n
unfolding max_pages_loop
max_pages_loop-le zero n max big c = omega (arith, big, capacity-le max c)
max_pages_loop-le (suc rounds) n max big c =
    let more = max_pages_loop-le rounds n (u32 (max * 2)) big (doubled-IsCapacity max c) in
    ground (arith, more, big, capacity-le max c)

max_pages_loop-endless : (rounds n : ℕ) → 2 ^ 31 ≤ n → max_pages_loop rounds n 32 ≤ n
unfolding IsCapacity
max_pages_loop-endless rounds n big = max_pages_loop-le rounds n 32 big (inr (0, omega arith, refl))
