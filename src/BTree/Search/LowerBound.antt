-- ===== src/BTree/Search/LowerBound.antt =====
-- The searches find the first place that is not before the key.
use custom_db.Prelude.{
  ℕ, zero, suc, ◌+◌, ◌-◌, ◌/◌, ◌^◌, ◌≤◌, ◌<◌, ◌≡◌, refl, Bool, true, false, some, ltb, arith,
  Bool-cases, inl, inr,
}
use custom_db.Catalog.Types.{ColumnType, Floats}
use custom_db.Catalog.Varint.{Memory}
use custom_db.Catalog.Row.Decode.{u32}
use custom_db.Pager.State.{Page}
use custom_db.BTree.Keys.{FloatOrder}
use custom_db.BTree.Node.{leaf_node_num_cells, internal_node_num_keys, internal_node_child}
use custom_db.BTree.Search.{
  search_loop, row_before, leaf_node_find, key_before, internal_node_find_child,
}

-- What comes before the target is a first part of the places below `n`.
abbrev pub IsSorted : (ℕ → Bool) → ℕ → Type 0
IsSorted before n = (i j : ℕ) → i ≤ j → j < n → before j ≡ true → before i ≡ true

-- `k` parts the places below `n`: those before the target, and the others.
abbrev pub Parts : (ℕ → Bool) → ℕ → ℕ → Type 0
Parts before n k =
    (k ≤ n) × ((i : ℕ) → i < k → before i ≡ true) × ((i : ℕ) → k ≤ i → i < n → before i ≡ false)

search_loop-Parts :
    (fuel : ℕ) (before : ℕ → Bool) (n lo hi : ℕ)
    → IsSorted before n
    → lo ≤ hi
    → hi ≤ n
    → hi - lo ≤ fuel
    → n < 2 ^ 31
    → ((i : ℕ) → i < lo → before i ≡ true)
    → ((i : ℕ) → hi ≤ i → i < n → before i ≡ false)
    → Parts before n (search_loop fuel before lo hi)
unfolding search_loop
search_loop-Parts zero before n lo hi sorted le_ fits enough short low high =
    (omega arith, low, λ i a b. high i (omega arith) b)
search_loop-Parts (suc fuel) before n lo hi sorted le_ fits enough short low high =
    let mid = u32 (lo + hi) / 2 in
    let no_wrap : u32 (lo + hi) ≡ lo + hi = omega arith in
    let halved : (lo ≤ mid) × (mid ≤ hi) × (lo < hi → mid < hi) =
      (omega (arith, no_wrap), omega (arith, no_wrap), λ h. omega (arith, no_wrap)) in
    elim (Bool-cases (ltb lo hi)) [
      | inr e ↦
          (let met : hi ≤ lo = ground (arith, e) in
            rw e (omega arith, low, λ i a b. high i (omega arith) b))
      | inl e ↦
          (let apart : lo < hi = ground (arith, e) in
            elim (Bool-cases (before mid)) [
              | inl e' ↦
                  rw (e, e')
                    (search_loop-Parts fuel before n (mid + 1) hi sorted (omega arith) fits
                      (omega arith) short
                      (λ i a. sorted i mid (omega (arith, a)) (omega (arith, halved.2 apart)) e')
                      high)
              | inr e' ↦
                  rw (e, e')
                    (search_loop-Parts fuel before n lo mid sorted (omega arith) (omega arith)
                      (omega arith) short low (λ i a b. later i mid e' a b))
            ])
    ]
  where
    later : (i m : ℕ) → before m ≡ false → m ≤ i → i < n → before i ≡ false
    later i m e a b = elim (Bool-cases (before i)) [
      | inl e' ↦ absurd (ground (arith, e, sorted m i a b e'))
      | inr e' ↦ e'
    ]

-- In a leaf of fewer than 2 ^ 31 rows whose rows are in the order of their keys, `leaf_node_find` returns the place of the first
-- row that is not before the key, or the number of rows if all are.
pub leaf_node_find-Parts :
    (fl : Floats) (fo : FloatOrder) (col : ColumnType) (node : Page) (raw_key : Memory)
    → leaf_node_num_cells node < 2 ^ 31
    → IsSorted (row_before fl fo col node raw_key) (leaf_node_num_cells node)
    → Parts
        (row_before fl fo col node raw_key)
        (leaf_node_num_cells node)
        (leaf_node_find fl fo col node raw_key)
unfolding leaf_node_find
leaf_node_find-Parts fl fo col node raw_key short sorted =
    let n = leaf_node_num_cells node in
    search_loop-Parts n (row_before fl fo col node raw_key) n 0 n sorted (omega arith) (omega arith)
      (omega arith) short (λ i a. absurd (omega arith)) (λ i a b. absurd (omega arith))

-- In an internal node of fewer than 2 ^ 31 keys, which are in order, `internal_node_find_child` returns the place of the first
-- key that is not before the key, or the number of keys if all are; there is a child there.
pub internal_node_find_child-Parts :
    (fo : FloatOrder) (col : ColumnType) (node : Page) (raw_key : Memory)
    → internal_node_num_keys node < 2 ^ 31
    → IsSorted (key_before fo col node raw_key) (internal_node_num_keys node)
    → Parts
        (key_before fo col node raw_key)
        (internal_node_num_keys node)
        (internal_node_find_child fo col node raw_key)
      × ((child : ℕ) × (internal_node_child node (internal_node_find_child fo col node raw_key)
            ≡ some child))
unfolding internal_node_find_child internal_node_child
internal_node_find_child-Parts fo col node raw_key short sorted =
    let n = internal_node_num_keys node in
    let parts : Parts (key_before fo col node raw_key) n
        (internal_node_find_child fo col node raw_key) =
      search_loop-Parts n (key_before fo col node raw_key) n 0 n sorted (omega arith) (omega arith)
        (omega arith) short (λ i a. absurd (omega arith)) (λ i a b. absurd (omega arith)) in
    let inside : ltb n (internal_node_find_child fo col node raw_key) ≡ false =
      ground (arith, parts.0) in
    (parts, rw inside (_, refl))
