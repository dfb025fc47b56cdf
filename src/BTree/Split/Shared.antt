-- ===== src/BTree/Split/Shared.antt =====
-- How a split shares out the cells.
use custom_db.Prelude.{ℕ, zero, suc, ◌+◌, ◌-◌, ◌*◌, ◌/◌, ◌^◌, ◌≤◌, ◌<◌, ◌≡◌, refl, sym, List, arith}
use custom_db.Pager.State.{Page}
use custom_db.BTree.Node.{leaf_node_num_cells, leaf_node_next_leaf}
use custom_db.BTree.Leaf.{leaf_node_free_space}
use custom_db.BTree.Leaf.Insert.{IsLaid}
use custom_db.BTree.Split.{
  TempCell, temp_cell, node_parent, populate, emptied_leaf, new_leaf, split_leaf,
}
use custom_db.BTree.Split.Filled.{taken}
use custom_db.BTree.Split.Halves.{populate-HoldsCells, populate-free}
use custom_db.BTree.Split.Places.{linked, linked_count, temp_size, Shared, split-Shared}
use custom_db.BTree.Split.Links.{Linked, split-Linked}
use mathlib.Core.Path.{subst}

taken-same :
    (a b : ℕ → TempCell) (n : ℕ) → ((i : ℕ) → (a i).size ≡ (b i).size) → taken a n ≡ taken b n
taken-same a b zero e = refl
taken-same a b (suc n) e = omega (arith, e n, taken-same a b n e)

split_leaf_run :
    (node new_node : Page) (pos new_page : ℕ) (cell : List ℕ) (n m : ℕ)
    → n ≡ (leaf_node_num_cells node + 1) / 2
    → n + m ≡ leaf_node_num_cells node + 1
    → split_leaf pos cell new_page node new_node ≡ (
      populate
          (temp_cell (linked node pos new_page cell) pos cell)
          n
          (emptied_leaf new_page (linked node pos new_page cell)),
      populate
          (λ i. temp_cell (linked node pos new_page cell) pos cell (n + i))
          m
          (new_leaf node new_node),
    )
unfolding split_leaf
split_leaf_run node new_node pos new_page cell n m half whole =
    let count = linked_count node pos new_page cell in
    let half' : (leaf_node_num_cells node + 1) / 2 ≡ n = sym half in
    let rest : leaf_node_num_cells node + 1 - n ≡ m = omega (arith, whole) in
    rw (count, half', rest) refl

-- Splitting a leaf whose cells lie behind its free space, and that behind its slots, for a new
-- cell at a place up to behind the last cell, with page numbers of 32 bits: if each half of the
-- cells, counted with the new one, fits a page, then the old page and the new one are leaves that
-- hold the old cells and the new one, in order, byte by byte, the first half of them by count on
-- the old page; the leaves are linked in that order and have the old parent, and only the old one
-- keeps being a root.
pub split_leaf-Shared :
    (node new_node : Page) (pos new_page : ℕ) (cell : List ℕ)
    → IsLaid node
    → 20 + leaf_node_num_cells node * 4 ≤ leaf_node_free_space node
    → pos ≤ leaf_node_num_cells node
    → (new_page < 2 ^ 32) × (leaf_node_next_leaf node < 2 ^ 32) × (node_parent node < 2 ^ 32)
    → (n m : ℕ) → n ≡ (leaf_node_num_cells node + 1) / 2
    → n + m ≡ leaf_node_num_cells node + 1
    → 20 + n * 4 + taken (temp_cell node pos cell) n ≤ 4096
    → 20 + m * 4 + taken (λ i. temp_cell node pos cell (n + i)) m ≤ 4096
    → Shared node pos cell
        (split_leaf pos cell new_page node new_node).0
        (split_leaf pos cell new_page node new_node).1
      × Linked node new_page
          (split_leaf pos cell new_page node new_node).0
          (split_leaf pos cell new_page node new_node).1
split_leaf-Shared node new_node pos new_page cell laid above inside numbers n m half whole fits
      fits' =
    let old = linked node pos new_page cell in
    let cells = temp_cell old pos cell in
    let sizes = temp_size node pos new_page cell in
    let left_fits : 20 + n * 4 + taken cells n ≤ 4096 =
      omega (arith, fits, taken-same cells (temp_cell node pos cell) n sizes) in
    let right_fits : 20 + m * 4 + taken (λ i. cells (n + i)) m ≤ 4096 = omega (
      arith,
      fits',
      taken-same (λ i. cells (n + i)) (λ i. temp_cell node pos cell (n + i)) m (λ i. sizes (n + i)),
    ) in
    subst (λ (r : Page × Page). Shared node pos cell r.0 r.1 × Linked node new_page r.0 r.1)
      (sym (split_leaf_run node new_node pos new_page cell n m half whole))
      (
        split-Shared node pos new_page cell laid (omega (arith, above)) inside
            (populate cells n (emptied_leaf new_page old))
            (populate (λ i. cells (n + i)) m (new_leaf node new_node)) n m half whole
            (populate-HoldsCells cells n (emptied_leaf new_page old) left_fits)
            (populate-HoldsCells (λ i. cells (n + i)) m (new_leaf node new_node) right_fits),
        split-Linked node new_node pos new_page cell numbers cells n m left_fits right_fits,
      )

-- Where the cells of the right half take more than 4,096 bytes, but fewer than 2 ^ 16, the free
-- space of the new leaf ends outside of its page.
pub split_leaf-free :
    (node new_node : Page) (pos new_page : ℕ) (cell : List ℕ) (n m : ℕ)
    → n ≡ (leaf_node_num_cells node + 1) / 2
    → n + m ≡ leaf_node_num_cells node + 1
    → 4096 < taken (λ i. temp_cell node pos cell (n + i)) m
    → taken (λ i. temp_cell node pos cell (n + i)) m < 2 ^ 16
    → 4096 < leaf_node_free_space (split_leaf pos cell new_page node new_node).1
split_leaf-free node new_node pos new_page cell n m half whole over bound =
    let cells = temp_cell (linked node pos new_page cell) pos cell in
    let same =
      taken-same (λ i. cells (n + i)) (λ i. temp_cell node pos cell (n + i)) m
        (λ i. temp_size node pos new_page cell (n + i)) in
    let end =
      populate-free (λ i. cells (n + i)) m (new_leaf node new_node) (omega (arith, same, over))
        (omega (arith, same, bound)) in
    subst (λ (r : Page × Page). 4096 < leaf_node_free_space r.1)
      (sym (split_leaf_run node new_node pos new_page cell n m half whole))
      (omega (arith, end, same, bound))
