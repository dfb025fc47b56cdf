-- ===== src/Examples/Splits.antt =====
-- Trees of two leaves, and leaves that are split.
use custom_db.Prelude.{
  ℕ, zero, suc, ◌+◌, ◌<◌, ◌≤◌, ◌≡◌, refl, arith, true, false, some, List, [], ◌∷◌, length,
  replicate, ◌==◌, if◌then◌else◌,
}
use custom_db.Catalog.Row.Decode.{read_le}
use custom_db.Pager.State.{Page, zero_page}
use custom_db.Pager.Cache.{store_bytes}
use custom_db.BTree.Node.{
  leaf_node_num_cells, leaf_node_next_leaf, leaf_node_slot, internal_node_num_keys,
  internal_node_right_child, internal_node_child,
}
use custom_db.BTree.Leaf.{leaf_node_free_space}
use custom_db.BTree.Leaf.Insert.{IsLaid}
use custom_db.BTree.Split.{temp_cell, node_parent, split_leaf}
use custom_db.BTree.Split.Filled.{taken}
use custom_db.BTree.Split.Places.{Shared}
use custom_db.BTree.Split.Links.{Linked}
use custom_db.BTree.Split.Shared.{split_leaf-Shared, split_leaf-free}
use custom_db.BTree.Cursor.{
  Cursor, Pages, descend, btree_start_out, scan, remove_cell, delete_row, underflows,
}
use custom_db.BTree.Cursor.Scan.{IsChain, last, linked, all_places, scan-all_places}
use custom_db.BTree.Cursor.Delete.{Removed, remove_cell-Removed}
use custom_db.BTree.Cursor.Emptied.{delete_row-hides}

-- A leaf of two cells of three bytes.
abbrev two_cells : Page
two_cells = store_bytes 4090 (2 ∷ 1 ∷ 9 ∷ 2 ∷ 1 ∷ 5 ∷ []) (
    store_bytes 20 (253 ∷ 15 ∷ 3 ∷ 0 ∷ 250 ∷ 15 ∷ 3 ∷ 0 ∷ []) (
      store_bytes 8 (2 ∷ 0 ∷ 0 ∷ 0 ∷ 0 ∷ 0 ∷ 0 ∷ 0 ∷ 250 ∷ 15 ∷ [])
        (store_bytes 0 (1 ∷ []) zero_page)))

-- A leaf of one cell of three bytes, before page 3.
abbrev one_cell : Page
one_cell = store_bytes 4093 (2 ∷ 1 ∷ 3 ∷ []) (
    store_bytes 20 (253 ∷ 15 ∷ 3 ∷ 0 ∷ []) (
      store_bytes 8 (1 ∷ 0 ∷ 0 ∷ 0 ∷ 3 ∷ 0 ∷ 0 ∷ 0 ∷ 253 ∷ 15 ∷ [])
        (store_bytes 0 (1 ∷ []) zero_page)))

-- Page 1 is the root, with the leaves on the pages 2 and 3.
abbrev tree : Pages
tree n =
    if n == 1
    then store_bytes 8 (1 ∷ 0 ∷ 0 ∷ 0 ∷ 3 ∷ 0 ∷ 0 ∷ 0 ∷ 2 ∷ 0 ∷ 0 ∷ 0 ∷ []) zero_page
    else if n == 2
    then one_cell
    else two_cells

counts :
    (leaf_node_num_cells two_cells ≡ 2)
    × (leaf_node_num_cells one_cell ≡ 1)
    × (leaf_node_next_leaf two_cells ≡ 0)
    × (leaf_node_next_leaf one_cell ≡ 3)
unfolding leaf_node_num_cells leaf_node_next_leaf read_le store_bytes
counts = (refl, refl, refl, refl)

frees : (leaf_node_free_space two_cells ≡ 4090) × (leaf_node_free_space one_cell ≡ 4093)
unfolding leaf_node_free_space read_le store_bytes
frees = (refl, refl)

parent : node_parent two_cells ≡ 0
unfolding node_parent read_le store_bytes
parent = refl

two_offsets :
    ((leaf_node_slot two_cells 0).offset ≡ 4093)
    × ((leaf_node_slot two_cells 1).offset ≡ 4090)
    × ((leaf_node_slot one_cell 0).offset ≡ 4093)
unfolding leaf_node_slot read_le store_bytes
two_offsets = (refl, refl, refl)

two_cells-offsets : (j : ℕ) → j < 2 → 4090 ≤ (leaf_node_slot two_cells j).offset
two_cells-offsets zero h = rw (two_offsets.0) (omega arith)
two_cells-offsets (suc zero) h = rw (two_offsets.1) (omega arith)
two_cells-offsets (suc (suc j)) h = absurd (omega arith)

two_cells-IsLaid : IsLaid two_cells
two_cells-IsLaid = (rw (frees.0) (omega arith), rw (frees.0, counts.0) two_cells-offsets)

one_cell-offsets : (j : ℕ) → j < 1 → 4093 ≤ (leaf_node_slot one_cell j).offset
one_cell-offsets zero h = rw (two_offsets.2) (omega arith)
one_cell-offsets (suc j) h = absurd (omega arith)

one_cell-IsLaid : IsLaid one_cell
one_cell-IsLaid = (rw (frees.1) (omega arith), rw (frees.1, counts.1) one_cell-offsets)

halves :
    (taken (temp_cell two_cells 1 (2 ∷ 1 ∷ 7 ∷ [])) 1 ≡ 3)
    × (taken (λ i. temp_cell two_cells 1 (2 ∷ 1 ∷ 7 ∷ []) (1 + i)) 2 ≡ 6)
unfolding temp_cell leaf_node_slot read_le store_bytes
halves = (refl, refl)

-- The cell goes between the two, at the front of the new page 7.
split_leaf-Shared_example :
    Shared two_cells 1
      (2 ∷ 1 ∷ 7 ∷ [])
      (split_leaf 1 (2 ∷ 1 ∷ 7 ∷ []) 7 two_cells zero_page).0
      (split_leaf 1 (2 ∷ 1 ∷ 7 ∷ []) 7 two_cells zero_page).1
    × Linked two_cells 7
        (split_leaf 1 (2 ∷ 1 ∷ 7 ∷ []) 7 two_cells zero_page).0
        (split_leaf 1 (2 ∷ 1 ∷ 7 ∷ []) 7 two_cells zero_page).1
split_leaf-Shared_example =
    split_leaf-Shared two_cells zero_page 1 7 (2 ∷ 1 ∷ 7 ∷ []) two_cells-IsLaid
      (omega (arith, counts.0, frees.0)) (omega (arith, counts.0))
      (omega arith, omega (arith, counts.2), omega (arith, parent)) 1 2 (omega (arith, counts.0))
      (omega (arith, counts.0)) (omega (arith, halves.0)) (omega (arith, halves.1))

-- Four cells of 5 bytes and four of 1,000 bytes, in 4,072 of the page's bytes.
abbrev wide : Page
wide =
    store_bytes 20
      (251 ∷ 15 ∷ 5 ∷ 0 ∷ 246 ∷ 15 ∷ 5 ∷ 0 ∷ 241 ∷ 15 ∷ 5 ∷ 0 ∷ 236 ∷ 15 ∷ 5 ∷ 0 ∷ 4 ∷ 12 ∷ 232 ∷ 3
        ∷ 28 ∷ 8 ∷ 232 ∷ 3 ∷ 52 ∷ 4 ∷ 232 ∷ 3 ∷ 76 ∷ 0 ∷ 232 ∷ 3 ∷ [])
      (store_bytes 8 (8 ∷ 0 ∷ 0 ∷ 0 ∷ 0 ∷ 0 ∷ 0 ∷ 0 ∷ 76 ∷ 0 ∷ [])
        (store_bytes 0 (1 ∷ []) zero_page))

abbrev thousand : List ℕ
thousand = replicate 1000 7

wide_count : leaf_node_num_cells wide ≡ 8
unfolding leaf_node_num_cells read_le store_bytes
wide_count = refl

wide_sizes : taken (λ i. temp_cell wide 8 thousand (4 + i)) 5 ≡ 5000
unfolding temp_cell leaf_node_slot read_le store_bytes
wide_sizes = refl

split_leaf-free_example : 4096 < leaf_node_free_space (split_leaf 8 thousand 7 wide zero_page).1
split_leaf-free_example =
    split_leaf-free wide zero_page 8 7 thousand 4 5 (omega (arith, wide_count))
      (omega (arith, wide_count)) (omega (arith, wide_sizes)) (omega (arith, wide_sizes))

remove_cell-Removed_example : Removed two_cells 0 (remove_cell 0 two_cells)
remove_cell-Removed_example =
    remove_cell-Removed two_cells 0 (omega (arith, counts.0)) two_cells-IsLaid
      (omega (arith, counts.0, frees.0))

found : descend tree (λ node. 0) 2 1 ≡ some 2
unfolding descend internal_node_child internal_node_num_keys internal_node_right_child read_le
    store_bytes
found = refl

chain : IsChain tree 2 (3 ∷ [])
chain =
    linked (omega (arith, counts.1)) (omega (arith, counts.1)) (counts.3) (ground arith)
      (last (omega (arith, counts.0)) (omega (arith, counts.0)) (counts.2))

scan-all_places_example :
    (c : Cursor) × (btree_start_out tree 2 1 ≡ some c)
    × (scan tree (length (all_places tree 2 (3 ∷ [])) + 0) c ≡ some (all_places tree 2 (3 ∷ [])))
scan-all_places_example = scan-all_places tree 2 1 2 (3 ∷ []) found chain 0

delete_row-hides_example :
    let r = delete_row tree (record { page_num = 2; cell_num = 0; end_of_table = false }) in
    (r.1 ≡ (record { page_num = 3; cell_num = 0; end_of_table = false }))
    × (underflows (r.0 3) ≡ false)
    × (r.0 3 ≡ tree 3)
    × (btree_start_out r.0 2 1 ≡ some (record { page_num = 2; cell_num = 0; end_of_table = true }))
delete_row-hides_example =
    delete_row-hides tree 2 1 2 3 found (counts.1) one_cell-IsLaid (omega (arith, frees.1))
      (counts.3) (ground arith) (ground arith) (omega (arith, counts.0))
