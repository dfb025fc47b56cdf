-- ===== src/Examples/Trees.antt =====
-- A leaf of two rows with the keys 5 and 9, and an internal node with the same keys.
use custom_db.Prelude.{
  ℕ, zero, suc, ◌+◌, ◌*◌, ◌<◌, ◌≤◌, ◌≡◌, refl, arith, Bool, true, false, some, [], ◌∷◌,
}
use custom_db.Catalog.Types.{int, text, bool, Value, value_init}
use custom_db.Catalog.Varint.{Memory, get_varint, get_loop}
use custom_db.Catalog.Row.Decode.{read_le, sign_extend}
use custom_db.Pager.State.{Page, zero_page}
use custom_db.Pager.Cache.{store_bytes}
use custom_db.BTree.Keys.{
  FloatOrder, compare_keys, compare_values, serialize_col0_key, extract_col0_from_packed_record,
  extract_value, cell_is_overflow_stub,
}
use custom_db.BTree.Keys.Order.{compare_keys-serialize_col0_key}
use custom_db.BTree.Node.{
  leaf_node_num_cells, leaf_node_slot, leaf_node_value, internal_node_num_keys, internal_node_child,
}
use custom_db.BTree.Search.{row_before, leaf_node_find, key_before, internal_node_find_child}
use custom_db.BTree.Search.LowerBound.{
  IsSorted, Parts, leaf_node_find-Parts, internal_node_find_child-Parts,
}
use custom_db.BTree.Keys.Extract.{extract-serialize}
use custom_db.Examples.Rows.{
  floats, memory, memory-Holds, forty_two, hello, values-Stored, row_bytes, row_written,
}
use custom_db.BTree.Leaf.{leaf_node_defragment}
use custom_db.BTree.Leaf.{leaf_node_free_space, leaf_node_insert}
use custom_db.BTree.Leaf.Insert.{IsLaid, Inserted}
use custom_db.BTree.Leaf.Room.{leaf_node_insert-Inserted}
use custom_db.BTree.Leaf.Moved.{total}
use custom_db.BTree.Leaf.Defragment.{SameCells, leaf_node_defragment-cells}

abbrev float_order : FloatOrder
float_order = record { float_lt = λ a b. false; double_lt = λ a b. false }

abbrev five : Value
five = record value_init { int_val = 5 }

abbrev nine : Value
nine = record value_init { int_val = 9 }

compare_keys-serialize_col0_key_example :
    (compare_keys float_order int (serialize_col0_key int five) (serialize_col0_key int nine)
      ≡ compare_values floats float_order int five nine)
    × (compare_keys float_order bool (serialize_col0_key bool five) (serialize_col0_key bool nine)
        ≡ compare_values floats float_order bool five nine)
compare_keys-serialize_col0_key_example =
    compare_keys-serialize_col0_key floats float_order five nine (refl, refl)
      (omega arith, omega arith)

-- The keys are the third bytes of the cells, at 4093 and 4090.
abbrev leaf : Page
leaf = store_bytes 4090 (2 ∷ 1 ∷ 9 ∷ 2 ∷ 1 ∷ 5 ∷ []) (
    store_bytes 20 (253 ∷ 15 ∷ 3 ∷ 0 ∷ 250 ∷ 15 ∷ 3 ∷ 0 ∷ [])
      (store_bytes 8 (2 ∷ 0 ∷ 0 ∷ 0 ∷ 0 ∷ 0 ∷ 0 ∷ 0 ∷ 250 ∷ 15 ∷ []) zero_page))

abbrev node : Page
node =
    store_bytes 52 (4 ∷ 0 ∷ 0 ∷ 0 ∷ 9 ∷ [])
      (store_bytes 16 (3 ∷ 0 ∷ 0 ∷ 0 ∷ 5 ∷ []) (store_bytes 8 (2 ∷ 0 ∷ 0 ∷ 0 ∷ 6 ∷ []) zero_page))

abbrev seven : Memory
seven = store_bytes 0 (7 ∷ []) zero_page

two_rows : leaf_node_num_cells leaf ≡ 2
unfolding leaf_node_num_cells read_le store_bytes
two_rows = refl

two_keys : internal_node_num_keys node ≡ 2
unfolding internal_node_num_keys read_le store_bytes
two_keys = refl

rows :
    (row_before floats float_order int leaf seven 0 ≡ true)
    × (row_before floats float_order int leaf seven 1 ≡ false)
unfolding row_before extract_col0_from_packed_record extract_value cell_is_overflow_stub
    leaf_node_slot leaf_node_value get_varint get_loop read_le sign_extend store_bytes
rows = (refl, refl)

keys :
    (key_before float_order int node seven 0 ≡ true)
    × (key_before float_order int node seven 1 ≡ false)
unfolding key_before read_le store_bytes
keys = (refl, refl)

-- Of two places the first only comes before the target.
two-IsSorted : (before : ℕ → Bool) (n : ℕ) → n ≡ 2 → before 1 ≡ false → IsSorted before n
two-IsSorted before n e second i zero le_ h there =
    let none_ : i ≡ 0 = omega arith in rw none_ there
two-IsSorted before n e second i (suc zero) le_ h there = absurd (ground (arith, there, second))
two-IsSorted before n e second i (suc (suc j)) le_ h there = absurd (omega (arith, e))

leaf_node_find-Parts_example :
    Parts
      (row_before floats float_order int leaf seven)
      (leaf_node_num_cells leaf)
      (leaf_node_find floats float_order int leaf seven)
leaf_node_find-Parts_example =
    leaf_node_find-Parts floats float_order int leaf seven (rw two_rows (omega arith)) (
      two-IsSorted (row_before floats float_order int leaf seven) (leaf_node_num_cells leaf)
        two_rows rows.1)

internal_node_find_child-Parts_example :
    Parts
      (key_before float_order int node seven)
      (internal_node_num_keys node)
      (internal_node_find_child float_order int node seven)
    × ((child : ℕ) × (internal_node_child node (internal_node_find_child float_order int node seven)
          ≡ some child))
internal_node_find_child-Parts_example =
    internal_node_find_child-Parts float_order int node seven (rw two_keys (omega arith)) (
      two-IsSorted (key_before float_order int node seven) (internal_node_num_keys node) two_keys
        keys.1)

measured : 20 + leaf_node_num_cells leaf * 4 + total leaf (leaf_node_num_cells leaf) ≡ 34
unfolding leaf_node_num_cells leaf_node_slot read_le store_bytes
measured = refl

leaf_node_defragment-cells_example : SameCells leaf (leaf_node_defragment leaf)
leaf_node_defragment-cells_example =
    leaf_node_defragment-cells leaf (rw two_rows (omega arith)) (rw measured (omega arith))

extract-serialize_example :
    (extract_col0_from_packed_record floats int 100 (memory row_bytes)).int_val ≡ 42
extract-serialize_example =
    extract-serialize floats (text ∷ []) forty_two (hello ∷ []) 100 5 9 100 (memory row_bytes) refl
      values-Stored (omega arith) (omega arith, omega arith, omega arith)
      (rw row_written (omega arith)) (omega arith) (rw row_written (memory-Holds row_bytes))

free_end : leaf_node_free_space leaf ≡ 4090
unfolding leaf_node_free_space read_le store_bytes
free_end = refl

offsets : ((leaf_node_slot leaf 0).offset ≡ 4093) × ((leaf_node_slot leaf 1).offset ≡ 4090)
unfolding leaf_node_slot read_le store_bytes
offsets = (refl, refl)

leaf-offsets : (j : ℕ) → j < 2 → 4090 ≤ (leaf_node_slot leaf j).offset
leaf-offsets zero h = rw (offsets.0) (omega arith)
leaf-offsets (suc zero) h = rw (offsets.1) (omega arith)
leaf-offsets (suc (suc j)) h = absurd (omega arith)

leaf-IsLaid : IsLaid leaf
leaf-IsLaid = (rw free_end (omega arith), rw (free_end, two_rows) leaf-offsets)

-- The row with the key 7.
leaf_node_insert-Inserted_example :
    (p : Page) × (leaf_node_insert 1 (2 ∷ 1 ∷ 7 ∷ []) leaf ≡ some p)
    × Inserted leaf 1 (2 ∷ 1 ∷ 7 ∷ []) p
leaf_node_insert-Inserted_example =
    leaf_node_insert-Inserted leaf 1 (2 ∷ 1 ∷ 7 ∷ []) (rw two_rows (omega arith))
      (rw measured (omega arith)) leaf-IsLaid (rw two_rows (omega arith)) (omega (arith, measured))
