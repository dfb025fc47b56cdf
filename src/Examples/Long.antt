-- ===== src/Examples/Long.antt =====
-- A row that needs an overflow page.
use custom_db.Prelude.{ℕ, ◌≡◌, inl, arith, true, some, List, [], ◌∷◌, replicate, length-replicate}
use custom_db.Pager.State.{zero_page}
use custom_db.BTree.Cursor.{Pages}
use custom_db.BTree.Overflow.{Unused, serialize_cell_for_leaf}
use custom_db.BTree.Overflow.RoundTrip.{Kept, cursor_value-serialize_cell_for_leaf}

abbrev two_thousand : List ℕ
two_thousand = replicate 2000 7

abbrev no_pages : Pages
no_pages = λ n. zero_page

-- The only page of the free list.
abbrev page_ten : Unused
page_ten = record { page_num = 10; is_reused = true }

-- Behind four pages of the catalog.
cursor_value-serialize_cell_for_leaf_example :
    (cell : List ℕ) × (ps : Pages) × (serialize_cell_for_leaf (page_ten ∷ []) two_thousand no_pages
      ≡ some (cell, ps))
    × Kept (page_ten ∷ []) two_thousand 4 no_pages cell ps
cursor_value-serialize_cell_for_leaf_example =
    cursor_value-serialize_cell_for_leaf (page_ten ∷ []) two_thousand 4 no_pages
      (omega arith, omega arith, tt, tt) (omega arith, tt)
      (omega (arith, length-replicate {A = ℕ} 2000 7))
      (inl (omega (arith, length-replicate {A = ℕ} 2000 7)))
