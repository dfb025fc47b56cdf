-- ===== src/BTree/Leaf/Room.antt =====
-- `leaf_node_insert` where there is room, at once or after defragmenting.
use custom_db.Prelude.{
  ℕ, suc, ◌+◌, ◌*◌, ◌≤◌, ◌<◌, ◌≡◌, refl, ap, ◌∙◌, true, some, List, length, arith, Bool-cases, inl,
  inr,
}
use custom_db.Pager.State.{Page}
use custom_db.BTree.Node.{leaf_node_num_cells}
use custom_db.BTree.Leaf.{
  leaf_node_free_space, leaf_node_defragment, has_room, insert_cell, leaf_node_insert,
}
use custom_db.BTree.Leaf.Moved.{total, total-le}
use custom_db.BTree.Leaf.Defragment.{FitsPage, SameCells, leaf_node_defragment-cells}
use custom_db.BTree.Leaf.Insert.{SameCell, Inserted, IsLaid, insert_cell-Inserted}

has_room-le :
    (node : Page) (needed : ℕ)
    → has_room node needed ≡ true
    → 20 + leaf_node_num_cells node * 4 + needed ≤ leaf_node_free_space node
unfolding has_room
has_room-le node needed h = ground (arith, h)

has_room-some :
    (node : Page) (needed : ℕ)
    → 20 + leaf_node_num_cells node * 4 + needed ≤ leaf_node_free_space node
    → has_room node needed ≡ true
unfolding has_room
has_room-some node needed h = ground (arith, h)

Inserted-room :
    (node : Page) (pos : ℕ) (cell : List ℕ)
    → IsLaid node
    → pos ≤ leaf_node_num_cells node
    → has_room node (4 + length cell) ≡ true
    → Inserted node pos cell (insert_cell pos cell node)
Inserted-room node pos cell laid inside room =
    insert_cell-Inserted node pos cell laid inside
      (omega (arith, has_room-le node (4 + length cell) room))

module _ (node packed : Page) (fits : FitsPage node) (same : SameCells node packed) where
  packed-IsLaid : IsLaid packed
  packed-IsLaid = (
    omega (arith, same.2),
    λ j h.
        (let inside : j < leaf_node_num_cells node = omega (arith, h, same.0) in
          omega (
            arith,
            same.2,
            (same.3 j inside).1,
            total-le node (suc j) (leaf_node_num_cells node) inside,
            fits,
          )),
  )

  SameCell-packed :
      (p : Page) (j i : ℕ)
      → j < leaf_node_num_cells node
      → SameCell packed j p i
      → SameCell node j p i
  SameCell-packed p j i h (size, bytes) =
      let (size', offset, bytes') = same.3 j h in
      (size ∙ size', λ k h'. bytes k (omega (arith, size', h')) ∙ bytes' k h')

  Inserted-packed :
      (pos : ℕ) (cell : List ℕ) (p : Page)
      → pos ≤ leaf_node_num_cells node
      → Inserted packed pos cell p
      → Inserted node pos cell p
  Inserted-packed pos cell p inside (count, before, here, behind) = (
    count ∙ ap (λ n. n + 1) same.0,
    λ j h. SameCell-packed p j j (omega (arith, inside)) (before j h),
    here,
    λ j low high. SameCell-packed p j (j + 1) high (behind j low (omega (arith, high, same.0))),
  )

-- Inserting a cell into a leaf with cells, all of which fit the page and lie behind its free space, does
-- not split it if the page has room for one more slot and for the bytes of the new cell, whether or
-- not they are contiguous; the cells are then the old ones, with the new one at its place.
pub leaf_node_insert-Inserted :
    (node : Page) (pos : ℕ) (cell : List ℕ)
    → 1 ≤ leaf_node_num_cells node
    → FitsPage node
    → IsLaid node
    → pos ≤ leaf_node_num_cells node
    → 20 + leaf_node_num_cells node * 4 + total node (leaf_node_num_cells node) + 4 + length cell
      ≤ 4096
    → (p : Page) × (leaf_node_insert pos cell node ≡ some p) × Inserted node pos cell p
unfolding leaf_node_insert
leaf_node_insert-Inserted node pos cell some_ fits laid inside room =
    let packed = leaf_node_defragment node in
    let same : SameCells node packed = leaf_node_defragment-cells node some_ fits in
    elim (Bool-cases (has_room node (4 + length cell))) [
      | inl e ↦ (insert_cell pos cell node, rw e refl, Inserted-room node pos cell laid inside e)
      | inr e ↦
          (let e' : has_room packed (4 + length cell) ≡ true =
              has_room-some packed (4 + length cell) (omega (arith, same.0, same.2, room)) in
            (
              insert_cell pos cell packed,
              rw (e, e') refl,
              Inserted-packed node packed fits same pos cell (insert_cell pos cell packed) inside (
                  Inserted-room packed pos cell (packed-IsLaid node packed fits same)
                    (omega (arith, inside, same.0)) e'),
            ))
    ]
