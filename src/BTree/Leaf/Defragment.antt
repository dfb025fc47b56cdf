-- ===== src/BTree/Leaf/Defragment.antt =====
-- Defragmenting a leaf keeps its cells.
use custom_db.Prelude.{
  ℕ, suc, ◌+◌, ◌-◌, ◌*◌, ◌≤◌, ◌<◌, ◌≡◌, refl, sym, ap, ◌∙◌, false, ◌⊎◌, inl, inr, ◌==◌, arith,
}
use custom_db.Catalog.Varint.{from}
use custom_db.Catalog.Row.Decode.{read_le}
use custom_db.Pager.State.{Page, zero_page}
use custom_db.BTree.Node.{leaf_node_num_cells, leaf_node_next_leaf, leaf_node_slot, leaf_node_value}
use custom_db.BTree.Leaf.{
  copy_bytes, put_u16, leaf_node_free_space, move_cells, leaf_node_defragment,
}
use custom_db.BTree.Leaf.Cells.{copy_bytes-in, put_u16-in, put_u16-out, read_word}
use custom_db.BTree.Leaf.Moved.{total, total-le, Moved, move_cells-Moved}
use mathlib.Core.Path.{subst}

-- The page of a leaf whose header, slots and cells fit it.
abbrev pub FitsPage : Page → Type 0
FitsPage node = 20 + leaf_node_num_cells node * 4 + total node (leaf_node_num_cells node) ≤ 4096

copied-Moved :
    (node : Page) (nc : ℕ) → Moved node nc 0 4096 (copy_bytes 0 0 (20 + nc * 4) node zero_page)
copied-Moved node nc =
    let same : (b : ℕ) → b < 20 + nc * 4 → copy_bytes 0 0 (20 + nc * 4) node zero_page b ≡ node b =
      λ b h.
        (let copied : copy_bytes 0 0 (20 + nc * 4) node zero_page (0 + b) ≡ node (0 + b) =
            copy_bytes-in 0 0 (20 + nc * 4) node zero_page b h in
          let plain : 0 + b ≡ b = omega arith in rw plain at copied) in
    record {
      measured = omega arith;
      header = λ b h. same b (omega arith);
      sizes = λ j h.
          read_word (copy_bytes 0 0 (20 + nc * 4) node zero_page) node (20 + j * 4 + 2)
            (same (20 + j * 4 + 2) (omega arith)) (same (20 + j * 4 + 2 + 1) (omega arith));
      placed = λ j h. absurd (omega arith);
      cells = λ j h. absurd (omega arith);
    }

defragment_run :
    (node : Page)
    → 1 ≤ leaf_node_num_cells node
    → leaf_node_defragment node
      ≡ put_u16 16
          (move_cells node
            (leaf_node_num_cells node)
            0
            4096
            (copy_bytes 0 0 (20 + leaf_node_num_cells node * 4) node zero_page)).0
          (move_cells node
            (leaf_node_num_cells node)
            0
            4096
            (copy_bytes 0 0 (20 + leaf_node_num_cells node * 4) node zero_page)).1
unfolding leaf_node_defragment
defragment_run node h =
    let some_ : (leaf_node_num_cells node == 0) ≡ false = ground arith in rw some_ refl

-- The same cells, packed at the page's end.
abbrev pub SameCells : Page → Page → Type 0
SameCells node p =
    (leaf_node_num_cells p ≡ leaf_node_num_cells node)
    × (leaf_node_next_leaf p ≡ leaf_node_next_leaf node)
    × (leaf_node_free_space p + total node (leaf_node_num_cells node) ≡ 4096)
    × ((j : ℕ)
        → j < leaf_node_num_cells node
        → ((leaf_node_slot p j).size ≡ (leaf_node_slot node j).size)
          × ((leaf_node_slot p j).offset ≡ 4096 - total node (suc j))
          × ((k : ℕ)
              → k < (leaf_node_slot node j).size
              → leaf_node_value p j k ≡ leaf_node_value node j k))
    × ((b : ℕ) → b < 20 → (b < 16) ⊎ (18 ≤ b) → p b ≡ node b)

pub header_same :
    (p q : Page)
    → ((b : ℕ) → 8 ≤ b → b < 16 → p b ≡ q b)
    → (leaf_node_num_cells p ≡ leaf_node_num_cells q)
      × (leaf_node_next_leaf p ≡ leaf_node_next_leaf q)
unfolding leaf_node_num_cells leaf_node_next_leaf read_le
header_same p q h = (
  rw
      (
        h 8 (omega arith) (omega arith),
        h 9 (omega arith) (omega arith),
        h 10 (omega arith) (omega arith),
        h 11 (omega arith) (omega arith),
      )
      refl,
  rw
      (
        h 12 (omega arith) (omega arith),
        h 13 (omega arith) (omega arith),
        h 14 (omega arith) (omega arith),
        h 15 (omega arith) (omega arith),
      )
      refl,
)

module _ (node : Page) (free : ℕ) (temp : Page) (fits : FitsPage node)
    (m : Moved node (leaf_node_num_cells node) (leaf_node_num_cells node) free temp) where
  final_byte : (b : ℕ) → (b < 16) ⊎ (18 ≤ b) → put_u16 16 free temp b ≡ temp b
  final_byte b h = put_u16-out 16 free temp b h

  final_word :
      (at : ℕ) → 18 ≤ at → read_le 2 (from (put_u16 16 free temp) at) ≡ read_le 2 (from temp at)
  final_word at h =
      read_word (put_u16 16 free temp) temp at (final_byte at (inr h))
        (final_byte (at + 1) (inr (omega arith)))

  final_cell :
      (j : ℕ)
      → j < leaf_node_num_cells node
      → (k : ℕ) → k < (leaf_node_slot node j).size
      → leaf_node_value (put_u16 16 free temp) j k ≡ leaf_node_value node j k
  unfolding leaf_node_value leaf_node_slot
  final_cell j h k h' =
      let room = total-le node (suc j) (leaf_node_num_cells node) h in
      ap (λ o. put_u16 16 free temp (o + k)) (final_word (20 + j * 4) (omega arith) ∙ m.placed j h)
      ∙ final_byte (4096 - total node (suc j) + k) (inr (omega (arith, room, fits)))
      ∙ m.cells j h k h'

  finished : SameCells node (put_u16 16 free temp)
  unfolding leaf_node_slot leaf_node_free_space
  finished =
      let same =
        header_same (put_u16 16 free temp) node
          (λ b l u. final_byte b (inl u) ∙ m.header b (omega arith)) in
      (
        same.0,
        same.1,
        (let end : read_le 2 (from (put_u16 16 free temp) 16) ≡ free =
              put_u16-in 16 free temp (omega (arith, m.measured)) in
            rw end m.measured),
        λ j h. (
          final_word (20 + j * 4 + 2) (omega arith) ∙ m.sizes j h,
          final_word (20 + j * 4) (omega arith) ∙ m.placed j h,
          final_cell j h,
        ),
        λ b inside h. final_byte b h ∙ m.header b inside,
      )

-- Defragmenting a leaf with cells, all of which fit the page, keeps the 20 bytes of the header but
-- for the two that say where the free space ends, so also the number of cells and the link to the
-- next leaf; it keeps each cell's size and each cell's bytes, and leaves the cells behind each other
-- at the page's end: the free space ends where they begin.
pub leaf_node_defragment-cells :
    (node : Page)
    → 1 ≤ leaf_node_num_cells node
    → FitsPage node
    → SameCells node (leaf_node_defragment node)
leaf_node_defragment-cells node some_ fits =
    let nc = leaf_node_num_cells node in
    let start = copy_bytes 0 0 (20 + nc * 4) node zero_page in
    subst (SameCells node) (sym (defragment_run node some_)) (
      finished node (move_cells node nc 0 4096 start).0 (move_cells node nc 0 4096 start).1 fits
        (move_cells-Moved node nc fits nc 0 4096 start (omega arith) (copied-Moved node nc)))
