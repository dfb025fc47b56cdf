-- ===== src/BTree/Leaf/Insert.antt =====
-- Inserting a cell into a leaf.
use custom_db.Prelude.{
  ℕ, ◌+◌, ◌-◌, ◌*◌, ◌^◌, ◌≤◌, ◌<◌, ◌≡◌, sym, ap, ◌∙◌, inl, inr, List, length, get_or, arith,
}
use custom_db.Catalog.Varint.{from}
use custom_db.Catalog.Row.Decode.{read_le}
use custom_db.Pager.State.{Page}
use custom_db.BTree.Node.{leaf_node_num_cells, leaf_node_slot, leaf_node_value}
use custom_db.BTree.Leaf.{u16, leaf_node_free_space, shift_slots, insert_cell}
use custom_db.BTree.Leaf.Cells.{read_word}
use custom_db.BTree.Leaf.Moved.{size_of, offset_of}
use custom_db.BTree.Leaf.Defragment.{header_same}
use custom_db.BTree.Leaf.Shift.{shift_slots-out, shift_slots-in}
use custom_db.BTree.Leaf.Place.{
  placed, apart_lem, placed_bytes, placed_offset, placed_size, placed_count,
}
use mathlib.Core.Path.{subst}

pub read_moved :
    (p q : Page) (a b : ℕ)
    → p a ≡ q b
    → p (a + 1) ≡ q (b + 1)
    → read_le 2 (from p a) ≡ read_le 2 (from q b)
unfolding read_le
read_moved p q a b e e' = ground (arith, e, e')

-- Cell `j` of one page is cell `i` of another.
abbrev pub SameCell : Page → ℕ → Page → ℕ → Type 0
SameCell node j p i =
    ((leaf_node_slot p i).size ≡ (leaf_node_slot node j).size)
    × ((k : ℕ)
        → k < (leaf_node_slot node j).size
        → leaf_node_value p i k ≡ leaf_node_value node j k)

-- The cells of `p` are those of `node`, with one more at place `pos`.
abbrev pub Inserted : Page → ℕ → List ℕ → Page → Type 0
Inserted node pos cell p =
    (leaf_node_num_cells p ≡ leaf_node_num_cells node + 1)
    × ((j : ℕ) → j < pos → SameCell node j p j)
    × (((leaf_node_slot p pos).size ≡ length cell)
        × ((k : ℕ) → k < length cell → leaf_node_value p pos k ≡ get_or cell k 0))
    × ((j : ℕ) → pos ≤ j → j < leaf_node_num_cells node → SameCell node j p (j + 1))

-- The cells lie behind the free space.
abbrev pub IsLaid : Page → Type 0
IsLaid node =
    (leaf_node_free_space node ≤ 4096)
    × ((j : ℕ)
        → j < leaf_node_num_cells node
        → leaf_node_free_space node ≤ (leaf_node_slot node j).offset)

module _ (node : Page) (pos : ℕ) (cell : List ℕ) (laid : IsLaid node)
    (inside : pos ≤ leaf_node_num_cells node)
    (room : 20 + leaf_node_num_cells node * 4 + 4 + length cell ≤ leaf_node_free_space node) where
  nc : ℕ
  nc = leaf_node_num_cells node

  off : ℕ
  off = leaf_node_free_space node - length cell

  shifted : Page
  shifted = shift_slots (leaf_node_num_cells node - pos) (leaf_node_num_cells node) node

  result : Page
  result = placed pos cell off shifted

  rounds : leaf_node_num_cells node ≡ pos + (leaf_node_num_cells node - pos)
  rounds = omega (arith, inside)

  at_off : off + length cell ≡ leaf_node_free_space node
  unfolding off
  at_off = omega (arith, room)

  byte_low : (b : ℕ) → 18 ≤ b → b < 20 + pos * 4 → result b ≡ node b
  unfolding result shifted
  byte_low b above below =
      apart_lem pos cell off shifted b (record {
        count = inr (omega arith);
        free = inr above;
        slot = inl below;
        cell = inl (omega (arith, at_off, room, inside));
      })
      ∙ shift_slots-out (leaf_node_num_cells node - pos) (leaf_node_num_cells node) pos node b
          rounds (inl (omega arith))

  byte_slot :
      (j o : ℕ)
      → pos ≤ j
      → j < leaf_node_num_cells node
      → o < 4
      → result (20 + (j + 1) * 4 + o) ≡ node (20 + j * 4 + o)
  unfolding result shifted
  byte_slot j o low high h =
      apart_lem pos cell off shifted (20 + (j + 1) * 4 + o) (record {
        count = inr (omega arith);
        free = inr (omega arith);
        slot = inr (omega arith);
        cell = inl (omega (arith, at_off, room));
      })
      ∙ shift_slots-in (leaf_node_num_cells node - pos) (leaf_node_num_cells node) pos node j o
          rounds low high h

  byte_high : (b : ℕ) → leaf_node_free_space node ≤ b → result b ≡ node b
  unfolding result shifted
  byte_high b above =
      apart_lem pos cell off shifted b (record {
        count = inr (omega (arith, room));
        free = inr (omega (arith, room));
        slot = inr (omega (arith, room, inside));
        cell = inr (omega (arith, at_off));
      })
      ∙ shift_slots-out (leaf_node_num_cells node - pos) (leaf_node_num_cells node) pos node b
          rounds (inr (omega (arith, room)))

  cell_bytes :
      (j i : ℕ)
      → j < leaf_node_num_cells node
      → offset_of result i ≡ offset_of node j
      → size_of result i ≡ size_of node j
      → SameCell node j result i
  unfolding leaf_node_slot leaf_node_value
  cell_bytes j i h e e' = (
    e',
    λ k h'.
        ap (λ o. result (o + k)) e ∙ byte_high (offset_of node j + k) (omega (arith, laid.1 j h)),
  )

  before : (j : ℕ) → j < pos → SameCell node j result j
  before j h =
      cell_bytes j j (omega (arith, inside))
        (read_word result node (20 + j * 4) (byte_low (20 + j * 4) (omega arith) (omega arith))
          (byte_low (20 + j * 4 + 1) (omega arith) (omega arith)))
        (read_word result node (20 + j * 4 + 2)
          (byte_low (20 + j * 4 + 2) (omega arith) (omega arith))
          (byte_low (20 + j * 4 + 2 + 1) (omega arith) (omega arith)))

  slot_word :
      (j o : ℕ)
      → pos ≤ j
      → j < leaf_node_num_cells node
      → o < 3
      → read_le 2 (from result (20 + (j + 1) * 4 + o)) ≡ read_le 2 (from node (20 + j * 4 + o))
  slot_word j o low high h =
      let next : (a : ℕ) → a + o + 1 ≡ a + (o + 1) = λ a. omega arith in
      read_moved result node (20 + (j + 1) * 4 + o) (20 + j * 4 + o)
        (byte_slot j o low high (omega arith))
        (ap result (next (20 + (j + 1) * 4))
          ∙ byte_slot j (o + 1) low high (omega arith)
          ∙ ap node (sym (next (20 + j * 4))))

  behind : (j : ℕ) → pos ≤ j → j < leaf_node_num_cells node → SameCell node j result (j + 1)
  behind j low high =
      let plain : (a : ℕ) → a + 0 ≡ a = λ a. omega arith in
      cell_bytes j (j + 1) high
        (ap (λ a. read_le 2 (from result a)) (sym (plain (20 + (j + 1) * 4)))
          ∙ slot_word j 0 low high (omega arith)
          ∙ ap (λ a. read_le 2 (from node a)) (plain (20 + j * 4)))
        (slot_word j 2 low high (omega arith))

  count_kept : leaf_node_num_cells shifted ≡ leaf_node_num_cells node
  unfolding shifted
  count_kept =
      (header_same shifted node (λ b l u.
        shift_slots-out (leaf_node_num_cells node - pos) (leaf_node_num_cells node) pos node b
          rounds (inl (omega arith)))).0

  free_kept : leaf_node_free_space shifted ≡ leaf_node_free_space node
  unfolding shifted leaf_node_free_space
  free_kept =
      read_word shifted node 16
        (shift_slots-out (leaf_node_num_cells node - pos) (leaf_node_num_cells node) pos node 16
          rounds (inl (omega arith)))
        (shift_slots-out (leaf_node_num_cells node - pos) (leaf_node_num_cells node) pos node 17
          rounds (inl (omega arith)))

  here :
      ((leaf_node_slot result pos).size ≡ length cell)
      × ((k : ℕ) → k < length cell → leaf_node_value result pos k ≡ get_or cell k 0)
  unfolding leaf_node_slot leaf_node_value result
  here = (
    placed_size pos cell off shifted (omega (arith, room, laid.0)),
    λ k h.
        ap (λ o. result (o + k))
          (placed_offset pos cell off shifted (omega (arith, at_off, laid.0)))
        ∙ placed_bytes pos cell off shifted (omega (arith, at_off, room, inside)) k h,
  )

  result-Inserted : Inserted node pos cell result
  unfolding result
  result-Inserted = (
    placed_count pos cell off shifted (omega (arith, count_kept, room, laid.0))
        ∙ ap (λ n. n + 1) count_kept,
    before,
    here,
    behind,
  )

  pub insert_cell-Inserted : Inserted node pos cell (insert_cell pos cell node)
  unfolding insert_cell shifted
  insert_cell-Inserted =
      let end : u16 (leaf_node_free_space shifted + 2 ^ 16 - length cell) ≡ off =
        (unfold off in omega (arith, free_kept, room, laid.0)) in
      subst (λ o. Inserted node pos cell (placed pos cell o shifted)) (sym end)
        (unfold result in result-Inserted)
