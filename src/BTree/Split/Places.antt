-- ===== src/BTree/Split/Places.antt =====
-- Where the cells of a split leaf go.
use custom_db.Prelude.{
  ℕ, ◌+◌, ◌-◌, ◌*◌, ◌/◌, ◌≤◌, ◌<◌, ◌≡◌, refl, sym, ap, ◌∙◌, true, false, ◌⊎◌, inl, inr, List,
  length, get_or, ltb, ◌==◌, if◌then◌else◌, arith, Bool-cases,
}
use custom_db.Catalog.Varint.{from}
use custom_db.Catalog.Row.Decode.{read_le}
use custom_db.Pager.State.{Page}
use custom_db.BTree.Node.{leaf_node_num_cells, leaf_node_slot, leaf_node_value}
use custom_db.BTree.Leaf.{leaf_node_free_space}
use custom_db.BTree.Leaf.Cells.{read_word}
use custom_db.BTree.Leaf.Insert.{SameCell, IsLaid}
use custom_db.BTree.Split.{TempCell, temp_cell, put_u32}
use custom_db.BTree.Split.Halves.{put_u32-out, read_long, HoldsCell, HoldsCells}
use mathlib.Core.Path.{subst}

-- The leaf, and the place in it, of cell `i` once the leaf `l` has the first `n` cells.
abbrev pub place : Page → Page → ℕ → ℕ → Page × ℕ
place l r n i = if ltb i n then (l, i) else (r, i - n)

-- The cells of `node` and the new one at place `pos`, shared out by count over `l` and `r`.
pub record Shared (node : Page) (pos : ℕ) (cell : List ℕ) (l r : Page) : Type 0 where
  pub left_count : leaf_node_num_cells l ≡ (leaf_node_num_cells node + 1) / 2
  pub all : leaf_node_num_cells l + leaf_node_num_cells r ≡ leaf_node_num_cells node + 1
  pub before :
      (j : ℕ)
      → j < pos
      → SameCell node j
          (place l r (leaf_node_num_cells l) j).0
          (place l r (leaf_node_num_cells l) j).1
  pub here :
      HoldsCell
        (place l r (leaf_node_num_cells l) pos).0
        (place l r (leaf_node_num_cells l) pos).1
        (record { size = length cell; bytes = λ k. get_or cell k 0 })
  pub behind :
      (j : ℕ)
      → pos ≤ j
      → j < leaf_node_num_cells node
      → SameCell node j
          (place l r (leaf_node_num_cells l) (j + 1)).0
          (place l r (leaf_node_num_cells l) (j + 1)).1

module _ (node : Page) (pos new_page : ℕ) (cell : List ℕ) where
  abbrev pub linked : Page
  linked = put_u32 12 new_page node

  pub linked_byte : (b : ℕ) → (b < 12) ⊎ (16 ≤ b) → linked b ≡ node b
  linked_byte b h = put_u32-out 12 new_page node b h

  pub linked_count : leaf_node_num_cells linked ≡ leaf_node_num_cells node
  unfolding leaf_node_num_cells
  linked_count =
      read_long linked node 8 (linked_byte 8 (inl (omega arith)))
        (linked_byte 9 (inl (omega arith))) (linked_byte 10 (inl (omega arith)))
        (linked_byte 11 (inl (omega arith)))

  linked_word : (at : ℕ) → 16 ≤ at → read_le 2 (from linked at) ≡ read_le 2 (from node at)
  linked_word at h =
      read_word linked node at (linked_byte at (inr h)) (linked_byte (at + 1) (inr (omega arith)))

  linked_size : (i : ℕ) → (leaf_node_slot linked i).size ≡ (leaf_node_slot node i).size
  unfolding leaf_node_slot
  linked_size i = linked_word (20 + i * 4 + 2) (omega arith)

  linked_offset : (i : ℕ) → (leaf_node_slot linked i).offset ≡ (leaf_node_slot node i).offset
  unfolding leaf_node_slot
  linked_offset i = linked_word (20 + i * 4) (omega arith)

  linked_value :
      (i k : ℕ)
      → 20 ≤ (leaf_node_slot node i).offset
      → leaf_node_value linked i k ≡ leaf_node_value node i k
  unfolding leaf_node_value
  linked_value i k h =
      ap (λ o. linked (o + k)) (linked_offset i)
      ∙ linked_byte ((leaf_node_slot node i).offset + k) (inr (omega (arith, h)))

  temp_before :
      (i : ℕ)
      → i < pos
      → temp_cell linked pos cell i
        ≡ (record { size = (leaf_node_slot linked i).size; bytes = leaf_node_value linked i })
  unfolding temp_cell
  temp_before i h =
      let other : (i == pos) ≡ false = ground (arith, h) in
      let low : ltb i pos ≡ true = ground (arith, h) in rw (other, low) refl

  temp_here :
      temp_cell linked pos cell pos ≡ (record { size = length cell; bytes = λ k. get_or cell k 0 })
  unfolding temp_cell
  temp_here = let same : (pos == pos) ≡ true = ground arith in rw same refl

  temp_behind :
      (i : ℕ)
      → pos ≤ i
      → temp_cell linked pos cell (i + 1)
        ≡ (record { size = (leaf_node_slot linked i).size; bytes = leaf_node_value linked i })
  unfolding temp_cell
  temp_behind i h =
      let other : (i + 1 == pos) ≡ false = ground (arith, h) in
      let high : ltb (i + 1) pos ≡ false = ground (arith, h) in
      let plain : i + 1 - 1 ≡ i = omega arith in rw (other, high, plain) refl

  -- The same place in the two halves, for each of the cells.
  at_place :
      (l r : Page) (n m : ℕ)
      → HoldsCells (temp_cell linked pos cell) n l
      → HoldsCells (λ i. temp_cell linked pos cell (n + i)) m r
      → (i : ℕ) → i < n + m
      → HoldsCell
          (place l r (leaf_node_num_cells l) i).0
          (place l r (leaf_node_num_cells l) i).1
          (temp_cell linked pos cell i)
  at_place l r n m hl hr i h =
      subst (λ (c : ℕ). HoldsCell (place l r c i).0 (place l r c i).1 (temp_cell linked pos cell i))
        (sym hl.0)
        (elim (Bool-cases (ltb i n)) [
          | inl e ↦ rw e (hl.2 i (ground (arith, e)))
          | inr e ↦ rw e (
              let back : n + (i - n) ≡ i = ground (arith, e) in
              subst (λ (j : ℕ). HoldsCell r (i - n) (temp_cell linked pos cell j)) back
                (hr.2 (i - n) (ground (arith, e, h))))
        ])

  same_cell :
      (p : Page) (i j : ℕ) (c : TempCell)
      → 20 ≤ (leaf_node_slot node j).offset
      → c ≡ (record { size = (leaf_node_slot linked j).size; bytes = leaf_node_value linked j })
      → HoldsCell p i c
      → SameCell node j p i
  same_cell p i j c above e h =
      let h' = subst (HoldsCell p i) e h in
      (
        h'.0 ∙ linked_size j,
        λ k inside. h'.1 k (omega (arith, inside, linked_size j)) ∙ linked_value j k above,
      )

  pub temp_size : (i : ℕ) → (temp_cell linked pos cell i).size ≡ (temp_cell node pos cell i).size
  unfolding temp_cell
  temp_size i = elim (Bool-cases (i == pos)) [
    | inl e ↦ rw e refl
    | inr e ↦ rw e (linked_size (if ltb i pos then i else i - 1))
  ]

  pub split-Shared :
      IsLaid node
      → 20 ≤ leaf_node_free_space node
      → pos ≤ leaf_node_num_cells node
      → (l r : Page) (n m : ℕ) → n ≡ (leaf_node_num_cells node + 1) / 2
      → n + m ≡ leaf_node_num_cells node + 1
      → HoldsCells (temp_cell linked pos cell) n l
      → HoldsCells (λ i. temp_cell linked pos cell (n + i)) m r
      → Shared node pos cell l r
  split-Shared laid above inside l r n m half whole hl hr =
      let found = at_place l r n m hl hr in
      record {
        left_count = hl.0 ∙ half;
        all = omega (arith, hl.0, hr.0, whole);
        before = λ j h.
            same_cell (place l r (leaf_node_num_cells l) j).0
              (place l r (leaf_node_num_cells l) j).1 j (temp_cell linked pos cell j)
              (omega (arith, above, laid.1 j (omega (arith, inside)))) (temp_before j h)
              (found j (omega (arith, whole, inside)));
        here =
            subst
              (HoldsCell (place l r (leaf_node_num_cells l) pos).0
                (place l r (leaf_node_num_cells l) pos).1)
              temp_here (found pos (omega (arith, whole, inside)));
        behind = λ j low high.
            same_cell (place l r (leaf_node_num_cells l) (j + 1)).0
              (place l r (leaf_node_num_cells l) (j + 1)).1 j (temp_cell linked pos cell (j + 1))
              (omega (arith, above, laid.1 j high)) (temp_behind j low)
              (found (j + 1) (omega (arith, whole)));
      }
