-- ===== src/BTree/Leaf/Moved.antt =====
-- The loop of `leaf_node_defragment` over the cells.
use custom_db.Prelude.{
  ℕ, zero, suc, ◌+◌, ◌-◌, ◌*◌, ◌^◌, ◌≤◌, ◌<◌, ◌≡◌, refl, sym, ap, ◌∙◌, ◌⊎◌, inl, inr, ltb, leb,
  ◌==◌, arith, Bool-cases,
}
use custom_db.Catalog.Varint.{from}
use custom_db.Catalog.Row.Decode.{read_le}
use custom_db.Pager.State.{Page}
use custom_db.BTree.Node.{leaf_node_slot}
use custom_db.BTree.Leaf.{u16, copy_bytes, put_u16, move_cells}
use custom_db.BTree.Leaf.Cells.{copy_bytes-in, copy_bytes-out, put_u16-in, put_u16-out, read_word}
use mathlib.Core.Path.{subst}

abbrev pub size_of : Page → ℕ → ℕ
size_of node i = read_le 2 (from node (20 + i * 4 + 2))

abbrev pub offset_of : Page → ℕ → ℕ
offset_of node i = read_le 2 (from node (20 + i * 4))

-- The bytes that the first `i` cells take.
abbrev pub total : Page → ℕ → ℕ
total node zero = 0
total node (suc i) = total node i + (leaf_node_slot node i).size

slot-size : (node : Page) (i : ℕ) → (leaf_node_slot node i).size ≡ size_of node i
unfolding leaf_node_slot
slot-size node i = refl

slot-offset : (node : Page) (i : ℕ) → (leaf_node_slot node i).offset ≡ offset_of node i
unfolding leaf_node_slot
slot-offset node i = refl

pub total-le : (node : Page) (i n : ℕ) → i ≤ n → total node i ≤ total node n
total-le node i zero h = let e : i ≡ 0 = omega arith in rw e (omega arith)
total-le node i (suc n) h = elim (Bool-cases (leb i n)) [
  | inl e ↦ omega (arith, total-le node i n (ground (arith, e)))
  | inr e ↦ (let same : i ≡ suc n = ground (arith, e) in rw same (omega arith))
]

pub record Moved (node : Page) (nc i free : ℕ) (temp : Page) : Type 0 where
  pub measured : free + total node i ≡ 4096
  pub header : (b : ℕ) → b < 20 → temp b ≡ node b
  pub sizes : (j : ℕ) → j < nc → size_of temp j ≡ size_of node j
  pub placed : (j : ℕ) → j < i → offset_of temp j ≡ 4096 - total node (suc j)
  pub cells :
      (j : ℕ)
      → j < i
      → (k : ℕ) → k < size_of node j
      → temp (4096 - total node (suc j) + k) ≡ node (offset_of node j + k)

module _ (node : Page) (nc : ℕ) (fits : 20 + nc * 4 + total node nc ≤ 4096) where
  module _ (i free : ℕ) (temp : Page) (m : Moved node nc i free temp) (more : i < nc) where
    next_offset : ℕ
    next_offset = free - size_of node i

    moved : Page
    moved =
        put_u16 (20 + i * 4) next_offset
          (copy_bytes next_offset (offset_of node i) (size_of node i) node temp)

    next_measured : next_offset + total node (suc i) ≡ 4096
    unfolding next_offset
    next_measured =
        omega (arith, m.measured, slot-size node i, total-le node (suc i) nc (omega arith), fits)

    above_slots : 20 + nc * 4 ≤ next_offset
    above_slots = omega (arith, next_measured, total-le node (suc i) nc (omega arith), fits)

    kept :
        (b : ℕ)
        → (b < 20 + i * 4) ⊎ (20 + i * 4 + 2 ≤ b)
        → (b < next_offset) ⊎ (next_offset + size_of node i ≤ b)
        → moved b ≡ temp b
    unfolding moved
    kept b h h' =
        put_u16-out (20 + i * 4) next_offset
          (copy_bytes next_offset (offset_of node i) (size_of node i) node temp) b h
        ∙ copy_bytes-out next_offset (offset_of node i) (size_of node i) node temp b h'

    kept_size : (j : ℕ) → j < nc → size_of moved j ≡ size_of temp j
    kept_size j h =
        let apart : (b : ℕ) → 20 + j * 4 + 2 ≤ b → b ≤ 20 + j * 4 + 3 → moved b ≡ temp b = λ b l u.
          kept b
            (elim (Bool-cases (ltb j i)) [
              | inl e ↦ inl (ground (arith, e))
              | inr e ↦ inr (ground (arith, e))
            ])
            (inl (omega (arith, above_slots))) in
        read_word moved temp (20 + j * 4 + 2) (apart (20 + j * 4 + 2) (omega arith) (omega arith))
          (apart (20 + j * 4 + 2 + 1) (omega arith) (omega arith))

    kept_offset : (j : ℕ) → j < i → offset_of moved j ≡ offset_of temp j
    kept_offset j h =
        read_word moved temp (20 + j * 4)
          (kept (20 + j * 4) (inl (omega arith)) (inl (omega (arith, above_slots))))
          (kept (20 + j * 4 + 1) (inl (omega arith)) (inl (omega (arith, above_slots))))

    new_offset : offset_of moved i ≡ next_offset
    unfolding moved
    new_offset =
        put_u16-in (20 + i * 4) next_offset
          (copy_bytes next_offset (offset_of node i) (size_of node i) node temp)
          (omega (arith, next_measured))

    new_cell : (k : ℕ) → k < size_of node i → moved (next_offset + k) ≡ node (offset_of node i + k)
    unfolding moved
    new_cell k h =
        put_u16-out (20 + i * 4) next_offset
          (copy_bytes next_offset (offset_of node i) (size_of node i) node temp) (next_offset + k)
          (inr (omega (arith, above_slots)))
        ∙ copy_bytes-in next_offset (offset_of node i) (size_of node i) node temp k h

    placed_at : 4096 - total node (suc i) ≡ next_offset
    placed_at = omega (arith, next_measured)

    moved_cells :
        (j : ℕ)
        → j < suc i
        → (k : ℕ) → k < size_of node j
        → moved (4096 - total node (suc j) + k) ≡ node (offset_of node j + k)
    moved_cells j h k h' = elim (Bool-cases (j == i)) [
      | inl e ↦
          (let same : j ≡ i = ground (arith, e) in
            subst
              (λ l.
                k < size_of node l
                → moved (4096 - total node (suc l) + k) ≡ node (offset_of node l + k))
              (sym same) (λ h''. ap (λ o. moved (o + k)) placed_at ∙ new_cell k h'') h')
      | inr e ↦
          (let before : j < i = ground (arith, e) in
            kept (4096 - total node (suc j) + k)
              (inr (
                omega (
                  arith,
                  above_slots,
                  total-le node (suc j) i before,
                  next_measured,
                  slot-size node i,
                )))
              (inr (omega (arith, total-le node (suc j) i before, next_measured, slot-size node i)))
            ∙ m.cells j before k h')
    ]

    moved_places : (j : ℕ) → j < suc i → offset_of moved j ≡ 4096 - total node (suc j)
    moved_places j h = elim (Bool-cases (j == i)) [
      | inl e ↦
          (let same : j ≡ i = ground (arith, e) in
            subst (λ l. offset_of moved l ≡ 4096 - total node (suc l)) (sym same)
              (new_offset ∙ sym placed_at))
      | inr e ↦ (let before : j < i = ground (arith, e) in kept_offset j before ∙ m.placed j before)
    ]

    moved-Moved : Moved node nc (suc i) next_offset moved
    moved-Moved = record {
      measured = next_measured;
      header = λ b h. kept b (inl (omega arith)) (inl (omega (arith, above_slots))) ∙ m.header b h;
      sizes = λ j h. kept_size j h ∙ m.sizes j h;
      placed = moved_places;
      cells = moved_cells;
    }

    round : u16 (free + 2 ^ 16 - (leaf_node_slot node i).size) ≡ next_offset
    unfolding next_offset
    round =
        omega (arith, m.measured, slot-size node i, total-le node (suc i) nc (omega arith), fits)

  move_cells_run :
      (i free : ℕ) (temp : Page) (m : Moved node nc i free temp) (more : i < nc) (left : ℕ)
      → move_cells node (suc left) i free temp
        ≡ move_cells node left (i + 1) (next_offset i free temp m more) (moved i free temp m more)
  unfolding move_cells leaf_node_slot moved
  move_cells_run i free temp m more left =
      ap
        (λ n.
          move_cells node left (i + 1) n
            (put_u16 (20 + i * 4) n (copy_bytes n (offset_of node i) (size_of node i) node temp)))
        (round i free temp m more)

  pub move_cells-Moved :
      (left i free : ℕ) (temp : Page)
      → i + left ≡ nc
      → Moved node nc i free temp
      → Moved node nc nc (move_cells node left i free temp).0 (move_cells node left i free temp).1
  move_cells-Moved zero i free temp e m =
      unfold move_cells in
      let end : i ≡ nc = omega (arith, e) in subst (λ n. Moved node nc n free temp) end m
  move_cells-Moved (suc left) i free temp e m =
      let more : i < nc = omega (arith, e) in
      let next = next_offset i free temp m more in
      let step : Moved node nc (i + 1) next (moved i free temp m more) =
        (let one : suc i ≡ i + 1 = omega arith in
          subst (λ n. Moved node nc n next (moved i free temp m more)) one
            (moved-Moved i free temp m more)) in
      subst (λ (r : ℕ × Page). Moved node nc nc r.0 r.1)
        (sym (move_cells_run i free temp m more left))
        (move_cells-Moved left (i + 1) next (moved i free temp m more) (omega (arith, e)) step)
