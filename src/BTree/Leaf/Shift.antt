-- ===== src/BTree/Leaf/Shift.antt =====
-- The loop that shifts the slots of a leaf.
use custom_db.Prelude.{
  ℕ, zero, suc, ◌+◌, ◌-◌, ◌*◌, ◌≤◌, ◌<◌, ◌≡◌, refl, sym, ap, ◌∙◌, ◌⊎◌, inl, inr, ◌==◌, arith,
  Bool-cases,
}
use custom_db.Pager.State.{Page}
use custom_db.BTree.Leaf.{copy_bytes, shift_slots}
use custom_db.BTree.Leaf.Cells.{copy_bytes-in, copy_bytes-out}

pub shift_slots-out :
    (left i pos : ℕ) (node : Page) (b : ℕ)
    → i ≡ pos + left
    → (b < 20 + (pos + 1) * 4) ⊎ (20 + (i + 1) * 4 ≤ b)
    → shift_slots left i node b ≡ node b
unfolding shift_slots
shift_slots-out zero i pos node b e h = refl
shift_slots-out (suc left) i pos node b e h =
    shift_slots-out left (i - 1) pos (copy_bytes (20 + i * 4) (20 + (i - 1) * 4) 4 node node) b
      (omega (arith, e)) (ground (arith, e, h))
    ∙ copy_bytes-out (20 + i * 4) (20 + (i - 1) * 4) 4 node node b (ground (arith, e, h))

pub shift_slots-in :
    (left i pos : ℕ) (node : Page) (j o : ℕ)
    → i ≡ pos + left
    → pos ≤ j
    → j < i
    → o < 4
    → shift_slots left i node (20 + (j + 1) * 4 + o) ≡ node (20 + j * 4 + o)
unfolding shift_slots
shift_slots-in zero i pos node j o e low high h = absurd (omega (arith, e))
shift_slots-in (suc left) i pos node j o e low high h =
    let copied = copy_bytes (20 + i * 4) (20 + (i - 1) * 4) 4 node node in
    elim (Bool-cases (j == i - 1)) [
      | inl e' ↦
          (let last : j + 1 ≡ i = ground (arith, e') in
            let same : j ≡ i - 1 = ground (arith, e') in
            shift_slots-out left (i - 1) pos copied (20 + (j + 1) * 4 + o) (omega (arith, e))
              (inr (omega (arith, last)))
            ∙ ap (λ n. copied (20 + n * 4 + o)) last
            ∙ copy_bytes-in (20 + i * 4) (20 + (i - 1) * 4) 4 node node o h
            ∙ ap (λ n. node (20 + n * 4 + o)) (sym same))
      | inr e' ↦
          (let before : j < i - 1 = ground (arith, e') in
            shift_slots-in left (i - 1) pos copied j o (omega (arith, e)) low before h
            ∙ copy_bytes-out (20 + i * 4) (20 + (i - 1) * 4) 4 node node (20 + j * 4 + o)
                (inl (omega (arith, before))))
    ]
