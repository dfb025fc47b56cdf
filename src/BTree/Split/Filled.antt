-- ===== src/BTree/Split/Filled.antt =====
-- The loop that fills a leaf with cells.
use custom_db.Prelude.{
  ℕ, zero, suc, ◌+◌, ◌-◌, ◌*◌, ◌%◌, ◌^◌, ◌≤◌, ◌<◌, ◌≡◌, refl, sym, ap, ◌∙◌, true, ◌&&◌, ◌⊎◌, inl,
  inr, ltb, leb, ◌==◌, arith, Bool-cases,
}
use custom_db.Pager.State.{Page}
use custom_db.BTree.Leaf.{u16, put_u16}
use custom_db.BTree.Leaf.Cells.{put_u16-in, put_u16-out, read_word}
use custom_db.BTree.Leaf.Moved.{size_of, offset_of}
use custom_db.BTree.Split.{TempCell, store_cell, fill}
use mathlib.Core.Path.{subst}

-- The bytes that the first `i` cells take.
abbrev pub taken : (ℕ → TempCell) → ℕ → ℕ
taken cells zero = 0
taken cells (suc i) = taken cells i + (cells i).size

pub taken-le : (cells : ℕ → TempCell) (i n : ℕ) → i ≤ n → taken cells i ≤ taken cells n
taken-le cells i zero h = let e : i ≡ 0 = omega arith in rw e (omega arith)
taken-le cells i (suc n) h = elim (Bool-cases (leb i n)) [
  | inl e ↦ omega (arith, taken-le cells i n (ground (arith, e)))
  | inr e ↦ (let same : i ≡ suc n = ground (arith, e) in rw same (omega arith))
]

store_cell-in :
    (off : ℕ) (c : TempCell) (node : Page) (k : ℕ)
    → k < c.size
    → store_cell off c node (off + k) ≡ c.bytes k
unfolding store_cell
store_cell-in off c node k h =
    let e : off + k - off ≡ k = omega arith in
    let inside : (leb off (off + k) && ltb (off + k) (off + c.size)) ≡ true = ground arith in
    rw (inside, e) refl

store_cell-out :
    (off : ℕ) (c : TempCell) (node : Page) (b : ℕ)
    → (b < off) ⊎ (off + c.size ≤ b)
    → store_cell off c node b ≡ node b
unfolding store_cell
store_cell-out off c node b h = ground arith

-- After `i` cells, with the free space ending at `free`.
pub record Filled (cells : ℕ → TempCell) (i free : ℕ) (start node : Page) : Type 0 where
  pub measured : free + taken cells i ≡ 4096
  pub header : (b : ℕ) → b < 20 → node b ≡ start b
  pub sizes : (j : ℕ) → j < i → size_of node j ≡ (cells j).size
  pub offsets : (j : ℕ) → j < i → offset_of node j ≡ 4096 - taken cells (suc j)
  pub bytes :
      (j : ℕ)
      → j < i
      → (k : ℕ) → k < (cells j).size
      → node (4096 - taken cells (suc j) + k) ≡ (cells j).bytes k

module _ (cells : ℕ → TempCell) (n : ℕ) (start : Page)
    (fits : 20 + n * 4 + taken cells n ≤ 4096) where
  module _ (i free : ℕ) (node : Page) (f : Filled cells i free start node) (more : i < n) where
    next : ℕ
    next = free - (cells i).size

    stored : Page
    stored = store_cell next (cells i) node

    placed : Page
    placed = put_u16 (20 + i * 4) next stored

    added : Page
    added = put_u16 (20 + i * 4 + 2) (cells i).size placed

    next_measured : next + taken cells (suc i) ≡ 4096
    unfolding next
    next_measured = omega (arith, f.measured, taken-le cells (suc i) n (omega arith), fits)

    above : 20 + n * 4 ≤ next
    above = omega (arith, next_measured, taken-le cells (suc i) n (omega arith), fits)

    slot_apart : (b : ℕ) → (b < 20 + i * 4) ⊎ (20 + i * 4 + 4 ≤ b) → added b ≡ stored b
    unfolding added placed
    slot_apart b h =
        put_u16-out (20 + i * 4 + 2) (cells i).size placed b (ground (arith, h))
        ∙ put_u16-out (20 + i * 4) next stored b (ground (arith, h))

    low : (b : ℕ) → b < 20 + i * 4 → added b ≡ node b
    unfolding stored
    low b h =
        slot_apart b (inl h) ∙ store_cell-out next (cells i) node b (inl (omega (arith, above)))

    high : (b : ℕ) → next + (cells i).size ≤ b → added b ≡ node b
    unfolding stored
    high b h =
        slot_apart b (inr (omega (arith, above))) ∙ store_cell-out next (cells i) node b (inr h)

    new_size : size_of added i ≡ (cells i).size
    unfolding added
    new_size =
        put_u16-in (20 + i * 4 + 2) (cells i).size placed
          (omega (arith, taken-le cells (suc i) n (omega arith), fits))

    new_offset : offset_of added i ≡ next
    unfolding added placed
    new_offset =
        read_word added placed (20 + i * 4)
          (put_u16-out (20 + i * 4 + 2) (cells i).size placed (20 + i * 4) (inl (omega arith)))
          (put_u16-out (20 + i * 4 + 2) (cells i).size placed (20 + i * 4 + 1) (inl (omega arith)))
        ∙ put_u16-in (20 + i * 4) next stored (omega (arith, next_measured))

    new_bytes : (k : ℕ) → k < (cells i).size → added (next + k) ≡ (cells i).bytes k
    unfolding stored
    new_bytes k h =
        slot_apart (next + k) (inr (omega (arith, above))) ∙ store_cell-in next (cells i) node k h

    at_next : 4096 - taken cells (suc i) ≡ next
    at_next = omega (arith, next_measured)

    -- What holds of the earlier cells and of cell `i`.
    one_more : (P : ℕ → Type 0) → ((j : ℕ) → j < i → P j) → P i → (j : ℕ) → j < suc i → P j
    one_more P earlier last j h = elim (Bool-cases (j == i)) [
      | inl e ↦ (let same : j ≡ i = ground (arith, e) in subst P (sym same) last)
      | inr e ↦ earlier j (ground (arith, e))
    ]

    added-Filled : Filled cells (suc i) next start added
    added-Filled = record {
      measured = next_measured;
      header = λ b h. low b (omega arith) ∙ f.header b h;
      sizes =
          one_more (λ j. size_of added j ≡ (cells j).size)
            (λ j h.
              read_word added node (20 + j * 4 + 2) (low (20 + j * 4 + 2) (omega arith))
                (low (20 + j * 4 + 2 + 1) (omega arith))
              ∙ f.sizes j h)
            new_size;
      offsets =
          one_more (λ j. offset_of added j ≡ 4096 - taken cells (suc j))
            (λ j h.
              read_word added node (20 + j * 4) (low (20 + j * 4) (omega arith))
                (low (20 + j * 4 + 1) (omega arith))
              ∙ f.offsets j h)
            (new_offset ∙ sym at_next);
      bytes =
          one_more
            (λ j.
              (k : ℕ)
              → k < (cells j).size
              → added (4096 - taken cells (suc j) + k) ≡ (cells j).bytes k)
            (λ j h k h'.
              high (4096 - taken cells (suc j) + k)
                (omega (arith, taken-le cells (suc j) i h, next_measured))
              ∙ f.bytes j h k h')
            (λ k h'. ap (λ o. added (o + k)) at_next ∙ new_bytes k h');
    }

    round : u16 (free + 2 ^ 32 - (cells i).size) ≡ next
    unfolding next
    round = omega (arith, f.measured, taken-le cells (suc i) n (omega arith), fits)

  fill_run :
      (i free : ℕ) (node : Page) (f : Filled cells i free start node) (more : i < n) (left : ℕ)
      → fill cells (suc left) i free node
        ≡ fill cells left (i + 1) (next i free node f more) (added i free node f more)
  unfolding fill added placed stored
  fill_run i free node f more left =
      ap
        (λ o. fill cells left (i + 1) o (
          put_u16 (20 + i * 4 + 2) (cells i).size
            (put_u16 (20 + i * 4) o (store_cell o (cells i) node))))
        (round i free node f more)

  pub fill-Filled :
      (left i free : ℕ) (node : Page)
      → i + left ≡ n
      → Filled cells i free start node
      → Filled cells n (fill cells left i free node).0 start (fill cells left i free node).1
  fill-Filled zero i free node e f =
      unfold fill in
      let end : i ≡ n = omega (arith, e) in subst (λ m. Filled cells m free start node) end f
  fill-Filled (suc left) i free node e f =
      let more : i < n = omega (arith, e) in
      let o = next i free node f more in
      let step : Filled cells (i + 1) o start (added i free node f more) =
        (let one : suc i ≡ i + 1 = omega arith in
          subst (λ m. Filled cells m o start (added i free node f more)) one
            (added-Filled i free node f more)) in
      subst (λ (r : ℕ × Page). Filled cells n r.0 start r.1)
        (sym (fill_run i free node f more left))
        (fill-Filled left (i + 1) o (added i free node f more) (omega (arith, e)) step)

pub start-Filled : (cells : ℕ → TempCell) (node : Page) → Filled cells 0 4096 node node
start-Filled cells node = record {
  measured = omega arith;
  header = λ b h. refl;
  sizes = λ j h. absurd (omega arith);
  offsets = λ j h. absurd (omega arith);
  bytes = λ j h. absurd (omega arith);
}

-- The end of the free space, whatever the sizes are.
pub fill-offset :
    (cells : ℕ → TempCell) (left i free : ℕ) (node : Page)
    → free < 2 ^ 16
    → taken cells (i + left) < 2 ^ 32
    → (free + taken cells i) % 2 ^ 16 ≡ 4096
    → ((fill cells left i free node).0 < 2 ^ 16)
      × (((fill cells left i free node).0 + taken cells (i + left)) % 2 ^ 16 ≡ 4096)
unfolding fill
fill-offset cells zero i free node small bound e =
    let plain : i + 0 ≡ i = omega arith in rw plain (small, e)
fill-offset cells (suc left) i free node small bound e =
    let shift : i + suc left ≡ i + 1 + left = omega arith in
    let one : suc i ≡ i + 1 = omega arith in
    let sum : taken cells (i + 1) ≡ taken cells i + (cells i).size =
      ap (λ m. taken cells m) (sym one) in
    let bound' : taken cells (i + 1 + left) < 2 ^ 32 =
      subst (λ m. taken cells m < 2 ^ 32) shift bound in
    let below = taken-le cells (i + 1) (i + 1 + left) (omega arith) in
    let o = u16 (free + 2 ^ 32 - (cells i).size) in
    subst
      (λ m.
        ((fill cells (suc left) i free node).0 < 2 ^ 16)
        × (((fill cells (suc left) i free node).0 + taken cells m) % 2 ^ 16 ≡ 4096))
      (sym shift)
      (fill-offset cells left (i + 1) o
        (put_u16 (20 + i * 4 + 2) (cells i).size
          (put_u16 (20 + i * 4) o (store_cell o (cells i) node)))
        (omega arith) bound' (omega (arith, e, sum, bound', below, small)))
