-- ===== src/BTree/Leaf/Place.antt =====
-- What placing a cell in a leaf writes, and what it leaves alone.
use custom_db.Prelude.{
  ℕ, ◌+◌, ◌-◌, ◌*◌, ◌^◌, ◌≤◌, ◌<◌, ◌≡◌, refl, ◌∙◌, true, ◌&&◌, ◌⊎◌, inl, inr, List, length, get_or,
  ltb, leb, arith,
}
use custom_db.Catalog.Row.Encode.{le_bytes}
use custom_db.Catalog.Row.Decode.{u32, read_le}
use custom_db.Catalog.Row.Cells.{length-le_bytes}
use custom_db.Pager.State.{Page}
use custom_db.Pager.Cache.{store_bytes}
use custom_db.BTree.Node.{leaf_node_num_cells}
use custom_db.BTree.Leaf.{put_u16, place_cell}
use custom_db.BTree.Leaf.Cells.{put_u16-in, put_u16-out, read_word}
use custom_db.BTree.Leaf.Moved.{size_of, offset_of}

store_bytes-out :
    (off : ℕ) (bs : List ℕ) (node : Page) (i : ℕ)
    → (i < off) ⊎ (off + length bs ≤ i)
    → store_bytes off bs node i ≡ node i
unfolding store_bytes
store_bytes-out off bs node i h = ground arith

store_bytes-in :
    (off : ℕ) (bs : List ℕ) (node : Page) (k : ℕ)
    → k < length bs
    → store_bytes off bs node (off + k) ≡ get_or bs k 0
unfolding store_bytes
store_bytes-in off bs node k h =
    let e : off + k - off ≡ k = omega arith in
    let inside : (leb off (off + k) && ltb (off + k) (off + length bs)) ≡ true = ground arith in
    rw (inside, e) refl

count_stored :
    (n : ℕ) (node : Page) → n < 2 ^ 32 → leaf_node_num_cells (store_bytes 8 (le_bytes 4 n) node) ≡ n
unfolding leaf_node_num_cells read_le store_bytes le_bytes
count_stored n node h = omega arith

-- The bytes that placing a cell leaves alone.
pub record Apart (pos size off b : ℕ) : Type 0 where
  pub count : (b < 8) ⊎ (12 ≤ b)
  pub free : (b < 16) ⊎ (18 ≤ b)
  pub slot : (b < 20 + pos * 4) ⊎ (20 + pos * 4 + 4 ≤ b)
  pub cell : (b < off) ⊎ (off + size ≤ b)

module _ (pos : ℕ) (cell : List ℕ) (off : ℕ) (s : Page) where
  written : Page
  written = store_bytes off cell (put_u16 16 off s)

  slotted : Page
  slotted = put_u16 (20 + pos * 4 + 2) (length cell) (put_u16 (20 + pos * 4) off written)

  abbrev pub placed : Page
  placed = place_cell pos cell off s

  counted : (b : ℕ) → (b < 8) ⊎ (12 ≤ b) → placed b ≡ slotted b
  unfolding slotted written place_cell
  counted b h =
      let four = length-le_bytes 4 (u32 (leaf_node_num_cells s + 1)) in
      store_bytes-out 8 (le_bytes 4 (u32 (leaf_node_num_cells s + 1))) slotted b
        (ground (arith, h, four))

  apart_slotted : (b : ℕ) → (b < 20 + pos * 4) ⊎ (20 + pos * 4 + 4 ≤ b) → slotted b ≡ written b
  unfolding slotted
  apart_slotted b h =
      put_u16-out (20 + pos * 4 + 2) (length cell) (put_u16 (20 + pos * 4) off written) b
        (ground (arith, h))
      ∙ put_u16-out (20 + pos * 4) off written b (ground (arith, h))

  pub apart_lem : (b : ℕ) → Apart pos (length cell) off b → placed b ≡ s b
  unfolding written
  apart_lem b a =
      counted b a.count
      ∙ apart_slotted b a.slot
      ∙ store_bytes-out off cell (put_u16 16 off s) b a.cell
      ∙ put_u16-out 16 off s b a.free

  pub placed_bytes :
      20 + pos * 4 + 4 ≤ off → (k : ℕ) → k < length cell → placed (off + k) ≡ get_or cell k 0
  unfolding written
  placed_bytes above k h =
      counted (off + k) (inr (omega arith))
      ∙ apart_slotted (off + k) (inr (omega arith))
      ∙ store_bytes-in off cell (put_u16 16 off s) k h

  pub placed_offset : off < 2 ^ 16 → offset_of placed pos ≡ off
  unfolding slotted
  placed_offset small =
      read_word placed slotted (20 + pos * 4) (counted (20 + pos * 4) (inr (omega arith)))
        (counted (20 + pos * 4 + 1) (inr (omega arith)))
      ∙ read_word slotted (put_u16 (20 + pos * 4) off written) (20 + pos * 4)
          (put_u16-out (20 + pos * 4 + 2) (length cell) (put_u16 (20 + pos * 4) off written)
            (20 + pos * 4) (inl (omega arith)))
          (put_u16-out (20 + pos * 4 + 2) (length cell) (put_u16 (20 + pos * 4) off written)
            (20 + pos * 4 + 1) (inl (omega arith)))
      ∙ put_u16-in (20 + pos * 4) off written small

  pub placed_size : length cell < 2 ^ 16 → size_of placed pos ≡ length cell
  unfolding slotted
  placed_size small =
      read_word placed slotted (20 + pos * 4 + 2) (counted (20 + pos * 4 + 2) (inr (omega arith)))
        (counted (20 + pos * 4 + 2 + 1) (inr (omega arith)))
      ∙ put_u16-in (20 + pos * 4 + 2) (length cell) (put_u16 (20 + pos * 4) off written) small

  pub placed_count :
      leaf_node_num_cells s + 1 < 2 ^ 32 → leaf_node_num_cells placed ≡ leaf_node_num_cells s + 1
  unfolding place_cell slotted written
  placed_count small =
      let no_wrap : u32 (leaf_node_num_cells s + 1) ≡ leaf_node_num_cells s + 1 = omega arith in
      count_stored (u32 (leaf_node_num_cells s + 1)) slotted (omega (arith, no_wrap)) ∙ no_wrap
