-- ===== src/BTree/Split/Halves.antt =====
-- The two leaves that a split leaves behind.
use custom_db.Prelude.{
  ℕ, suc, ◌+◌, ◌-◌, ◌*◌, ◌%◌, ◌^◌, ◌≤◌, ◌<◌, ◌≡◌, ap, ◌∙◌, ◌⊎◌, inl, inr, arith,
}
use custom_db.Catalog.Varint.{from}
use custom_db.Catalog.Row.Encode.{le_bytes}
use custom_db.Catalog.Row.Decode.{read_le}
use custom_db.Pager.State.{Page}
use custom_db.Pager.Cache.{store_bytes}
use custom_db.BTree.Node.{leaf_node_num_cells, leaf_node_slot, leaf_node_value}
use custom_db.BTree.Leaf.{put_u16, leaf_node_free_space}
use custom_db.BTree.Leaf.Cells.{put_u16-in, put_u16-out, read_word}
use custom_db.BTree.Split.{TempCell, put_u32, fill, populate}
use custom_db.BTree.Split.Filled.{taken, taken-le, Filled, fill-Filled, start-Filled, fill-offset}

pub put_u32-out :
    (off v : ℕ) (node : Page) (b : ℕ) → (b < off) ⊎ (off + 4 ≤ b) → put_u32 off v node b ≡ node b
unfolding put_u32 store_bytes le_bytes
put_u32-out off v node b h = ground (arith, h)

pub put_u32-in :
    (off v : ℕ) (node : Page) → v < 2 ^ 32 → read_le 4 (from (put_u32 off v node) off) ≡ v
unfolding put_u32 store_bytes le_bytes read_le
put_u32-in off v node h = ground (arith, h)

pub read_long :
    (p q : Page) (at : ℕ)
    → p at ≡ q at
    → p (at + 1) ≡ q (at + 1)
    → p (at + 2) ≡ q (at + 2)
    → p (at + 3) ≡ q (at + 3)
    → read_le 4 (from p at) ≡ read_le 4 (from q at)
unfolding read_le
read_long p q at e e' e'' e''' = ground (arith, e, e', e'', e''')

-- A page whose cell `i` is `c`.
abbrev pub HoldsCell : Page → ℕ → TempCell → Type 0
HoldsCell p i c =
    ((leaf_node_slot p i).size ≡ c.size)
    × ((k : ℕ) → k < c.size → leaf_node_value p i k ≡ c.bytes k)

abbrev pub HoldsCells : (ℕ → TempCell) → ℕ → Page → Type 0
HoldsCells cells n p =
    (leaf_node_num_cells p ≡ n)
    × (leaf_node_free_space p + taken cells n ≡ 4096)
    × ((j : ℕ) → j < n → HoldsCell p j (cells j))

module _ (cells : ℕ → TempCell) (n free : ℕ) (start node : Page)
    (fits : 20 + n * 4 + taken cells n ≤ 4096) (f : Filled cells n free start node) where
  finished : Page
  finished = put_u16 16 free (put_u32 8 n node)

  finished_byte : (b : ℕ) → (b < 8) ⊎ (12 ≤ b) → (b < 16) ⊎ (18 ≤ b) → finished b ≡ node b
  unfolding finished
  finished_byte b h h' = put_u16-out 16 free (put_u32 8 n node) b h' ∙ put_u32-out 8 n node b h

  finished_word : (at : ℕ) → 18 ≤ at → read_le 2 (from finished at) ≡ read_le 2 (from node at)
  finished_word at h =
      read_word finished node at (finished_byte at (inr (omega arith)) (inr h))
        (finished_byte (at + 1) (inr (omega arith)) (inr (omega arith)))

  finished_count : leaf_node_num_cells finished ≡ n
  unfolding leaf_node_num_cells finished
  finished_count =
      let out : (b : ℕ) → b < 16 → finished b ≡ put_u32 8 n node b =
        λ b h. put_u16-out 16 free (put_u32 8 n node) b (inl h) in
      read_long finished (put_u32 8 n node) 8 (out 8 (omega arith)) (out 9 (omega arith))
        (out 10 (omega arith)) (out 11 (omega arith))
      ∙ put_u32-in 8 n node (omega (arith, fits))

  finished_free : leaf_node_free_space finished ≡ free
  unfolding leaf_node_free_space finished
  finished_free = put_u16-in 16 free (put_u32 8 n node) (omega (arith, f.measured))

  finished_cell : (j : ℕ) → j < n → HoldsCell finished j (cells j)
  unfolding leaf_node_slot leaf_node_value
  finished_cell j h = (
    finished_word (20 + j * 4 + 2) (omega arith) ∙ f.sizes j h,
    λ k h'.
        ap (λ o. finished (o + k)) (finished_word (20 + j * 4) (omega arith) ∙ f.offsets j h)
        ∙ finished_byte (4096 - taken cells (suc j) + k)
            (inr (omega (arith, taken-le cells (suc j) n h, fits)))
            (inr (omega (arith, taken-le cells (suc j) n h, fits)))
        ∙ f.bytes j h k h',
  )

  finished-HoldsCells : HoldsCells cells n finished
  finished-HoldsCells = (finished_count, rw finished_free f.measured, finished_cell)

  finished_header : (b : ℕ) → (b < 8) ⊎ (12 ≤ b) → b < 16 → finished b ≡ start b
  finished_header b h h' = finished_byte b h (inl h') ∙ f.header b (omega arith)

pub populate-HoldsCells :
    (cells : ℕ → TempCell) (n : ℕ) (node : Page)
    → 20 + n * 4 + taken cells n ≤ 4096
    → HoldsCells cells n (populate cells n node)
unfolding populate finished
populate-HoldsCells cells n node fits =
    finished-HoldsCells cells n (fill cells n 0 4096 node).0 node (fill cells n 0 4096 node).1 fits
      (fill-Filled cells n node fits n 0 4096 node (omega arith) (start-Filled cells node))

pub populate-header :
    (cells : ℕ → TempCell) (n : ℕ) (node : Page)
    → 20 + n * 4 + taken cells n ≤ 4096
    → (b : ℕ) → (b < 8) ⊎ (12 ≤ b)
    → b < 16
    → populate cells n node b ≡ node b
unfolding populate finished
populate-header cells n node fits =
    finished_header cells n (fill cells n 0 4096 node).0 node (fill cells n 0 4096 node).1 fits
      (fill-Filled cells n node fits n 0 4096 node (omega arith) (start-Filled cells node))

-- The end of the free space of a leaf that is given too many bytes.
pub populate-free :
    (cells : ℕ → TempCell) (n : ℕ) (node : Page)
    → 4096 < taken cells n
    → taken cells n < 2 ^ 16
    → leaf_node_free_space (populate cells n node) + taken cells n ≡ 2 ^ 16 + 4096
unfolding populate leaf_node_free_space
populate-free cells n node over bound =
    let r = fill cells n 0 4096 node in
    let end : (r.0 < 2 ^ 16) × ((r.0 + taken cells (0 + n)) % 2 ^ 16 ≡ 4096) =
      fill-offset cells n 0 4096 node (omega arith)
        (let plain : 0 + n ≡ n = omega arith in rw plain (omega (arith, bound))) (omega arith) in
    let plain : 0 + n ≡ n = omega arith in
    let same : taken cells (0 + n) ≡ taken cells n = ap (λ m. taken cells m) plain in
    let stored : read_le 2 (from (put_u16 16 r.0 (put_u32 8 n r.1)) 16) ≡ r.0 =
      put_u16-in 16 r.0 (put_u32 8 n r.1) end.0 in
    omega (arith, stored, end.0, end.1, same, over, bound)
