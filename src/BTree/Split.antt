-- ===== src/BTree/Split.antt =====
-- The pages of `leaf_node_split_and_insert` of src/btree.c: the cells of the full leaf and the new one,
-- shared out over the leaf and a new page.
pub mod Filled
pub mod Halves
pub mod Places
pub mod Links
pub mod Shared
use custom_db.Prelude.{
  ℕ, zero, suc, ◌+◌, ◌-◌, ◌*◌, ◌/◌, ◌^◌, Bool, true, false, not, ◌&&◌, List, length, get_or, ltb,
  leb, ◌==◌, if◌then◌else◌,
}
use custom_db.Catalog.Varint.{Memory, from}
use custom_db.Catalog.Row.Encode.{le_bytes}
use custom_db.Catalog.Row.Decode.{read_le}
use custom_db.Pager.State.{Page, update}
use custom_db.Pager.Cache.{store_bytes}
use custom_db.BTree.Node.{leaf_node_num_cells, leaf_node_next_leaf, leaf_node_slot, leaf_node_value}
use custom_db.BTree.Leaf.{u16, put_u16}

-- `*(uint32_t*)(node + off) = v`
unfoldable pub put_u32 : ℕ → ℕ → Page → Page
unfolding store_bytes le_bytes
put_u32 off v node = store_bytes off (le_bytes 4 v) node

unfoldable pub is_node_root : Page → Bool
is_node_root node = not (node 1 == 0)

unfoldable pub node_parent : Page → ℕ
unfolding read_le
node_parent node = read_le 4 (from node 4)

unfoldable pub initialize_leaf_node : Page → Page
unfolding update put_u16 put_u32
initialize_leaf_node node =
    put_u16 16 4096 (put_u32 12 0 (put_u32 8 0 (update (update node 0 1) 1 0)))

pub record TempCell : Type 0 where
  pub size : ℕ
  pub bytes : Memory

-- `temp_cells[i]`, for the new cell at place `cell_num`.
unfoldable pub temp_cell : Page → ℕ → List ℕ → ℕ → TempCell
unfolding leaf_node_slot leaf_node_value
temp_cell old_node cell_num cell i =
    if i == cell_num
    then record { size = length cell; bytes = λ k. get_or cell k 0 }
    else (let src_idx = if ltb i cell_num then i else i - 1 in
        record {
          size = (leaf_node_slot old_node src_idx).size;
          bytes = leaf_node_value old_node src_idx;
        })

-- `memcpy(node + off, cell.data, cell.size)`
unfoldable pub store_cell : ℕ → TempCell → Page → Page
store_cell off c node b = if leb off b && ltb b (off + c.size) then c.bytes (b - off) else node b

-- The loop that fills a leaf from cell `i` on, with `left` cells to go.
unfoldable pub fill : (ℕ → TempCell) → ℕ → ℕ → ℕ → Page → ℕ × Page
unfolding put_u16 store_cell
fill cells zero i offset node = (offset, node)
fill cells (suc left) i offset node =
    let c = cells i in
    let next = u16 (offset + 2 ^ 32 - c.size) in
    fill cells left (i + 1) next
      (put_u16 (20 + i * 4 + 2) c.size (put_u16 (20 + i * 4) next (store_cell next c node)))

unfoldable pub populate : (ℕ → TempCell) → ℕ → Page → Page
unfolding fill put_u16 put_u32
populate cells n node =
    let (offset, filled) = fill cells n 0 4096 node in put_u16 16 offset (put_u32 8 n filled)

-- The leaf emptied, with `next` behind it.
unfoldable pub emptied_leaf : ℕ → Page → Page
unfolding initialize_leaf_node is_node_root update put_u32
emptied_leaf next node =
    let cleared = initialize_leaf_node node in
    put_u32 12 next (if is_node_root node then update cleared 1 1 else cleared)

-- The new leaf before it is filled.
unfoldable pub new_leaf : Page → Page → Page
unfolding initialize_leaf_node node_parent leaf_node_next_leaf put_u32
new_leaf old_node new_node =
    put_u32 12 (leaf_node_next_leaf old_node)
      (put_u32 4 (node_parent old_node) (initialize_leaf_node new_node))

-- The old leaf and the new one, on page `new_page`.
unfoldable pub split_leaf : ℕ → List ℕ → ℕ → Page → Page → Page × Page
unfolding temp_cell populate emptied_leaf new_leaf leaf_node_num_cells put_u32
split_leaf cell_num cell new_page old_node new_node =
    let linked = put_u32 12 new_page old_node in
    let total_cells = leaf_node_num_cells linked + 1 in
    let cells = temp_cell linked cell_num cell in
    let lsplit = total_cells / 2 in
    (
      populate cells lsplit (emptied_leaf new_page linked),
      populate (λ i. cells (lsplit + i)) (total_cells - lsplit) (new_leaf old_node new_node),
    )
