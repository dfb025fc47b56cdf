-- ===== src/BTree/Leaf.antt =====
-- The slotted leaves of src/btree.c: `leaf_node_defragment`, and `leaf_node_insert` from the bytes of
-- the new cell on.
pub mod Cells
pub mod Moved
pub mod Defragment
pub mod Shift
pub mod Place
pub mod Insert
pub mod Room
use custom_db.Prelude.{
  ℕ, zero, suc, ◌+◌, ◌-◌, ◌*◌, ◌/◌, ◌%◌, ◌^◌, Bool, true, false, not, ◌&&◌, ◌||◌, Option, none,
  some, List, length, ltb, leb, ◌==◌, if◌then◌else◌,
}
use custom_db.Catalog.Varint.{from}
use custom_db.Catalog.Row.Encode.{le_bytes}
use custom_db.Catalog.Row.Decode.{u32, read_le}
use custom_db.Pager.State.{Page, zero_page, update}
use custom_db.Catalog.Row.Encode.{le_bytes}
use custom_db.Pager.Cache.{store_bytes}
use custom_db.BTree.Node.{leaf_node_num_cells, leaf_node_slot}

abbrev pub u16 : ℕ → ℕ
u16 n = n % 2 ^ 16

-- `memcpy(to + dst, node + src, n)` between two pages
unfoldable pub copy_bytes : ℕ → ℕ → ℕ → Page → Page → Page
copy_bytes dst src n node to i =
    if leb dst i && ltb i (dst + n) then node (src + (i - dst)) else to i

-- `*(uint16_t*)(node + off) = v`
unfoldable pub put_u16 : ℕ → ℕ → Page → Page
unfolding update
put_u16 off v node = update (update node off (v % 256)) (off + 1) (v / 2 ^ 8 % 256)

unfoldable pub leaf_node_free_space : Page → ℕ
unfolding read_le
leaf_node_free_space node = read_le 2 (from node 16)

-- The loop over the cells from `i` on, with `left` of them to go: where the free space ends, and the
-- page that is built.
unfoldable pub move_cells : Page → ℕ → ℕ → ℕ → Page → ℕ × Page
unfolding leaf_node_slot copy_bytes put_u16
move_cells node zero i free_offset temp = (free_offset, temp)
move_cells node (suc left) i free_offset temp =
    let old_slot = leaf_node_slot node i in
    let next = u16 (free_offset + 2 ^ 16 - old_slot.size) in
    move_cells node left (i + 1) next
      (put_u16 (20 + i * 4) next (copy_bytes next old_slot.offset old_slot.size node temp))

unfoldable pub leaf_node_defragment : Page → Page
unfolding leaf_node_num_cells move_cells
leaf_node_defragment node =
    let num_cells = leaf_node_num_cells node in
    let (free_offset, temp) =
      move_cells node num_cells 0 4096 (copy_bytes 0 0 (20 + num_cells * 4) node zero_page) in
    if num_cells == 0 then put_u16 16 4096 node else put_u16 16 free_offset temp

-- Whether there are `needed` bytes between the slots and the cells.
unfoldable pub has_room : Page → ℕ → Bool
unfolding leaf_node_num_cells leaf_node_free_space
has_room node needed =
    let free_space = leaf_node_free_space node in
    let slots_end = 20 + leaf_node_num_cells node * 4 in
    not (ltb free_space slots_end || ltb (free_space - slots_end) needed)

-- The loop that makes room in the slots, from slot `i` down, with `left` rounds to go.
unfoldable pub shift_slots : ℕ → ℕ → Page → Page
unfolding copy_bytes
shift_slots zero i node = node
shift_slots (suc left) i node =
    shift_slots left (i - 1) (copy_bytes (20 + i * 4) (20 + (i - 1) * 4) 4 node node)

-- The slot, the end of the free space, and the number of cells, once the slots are shifted.
unfoldable pub place_cell : ℕ → List ℕ → ℕ → Page → Page
unfolding put_u16 store_bytes le_bytes
place_cell cell_num cell new_offset node =
    store_bytes 8 (le_bytes 4 (u32 (leaf_node_num_cells node + 1))) (
      put_u16 (20 + cell_num * 4 + 2) (length cell) (
        put_u16 (20 + cell_num * 4) new_offset
          (store_bytes new_offset cell (put_u16 16 new_offset node))))

unfoldable pub insert_cell : ℕ → List ℕ → Page → Page
unfolding shift_slots leaf_node_num_cells leaf_node_free_space place_cell
insert_cell cell_num cell node =
    let shifted =
      shift_slots (leaf_node_num_cells node - cell_num) (leaf_node_num_cells node) node in
    place_cell cell_num cell (u16 (leaf_node_free_space shifted + 2 ^ 16 - length cell)) shifted

-- `none` is the split of the leaf.
unfoldable pub leaf_node_insert : ℕ → List ℕ → Page → Option Page
unfolding has_room insert_cell leaf_node_defragment
leaf_node_insert cell_num cell node =
    let needed = 4 + length cell in
    let packed = leaf_node_defragment node in
    if has_room node needed
    then some (insert_cell cell_num cell node)
    else if has_room packed needed
    then some (insert_cell cell_num cell packed)
    else none
