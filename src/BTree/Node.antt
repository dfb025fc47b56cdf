-- ===== src/BTree/Node.antt =====
-- The accessors of the nodes of src/btree.c, a node being a page.
use custom_db.Prelude.{ℕ, ◌+◌, ◌*◌, Option, none, some, ltb, ◌==◌, if◌then◌else◌}
use custom_db.Catalog.Varint.{Memory, from}
use custom_db.Catalog.Row.Decode.{read_le}
use custom_db.Pager.State.{Page}

unfoldable pub leaf_node_num_cells : Page → ℕ
unfolding read_le
leaf_node_num_cells node = read_le 4 (from node 8)

unfoldable pub leaf_node_next_leaf : Page → ℕ
unfolding read_le
leaf_node_next_leaf node = read_le 4 (from node 12)

pub record PageSlot : Type 0 where
  pub offset : ℕ
  pub size : ℕ

unfoldable pub leaf_node_slot : Page → ℕ → PageSlot
unfolding read_le
leaf_node_slot node i = record {
  offset = read_le 2 (from node (20 + i * 4));
  size = read_le 2 (from node (20 + i * 4 + 2));
}

unfoldable pub leaf_node_value : Page → ℕ → Memory
unfolding leaf_node_slot
leaf_node_value node i = from node (leaf_node_slot node i).offset

unfoldable pub internal_node_num_keys : Page → ℕ
unfolding read_le
internal_node_num_keys node = read_le 4 (from node 8)

unfoldable pub internal_node_right_child : Page → ℕ
unfolding read_le
internal_node_right_child node = read_le 4 (from node 12)

-- The bytes of cell `i`: its child, and its key of 32 bytes.
abbrev pub internal_node_cell : Page → ℕ → Memory
internal_node_cell node i = from node (16 + i * 36)

-- `none` is the `exit(1)` past the last child.
unfoldable pub internal_node_child : Page → ℕ → Option ℕ
unfolding internal_node_num_keys internal_node_right_child read_le
internal_node_child node i =
    let n = internal_node_num_keys node in
    if ltb n i
    then none
    else some
        (if i == n then internal_node_right_child node else read_le 4 (internal_node_cell node i))

abbrev pub internal_node_key : Page → ℕ → Memory
internal_node_key node i = from (internal_node_cell node i) 4
