-- ===== src/BTree/Search.antt =====
-- The binary searches of src/btree.c: `leaf_node_find` and `internal_node_find_child`.
pub mod LowerBound
use custom_db.Prelude.{ℕ, zero, suc, ◌+◌, ◌/◌, Bool, true, false, ltb, if◌then◌else◌}
use custom_db.Catalog.Types.{ColumnType, int, Floats}
use custom_db.Catalog.Varint.{Memory}
use custom_db.Catalog.Row.Decode.{u32, read_le}
use custom_db.Pager.State.{Page}
use custom_db.BTree.Keys.{
  Sign, negative, nil, positive, FloatOrder, biased, compare_keys, serialize_col0_key,
  extract_col0_from_packed_record,
}
use custom_db.BTree.Node.{
  leaf_node_num_cells, leaf_node_slot, leaf_node_value, internal_node_num_keys, internal_node_key,
}

-- The loop that the searches share, from `lo` to `hi`, on fuel; `before i` says that what is at `i`
-- comes before the target. The interval gets smaller in each round, so its length is fuel enough.
unfoldable pub search_loop : ℕ → (ℕ → Bool) → ℕ → ℕ → ℕ
search_loop zero before lo hi = lo
search_loop (suc fuel) before lo hi =
    let mid = u32 (lo + hi) / 2 in
    let above = search_loop fuel before (mid + 1) hi in
    let below = search_loop fuel before lo mid in
    if ltb lo hi then (if before mid then above else below) else lo

abbrev pub is_negative : Sign → Bool
is_negative negative = true
is_negative _ = false

abbrev pub is_int : ColumnType → Bool
is_int int = true
is_int _ = false

-- Whether the row in cell `i` of a leaf comes before the key.
unfoldable pub row_before : Floats → FloatOrder → ColumnType → Page → Memory → ℕ → Bool
unfolding compare_keys serialize_col0_key extract_col0_from_packed_record leaf_node_value
    leaf_node_slot read_le
row_before fl fo col node raw_key mid =
    let mid_val =
      extract_col0_from_packed_record fl col (leaf_node_slot node mid).size
        (leaf_node_value node mid) in
    if is_int col
    then ltb (biased mid_val.int_val) (biased (read_le 4 raw_key))
    else is_negative (compare_keys fo col (serialize_col0_key col mid_val) raw_key)

unfoldable pub leaf_node_find : Floats → FloatOrder → ColumnType → Page → Memory → ℕ
unfolding search_loop row_before leaf_node_num_cells
leaf_node_find fl fo col node raw_key =
    let nc = leaf_node_num_cells node in search_loop nc (row_before fl fo col node raw_key) 0 nc

-- Whether key `i` of an internal node comes before the key.
unfoldable pub key_before : FloatOrder → ColumnType → Page → Memory → ℕ → Bool
unfolding compare_keys read_le
key_before fo col node raw_key mid =
    if is_int col
    then ltb (biased (read_le 4 (internal_node_key node mid))) (biased (read_le 4 raw_key))
    else is_negative (compare_keys fo col (internal_node_key node mid) raw_key)

unfoldable pub internal_node_find_child : FloatOrder → ColumnType → Page → Memory → ℕ
unfolding search_loop key_before internal_node_num_keys
internal_node_find_child fo col node raw_key =
    let nk = internal_node_num_keys node in search_loop nk (key_before fo col node raw_key) 0 nk
