-- ===== src/BTree/Cursor.antt =====
-- The cursors of src/btree.c over the pages of a tree, a function from page numbers to what `get_page`
-- returns.
pub mod Scan
pub mod Delete
pub mod Emptied
use custom_db.Prelude.{
  ℕ, zero, suc, ◌+◌, ◌-◌, ◌*◌, ◌^◌, Bool, true, false, not, ◌&&◌, ◌||◌, Option, none, some, List,
  [], ◌∷◌, ltb, leb, ◌==◌, if◌then◌else◌,
}
use custom_db.Catalog.Types.{ColumnType, Floats}
use custom_db.Catalog.Varint.{Memory}
use custom_db.Catalog.Row.Decode.{u32}
use custom_db.Pager.State.{Page, update}
use custom_db.BTree.Keys.{FloatOrder}
use custom_db.BTree.Node.{leaf_node_num_cells, leaf_node_next_leaf, internal_node_child}
use custom_db.BTree.Search.{leaf_node_find, internal_node_find_child}
use custom_db.BTree.Leaf.{copy_bytes}
use custom_db.BTree.Split.{put_u32, is_node_root}
use mathlib.Core.Option as Options

pub record Cursor : Type 0 where
  pub page_num : ℕ
  pub cell_num : ℕ
  pub end_of_table : Bool

abbrev pub Pages : Type 0
Pages = ℕ → Page

-- `get_node_type(node) == NODE_INTERNAL`
abbrev pub is_internal : Page → Bool
is_internal node = node 0 == 0

-- The loop down to a leaf, `pick` being the child it takes, on fuel: the leaf's page. `none` is a child
-- that is not there, or more levels than fuel.
unfoldable pub descend : Pages → (Page → ℕ) → ℕ → ℕ → Option ℕ
unfolding internal_node_child
descend pages pick zero page_num = none
descend pages pick (suc fuel) page_num =
    let node = pages page_num in
    let below : Option ℕ = elim (internal_node_child node (pick node)) [
      | none ↦ none
      | some child ↦ descend pages pick fuel child
    ] in
    if is_internal node then below else some page_num

unfoldable pub btree_start_out : Pages → ℕ → ℕ → Option Cursor
unfolding descend leaf_node_num_cells
btree_start_out pages fuel root =
    Options.map
      (λ page_num. record {
        page_num = page_num;
        cell_num = 0;
        end_of_table = leaf_node_num_cells (pages page_num) == 0;
      })
      (descend pages (λ node. 0) fuel root)

-- The steps to the next leaf of a cursor that stands past the cells of its leaf.
unfoldable pub past_cells : Pages → Cursor → Cursor
unfolding leaf_node_num_cells leaf_node_next_leaf
past_cells pages c =
    let node = pages c.page_num in
    let next = leaf_node_next_leaf node in
    if leb (leaf_node_num_cells node) c.cell_num
    then if next == 0 then record c { end_of_table = true } else record {
      page_num = next;
      cell_num = 0;
      end_of_table = leaf_node_num_cells (pages next) == 0 || c.end_of_table;
    }
    else c

unfoldable pub btree_find_out :
    Floats → FloatOrder → ColumnType → Pages → ℕ → ℕ → Memory → Option Cursor
unfolding descend internal_node_find_child leaf_node_find past_cells
btree_find_out fl fo col pages fuel root raw_key =
    Options.map
      (λ page_num. past_cells pages (record {
        page_num = page_num;
        cell_num = leaf_node_find fl fo col (pages page_num) raw_key;
        end_of_table = false;
      }))
      (descend pages (λ node. internal_node_find_child fo col node raw_key) fuel root)

unfoldable pub cursor_advance : Pages → Cursor → Cursor
unfolding leaf_node_num_cells leaf_node_next_leaf
cursor_advance pages c =
    let node = pages c.page_num in
    let next = leaf_node_next_leaf node in
    let cell_num = u32 (c.cell_num + 1) in
    if leb (leaf_node_num_cells node) cell_num
    then if next == 0
      then record c { cell_num = cell_num; end_of_table = true }
      else record c { page_num = next; cell_num = 0 }
    else record c { cell_num = cell_num }

-- The places that a loop `while (!cursor->end_of_table) { ...; cursor_advance(cursor); }` visits, on
-- fuel; `none` is a loop that goes on.
unfoldable pub scan : Pages → ℕ → Cursor → Option (List (ℕ × ℕ))
unfolding cursor_advance
scan pages zero c = if c.end_of_table then some [] else none
scan pages (suc fuel) c =
    let rest = scan pages fuel (cursor_advance pages c) in
    if c.end_of_table then some [] else Options.map (λ l. (c.page_num, c.cell_num) ∷ l) rest

-- The loop that shifts the slots behind slot `i` to the front, with `left` rounds to go.
unfoldable pub unshift_slots : ℕ → ℕ → Page → Page
unfolding copy_bytes
unshift_slots zero i node = node
unshift_slots (suc left) i node =
    unshift_slots left (i + 1) (copy_bytes (20 + i * 4) (20 + (i + 1) * 4) 4 node node)

-- The leaf in `btree_delete`, past the guard.
unfoldable pub remove_cell : ℕ → Page → Page
unfolding unshift_slots leaf_node_num_cells put_u32
remove_cell ci node =
    let shifted = unshift_slots (leaf_node_num_cells node - 1 - ci) ci node in
    put_u32 8 (u32 (leaf_node_num_cells shifted + 2 ^ 32 - 1)) shifted

-- What `btree_delete` does to the leaf and to the cursor. The row's overflow pages, the parent's key
-- and the call of `leaf_node_handle_underflow` on the cursor's new page are left out.
unfoldable pub delete_row : Pages → Cursor → Pages × Cursor
unfolding leaf_node_num_cells remove_cell past_cells update
delete_row pages c =
    let nc = leaf_node_num_cells (pages c.page_num) in
    let pages' = update pages c.page_num (remove_cell c.cell_num (pages c.page_num)) in
    if nc == 0 || leb nc c.cell_num
    then (pages, record c { end_of_table = true })
    else (pages', past_cells pages' c)

-- Whether `leaf_node_handle_underflow` goes on past its two guards.
unfoldable pub underflows : Page → Bool
unfolding is_node_root leaf_node_num_cells
underflows node = not (is_node_root node) && ltb (leaf_node_num_cells node) 2
