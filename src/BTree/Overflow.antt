-- ===== src/BTree/Overflow.antt =====
-- The overflow pages of src/btree.c: rows that are too long for a cell.
pub mod Rounds
pub mod Chain
pub mod Stub
pub mod RoundTrip
use custom_db.Prelude.{
  ℕ, zero, suc, ◌+◌, ◌-◌, ◌*◌, ◌^◌, Bool, true, false, not, ◌&&◌, ◌||◌, Option, none, some, List,
  [], ◌∷◌, ◌++◌, length, get_or, take, drop, ltb, leb, ◌==◌, if◌then◌else◌,
}
use custom_db.Catalog.Varint.{Memory, from}
use custom_db.Catalog.Row.Encode.{le_bytes}
use custom_db.Catalog.Row.Decode.{read_le, read_bytes}
use custom_db.Pager.State.{Page, update, zero_page}
use custom_db.Pager.Cache.{store_bytes}
use custom_db.Pager.Freelist.{invalid_page_num}
use custom_db.BTree.Keys.{cell_is_overflow_stub}
use custom_db.BTree.Split.{put_u32}
use custom_db.BTree.Cursor.{Pages}

-- The link to page `new_page` in page `prev_page`, if there is one.
abbrev pub link : ℕ → ℕ → Pages → Pages
link prev_page new_page pages =
    if prev_page == 0 then pages else update pages prev_page (put_u32 0 new_page (pages prev_page))

-- A page that `get_unused_page_num` hands out: one that was freed, from the list of free pages, or else
-- one behind the others.
pub record Unused : Type 0 where
  pub page_num : ℕ
  pub is_reused : Bool

-- What the call does to the pages: a page from the list is cleared, and the number of the next, which
-- it started with, is written into page 0 as the head of the list.
unfoldable pub take_unused : Unused → Pages → Pages
unfolding update put_u32 read_le
take_unused u pages =
    let next_free = read_le 4 (pages u.page_num) in
    let cleared = update pages u.page_num zero_page in
    if u.is_reused then update cleared 0 (put_u32 4092 next_free (cleared 0)) else pages

-- The loop over the bytes that are still to be written; `unused` are the pages that the calls of
-- `get_unused_page_num` hand out one after the other, and `none` says that they are too few. The results
-- are the first page, the last one, and the pages.
unfoldable pub write_loop : List Unused → ℕ → ℕ → List ℕ → Pages → Option (ℕ × ℕ × Pages)
unfolding take_unused update put_u32 store_bytes
write_loop unused first_page prev_page [] pages = some (first_page, prev_page, pages)
write_loop [] first_page prev_page (b ∷ bytes) pages = none
write_loop (u ∷ unused) first_page prev_page (b ∷ bytes) pages =
    let new_page = u.page_num in
    let cleared = update (take_unused u pages) new_page zero_page in
    let linked = link prev_page new_page cleared in
    write_loop unused (if first_page == 0 then new_page else first_page) new_page
      (drop 4092 (b ∷ bytes))
      (update linked new_page (store_bytes 4 (take 4092 (b ∷ bytes)) (linked new_page)))

-- The first page, and the pages.
unfoldable pub btree_write_overflow_chain : List Unused → List ℕ → Pages → Option (ℕ × Pages)
unfolding write_loop update put_u32
btree_write_overflow_chain unused bytes pages = elim (write_loop unused 0 0 bytes pages) [
  | none ↦ none
  | some (first_page, prev_page, written) ↦ some (first_page, link prev_page 0 written)
]

-- The `len` bytes that are still to be read, from page `cur` on; each round reads a byte or more, so
-- `len` is fuel enough.
unfoldable pub read_chain : Pages → ℕ → ℕ → ℕ → List ℕ
unfolding read_le read_bytes
read_chain pages zero cur len = []
read_chain pages (suc fuel) cur len =
    let chunk_size = if ltb 4092 len then 4092 else len in
    let rest = read_chain pages fuel (read_le 4 (pages cur)) (len - chunk_size) in
    if cur == 0 || cur == invalid_page_num || len == 0
    then []
    else read_bytes chunk_size (from (pages cur) 4) ++ rest

abbrev pub btree_read_overflow_chain : Pages → ℕ → ℕ → List ℕ
btree_read_overflow_chain pages first_page len = read_chain pages len first_page len

-- The cell of a row of these bytes, from `serialize_row_with_mvcc`.
unfoldable pub serialize_cell_for_leaf : List Unused → List ℕ → Pages → Option (List ℕ × Pages)
unfolding btree_write_overflow_chain le_bytes
serialize_cell_for_leaf unused row pages =
    let stub : Option (List ℕ × Pages) =
      elim (btree_write_overflow_chain unused (drop 1016 row) pages) [
        | none ↦ none
        | some (first_overflow, written) ↦
            some (le_bytes 4 (length row) ++ (le_bytes 4 first_overflow ++ take 1016 row), written)
      ] in
    if ltb (length row) 1024 then some (row, pages) else stub

-- The bytes of the row whose cell, of `size` bytes, stands at `cell_data`.
unfoldable pub cursor_value : Pages → ℕ → ℕ → Memory → Memory
unfolding cell_is_overflow_stub read_le read_bytes
cursor_value pages reserved_catalog_pages size cell_data =
    let total_size = read_le 4 cell_data in
    let first_overflow_page = read_le 4 (from cell_data 4) in
    let local_chunk = size - 8 in
    let corrupt =
      leb total_size local_chunk
      || first_overflow_page == 0
      || first_overflow_page == invalid_page_num
      || ltb first_overflow_page reserved_catalog_pages in
    let row =
      read_bytes local_chunk (from cell_data 8)
      ++ btree_read_overflow_chain pages first_overflow_page (total_size - local_chunk) in
    if not (cell_is_overflow_stub size) then cell_data else if corrupt then cell_data else λ k.
    get_or row k 0
