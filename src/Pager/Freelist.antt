-- ===== src/Pager/Freelist.antt =====
-- The free list of src/pager.c: `get_unused_page_num` and `pager_free_page`. Its head is in the pager
-- and at the end of page 0, and each free page starts with the number of the next.
pub mod Reuse
use custom_db.Prelude.{
  ℕ, ◌-◌, ◌^◌, Bool, true, false, not, ◌&&◌, ◌||◌, Option, none, some, ltb, leb, ◌==◌,
  if◌then◌else◌,
}
use custom_db.Catalog.Varint.{from}
use custom_db.Catalog.Row.Decode.{read_le}
use custom_db.Catalog.Row.Encode.{le_bytes}
use custom_db.Pager.State.{Page, zero_page, Pager}
use custom_db.Pager.Cache.{Buffer, load, store, store_bytes, get_page}

abbrev pub invalid_page_num : ℕ
invalid_page_num = 2 ^ 32 - 1

-- The head of the list is written into page 0; a null page is written to by the code all the same, and
-- here it leaves the pages alone.
unfoldable pub write_head : Pager → Pager
write_head s =
    let (b, t) = get_page 0 s in
    elim b [
      | none ↦ t
      | some buffer ↦ store t buffer (store_bytes 4092 (le_bytes 4 t.freelist_head) (load t buffer))
    ]

unfoldable pub take_free : Pager → ℕ × Pager
take_free s =
    let reused_page = s.freelist_head in
    let (b, t) = get_page reused_page s in
    elim b [
      | none ↦ (reused_page, t)
      | some buffer ↦
          (let next_free = read_le 4 (from (load t buffer) 0) in
            (
              reused_page,
              write_head (store (record t { freelist_head = next_free }) buffer zero_page),
            ))
    ]

unfoldable pub get_unused_page_num : Pager → ℕ × Pager
get_unused_page_num s =
    let head = s.freelist_head in
    if not (head == 0) && (not (head == invalid_page_num) && leb s.reserved_catalog_pages head)
    then take_free s
    else if ltb s.num_pages s.reserved_catalog_pages
    then (s.reserved_catalog_pages, s)
    else (s.num_pages, s)

unfoldable pub pager_free_page : ℕ → Pager → Pager
pager_free_page page_num s =
    if ltb page_num s.reserved_catalog_pages || (page_num == 0 || page_num == invalid_page_num)
    then s
    else (let (b, t) = get_page page_num s in
        elim b [
          | none ↦ t
          | some buffer ↦
              write_head
                (record (store t buffer (store_bytes 0 (le_bytes 4 t.freelist_head) zero_page)) {
                  freelist_head = page_num;
                })
        ])
