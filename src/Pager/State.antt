-- ===== src/Pager/State.antt =====
-- The `Pager` of include/pager.h as seen by one connection, with the files that it works on, and the
-- lock levels it climbs through.
use custom_db.Prelude.{ℕ, ◌%◌, ◌^◌, Bool, true, false, ◌&&◌, Option, List, leb, ◌==◌, if◌then◌else◌}
use custom_db.Catalog.Varint.{Memory}

-- The PAGE_SIZE bytes of a page, by their offset.
abbrev pub Page : Type 0
Page = Memory

abbrev pub zero_page : Page
zero_page = λ i. 0

abbrev pub page_size : ℕ
page_size = 4096

abbrev pub u32 : ℕ → ℕ
u32 n = n % 2 ^ 32

-- A complete frame of the write-ahead log: its 24 byte header, and a page.
pub record Frame : Type 0 where
  pub pnum : ℕ
  pub crc : ℕ
  pub ts : ℕ
  pub lsn : ℕ
  pub page : Page

-- An entry of the rollback journal: `[page_num : 4] [page : 4096]`.
pub record Entry : Type 0 where
  pub pnum : ℕ
  pub page : Page

pub record Savepoint : Type 0 where
  pub name : List ℕ
  pub journal_offset : ℕ  -- in entries
  pub num_pages_at_savepoint : ℕ

pub record Retired : Type 0 where
  pub buffer : Option Page
  pub retired_lsn : ℕ

-- NO_LOCK 0, SHARED 1, RESERVED 2, PENDING 3, EXCLUSIVE 4
abbrev pub Lock : Type 0
Lock = ℕ

-- `shadow i` is present exactly when `is_shadowed[i]` is set. The files: `disk` and its length in
-- pages, the complete frames of the log and whether its magic number is written, and the entries of
-- the journal; `journal_pos` is where the descriptor `journal_fd` writes next, in entries. `grants l`
-- says whether the locks of other processes let this one have level `l`, within the retries that the
-- code makes; `node_free` says that no other pager of the process keeps the file's `lock_node`, and
-- `active_writer` that this one has it. `now` is the clock.
pub record Pager : Type 0 where
  pub disk : ℕ → Page
  pub disk_pages : ℕ
  pub wal : List Frame
  pub wal_header : Bool
  pub journal : List Entry
  pub journal_exists : Bool
  pub journal_pos : ℕ
  pub node_free : Bool
  pub active_writer : Bool
  pub grants : Lock → Bool
  pub now : ℕ
  pub is_memory : Bool
  pub file_length : ℕ
  pub num_pages : ℕ
  pub max_pages : ℕ
  pub pages : ℕ → Option Page
  pub in_transaction : Bool
  pub journal_open : Bool
  pub page_is_journaled : Option (ℕ → Bool)
  pub is_dirty : Option (ℕ → Bool)
  pub num_pages_at_tx_start : ℕ
  pub lock_state : Lock
  pub use_wal : Bool
  pub wal_open : Bool
  pub wal_lsn : ℕ
  pub current_commit_ts : ℕ
  pub current_commit_lsn : ℕ
  pub savepoints : List Savepoint
  pub reserved_catalog_pages : ℕ
  pub freelist_head : ℕ
  pub shadow : ℕ → Option Page
  pub shadow_capacity : ℕ
  pub is_writer : Bool
  pub tx_snapshot_xid : ℕ
  pub active_snapshots : List (Option ℕ)
  pub retired_pages : List Retired
  pub lock_error : Bool
  pub is_explicit_tx : Bool
  pub disk_reads : ℕ
  pub cache_hits : ℕ

-- An array with one entry replaced.
unfoldable pub update {ℓ} : {A : Type ℓ} → (ℕ → A) → ℕ → A → ℕ → A
update f n a i = if i == n then a else f i

-- One of the four transitions of `pager_lock`: from level `have` to `next`, if level `want` needs it.
-- `ok` turns false where the function returns false.
unfoldable pub raise : (Lock → Bool) → Lock → Lock → Lock → Bool × Lock → Bool × Lock
raise grants have next want (ok, level) =
    if ok && (level == have && leb next want)
    then (if grants next then (true, next) else (false, level))
    else (ok, level)

unfoldable pub climb : (Lock → Bool) → Lock → Lock → Bool × Lock
unfolding raise
climb grants want level =
    raise grants 3 4 want
      (raise grants 2 3 want (raise grants 1 2 want (raise grants 0 1 want (true, level))))

unfoldable pub pager_lock : Lock → Pager → Bool × Pager
unfolding climb
pager_lock want s =
    if s.is_memory
    then (true, s)
    else if leb want s.lock_state
    then (true, s)
    else (let (ok, level) = climb s.grants want s.lock_state in
        (ok, record s { lock_state = level }))

unfoldable pub pager_unlock : Pager → Pager
pager_unlock s = if s.lock_state == 0 then s else record s { lock_state = 0 }
