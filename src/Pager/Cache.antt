-- ===== src/Pager/Cache.antt =====
-- The page cache of src/pager.c: `pager_refresh_if_modified`, `get_page` and `pager_flush`.
pub mod Rest
pub mod Growth
use custom_db.Prelude.{
  ℕ, zero, suc, ◌+◌, ◌-◌, ◌*◌, ◌/◌, ◌%◌, ◌^◌, Bool, true, false, not, ◌&&◌, ◌||◌, Option, none,
  some, List, [], ◌∷◌, ◌++◌, length, get_or, ltb, leb, ◌==◌, if◌then◌else◌,
}
use custom_db.Catalog.Varint.{from}
use custom_db.Catalog.Row.Decode.{read_le}
use custom_db.Pager.State.{Page, zero_page, page_size, u32, Frame, Pager, update, pager_lock}
use custom_db.Pager.Crc.{calculate_crc32}
use mathlib.Core.List.{reverse}

-- A pointer into the cache: `pager->pages[n]` or `pager->shadow_pages[n]`.
pub data Buffer : Type 0 where
  base shadow : ℕ → Buffer

abbrev pub or_zero : Option Page → Page
or_zero none = zero_page
or_zero (some p) = p

unfoldable pub load : Pager → Buffer → Page
load s (base n) = or_zero (s.pages n)
load s (shadow n) = or_zero (s.shadow n)

unfoldable pub store : Pager → Buffer → Page → Pager
unfolding update
store s (base n) p = record s { pages = update s.pages n (some p) }
store s (shadow n) p = record s { shadow = update s.shadow n (some p) }

-- `memcpy(page + off, bytes, ...)`
unfoldable pub store_bytes : ℕ → List ℕ → Page → Page
store_bytes off bs p i = if leb off i && ltb i (off + length bs) then get_or bs (i - off) 0 else p i

-- The loop over `is_shadowed`.
unfoldable pub any_shadow : ℕ → (ℕ → Option Page) → Bool
any_shadow zero shadows = false
any_shadow (suc n) shadows =
    let below = any_shadow n shadows in elim (shadows n) [ none ↦ below | some p ↦ true ]

-- The frames of the log from the last one back: the first of page `n` whose checksum is right.
unfoldable pub frame_ok : Frame → Bool
frame_ok f = calculate_crc32 f.page page_size == f.crc

unfoldable pub wal_scan : ℕ → List Frame → Option Page
wal_scan n [] = none
wal_scan n (f ∷ older) =
    let rest = wal_scan n older in if f.pnum == n && frame_ok f then some f.page else rest

unfoldable pub wal_lookup : Pager → ℕ → Option Page
unfolding wal_scan
wal_lookup s n = if s.use_wal && s.wal_open then wal_scan n (reverse s.wal) else none

-- What a cache miss reads: the log, then the main file, then zeros.
unfoldable pub read_page : Pager → ℕ → Page
unfolding wal_lookup
read_page s n = elim (wal_lookup s n) [
  | some p ↦ p
  | none ↦ if ltb n (s.file_length / page_size) then s.disk n else zero_page
]

-- `while (page_num >= pager->max_pages) pager->max_pages *= 2;` for page numbers below 2 ^ 31. From
-- there on the uint32_t wraps around to 0 and the loop does not end, as Growth shows; `get_page` then
-- gives no result, and what this definition has there is none of the code's.
unfoldable pub grow : ℕ → ℕ → ℕ → ℕ
grow zero n max = max
grow (suc fuel) n max = let more = grow fuel n (max * 2) in if ltb n max then max else more

-- An array of flags for `old` pages, and 1024 more, that is made longer.
abbrev pub grow_flags : ℕ → Option (ℕ → Bool) → Option (ℕ → Bool)
grow_flags old none = none
grow_flags old (some f) = some (λ i. if ltb i (old + 1024) then f i else false)

-- The arrays keep what they hold below the old capacity, and are cleared above it.
unfoldable pub resize : ℕ → Pager → Pager
resize n s = if ltb n s.max_pages then s else record s {
  max_pages = grow 32 n s.max_pages;
  pages = λ i. if ltb i s.max_pages then s.pages i else none;
  page_is_journaled =
      if s.in_transaction then grow_flags s.max_pages s.page_is_journaled else s.page_is_journaled;
  is_dirty = grow_flags s.max_pages s.is_dirty;
}

-- `pager_refresh_if_modified`, for a file that was not replaced by another one.
unfoldable pub disk_lsn : Pager → ℕ
disk_lsn s = if leb 1 s.disk_pages then read_le 8 (from (s.disk 0) 4084) else 0

unfoldable pub last_lsn : List Frame → ℕ
last_lsn [] = 0
last_lsn (f ∷ []) = f.lsn
last_lsn (f ∷ g ∷ fs) = last_lsn (g ∷ fs)

unfoldable pub see_wal : Pager → Pager
see_wal s = if s.wal_header then record s { use_wal = true; wal_open = true } else s

unfoldable pub effective_lsn : Pager → ℕ
unfolding disk_lsn last_lsn
effective_lsn s =
    let wal_max = if s.wal_header then last_lsn s.wal else 0 in
    if ltb (disk_lsn s) wal_max then wal_max else disk_lsn s

unfoldable pub forget_cache : ℕ → Pager → Pager
forget_cache lsn s = record s {
  pages = λ i. none;
  file_length = u32 (s.disk_pages * page_size);
  num_pages = u32 (s.disk_pages * page_size) / page_size;
  wal_lsn = if ltb s.wal_lsn lsn then lsn else s.wal_lsn;
}

unfoldable pub pager_refresh_if_modified : Pager → Pager
unfolding see_wal effective_lsn forget_cache
pager_refresh_if_modified s =
    if s.in_transaction || s.is_memory
    then s
    else if ltb s.wal_lsn (effective_lsn s) || not (u32 (s.disk_pages * page_size) == s.file_length)
    then forget_cache (effective_lsn s) (see_wal s)
    else see_wal s

-- The page is read on a miss, and counted as a hit otherwise.
abbrev pub fetched : ℕ → Option Page → Pager → Pager
fetched n none s = record s {
  disk_reads = s.disk_reads + 1;
  pages = update s.pages n (some (read_page s n));
  num_pages = if leb s.num_pages n then n + 1 else s.num_pages;
}
fetched n (some p) s = record s { cache_hits = s.cache_hits + 1 }

unfoldable pub fetch : ℕ → Pager → Pager
fetch n s = fetched n (s.pages n) s

unfoldable pub is_shadowed : Pager → ℕ → Bool
is_shadowed s n = elim (s.shadow n) [ none ↦ false | some p ↦ ltb n s.shadow_capacity ]

unfoldable pub buffer_of : Pager → ℕ → Buffer
unfolding is_shadowed
buffer_of s n = if s.in_transaction && (s.is_writer && is_shadowed s n) then shadow n else base n

unfoldable pub locked_fetch : ℕ → Pager → Option Buffer × Pager
locked_fetch n s =
    let s' = fetch n (resize n (pager_refresh_if_modified s)) in (some (buffer_of s' n), s')

-- `none` is the NULL that is returned when the read lock is not to be had.
unfoldable pub get_page : ℕ → Pager → Option Buffer × Pager
get_page n s =
    if s.is_memory
    then locked_fetch n s
    else (let (got, s') = pager_lock 1 s in
        if got
        then locked_fetch n (record s' { lock_error = false })
        else (none, record s' { lock_error = true }))

-- The buffer that `pager_flush` writes.
unfoldable pub flush_buf : Pager → ℕ → Option Page
unfolding is_shadowed
flush_buf s n =
    if is_shadowed s n then s.shadow n else if ltb n s.max_pages then s.pages n else none

-- One frame at the end of the log, with its magic number before the first.
unfoldable pub append_frame : ℕ → Page → Pager → Pager
append_frame n p s =
    let next_lsn = (s.wal_lsn + 1) % 2 ^ 64 in
    let fresh = s.current_commit_lsn == 0 in
    record s {
      wal_open = true;
      wal_header = true;
      wal_lsn = if fresh then next_lsn else s.wal_lsn;
      wal =
          s.wal
          ++ (record {
            pnum = n;
            crc = calculate_crc32 p page_size;
            ts = if s.current_commit_ts == 0 then s.now else s.current_commit_ts;
            lsn = if fresh then next_lsn else s.current_commit_lsn;
            page = p;
          }
              ∷ []);
    }

unfoldable pub write_main : ℕ → Page → Pager → Pager
unfolding update
write_main n p s = record s {
  disk = update s.disk n p;
  disk_pages = if leb s.disk_pages n then n + 1 else s.disk_pages;
  file_length =
      if ltb s.file_length (u32 (u32 (n + 1) * page_size))
      then u32 (u32 (n + 1) * page_size)
      else s.file_length;
  is_dirty = elim s.is_dirty [
    | none ↦ none
    | some f ↦ if ltb n (s.max_pages + 1024) then some (update f n false) else some f
  ];
}

unfoldable pub pager_flush : ℕ → Pager → Pager
pager_flush n s = if s.is_memory then s else elim (flush_buf s n) [
  | none ↦ s
  | some p ↦ if s.use_wal then append_frame n p s else write_main n p s
]
