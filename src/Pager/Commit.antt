-- ===== src/Pager/Commit.antt =====
-- `pager_commit` of src/pager.c.
pub mod Swap
pub mod Publish
use custom_db.Prelude.{
  ℕ, zero, suc, ◌+◌, ◌%◌, ◌^◌, Bool, true, false, not, ◌&&◌, ◌||◌, Option, none, some, [], ◌∷◌, ltb,
  if◌then◌else◌,
}
use custom_db.Catalog.Row.Encode.{le_bytes}
use custom_db.Pager.State.{Pager, update, pager_lock, pager_unlock}
use custom_db.Pager.Cache.{
  Buffer, load, store, store_bytes, is_shadowed, any_shadow, get_page, pager_flush,
}
use custom_db.Pager.Snapshots.{pager_reclaim_retired_pages}
use custom_db.Pager.Journal.{end_snapshot}
use custom_db.Pager.Shadow.{track_size, or_clear}

-- The loop over `is_dirty`.
unfoldable pub any_dirty : ℕ → (ℕ → Bool) → Bool
any_dirty zero dirty = false
any_dirty (suc n) dirty = let below = any_dirty n dirty in if dirty n then true else below

unfoldable pub has_writes : Pager → Bool
unfolding any_dirty any_shadow
has_writes s =
    any_shadow s.shadow_capacity s.shadow || any_dirty (track_size s) (or_clear s.is_dirty)

-- What both ends of a commit share: the journal is gone, the snapshot and the locks are released.
-- The savepoints stay.
unfoldable pub close_transaction : Pager → Pager
unfolding end_snapshot
close_transaction s =
    pager_unlock (record (end_snapshot (record s { page_is_journaled = none; is_dirty = none })) {
      active_writer = false;
      is_explicit_tx = false;
      is_writer = false;
      in_transaction = false;
    })

unfoldable pub drop_journal : Pager → Pager
drop_journal s = record s { journal_open = false; journal = []; journal_exists = false }

unfoldable pub commit_reads : Pager → Pager
commit_reads s = close_transaction (if s.journal_open then drop_journal s else s)

unfoldable pub take_lsn : Pager → Pager
take_lsn s =
    let lsn = (s.wal_lsn + 1) % 2 ^ 64 in
    record s { current_commit_ts = s.now; wal_lsn = lsn; current_commit_lsn = lsn }

-- The number of the commit is written into page 0, at the end of its 4096 bytes.
unfoldable pub write_stamp : Buffer → Pager → Pager
unfolding update
write_stamp buffer s =
    let t = store s buffer (store_bytes 4084 (le_bytes 8 s.wal_lsn) (load s buffer)) in
    record t { is_dirty = elim t.is_dirty [ none ↦ none | some f ↦ some (update f 0 true) ] }

unfoldable pub stamp : Pager → Pager
stamp s = let (b, t) = get_page 0 s in elim b [ none ↦ t | some buffer ↦ write_stamp buffer t ]

unfoldable pub is_changed : Pager → ℕ → Bool
unfolding is_shadowed
is_changed s i = elim (s.pages i) [
  | none ↦ false
  | some p ↦ ltb i s.max_pages && (or_clear s.is_dirty i || is_shadowed s i)
]

-- The loop over the pages, from page `i` on with `left` of them to go.
unfoldable pub flush_changed : ℕ → ℕ → Pager → Pager
flush_changed zero i s = s
flush_changed (suc left) i s =
    flush_changed left (i + 1) (if is_changed s i then pager_flush i s else s)

-- The shadow pages take the places of the pages, which are retired.
unfoldable pub swap_page : ℕ → Pager → Pager
unfolding update
swap_page i s = elim (s.shadow i) [
  | none ↦ s
  | some p ↦ record s {
    retired_pages = record { buffer = s.pages i; retired_lsn = s.wal_lsn } ∷ s.retired_pages;
    pages = update s.pages i (some p);
    shadow = update s.shadow i none;
  }
]

unfoldable pub swap_pages : ℕ → ℕ → Pager → Pager
unfolding swap_page
swap_pages zero i s = s
swap_pages (suc left) i s = swap_pages left (i + 1) (swap_page i s)

unfoldable pub write_changes : Pager → Pager
write_changes s =
    let t = stamp (take_lsn s) in
    record (flush_changed t.num_pages 0 t) { current_commit_ts = 0; current_commit_lsn = 0 }

unfoldable pub publish : Pager → Pager
publish s = pager_reclaim_retired_pages (swap_pages s.shadow_capacity 0 s)

-- `none` is the `exit(1)` taken when the exclusive lock is not to be had.
unfoldable pub pager_commit : Pager → Option Pager
pager_commit s =
    if not s.in_transaction
    then some s
    else if not (has_writes s)
    then some (commit_reads s)
    else (let (got, t) = if s.use_wal then (true, s) else pager_lock 4 s in
        if got then some (close_transaction (drop_journal (publish (write_changes t)))) else none)
