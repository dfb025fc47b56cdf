-- ===== src/Pager/Backup.antt =====
-- `pager_backup` of src/pager.c: a copy of the main file, and of the log if there is one.
pub mod RoundTrip
use custom_db.Prelude.{
  ℕ, zero, suc, ◌+◌, Bool, true, false, not, ◌&&◌, ◌||◌, Option, none, some, List, [], ltb,
  if◌then◌else◌,
}
use custom_db.Pager.State.{Pager, pager_lock, pager_unlock}
use custom_db.Pager.Cache.{pager_flush}
use custom_db.Pager.Restore.{Backup}

-- A cached page, if a transaction has changed it or there is none and the mode is not the log's.
unfoldable pub must_flush : Pager → ℕ → Bool
must_flush s i = elim (s.pages i) [
  | none ↦ false
  | some p ↦ ltb i s.max_pages && elim s.is_dirty [ none ↦ not s.use_wal | some dirty ↦ dirty i ]
]

-- Both loops over the pages, from page `i` on with `left` of them to go.
unfoldable pub flush_all : ℕ → ℕ → Pager → Pager
unfolding must_flush
flush_all zero i s = s
flush_all (suc left) i s = flush_all left (i + 1) (if must_flush s i then pager_flush i s else s)

-- The two files that are copied. There is no log file in the backup if the mode is off or the log
-- is empty.
unfoldable pub copy_files : Pager → Backup
copy_files s =
    let log = s.use_wal && (s.wal_open && s.wal_header) in
    record {
      source = record { page = s.disk; pages = s.disk_pages };
      wal_missing = not log;
      is_v2 = log;
      frames = if log then s.wal else [];
    }

-- `none` is an error: nothing is written then.
unfoldable pub pager_backup : Pager → Option Backup × Pager
unfolding copy_files
pager_backup s =
    if s.is_memory
    then (none, s)
    else (let (got, s') = pager_lock 4 s in
        let flushed = flush_all s'.num_pages 0 s' in
        if got then (some (copy_files flushed), pager_unlock flushed) else (none, s'))
