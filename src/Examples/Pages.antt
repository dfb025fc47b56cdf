-- ===== src/Examples/Pages.antt =====
-- A file of two pages with a log of two frames.
use custom_db.Prelude.{
  ℕ, ◌<◌, ◌≤◌, ◌≡◌, refl, arith, true, false, none, some, List, [], ◌∷◌, ltb, inr, get_or,
  if◌then◌else◌,
}
use custom_db.Pager.State.{zero_page, page_size, Frame, Pager, pager_lock}
use custom_db.Pager.Crc.{calculate_crc32}
use custom_db.Pager.Levels.{pager_lock_level}
use custom_db.Pager.Cache.{wal_scan, read_page}
use custom_db.Pager.Wal.{pager_checkpoint}
use custom_db.Pager.Wal.Replay.{IsWhole, overlay, or_page, wal_scan-overlay, pager_checkpoint-reads}
use custom_db.Pager.Restore.{Backup, Restored, is_past, copy_source, pager_restore}
use custom_db.Pager.Restore.Correct.{
  until, up_to, IsOrdered, pager_restore-pages, pager_restore-lsn,
}
use custom_db.Pager.Backup.{pager_backup}
use custom_db.Pager.Backup.RoundTrip.{restore-backup}
use custom_db.Pager.State.{Entry}
use custom_db.Pager.Journal.{has_entries, check_and_recover_journal, pager_rollback}
use custom_db.Pager.Journal.Rollback.{
  last_image, check_and_recover_journal-disk, pager_rollback-disk,
}
use mathlib.Core.List.{reverse}

abbrev check_digits : List ℕ
check_digits = b'1' ∷ b'2' ∷ b'3' ∷ b'4' ∷ b'5' ∷ b'6' ∷ b'7' ∷ b'8' ∷ b'9' ∷ []

-- The published check value of CRC-32.
crc_check_value : calculate_crc32 (λ i. get_or check_digits i 0) 9 ≡ 0xcbf4_3926
unfolding calculate_crc32
crc_check_value = refl

abbrev frame : ℕ → ℕ → ℕ → ℕ → Frame
frame n byte time lsn_ = record {
  pnum = n;
  crc = calculate_crc32 (λ i. byte) page_size;
  ts = time;
  lsn = lsn_;
  page = λ i. byte;
}

abbrev frames : List Frame
frames = frame 1 7 50 1 ∷ frame 1 8 60 2 ∷ []

abbrev pub pager : Pager
pager = record {
  disk = λ n. if ltb n 2 then (λ i. n) else zero_page;
  disk_pages = 2;
  wal = frames;
  wal_header = true;
  journal = [];
  journal_exists = false;
  journal_pos = 0;
  node_free = true;
  active_writer = false;
  grants = λ l. true;
  now = 70;
  is_memory = false;
  file_length = 8192;
  num_pages = 2;
  max_pages = 1024;
  pages = λ n. none;
  in_transaction = false;
  journal_open = false;
  page_is_journaled = none;
  is_dirty = none;
  num_pages_at_tx_start = 0;
  lock_state = 0;
  use_wal = true;
  wal_open = true;
  wal_lsn = 2;
  current_commit_ts = 0;
  current_commit_lsn = 0;
  savepoints = [];
  reserved_catalog_pages = 1;
  freelist_head = 0;
  shadow = λ n. none;
  shadow_capacity = 0;
  is_writer = false;
  tx_snapshot_xid = 0;
  active_snapshots = some 2 ∷ some 1 ∷ none ∷ [];
  retired_pages = record { buffer = some zero_page; retired_lsn = 1 } ∷ [];
  lock_error = false;
  is_explicit_tx = false;
  disk_reads = 0;
  cache_hits = 0;
}

pager-IsWhole : IsWhole pager
pager-IsWhole = record { measured = refl; small = omega arith; zero_behind = λ n h. ground arith }

exclusive : (pager_lock 4 pager).0 ≡ true
unfolding pager_lock
exclusive = refl

abbrev backup : Backup
backup = record {
  source = record { page = pager.disk; pages = 2 };
  wal_missing = false;
  is_v2 = true;
  frames = frames;
}

in_time : is_past true none (some 1) (frame 1 7 50 1) ≡ false
unfolding is_past
in_time = refl

frames-IsOrdered : IsOrdered 0 frames
unfolding IsOrdered
frames-IsOrdered = (omega arith, (omega arith, tt))

pager_lock_level_example :
    (pager.lock_state ≤ (pager_lock 4 pager).1.lock_state)
    × ((pager_lock 4 pager).0 ≡ true
        → pager.is_memory ≡ false
        → 4 ≤ 4
        → 4 ≤ (pager_lock 4 pager).1.lock_state)
pager_lock_level_example = pager_lock_level 4 pager

wal_scan-overlay_example :
    or_page (wal_scan 1 (reverse frames)) zero_page ≡ overlay 1 zero_page frames
wal_scan-overlay_example = wal_scan-overlay 1 frames zero_page

pager_checkpoint-reads_example :
    (r : Pager) × (pager_checkpoint pager ≡ some r)
    × (r.wal ≡ [])
    × ((n : ℕ) → n < r.num_pages → n < r.max_pages → r.pages n ≡ none)
    × ((n : ℕ) → read_page r n ≡ read_page pager n)
pager_checkpoint-reads_example =
    pager_checkpoint-reads pager pager-IsWhole (omega arith, (omega arith, tt)) (refl, refl)
      exclusive

pager_restore-pages_example :
    (r : Restored) × (pager_restore backup none (some 1) ≡ some r)
    × ((n : ℕ)
        → r.dest.page n
          ≡ overlay n ((copy_source backup.source).page n) (until true none (some 1) frames))
pager_restore-pages_example =
    pager_restore-pages backup none (some 1)
      (inr (refl, refl, frame 1 7 50 1, frame 1 8 60 2 ∷ [], refl, in_time))

pager_restore-lsn_example :
    (r : Restored) × (pager_restore backup none (some 1) ≡ some r)
    × ((n : ℕ) → r.dest.page n ≡ overlay n ((copy_source backup.source).page n) (up_to 1 frames))
pager_restore-lsn_example =
    pager_restore-lsn backup 1
      (inr (refl, refl, frame 1 7 50 1, frame 1 8 60 2 ∷ [], refl, in_time)) frames-IsOrdered

restore-backup_example :
    (b : Backup) × (r : Restored) × ((pager_backup pager).0 ≡ some b)
    × (pager_restore b none none ≡ some r)
    × ((n : ℕ) → r.dest.page n ≡ read_page pager n)
restore-backup_example =
    restore-backup pager pager-IsWhole (refl, refl) (refl, refl, refl) exclusive

-- The same files in a transaction that has changed page 1.
abbrev pub entries : List Entry
entries = record { pnum = 1; page = λ i. 5 } ∷ []

abbrev changed : Pager
changed = record pager {
  journal = entries;
  journal_exists = true;
  in_transaction = true;
  num_pages_at_tx_start = 2;
}

exclusive_changed : (pager_lock 4 changed).0 ≡ true
unfolding pager_lock
exclusive_changed = refl

some_entries : has_entries entries ≡ true
unfolding has_entries
some_entries = refl

check_and_recover_journal-disk_example :
    ((n : ℕ) → (check_and_recover_journal changed).disk n ≡ last_image n (changed.disk n) entries)
    × ((check_and_recover_journal changed).journal ≡ [])
    × ((check_and_recover_journal changed).journal_exists ≡ false)
check_and_recover_journal-disk_example =
    check_and_recover_journal-disk changed (refl, some_entries, refl, refl)

pager_rollback-disk_example :
    (r : Pager) × (pager_rollback changed ≡ some r)
    × (r.in_transaction ≡ false)
    × (r.lock_state ≡ 0)
    × ((n : ℕ) → n < 2 → r.disk n ≡ last_image n (changed.disk n) entries)
pager_rollback-disk_example =
    pager_rollback-disk changed (refl, refl) (omega arith) exclusive_changed
