-- ===== src/Pager/Backup/RoundTrip.antt =====
-- A backup that is restored in full has the database that its readers saw.
use custom_db.Prelude.{
  ℕ, zero, suc, ◌+◌, ◌≡◌, refl, ap, ◌∙◌, sym, Bool, true, false, none, some, List, [], ◌∷◌, arith,
  inl,
}
use custom_db.Pager.State.{Frame, Lock, Pager, pager_lock}
use custom_db.Pager.Levels.{pager_lock_keeps}
use custom_db.Pager.Cache.{read_page}
use custom_db.Pager.Restore.{Backup, Restored, is_past, exceeds, copy_source, pager_restore}
use custom_db.Pager.Restore.Correct.{until, pager_restore-pages}
use custom_db.Pager.Wal.Replay.{overlay, IsWhole, read_page-overlay, read_page_locked, lock-IsWhole}
use custom_db.Pager.Backup.{must_flush, flush_all, copy_files, pager_backup}

-- Outside a transaction the log's mode has nothing to flush.
must_flush-none :
    (s : Pager) (i : ℕ) → s.is_dirty ≡ none → s.use_wal ≡ true → must_flush s i ≡ false
unfolding must_flush
must_flush-none s i e e' = ground arith

flush_all-none :
    (left i : ℕ) (s : Pager) → s.is_dirty ≡ none → s.use_wal ≡ true → flush_all left i s ≡ s
unfolding flush_all
flush_all-none zero i s e e' = refl
flush_all-none (suc left) i s e e' =
    rw (must_flush-none s i e e') (flush_all-none left (i + 1) s e e')

until_no_limit : (v2 : Bool) (fs : List Frame) → until v2 none none fs ≡ fs
unfolding until is_past exceeds
until_no_limit v2 [] = refl
until_no_limit v2 (f ∷ fs) = ground (arith, until_no_limit v2 fs)

module _ (s : Pager) (whole : IsWhole s) (on : (s.use_wal ≡ true) × (s.wal_open ≡ true))
    (begun : s.wal_header ≡ true) where
  frames-copy_files : (copy_files s).frames ≡ s.wal
  unfolding copy_files
  frames-copy_files = simp (on.0, on.1, begun)

  source-copy_files : (n : ℕ) → (copy_source (copy_files s).source).page n ≡ s.disk n
  unfolding copy_files copy_source
  source-copy_files n = ground (arith, whole.zero_behind n)

  read_page-copied :
      (n : ℕ)
      → overlay n
          ((copy_source (copy_files s).source).page n)
          (until (copy_files s).is_v2 none none (copy_files s).frames)
        ≡ read_page s n
  read_page-copied n =
      ap (overlay n ((copy_source (copy_files s).source).page n))
        (until_no_limit (copy_files s).is_v2 (copy_files s).frames ∙ frames-copy_files)
      ∙ ap (λ d. overlay n d s.wal) (source-copy_files n)
      ∙ sym (read_page-overlay s whole on n)

pager_backup_run :
    (s : Pager)
    → s.is_memory ≡ false
    → (pager_lock 4 s).0 ≡ true
    → (pager_backup s).0
      ≡ some (copy_files (flush_all (pager_lock 4 s).1.num_pages 0 (pager_lock 4 s).1))
unfolding pager_backup
pager_backup_run s e got = simp (e, got)

backup_of_locked :
    (s : Pager) (level : Lock)
    → s.is_dirty ≡ none
    → s.use_wal ≡ true
    → flush_all s.num_pages 0 (record s { lock_state = level }) ≡ record s { lock_state = level }
backup_of_locked s level = flush_all-none s.num_pages 0 (record s { lock_state = level })

-- A backup of a file database in the log's mode, its main file whole pages of its recorded length
-- and its log begun, made outside a transaction once the exclusive lock is there, succeeds, and
-- so does restoring it without a limit: every page of the restored file is what a cache miss read
-- of it before the backup.
pub restore-backup :
    (s : Pager)
    → IsWhole s
    → (s.use_wal ≡ true) × (s.wal_open ≡ true)
    → (s.wal_header ≡ true) × (s.is_memory ≡ false) × (s.is_dirty ≡ none)
    → (pager_lock 4 s).0 ≡ true
    → (b : Backup) × (r : Restored) × ((pager_backup s).0 ≡ some b)
      × (pager_restore b none none ≡ some r)
      × ((n : ℕ) → r.dest.page n ≡ read_page s n)
restore-backup s whole on (begun, file, clean) got =
    let level = (pager_lock 4 s).1.lock_state in
    let t : Pager = record s { lock_state = level } in
    let b = copy_files t in
    let (r, made, pages) = pager_restore-pages b none none (inl (refl, refl)) in
    (
      b,
      r,
      pager_backup_run s file got
          ∙ ap (λ u. some (copy_files (flush_all u.num_pages 0 u))) (pager_lock_keeps 4 s)
          ∙ ap (λ u. some (copy_files u)) (backup_of_locked s level clean on.0),
      made,
      λ n.
          pages n
          ∙ read_page-copied t (lock-IsWhole s level whole) on begun n
          ∙ read_page_locked s level n,
    )
