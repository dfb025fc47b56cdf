-- ===== src/Pager/Shadow/Undo.antt =====
-- A rollback of a transaction whose journal is whole, in rollback mode.
use custom_db.Prelude.{ℕ, ◌*◌, ◌/◌, ◌^◌, ◌<◌, ◌≡◌, sym, ap, ◌∙◌, Bool, true, false, some, inl}
use custom_db.Pager.State.{page_size, Pager, pager_lock}
use custom_db.Pager.Cache.{read_page}
use custom_db.Pager.Begin.{start_transaction, pager_ensure_write_lock, pager_begin_transaction}
use custom_db.Pager.Journal.{pager_rollback}
use custom_db.Pager.Journal.Rollback.{pager_rollback-disk}
use custom_db.Pager.Shadow.Steps.{IsProtected}
use custom_db.Pager.Shadow.Start.{
  IsQuiet, begin_run, start_transaction-IsQuiet, started_lem, ensure_quiet, writer-IsProtected,
}
use custom_db.Pager.Shadow.Runs.{Run, Run-IsProtected}
use custom_db.Pager.Shadow.Flushing.{last_image-base}
use custom_db.Pager.Shadow.Crash.{disk_lem}
use mathlib.Core.Path.{subst}

abbrev pub begun : Pager → Pager
begun s = (pager_begin_transaction s).1

abbrev pub opened : Pager → Pager
opened s = (pager_ensure_write_lock (begun s)).1

-- A connection that has no page cached and no mark left, and that no other connection is in the way
-- of, begins a transaction and takes the write lock, and then the journal is whole: what it keeps of
-- each page is what the page read when the write lock was there.
pub begin-IsProtected :
    (s : Pager)
    → IsQuiet s
    → s.in_transaction ≡ false
    → ((pager_begin_transaction s).0 ≡ true)
      × ((pager_ensure_write_lock (begun s)).0 ≡ true)
      × IsProtected (read_page (opened s)) (opened s)
begin-IsProtected s q e =
    let run = begin_run s q e in
    let t = start_transaction s in
    let qt = start_transaction-IsQuiet s q in
    let safe = writer-IsProtected t qt (started_lem s) in
    let open_ = ensure_quiet t qt in
    (
      ap (λ r. r.0) run,
      subst (λ (r : Bool × Pager). (pager_ensure_write_lock r.1).0 ≡ true) (sym run)
          (ap (λ r. r.0) open_),
      subst
          (λ (r : Bool × Pager).
            IsProtected (read_page (pager_ensure_write_lock r.1).1) (pager_ensure_write_lock r.1).1)
          (sym run)
          (subst (λ (r : Bool × Pager). IsProtected (read_page r.1) r.1) (sym open_) safe),
    )

-- A connection that has no page cached and no mark left, that no other connection is in the way of,
-- and that is in no transaction, begins one and takes the write lock. Then it does only this, in any
-- order and as often as it likes: it has pages journaled whose numbers are below 2 ^ 32 - 1024, it
-- reads pages, and it writes to its own copies of pages; it saves no catalog, takes no page from the
-- free list and sets no savepoint. If the log is not in use, the file's length at the start fits a
-- uint32_t and the exclusive lock is to be had, a rollback then ends the transaction and gives up the
-- lock, and every page that the file had at the start, and has now, is on disk as it read when the
-- write lock was there.
pub pager_rollback-Run :
    (s t : Pager)
    → IsQuiet s
    → s.in_transaction ≡ false
    → Run (opened s) t
    → t.use_wal ≡ false
    → t.num_pages_at_tx_start * page_size < 2 ^ 32
    → (pager_lock 4 t).0 ≡ true
    → (r : Pager) × (pager_rollback t ≡ some r)
      × (r.in_transaction ≡ false)
      × (r.lock_state ≡ 0)
      × ((n : ℕ)
          → n < t.num_pages_at_tx_start
          → n < t.file_length / page_size
          → r.disk n ≡ read_page (opened s) n)
pager_rollback-Run s t q e run no_log small got =
    let before = read_page (opened s) in
    let (j, covered) = Run-IsProtected before (opened s) t run (begin-IsProtected s q e).2 in
    let (r, back, ended, free, images) =
      pager_rollback-disk t (j.started, j.journal_on.1) small got in
    (
      r,
      back,
      ended,
      free,
      λ n old inside.
          images n old
          ∙ last_image-base before n t.journal (t.disk n) j.images
              (inl (disk_lem before t n j no_log inside)),
    )
