-- ===== src/Pager/Begin.antt =====
-- The beginning of transactions in src/pager.c: `pager_begin_transaction` and
-- `pager_ensure_write_lock`.
use custom_db.Prelude.{
  ℕ, zero, suc, ◌+◌, ◌*◌, Bool, true, false, not, ◌&&◌, none, some, [], ltb, if◌then◌else◌,
}
use custom_db.Pager.State.{page_size, u32, Pager, pager_lock}
use custom_db.Pager.Cache.{pager_refresh_if_modified, pager_flush}
use custom_db.Pager.Snapshots.{pager_register_snapshot}

-- The `lock_node` of the file, with the wait of half a second that the code makes for it.
unfoldable pub take_node : Pager → Bool × Pager
take_node s =
    if s.node_free
    then (true, record s { active_writer = true })
    else (false, record s { lock_error = true })

-- Every cached page is flushed, from page `i` on with `left` of them to go.
unfoldable pub flush_cached : ℕ → ℕ → Pager → Pager
flush_cached zero i s = s
flush_cached (suc left) i s =
    flush_cached left (i + 1) (elim (s.pages i) [ none ↦ s | some p ↦ pager_flush i s ])

-- In rollback mode the file is made a clean baseline.
unfoldable pub make_baseline : Pager → Pager
make_baseline s =
    let t = record s { lock_error = false } in
    let flushed = if t.use_wal then t else flush_cached t.max_pages 0 t in
    record flushed {
      num_pages_at_tx_start = flushed.num_pages;
      file_length = u32 (flushed.disk_pages * page_size);
    }

-- The RESERVED lock, unless this process has it.
unfoldable pub reserve : Pager → Bool × Pager
reserve s =
    if not s.is_memory && ltb s.lock_state 2
    then (let (got, t) = pager_lock 2 s in
        if got
        then (true, make_baseline t)
        else (false, record t { lock_error = true; active_writer = false }))
    else (true, s)

-- The journal is opened with O_TRUNC, unless it is open.
unfoldable pub open_journal : Pager → Pager
open_journal s =
    let fresh = not s.journal_open && not s.is_memory in
    record s {
      journal = if fresh then [] else s.journal;
      journal_pos = if fresh then 0 else s.journal_pos;
      journal_exists = if fresh then true else s.journal_exists;
      journal_open = if fresh then true else s.journal_open;
      page_is_journaled = elim s.page_is_journaled [ none ↦ some (λ i. false) | some f ↦ some f ];
      is_writer = true;
    }

unfoldable pub pager_ensure_write_lock : Pager → Bool × Pager
pager_ensure_write_lock s =
    let (free, t) = take_node s in
    if free
    then (let (ok, u) = reserve t in if ok then (true, open_journal u) else (false, u))
    else (false, t)

-- `in_transaction` is set before the snapshot is registered.
unfoldable pub start_transaction : Pager → Pager
start_transaction s =
    let t = pager_refresh_if_modified s in
    let u = record t {
      in_transaction = true;
      is_writer = false;
      num_pages_at_tx_start = t.num_pages;
      file_length = if t.is_memory then t.file_length else u32 (t.disk_pages * page_size);
    } in
    let (snap, v) = pager_register_snapshot u in record v { tx_snapshot_xid = snap }

-- The lock on the RESERVED byte by another process is that `grants` refuses it.
unfoldable pub pager_begin_transaction : Pager → Bool × Pager
pager_begin_transaction s =
    if s.in_transaction
    then (true, s)
    else if not s.node_free
    then (false, record s { lock_error = true })
    else if not s.is_memory && not (s.grants 2)
    then (false, record s { lock_error = true })
    else (true, start_transaction s)
