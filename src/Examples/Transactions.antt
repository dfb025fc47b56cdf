-- ===== src/Examples/Transactions.antt =====
-- A file of two pages in rollback mode, and a transaction on it.
use custom_db.Prelude.{
  ◌==◌, if◌then◌else◌, ◌≢◌, ◌≤◌, sym, ◌∙◌, ℕ, ◌/◌, ◌<◌, ◌≡◌, refl, arith, true, false, none, some,
  [], ◌∷◌,
}
use custom_db.Catalog.Row.Decode.{read_le}
use custom_db.Pager.State.{zero_page, page_size, Savepoint, Pager, climb, raise, pager_lock}
use custom_db.Pager.Cache.{
  shadow, store, read_page, get_page, grow, resize, fetch, locked_fetch, disk_lsn, last_lsn,
  see_wal, effective_lsn, forget_cache, pager_refresh_if_modified, is_shadowed, buffer_of,
}
use custom_db.Pager.Snapshots.{take_slot, current_snapshot, pager_register_snapshot}
use custom_db.Pager.Begin.{
  take_node, flush_cached, make_baseline, reserve, open_journal, pager_ensure_write_lock,
  start_transaction, pager_begin_transaction,
}
use custom_db.Pager.Journal.{check_and_recover_journal, pager_rollback}
use custom_db.Pager.Journal.Rollback.{last_image}
use custom_db.Pager.Shadow.{
  mark_dirty, grow_shadows, cached, fetch_base, make_shadow, pager_shadow_page_write, pre_image,
  is_journaled, write_entry, mark_journaled, append_image, pager_journal_page,
}
use custom_db.Pager.Shadow.Steps.{IsProtected}
use custom_db.Pager.Shadow.Start.{IsQuiet}
use custom_db.Pager.Shadow.Runs.{Run, done, next, journals, reads_page, writes, Run-IsProtected}
use custom_db.Pager.Shadow.Undo.{begun, opened, begin-IsProtected, pager_rollback-Run}
use custom_db.Pager.Shadow.Crash.{cut_off, commit_crash-disk}
use custom_db.Pager.Savepoints.{same_name, find_savepoint, pager_rollback_to_savepoint}
use custom_db.Pager.Savepoints.Hole.{rollback_to-hole}
use custom_db.Pager.Cache.{base}
use custom_db.Pager.Freelist.{get_unused_page_num, pager_free_page}
use custom_db.Pager.Freelist.Reuse.{get_unused_page_num-pager_free_page}
use custom_db.Pager.Cache.{any_shadow}
use custom_db.Pager.Commit.{any_dirty, has_writes, pager_commit}
use custom_db.Pager.Commit.Publish.{pager_commit-publishes}
use custom_db.Pager.State.{Page}
use custom_db.Examples.Pages.{pager, entries}

abbrev quiet : Pager
quiet = record pager {
  wal = [];
  wal_header = false;
  use_wal = false;
  wal_open = false;
  wal_lsn = 0;
  max_pages = 2;
  active_snapshots = none ∷ [];
  retired_pages = [];
}

quiet-IsQuiet : IsQuiet quiet
quiet-IsQuiet = record {
  on_file = refl;
  node = refl;
  unlocked = refl;
  free = λ l. refl;
  no_pages = λ n. refl;
  no_shadows = λ n. refl;
  clean = refl;
  none_journaled = refl;
  no_journal = refl;
  plain = refl;
  some_room = omega arith;
}

begin-IsProtected_example :
    ((pager_begin_transaction quiet).0 ≡ true)
    × ((pager_ensure_write_lock (begun quiet)).0 ≡ true)
    × IsProtected (read_page (opened quiet)) (opened quiet)
begin-IsProtected_example = begin-IsProtected quiet quiet-IsQuiet refl

-- Page 1 is journaled, and page 0 is read.
abbrev read_one : Pager
read_one = (get_page 0 (pager_journal_page 1 (opened quiet))).1

copied : is_shadowed read_one 1 ≡ true
unfolding climb raise pager_lock grow resize fetch locked_fetch get_page disk_lsn last_lsn see_wal
    effective_lsn forget_cache pager_refresh_if_modified is_shadowed buffer_of take_slot
    current_snapshot pager_register_snapshot take_node flush_cached make_baseline reserve
    open_journal pager_ensure_write_lock start_transaction pager_begin_transaction mark_dirty
    grow_shadows cached fetch_base make_shadow pager_shadow_page_write pre_image is_journaled
    write_entry mark_journaled append_image pager_journal_page read_le
copied = refl

-- Then page 1 is filled with nines.
abbrev written : Pager
written = store read_one (shadow 1) (λ i. 9)

writing : Run (opened quiet) written
writing =
    next (journals 1 (omega arith)) (next (reads_page 0) (next (writes 1 (λ i. 9) copied) done))

safe : IsProtected (read_page (opened quiet)) written
safe =
    Run-IsProtected (read_page (opened quiet)) (opened quiet) written writing
      begin-IsProtected_example.2

Run-IsProtected_example : IsProtected (read_page (opened quiet)) written
Run-IsProtected_example =
    Run-IsProtected (read_page (opened quiet)) (opened quiet) written writing
      (begin-IsProtected quiet quiet-IsQuiet refl).2

settled :
    (written.use_wal ≡ false)
    × (written.num_pages_at_tx_start ≡ 2)
    × (written.file_length ≡ 8192)
    × (written.grants 2 ≡ true)
    × (written.grants 3 ≡ true)
    × ((pager_lock 4 written).0 ≡ true)
unfolding store climb raise pager_lock grow resize fetch locked_fetch get_page disk_lsn last_lsn
    see_wal effective_lsn forget_cache pager_refresh_if_modified is_shadowed buffer_of take_slot
    current_snapshot pager_register_snapshot take_node flush_cached make_baseline reserve
    open_journal pager_ensure_write_lock start_transaction pager_begin_transaction mark_dirty
    grow_shadows cached fetch_base make_shadow pager_shadow_page_write pre_image is_journaled
    write_entry mark_journaled append_image pager_journal_page read_le
settled = (refl, refl, refl, refl, refl, refl)

pager_rollback-Run_example :
    (r : Pager) × (pager_rollback written ≡ some r)
    × (r.in_transaction ≡ false)
    × (r.lock_state ≡ 0)
    × ((n : ℕ)
        → n < written.num_pages_at_tx_start
        → n < written.file_length / page_size
        → r.disk n ≡ read_page (opened quiet) n)
pager_rollback-Run_example =
    pager_rollback-Run quiet written quiet-IsQuiet refl writing settled.0
      (rw settled.1 (omega arith)) settled.5

commit_crash-disk_example :
    (check_and_recover_journal (cut_off 2 written)).disk 1 ≡ read_page (opened quiet) 1
commit_crash-disk_example =
    commit_crash-disk (read_page (opened quiet)) written
      (Run-IsProtected (read_page (opened quiet)) (opened quiet) written writing
        (begin-IsProtected quiet quiet-IsQuiet refl).2)
      settled.0 (settled.3, settled.4) 2 1 (omega arith) (rw settled.2 (omega arith))

-- A savepoint at the start of the journal, and one entry behind it.
abbrev mark : Savepoint
mark = record { name = b'a' ∷ []; journal_offset = 0; num_pages_at_savepoint = 2 }

abbrev marked : Pager
marked = record quiet {
  journal = entries;
  journal_pos = 1;
  journal_exists = true;
  journal_open = true;
  in_transaction = true;
  savepoints = mark ∷ [];
}

found : find_savepoint (b'a' ∷ []) 0 (mark ∷ []) ≡ some (0, mark)
unfolding find_savepoint same_name
found = refl

rollback_to-hole_example :
    last_image 0 (λ i. 3) (append_image 1 (pager_rollback_to_savepoint (b'a' ∷ []) marked)).journal
    ≡ zero_page
rollback_to-hole_example =
    rollback_to-hole (b'a' ∷ []) marked 0 mark 1 (λ i. 3) refl found refl (omega arith) refl
      (omega arith)

page_one : (get_page 1 quiet).0 ≡ some (base 1)
unfolding climb raise pager_lock grow resize fetch locked_fetch get_page disk_lsn last_lsn see_wal
    effective_lsn forget_cache pager_refresh_if_modified is_shadowed buffer_of read_le
page_one = refl

to_be_had : (get_page 1 quiet).0 ≢ none
to_be_had e = some_none (sym page_one ∙ e)
  where
    some_none : some (base 1) ≡ none → ⊥
    some_none h = absurd (ground (arith, h))

get_unused_page_num-pager_free_page_example :
    ((get_unused_page_num (pager_free_page 1 quiet)).0 ≡ 1) × (1 ≤ (get_unused_page_num quiet).0)
get_unused_page_num-pager_free_page_example =
    get_unused_page_num-pager_free_page quiet 1 (omega arith) (omega arith) (omega arith) to_be_had

-- In WAL mode, with a shadow of page 1.
abbrev shadowed : Pager
shadowed = record quiet {
  use_wal = true;
  in_transaction = true;
  shadow = λ n. if n == 1 then some (λ i. 9) else none;
  shadow_capacity = 2;
}

some_writes : has_writes shadowed ≡ true
unfolding has_writes any_shadow any_dirty
some_writes = refl

pager_commit-publishes_example :
    (r : Pager) × (pager_commit shadowed ≡ some r)
    × (r.in_transaction ≡ false)
    × (r.lock_state ≡ 0)
    × (r.journal_exists ≡ false)
    × ((i : ℕ) (p : Page)
        → 1 ≤ i
        → i < 2
        → shadowed.shadow i ≡ some p
        → (r.pages i ≡ some p) × (r.shadow i ≡ none))
pager_commit-publishes_example = pager_commit-publishes shadowed shadowed refl some_writes refl
