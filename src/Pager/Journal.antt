-- ===== src/Pager/Journal.antt =====
-- The rollback journal of src/pager.c: `check_and_recover_journal` and `pager_rollback`. An error of
-- reading a journal page does not occur, as the journal is taken to be whole entries.
pub mod Rollback
use custom_db.Prelude.{
  ℕ, ◌+◌, ◌*◌, ◌/◌, Bool, true, false, not, ◌&&◌, ◌||◌, Option, none, some, List, [], ◌∷◌, ltb, leb,
  ◌==◌, if◌then◌else◌,
}
use custom_db.Pager.State.{
  Page, zero_page, page_size, u32, Entry, Pager, update, pager_lock, pager_unlock,
}
use custom_db.Pager.Snapshots.{pager_unregister_snapshot}

-- One entry is written to the main file.
unfoldable pub recover_page : Pager → Entry → Pager
unfolding update
recover_page s e = record s {
  disk = update s.disk e.pnum e.page;
  disk_pages = if leb s.disk_pages e.pnum then e.pnum + 1 else s.disk_pages;
}

unfoldable pub recover_pages : List Entry → Pager → Pager
unfolding recover_page
recover_pages [] s = s
recover_pages (e ∷ es) s = recover_pages es (recover_page s e)

unfoldable pub has_entries : List Entry → Bool
has_entries [] = false
has_entries (e ∷ es) = true

-- The journal is left alone while another process may be in a transaction.
unfoldable pub check_and_recover_journal : Pager → Pager
unfolding recover_pages has_entries
check_and_recover_journal s =
    if s.journal_exists && (has_entries s.journal && (s.grants 2 && s.grants 3))
    then record (recover_pages s.journal s) { journal = []; journal_exists = false }
    else s

-- In a rollback the cached page is restored, too.
unfoldable pub restore_page : Pager → Entry → Pager
unfolding update
restore_page s e =
    recover_page
      (record s {
        pages = elim (s.pages e.pnum) [
          | none ↦ s.pages
          | some old ↦
              if ltb e.pnum s.max_pages then update s.pages e.pnum (some e.page) else s.pages
        ];
      })
      e

unfoldable pub restore_pages : List Entry → Pager → Pager
unfolding restore_page
restore_pages [] s = s
restore_pages (e ∷ es) s = restore_pages es (restore_page s e)

unfoldable pub discard_shadows : Pager → Pager
discard_shadows s = record s {
  shadow = λ i. if ltb i s.shadow_capacity then none else s.shadow i;
  journal_open = false;
}

unfoldable pub replay_journal : Pager → Pager
unfolding restore_pages
replay_journal s =
    if s.journal_exists
    then record (restore_pages s.journal s) { journal = []; journal_exists = false }
    else s

-- The pages that the transaction has added go from the cache and from the file.
unfoldable pub discard_new_pages : Pager → Pager
discard_new_pages s =
    let start = s.num_pages_at_tx_start in
    if ltb 0 start && ltb start s.num_pages
    then record s {
      pages =
          λ i. if leb start i && (ltb i s.num_pages && ltb i s.max_pages) then none else s.pages i;
      num_pages = start;
      file_length = u32 (start * page_size);
      disk =
          if s.is_memory
          then s.disk
          else (λ i. if ltb i (u32 (start * page_size) / page_size) then s.disk i else zero_page);
      disk_pages = if s.is_memory then s.disk_pages else u32 (start * page_size) / page_size;
    }
    else s

unfoldable pub end_snapshot : Pager → Pager
end_snapshot s =
    if ltb 0 s.tx_snapshot_xid
    then record (pager_unregister_snapshot s.tx_snapshot_xid s) { tx_snapshot_xid = 0 }
    else s

unfoldable pub end_transaction : Pager → Pager
end_transaction s = pager_unlock (record s {
  active_writer = false;
  is_explicit_tx = false;
  is_writer = false;
  in_transaction = false;
  savepoints = [];
})

-- `page_is_journaled` and `is_dirty` are freed behind the replay.
unfoldable pub free_marks : Pager → Pager
free_marks s = record s { page_is_journaled = none; is_dirty = none }

unfoldable pub pager_rollback : Pager → Option Pager
pager_rollback s =
    if not s.in_transaction
    then some s
    else (let (got, s') = pager_lock 4 s in
        if got
        then some (
            end_transaction
              (end_snapshot (discard_new_pages (free_marks (replay_journal (discard_shadows s'))))))
        else none)
