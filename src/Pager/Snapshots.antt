-- ===== src/Pager/Snapshots.antt =====
-- The snapshots of src/pager.c: the table of registered readers, and the list of the page buffers
-- that a commit replaced, which are freed once no reader can still see them.
pub mod Laws
use custom_db.Prelude.{
  ℕ, Bool, true, false, not, ◌&&◌, ◌||◌, Option, none, some, List, [], ◌∷◌, ltb, ◌==◌,
  if◌then◌else◌,
}
use custom_db.Pager.State.{Retired, Pager}

-- A free entry of `active_snapshots` is `none`. The first free entry is taken, if there is one.
unfoldable pub take_slot : ℕ → List (Option ℕ) → List (Option ℕ)
take_slot snap [] = []
take_slot snap (none ∷ slots) = some snap ∷ slots
take_slot snap (some x ∷ slots) = some x ∷ take_slot snap slots

-- The first entry of the snapshot is freed.
unfoldable pub free_slot : ℕ → List (Option ℕ) → List (Option ℕ)
free_slot snap [] = []
free_slot snap (none ∷ slots) = none ∷ free_slot snap slots
free_slot snap (some x ∷ slots) =
    let rest = free_slot snap slots in if x == snap then none ∷ slots else some x ∷ rest

unfoldable pub current_snapshot : Pager → ℕ
current_snapshot s =
    if s.in_transaction && ltb 0 s.tx_snapshot_xid then s.tx_snapshot_xid else s.wal_lsn

unfoldable pub pager_register_snapshot : Pager → ℕ × Pager
unfolding take_slot current_snapshot
pager_register_snapshot s = (
  current_snapshot s,
  record s { active_snapshots = take_slot (current_snapshot s) s.active_snapshots },
)

-- The loop over the entries, with `min_xid` and `found`.
unfoldable pub min_loop : List (Option ℕ) → ℕ → Bool → ℕ
min_loop [] min_xid found = min_xid
min_loop (none ∷ slots) min_xid found = min_loop slots min_xid found
min_loop (some x ∷ slots) min_xid found =
    if not found || ltb x min_xid then min_loop slots x true else min_loop slots min_xid found

unfoldable pub pager_get_min_active_snapshot_xid : Pager → ℕ
unfolding min_loop
pager_get_min_active_snapshot_xid s = min_loop s.active_snapshots s.wal_lsn false

unfoldable pub reclaim_loop : ℕ → List Retired → List Retired
reclaim_loop min_active [] = []
reclaim_loop min_active (r ∷ rs) =
    let rest = reclaim_loop min_active rs in if ltb r.retired_lsn min_active then rest else r ∷ rest

unfoldable pub pager_reclaim_retired_pages : Pager → Pager
unfolding reclaim_loop
pager_reclaim_retired_pages s = record s {
  retired_pages = reclaim_loop (pager_get_min_active_snapshot_xid s) s.retired_pages;
}

unfoldable pub pager_unregister_snapshot : ℕ → Pager → Pager
unfolding free_slot
pager_unregister_snapshot snap s =
    pager_reclaim_retired_pages (record s { active_snapshots = free_slot snap s.active_snapshots })
