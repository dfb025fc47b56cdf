-- ===== src/Examples/Readers.antt =====
-- Snapshots, and what they see.
use custom_db.Prelude.{
  ℕ, ◌<◌, ◌≤◌, ◌≡◌, ◌↔◌, ◌⊎◌, refl, arith, true, false, some, if◌then◌else◌, ◌==◌, ◌&&◌,
}
use custom_db.Catalog.Row.Columns.{read_all}
use custom_db.Catalog.Row.Extras.{found}
use custom_db.Pager.Cache.{any_shadow}
use custom_db.Pager.State.{zero_page, Retired}
use custom_db.Pager.Snapshots.{
  pager_reclaim_retired_pages, pager_register_snapshot, pager_get_min_active_snapshot_xid,
  pager_unregister_snapshot,
}
use custom_db.Pager.Snapshots.Laws.{
  readers, free_slots, IsLeastReader, pager_unregister_snapshot-keeps,
  pager_unregister_snapshot-frees, unregister-register,
}
use custom_db.Executor.Visibility.{
  is_visible, is_dead, row_is_visible_and_active, get_current_snapshot_xid,
}
use custom_db.Executor.Visibility.Laws.{
  IsAlive, InSnapshot, row_is_visible_iff, is_dead-is_visible, get_current_snapshot-register,
}
use custom_db.Examples.Rows.{
  floats, memory, columns, values, row_bytes, row_written, values-Stored, memory-Holds,
}
use custom_db.Examples.Pages.{pager}
use mathlib.Core.List.{Memᴰ}

abbrev retired : Retired
retired = record { buffer = some zero_page; retired_lsn = 1 }

row_is_visible_iff_example :
    (row_is_visible_and_active floats columns (memory row_bytes) 7 60
      ≡ some (read_all floats columns values))
    ↔ (IsAlive 100 60 × InSnapshot 5 9 7)
row_is_visible_iff_example =
    row_is_visible_iff floats columns values 100 5 9 (memory row_bytes) 7 60 values-Stored
      (omega arith) (omega arith, omega arith, omega arith, omega arith)
      (rw row_written (omega arith)) (rw row_written (memory-Holds row_bytes))

one_reader : 0 < readers 1 pager.active_snapshots
unfolding readers
one_reader = omega arith

dead : is_dead (pager_get_min_active_snapshot_xid pager) 60 (found 0 1 1 30) ≡ true
unfolding is_dead pager_get_min_active_snapshot_xid
dead = refl

is_dead-is_visible_example : is_visible 1 61 (found 0 1 1 30) ≡ false
is_dead-is_visible_example =
    is_dead-is_visible pager (found 0 1 1 30) 1 60 61 one_reader dead
      (omega arith, omega arith, omega arith, omega arith)

no_shadow : (pager.is_writer && any_shadow pager.shadow_capacity pager.shadow) ≡ false
no_shadow = refl

get_current_snapshot-register_example :
    get_current_snapshot_xid pager ≡ (pager_register_snapshot pager).0
get_current_snapshot-register_example = get_current_snapshot-register pager no_shadow

still_one : (if 2 == 1 then 1 else 0) < readers 1 pager.active_snapshots
unfolding readers
still_one = omega arith

pager_unregister_snapshot-keeps_example :
    Memᴰ retired (pager_unregister_snapshot 2 pager).retired_pages
pager_unregister_snapshot-keeps_example =
    pager_unregister_snapshot-keeps pager 2 1 retired (Memᴰ.head refl) (omega arith) still_one

kept : Memᴰ retired (pager_unregister_snapshot 2 pager).retired_pages
unfolding pager_unregister_snapshot pager_reclaim_retired_pages pager_get_min_active_snapshot_xid
kept = Memᴰ.head refl

pager_unregister_snapshot-frees_example :
    Memᴰ retired pager.retired_pages
    × ((((x : ℕ) → readers x (pager_unregister_snapshot 2 pager).active_snapshots ≡ 0)
          × (pager.wal_lsn ≤ retired.retired_lsn))
        ⊎ ((x : ℕ) × IsLeastReader x (pager_unregister_snapshot 2 pager).active_snapshots
            × (x ≤ retired.retired_lsn)))
pager_unregister_snapshot-frees_example = pager_unregister_snapshot-frees pager 2 retired kept

a_free_slot : 0 < free_slots pager.active_snapshots
unfolding free_slots
a_free_slot = omega arith

unregister-register_example :
    readers 2
      (pager_unregister_snapshot
        (pager_register_snapshot pager).0
        (pager_register_snapshot pager).1).active_snapshots
    ≡ readers 2 pager.active_snapshots
unregister-register_example = unregister-register pager 2 a_free_slot
