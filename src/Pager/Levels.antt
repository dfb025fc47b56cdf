-- ===== src/Pager/Levels.antt =====
-- `pager_lock` and `pager_unlock` of src/pager.c: the climb through the lock levels.
use custom_db.Prelude.{◌≤◌, ◌≡◌, true, false, arith}
use custom_db.Pager.State.{Pager, Lock, raise, climb, pager_lock}

-- The level is all that `pager_lock` changes.
pub pager_lock_keeps :
    (want : Lock) (s : Pager)
    → (pager_lock want s).1 ≡ record s { lock_state = (pager_lock want s).1.lock_state }
unfolding pager_lock
pager_lock_keeps want s = ground arith

-- `pager_lock` never lowers the level, and if it succeeds on a file then the level is at least what
-- was asked for, up to EXCLUSIVE.
pub pager_lock_level :
    (want : Lock) (s : Pager)
    → (s.lock_state ≤ (pager_lock want s).1.lock_state)
      × ((pager_lock want s).0 ≡ true
          → s.is_memory ≡ false
          → want ≤ 4
          → want ≤ (pager_lock want s).1.lock_state)
unfolding pager_lock climb raise
pager_lock_level want s = ground arith
