-- ===== src/Pager/Wal.antt =====
-- The write-ahead log of src/pager.c: `pager_checkpoint` and `pager_set_wal_mode`.
pub mod Replay
use custom_db.Prelude.{
  ℕ, ◌+◌, ◌*◌, Bool, true, false, not, ◌&&◌, ◌||◌, Option, none, some, List, [], ◌∷◌, ltb, leb,
  ◌==◌, if◌then◌else◌,
}
use custom_db.Pager.State.{Page, page_size, u32, Frame, Pager, update, pager_lock}
use custom_db.Pager.Cache.{frame_ok}
use mathlib.Core.List.{foldl}

-- The body of the loop over the frames: a frame whose checksum is right is copied to the main file,
-- and over the cached page.
unfoldable pub copy_page : ℕ → Page → Pager → Pager
unfolding update
copy_page n p s = record s {
  disk = update s.disk n p;
  disk_pages = if leb s.disk_pages n then n + 1 else s.disk_pages;
  file_length =
      if ltb s.file_length (u32 (u32 (n + 1) * page_size))
      then u32 (u32 (n + 1) * page_size)
      else s.file_length;
  num_pages = if leb s.num_pages n then u32 (n + 1) else s.num_pages;
  pages = elim (s.pages n) [
    | none ↦ s.pages
    | some old ↦ if ltb n s.max_pages then update s.pages n (some p) else s.pages
  ];
}

unfoldable pub replay_frame : Pager → Frame → Pager
unfolding copy_page frame_ok
replay_frame s f = if frame_ok f then copy_page f.pnum f.page s else s

unfoldable pub replay_log : Pager → List Frame → Pager
unfolding replay_frame
replay_log = foldl replay_frame

-- `ftruncate(wal_fd, 0)` behind the loop, if there was a frame
unfoldable pub move_frames : List Frame → Pager → Pager
unfolding replay_log
move_frames [] s = s
move_frames (f ∷ fs) s = record (replay_log s (f ∷ fs)) { wal = []; wal_header = false }

unfoldable pub move_log : Pager → Pager
unfolding move_frames
move_log s = move_frames s.wal s

unfoldable pub drop_cache : Pager → Pager
drop_cache s = record s {
  pages = λ i. if ltb i s.num_pages && ltb i s.max_pages then none else s.pages i;
}

-- `none` is the `exit(1)` taken when the exclusive lock is not to be had.
unfoldable pub pager_checkpoint : Pager → Option Pager
pager_checkpoint s =
    if not s.use_wal || not s.wal_open
    then some s
    else (let (got, s') = pager_lock 4 s in if got then some (drop_cache (move_log s')) else none)

unfoldable pub pager_set_wal_mode : Bool → Pager → Option Pager
pager_set_wal_mode true s =
    if s.use_wal
    then some s
    else some (record s { use_wal = true; wal_open = true; wal_header = true })
pager_set_wal_mode false s =
    let close =
      λ (t : Pager). record t { use_wal = false; wal_open = false; wal = []; wal_header = false } in
    if s.use_wal
    then elim (pager_checkpoint s) [ none ↦ none | some t ↦ some (close t) ]
    else some (close s)
