-- ===== src/Pager/Wal/Replay.antt =====
-- A checkpoint moves the log into the main file, and no page reads differently after it.
use custom_db.Prelude.{
  ℕ, ◌+◌, ◌*◌, ◌^◌, ◌≤◌, ◌<◌, ◌≡◌, refl, sym, ap, ◌∙◌, true, ◌&&◌, Option, none, some, List, [],
  ◌∷◌, ◌++◌, All, ◌==◌, if◌then◌else◌, arith, ==_iff,
}
use custom_db.Pager.State.{Page, zero_page, page_size, Frame, Lock, Pager, pager_lock}
use custom_db.Pager.Levels.{pager_lock_keeps}
use custom_db.Pager.Cache.{frame_ok, wal_scan, wal_lookup, read_page}
use custom_db.Pager.Wal.{
  replay_frame, replay_log, move_frames, move_log, drop_cache, pager_checkpoint,
}
use mathlib.Core.List.{reverse, reverse-append}

-- What the frames make of a page that reads `d` without them: the last good one decides.
unfoldable pub overlay : ℕ → Page → List Frame → Page
overlay n d [] = d
overlay n d (f ∷ fs) = overlay n (if f.pnum == n && frame_ok f then f.page else d) fs

abbrev pub or_page : Option Page → Page → Page
or_page none d = d
or_page (some p) d = p

wal_scan-append :
    (n : ℕ) (d : Page) (xs ys : List Frame)
    → or_page (wal_scan n (xs ++ ys)) d ≡ or_page (wal_scan n xs) (or_page (wal_scan n ys) d)
unfolding wal_scan
wal_scan-append n d [] ys = refl
wal_scan-append n d (f ∷ xs) ys = ground (arith, wal_scan-append n d xs ys)

wal_scan_one :
    (n : ℕ) (d : Page) (f : Frame)
    → or_page (wal_scan n (f ∷ [])) d ≡ (if f.pnum == n && frame_ok f then f.page else d)
unfolding wal_scan
wal_scan_one n d f = ground arith

-- The backward scan for a page finds what replaying all frames forward leaves there.
pub wal_scan-overlay :
    (n : ℕ) (fs : List Frame) (d : Page) → or_page (wal_scan n (reverse fs)) d ≡ overlay n d fs
unfolding overlay
wal_scan-overlay n [] d = unfold wal_scan in refl
wal_scan-overlay n (f ∷ fs) d =
    rw (reverse-append (f ∷ []) fs, wal_scan-append n d (reverse fs) (f ∷ []), wal_scan_one n d f)
      (wal_scan-overlay n fs (if f.pnum == n && frame_ok f then f.page else d))

-- The main file is whole pages of its recorded length, and reads as zeros behind its end.
pub record IsWhole (s : Pager) : Type 0 where
  pub measured : s.file_length ≡ s.disk_pages * page_size
  pub small : s.disk_pages * page_size < 2 ^ 32
  pub zero_behind : (n : ℕ) → s.disk_pages ≤ n → s.disk n ≡ zero_page

-- The page numbers of the log fit a file whose length is a uint32_t.
abbrev pub InRange : List Frame → Type 0
InRange = All (λ f. (f.pnum + 1) * page_size < 2 ^ 32)

module _ (f : Frame) (s : Pager) (whole : IsWhole s)
    (range : (f.pnum + 1) * page_size < 2 ^ 32) where
  open whole use {measured, small, zero_behind}

  replay_frame-measured :
      ((replay_frame s f).file_length ≡ (replay_frame s f).disk_pages * page_size)
      × ((replay_frame s f).disk_pages * page_size < 2 ^ 32)
  unfolding replay_frame
  replay_frame-measured = ground arith

  replay_frame-zero_behind :
      (n : ℕ) → (replay_frame s f).disk_pages ≤ n → (replay_frame s f).disk n ≡ zero_page
  unfolding replay_frame
  replay_frame-zero_behind n h = ground (arith, zero_behind n)

  replay_frame-IsWhole : IsWhole (replay_frame s f)
  replay_frame-IsWhole = record {
    measured = replay_frame-measured.0;
    small = replay_frame-measured.1;
    zero_behind = replay_frame-zero_behind;
  }

disk-replay_frame :
    (f : Frame) (s : Pager) (n : ℕ)
    → (replay_frame s f).disk n ≡ (if f.pnum == n && frame_ok f then f.page else s.disk n)
unfolding replay_frame
disk-replay_frame f s n = ground (arith, ==_iff f.pnum n, ==_iff n f.pnum)

replay_log-IsWhole :
    (fs : List Frame) (s : Pager) → IsWhole s → InRange fs → IsWhole (replay_log s fs)
unfolding replay_log
replay_log-IsWhole [] s w r = w
replay_log-IsWhole (f ∷ fs) s w (r, rs) =
    replay_log-IsWhole fs (replay_frame s f) (replay_frame-IsWhole f s w r) rs

pub disk-replay_log :
    (fs : List Frame) (s : Pager) (n : ℕ) → (replay_log s fs).disk n ≡ overlay n (s.disk n) fs
unfolding replay_log overlay
disk-replay_log [] s n = refl
disk-replay_log (f ∷ fs) s n =
    disk-replay_log fs (replay_frame s f) n ∙ ap (λ d. overlay n d fs) (disk-replay_frame f s n)

-- Of a whole file, a page reads as the log has it, and else as the file does.
or_page-read_page :
    (s : Pager) (n : ℕ) → IsWhole s → read_page s n ≡ or_page (wal_lookup s n) (s.disk n)
unfolding read_page
or_page-read_page s n w = ground (arith, w.measured, w.zero_behind n)

wal_lookup_on :
    (s : Pager) (n : ℕ)
    → (s.use_wal ≡ true) × (s.wal_open ≡ true)
    → wal_lookup s n ≡ wal_scan n (reverse s.wal)
unfolding wal_lookup
wal_lookup_on s n (e, e') = simp (e, e')

wal_lookup_empty : (s : Pager) (n : ℕ) → s.wal ≡ [] → wal_lookup s n ≡ none
unfolding wal_lookup
wal_lookup_empty s n e =
    let scan : wal_scan n (reverse s.wal) ≡ none =
      (ap (λ l. wal_scan n (reverse l)) e ∙ unfold wal_scan in refl) in
    ground (arith, scan)

module _ (s : Pager) (whole : IsWhole s) (on : (s.use_wal ≡ true) × (s.wal_open ≡ true))
    (n : ℕ) where
  pub read_page-overlay : read_page s n ≡ overlay n (s.disk n) s.wal
  read_page-overlay =
      or_page-read_page s n whole
      ∙ ap (λ o. or_page o (s.disk n)) (wal_lookup_on s n on)
      ∙ wal_scan-overlay n s.wal (s.disk n)

  read_page-move_frames :
      (fs : List Frame) → fs ≡ s.wal → InRange fs → read_page (move_frames fs s) n ≡ read_page s n
  unfolding move_frames
  read_page-move_frames [] e r = refl
  read_page-move_frames (f ∷ fs) e r =
      let moved = replay_log-IsWhole (f ∷ fs) s whole r in
      or_page-read_page (move_frames (f ∷ fs) s) n
        (record { measured = moved.measured; small = moved.small; zero_behind = moved.zero_behind })
      ∙ ap (λ o. or_page o ((move_frames (f ∷ fs) s).disk n))
          (wal_lookup_empty (move_frames (f ∷ fs) s) n refl)
      ∙ disk-replay_log (f ∷ fs) s n
      ∙ ap (overlay n (s.disk n)) e
      ∙ sym read_page-overlay

wal-move_frames : (fs : List Frame) (s : Pager) → fs ≡ s.wal → (move_frames fs s).wal ≡ []
unfolding move_frames
wal-move_frames [] s e = sym e
wal-move_frames (f ∷ fs) s e = refl

-- What the exclusive lock and the reset of the cache leave alone.
module _ (s : Pager) (level : Lock) where
  pub read_page_locked : (n : ℕ) → read_page (record s { lock_state = level }) n ≡ read_page s n
  unfolding read_page wal_lookup
  read_page_locked n = refl

  pub lock-IsWhole : IsWhole s → IsWhole (record s { lock_state = level })
  lock-IsWhole w = record { measured = w.measured; small = w.small; zero_behind = w.zero_behind }

read_page-drop_cache : (s : Pager) (n : ℕ) → read_page (drop_cache s) n ≡ read_page s n
unfolding drop_cache read_page wal_lookup
read_page-drop_cache s n = refl

pages-drop_cache :
    (s : Pager) (n : ℕ)
    → n < (drop_cache s).num_pages
    → n < (drop_cache s).max_pages
    → (drop_cache s).pages n ≡ none
unfolding drop_cache
pages-drop_cache s n h k = ground arith

wal-drop_cache : (s : Pager) → (drop_cache s).wal ≡ s.wal
unfolding drop_cache
wal-drop_cache s = refl

pager_checkpoint_run :
    (s : Pager)
    → (s.use_wal ≡ true) × (s.wal_open ≡ true)
    → (pager_lock 4 s).0 ≡ true
    → pager_checkpoint s ≡ some (drop_cache (move_log (pager_lock 4 s).1))
unfolding pager_checkpoint
pager_checkpoint_run s (e, e') got = simp (e, e', got)

-- What a checkpoint does to a pager that has the lock.
module _ (s : Pager) (whole : IsWhole s) (range : InRange s.wal)
    (on : (s.use_wal ≡ true) × (s.wal_open ≡ true)) where
  read_page-checkpointed : (n : ℕ) → read_page (drop_cache (move_log s)) n ≡ read_page s n
  read_page-checkpointed n =
      read_page-drop_cache (move_log s) n
      ∙ (unfold move_log in read_page-move_frames s whole on n s.wal refl range)

  wal-checkpointed : (drop_cache (move_log s)).wal ≡ []
  wal-checkpointed = wal-drop_cache (move_log s) ∙ (unfold move_log in wal-move_frames s.wal s refl)

-- Once the exclusive lock is there, a checkpoint of an active log whose page numbers fit a file
-- that is whole pages of its recorded length, and zeros behind them, succeeds, empties the log
-- and the cached pages, and every page reads after it as before.
pub pager_checkpoint-reads :
    (s : Pager)
    → IsWhole s
    → InRange s.wal
    → (s.use_wal ≡ true) × (s.wal_open ≡ true)
    → (pager_lock 4 s).0 ≡ true
    → (r : Pager) × (pager_checkpoint s ≡ some r)
      × (r.wal ≡ [])
      × ((n : ℕ) → n < r.num_pages → n < r.max_pages → r.pages n ≡ none)
      × ((n : ℕ) → read_page r n ≡ read_page s n)
pager_checkpoint-reads s whole range on got =
    let level = (pager_lock 4 s).1.lock_state in
    let t : Pager = record s { lock_state = level } in
    let w = lock-IsWhole s level whole in
    (
      drop_cache (move_log t),
      pager_checkpoint_run s on got
          ∙ ap (λ u. some (drop_cache (move_log u))) (pager_lock_keeps 4 s),
      wal-checkpointed t w range on,
      pages-drop_cache (move_log t),
      λ n. read_page-checkpointed t w range on n ∙ read_page_locked s level n,
    )
