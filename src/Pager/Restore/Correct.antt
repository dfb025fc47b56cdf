-- ===== src/Pager/Restore/Correct.antt =====
-- What `pager_restore` leaves in the restored file, page by page.
use custom_db.Prelude.{
  ℕ, zero, suc, ◌+◌, ◌%◌, ◌≤◌, ◌<◌, ◌≡◌, refl, ap, ◌∙◌, sym, Bool, true, false, ◌&&◌, Option, none,
  some, List, [], ◌∷◌, ltb, leb, ◌==◌, if◌then◌else◌, arith, Bool-cases, inl, inr, ◌⊎◌, ◌≢◌,
}
use custom_db.Pager.State.{Page, Frame, update}
use custom_db.Pager.Cache.{frame_ok}
use custom_db.Pager.Restore.{
  PageFile, Backup, Restored, exceeds, is_past, PageMapNode, page_map_buckets, Buckets, Scan,
  scan_frame, scan_frames, write_page, write_nodes, write_buckets, copy_source, predates, is_empty,
  run_restore, pager_restore,
}
use custom_db.Pager.Restore.PageMap.{
  find, IsBucket, IsMap, find_page, put_page-IsMap, find_page-put_page,
}
use custom_db.Pager.Wal.Replay.{overlay, or_page}

find_elsewhere :
    (b m : ℕ) (nodes : List PageMapNode)
    → IsBucket b nodes
    → m % page_map_buckets ≢ b
    → find m nodes ≡ none
unfolding find IsBucket
find_elsewhere b m [] h other = refl
find_elsewhere b m (node ∷ nodes) (home, fresh, more) other =
    let rest = find_elsewhere b m nodes more other in ground (arith, rest, home)

page-write_nodes :
    (b m : ℕ) (nodes : List PageMapNode) (file : PageFile)
    → IsBucket b nodes
    → (write_nodes nodes file).page m ≡ or_page (find m nodes) (file.page m)
unfolding find IsBucket write_nodes write_page update
page-write_nodes b m [] file h = refl
page-write_nodes b m (node ∷ nodes) file (home, fresh, more) =
    let rest = page-write_nodes b m nodes (write_page node.pnum node.content file) more in
    ground (arith, rest, fresh)

module _ (b m : ℕ) (bs : Buckets) (file : PageFile) (map : IsMap bs) where
  page-write_own :
      b ≡ m % page_map_buckets
      → (write_nodes (bs b) file).page m ≡ or_page (find_page m bs) (file.page m)
  page-write_own home =
      page-write_nodes b m (bs b) file (map b)
      ∙ ap (λ i. or_page (find m (bs i)) (file.page m)) home

  page-write_other : m % page_map_buckets ≢ b → (write_nodes (bs b) file).page m ≡ file.page m
  page-write_other other =
      page-write_nodes b m (bs b) file (map b)
      ∙ ap (λ o. or_page o (file.page m)) (find_elsewhere b m (bs b) (map b) other)

page-write_buckets :
    (left b m : ℕ) (bs : Buckets) (file : PageFile)
    → IsMap bs
    → (write_buckets left b bs file).page m ≡ (
        if leb b (m % page_map_buckets) && ltb (m % page_map_buckets) (b + left)
        then or_page (find_page m bs) (file.page m)
        else file.page m)
unfolding write_buckets
page-write_buckets zero b m bs file h = ground arith
page-write_buckets (suc left) b m bs file h =
    let rest = page-write_buckets left (b + 1) m bs (write_nodes (bs b) file) h in
    elim (Bool-cases (b == m % page_map_buckets)) [
      | inl e ↦
          (let own = page-write_own b m bs file h (ground (arith, e)) in
            ground (arith, rest, own, e))
      | inr e ↦
          (let other = page-write_other b m bs file h (ground (arith, e)) in
            ground (arith, rest, other, e))
    ]

-- The frames before the first one that is behind a limit.
unfoldable pub until : Bool → Option ℕ → Option ℕ → List Frame → List Frame
unfolding is_past
until v2 until_ts until_lsn [] = []
until v2 until_ts until_lsn (f ∷ fs) =
    let rest = until v2 until_ts until_lsn fs in
    if is_past v2 until_ts until_lsn f then [] else f ∷ rest

scan_frame-IsMap :
    (v2 : Bool) (f : Frame) (s : Scan) → IsMap s.buckets → IsMap (scan_frame v2 f s).buckets
unfolding scan_frame
scan_frame-IsMap v2 f s h = elim (Bool-cases (frame_ok f)) [
  | inl e ↦ rw e (put_page-IsMap f.pnum f.page s.buckets h)
  | inr e ↦ rw e h
]

find_page-scan_frame :
    (v2 : Bool) (f : Frame) (s : Scan) (n : ℕ) (d : Page)
    → or_page (find_page n (scan_frame v2 f s).buckets) d
      ≡ (if f.pnum == n && frame_ok f then f.page else or_page (find_page n s.buckets) d)
unfolding scan_frame
find_page-scan_frame v2 f s n d = ground (arith, find_page-put_page f.pnum n f.page s.buckets)

find_page-scan_frames :
    (v2 : Bool) (ts lsn : Option ℕ) (fs : List Frame) (s : Scan) (n : ℕ) (d : Page)
    → IsMap s.buckets
    → IsMap (scan_frames v2 ts lsn fs s).buckets
      × (or_page (find_page n (scan_frames v2 ts lsn fs s).buckets) d
          ≡ overlay n (or_page (find_page n s.buckets) d) (until v2 ts lsn fs))
unfolding scan_frames until overlay
find_page-scan_frames v2 ts lsn [] s n d h = (h, refl)
find_page-scan_frames v2 ts lsn (f ∷ fs) s n d h =
    let rest =
      find_page-scan_frames v2 ts lsn fs (scan_frame v2 f s) n d (scan_frame-IsMap v2 f s h) in
    elim (Bool-cases (is_past v2 ts lsn f)) [
      | inl e ↦ rw e (h, refl)
      | inr e ↦ rw e (
        rest.0,
        rest.1 ∙ ap (λ e'. overlay n e' (until v2 ts lsn fs)) (find_page-scan_frame v2 f s n d),
      )
    ]

-- Every page number has its bucket among those that are written.
has_bucket :
    (n : ℕ) (p q : Page)
    → (if leb 0 (n % page_map_buckets) && ltb (n % page_map_buckets) (0 + page_map_buckets)
        then p
        else q)
      ≡ p
has_bucket n p q = ground arith

-- The restored file, whatever the guards say before.
pub run_restore-pages :
    (b : Backup) (ts lsn : Option ℕ) (n : ℕ)
    → (run_restore b ts lsn).dest.page n
      ≡ overlay n ((copy_source b.source).page n) (until b.is_v2 ts lsn b.frames)
unfolding run_restore
run_restore-pages b ts lsn n =
    let start : Scan = record { buckets = λ i. []; max_ts = 0; max_lsn = 0 } in
    let d = (copy_source b.source).page n in
    let scanned =
      find_page-scan_frames b.is_v2 ts lsn b.frames start n d (λ i. unfold IsBucket in tt) in
    let map = (scan_frames b.is_v2 ts lsn b.frames start).buckets in
    let found : or_page (find_page n map) d ≡ overlay n d (until b.is_v2 ts lsn b.frames) =
      (unfold find in scanned.1) in
    page-write_buckets page_map_buckets 0 n map (copy_source b.source) scanned.0
    ∙ has_bucket n (or_page (find_page n map) d) d
    ∙ found

-- Either there is no limit, or the log is of the kind that has times and its first frame is not
-- behind the limits.
abbrev pub IsRestorable : Backup → Option ℕ → Option ℕ → Type 0
IsRestorable b ts lsn =
    ((ts ≡ none) × (lsn ≡ none))
    ⊎ ((b.wal_missing ≡ false)
        × (b.is_v2 ≡ true)
        × (f : Frame) × (fs : List Frame) × (b.frames ≡ f ∷ fs)
        × (is_past true ts lsn f ≡ false))

restorable_run :
    (b : Backup) (ts lsn : Option ℕ)
    → IsRestorable b ts lsn
    → pager_restore b ts lsn ≡ some (run_restore b ts lsn)
unfolding pager_restore predates is_empty is_past
restorable_run b ts lsn (inl (e, e')) = rw (e, e') (ground arith)
restorable_run b ts lsn (inr (here, v2, f, fs, e, early)) =
    simp (here, v2, e, early) (ground (arith, early))

-- A restore that is to be had gives a file in which a page reads as the good frames before the
-- first one behind the limits leave it, the last one deciding, and else as in the backup, with zeros
-- behind the backup's end.
pub pager_restore-pages :
    (b : Backup) (ts lsn : Option ℕ)
    → IsRestorable b ts lsn
    → (r : Restored) × (pager_restore b ts lsn ≡ some r)
      × ((n : ℕ)
          → r.dest.page n
            ≡ overlay n ((copy_source b.source).page n) (until b.is_v2 ts lsn b.frames))
pager_restore-pages b ts lsn h =
    (run_restore b ts lsn, restorable_run b ts lsn h, run_restore-pages b ts lsn)

-- The sequence numbers of a log do not fall.
unfoldable pub IsOrdered : ℕ → List Frame → Type 0
IsOrdered low [] = Unit
IsOrdered low (f ∷ fs) = (low ≤ f.lsn) × IsOrdered f.lsn fs

-- The frames up to a sequence number, wherever they stand.
unfoldable pub up_to : ℕ → List Frame → List Frame
up_to limit [] = []
up_to limit (f ∷ fs) = let rest = up_to limit fs in if ltb limit f.lsn then rest else f ∷ rest

up_to_none :
    (limit low : ℕ) (fs : List Frame) → IsOrdered low fs → limit < low → up_to limit fs ≡ []
unfolding IsOrdered up_to
up_to_none limit low [] h lt = refl
up_to_none limit low (f ∷ fs) (above, more) lt =
    let rest = up_to_none limit f.lsn fs more (omega arith) in ground (arith, rest)

until-up_to :
    (limit low : ℕ) (fs : List Frame)
    → IsOrdered low fs
    → until true none (some limit) fs ≡ up_to limit fs
unfolding IsOrdered until up_to is_past exceeds
until-up_to limit low [] h = refl
until-up_to limit low (f ∷ fs) (above, more) =
    let rest = until-up_to limit f.lsn fs more in
    elim (Bool-cases (ltb limit f.lsn)) [
      | inl e ↦ rw e (sym (up_to_none limit f.lsn fs more (ground (arith, e))))
      | inr e ↦ rw e (ap (λ l. f ∷ l) rest)
    ]

is_v2_of_limit : (b : Backup) (limit : ℕ) → IsRestorable b none (some limit) → b.is_v2 ≡ true
is_v2_of_limit b limit (inl (e, e')) = ground arith
is_v2_of_limit b limit (inr (here, v2, f, fs, e, early)) = v2

-- Of a log whose sequence numbers do not fall and whose first one is within the limit, a restore up
-- to a sequence number applies exactly the good frames up to that number.
pub pager_restore-lsn :
    (b : Backup) (limit : ℕ)
    → IsRestorable b none (some limit)
    → IsOrdered 0 b.frames
    → (r : Restored) × (pager_restore b none (some limit) ≡ some r)
      × ((n : ℕ) → r.dest.page n ≡ overlay n ((copy_source b.source).page n) (up_to limit b.frames))
pager_restore-lsn b limit h ordered =
    let b_v2 = is_v2_of_limit b limit h in
    let same : until b.is_v2 none (some limit) b.frames ≡ up_to limit b.frames =
      (ap (λ v2. until v2 none (some limit) b.frames) b_v2
        ∙ until-up_to limit 0 b.frames ordered) in
    (
      run_restore b none (some limit),
      restorable_run b none (some limit) h,
      λ n.
          run_restore-pages b none (some limit) n
          ∙ ap (overlay n ((copy_source b.source).page n)) same,
    )
