-- ===== src/Pager/Restore.antt =====
-- `pager_restore` of src/pager.c: a backup and its log are made into a new database file, up to a
-- point in time if one is given.
pub mod PageMap
pub mod Correct
use custom_db.Prelude.{
  ℕ, zero, suc, ◌+◌, ◌*◌, ◌%◌, ◌^◌, Bool, true, false, not, ◌&&◌, ◌||◌, Option, none, some, List,
  [], ◌∷◌, ltb, leb, ◌==◌, if◌then◌else◌,
}
use custom_db.Pager.State.{Page, zero_page, Frame, update}
use custom_db.Pager.Cache.{frame_ok}

-- A file of whole pages, which reads as zeros where nothing was written.
pub record PageFile : Type 0 where
  pub page : ℕ → Page
  pub pages : ℕ

-- `source` is the backup file, `wal_missing` says that its log is absent or empty, `is_v2` that the
-- log starts with the magic number, and `frames` are its complete frames. The destination is taken
-- to be free, and reads and writes to succeed.
pub record Backup : Type 0 where
  pub source : PageFile
  pub wal_missing : Bool
  pub is_v2 : Bool
  pub frames : List Frame

pub record Restored : Type 0 where
  pub dest : PageFile
  pub max_applied_ts : ℕ
  pub max_applied_lsn : ℕ

-- A limit is `none` where `use_ts` or `use_lsn` is false.
abbrev pub is_some : Option ℕ → Bool
is_some none = false
is_some (some n) = true

unfoldable pub exceeds : ℕ → Option ℕ → Bool
exceeds n none = false
exceeds n (some limit) = ltb limit n

-- The loop over the frames breaks at the first one behind a limit.
unfoldable pub is_past : Bool → Option ℕ → Option ℕ → Frame → Bool
unfolding exceeds
is_past v2 until_ts until_lsn f = v2 && (exceeds f.ts until_ts || exceeds f.lsn until_lsn)

-- `PageMapNode`; the page stands for `data_offset`, the place in the log that holds it.
pub record PageMapNode : Type 0 where
  pub pnum : ℕ
  pub content : Page

abbrev pub page_map_buckets : ℕ
page_map_buckets = 1024

abbrev pub Buckets : Type 0
Buckets = ℕ → List PageMapNode

-- `while (node)`: the node of the page gets the new offset, if there is one.
unfoldable pub replace_node : ℕ → Page → List PageMapNode → Option (List PageMapNode)
replace_node n p [] = none
replace_node n p (node ∷ nodes) =
    let rest = replace_node n p nodes in
    if node.pnum == n
    then some (record node { content = p } ∷ nodes)
    else elim rest [ none ↦ none | some l ↦ some (node ∷ l) ]

unfoldable pub put_node : ℕ → Page → List PageMapNode → List PageMapNode
unfolding replace_node
put_node n p nodes = elim (replace_node n p nodes) [
  | none ↦ record { pnum = n; content = p } ∷ nodes
  | some l ↦ l
]

unfoldable pub put_page : ℕ → Page → Buckets → Buckets
unfolding update put_node
put_page n p bs = update bs (n % page_map_buckets) (put_node n p (bs (n % page_map_buckets)))

pub record Scan : Type 0 where
  pub buckets : Buckets
  pub max_ts : ℕ
  pub max_lsn : ℕ

-- `if (a > b) b = a;`
abbrev pub raised : ℕ → ℕ → ℕ
raised a b = if ltb b a then a else b

-- A frame whose checksum is wrong is passed over.
unfoldable pub scan_frame : Bool → Frame → Scan → Scan
unfolding put_page frame_ok
scan_frame v2 f s =
    if frame_ok f
    then record {
      buckets = put_page f.pnum f.page s.buckets;
      max_ts = if v2 then raised f.ts s.max_ts else s.max_ts;
      max_lsn = if v2 then raised f.lsn s.max_lsn else s.max_lsn;
    }
    else s

unfoldable pub scan_frames : Bool → Option ℕ → Option ℕ → List Frame → Scan → Scan
unfolding is_past scan_frame
scan_frames v2 until_ts until_lsn [] s = s
scan_frames v2 until_ts until_lsn (f ∷ fs) s =
    let go_on = scan_frames v2 until_ts until_lsn fs (scan_frame v2 f s) in
    if is_past v2 until_ts until_lsn f then s else go_on

unfoldable pub write_page : ℕ → Page → PageFile → PageFile
unfolding update
write_page n p file = record {
  page = update file.page n p;
  pages = if leb file.pages n then n + 1 else file.pages;
}

unfoldable pub write_nodes : List PageMapNode → PageFile → PageFile
unfolding write_page
write_nodes [] file = file
write_nodes (node ∷ nodes) file = write_nodes nodes (write_page node.pnum node.content file)

-- `for (int b = 0; b < PAGE_MAP_BUCKETS; b++)`, from bucket `b` on with `left` of them to go.
unfoldable pub write_buckets : ℕ → ℕ → Buckets → PageFile → PageFile
unfolding write_nodes
write_buckets zero b bs file = file
write_buckets (suc left) b bs file = write_buckets left (b + 1) bs (write_nodes (bs b) file)

-- The copy of the whole pages of the backup.
unfoldable pub copy_source : PageFile → PageFile
copy_source f = record {
  page = λ n. if ltb n f.pages then f.page n else zero_page;
  pages = f.pages;
}

-- The first frame is later than a limit.
unfoldable pub predates : Option ℕ → Option ℕ → List Frame → Bool
unfolding exceeds
predates until_ts until_lsn [] = false
predates until_ts until_lsn (f ∷ fs) = exceeds f.ts until_ts || exceeds f.lsn until_lsn

unfoldable pub is_empty : List Frame → Bool
is_empty [] = true
is_empty (f ∷ fs) = false

unfoldable pub run_restore : Backup → Option ℕ → Option ℕ → Restored
run_restore b until_ts until_lsn =
    let s =
      scan_frames b.is_v2 until_ts until_lsn b.frames
        (record { buckets = λ i. []; max_ts = 0; max_lsn = 0 }) in
    record {
      dest = write_buckets page_map_buckets 0 s.buckets (copy_source b.source);
      max_applied_ts = s.max_ts;
      max_applied_lsn = s.max_lsn;
    }

-- `none` is the returned `false`.
unfoldable pub pager_restore : Backup → Option ℕ → Option ℕ → Option Restored
unfolding predates is_empty
pager_restore b until_ts until_lsn =
    let limited = is_some until_ts || is_some until_lsn in
    if limited && b.wal_missing
    then none
    else if limited && not b.is_v2
    then none
    else if limited && is_empty b.frames
    then none
    else if b.is_v2 && (limited && predates until_ts until_lsn b.frames)
    then none
    else some (run_restore b until_ts until_lsn)
