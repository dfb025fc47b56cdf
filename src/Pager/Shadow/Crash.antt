-- ===== src/Pager/Shadow/Crash.antt =====
-- A crash while a commit writes the main file, in rollback mode, and the recovery from the journal.
use custom_db.Prelude.{
  ℕ, ◌/◌, ◌≤◌, ◌<◌, ◌≡◌, refl, sym, ap, ◌∙◌, Bool, true, false, Option, none, some, List, arith,
  inl, inr,
}
use custom_db.Pager.State.{Page, page_size, Lock, Entry, Pager, update}
use custom_db.Pager.Cache.{
  base, shadow, Buffer, wal_lookup, read_page, resize, get_page, is_shadowed, buffer_of, store,
}
use custom_db.Pager.Commit.{take_lsn, write_stamp, stamp, flush_changed}
use custom_db.Pager.Journal.{check_and_recover_journal}
use custom_db.Pager.Shadow.{is_journaled}
use custom_db.Pager.Shadow.Journaled.{Journaling, touched, get_page_run, get_page_buffer}
use custom_db.Pager.Shadow.Kept.{resize_cases, fetch_cases}
use custom_db.Pager.Shadow.Touches.{get_page-Touches}
use custom_db.Pager.Shadow.Steps.{IsProtected}
use custom_db.Pager.Shadow.Flushing.{Flushing, flush_changed-Flushing, recovered}
use custom_db.Pager.State.{pager_lock}
use custom_db.Pager.Levels.{pager_lock_level, pager_lock_keeps}
use mathlib.Core.Path.{subst}

-- What a page read keeps of the files.
abbrev Files : Type 0
Files = (ℕ → Page) × (List Entry × (Bool × (Bool × ((Lock → Bool) × Bool))))

abbrev files : Pager → Files
files s = (s.disk, (s.journal, (s.journal_exists, (s.use_wal, (s.grants, s.is_memory)))))

files-get_page :
    (before : ℕ → Page) (s : Pager) (n : ℕ) → Journaling before s → files (get_page n s).1 ≡ files s
files-get_page before s n j =
    let t : Pager = record s { lock_error = false } in
    let resized : files (resize n t) ≡ files s = elim (resize_cases t n j.started) [
      | inl run ↦ ap files run
      | inr run ↦ ap files run
    ] in
    ap files (get_page_run before s n j) ∙ elim (fetch_cases (resize n t) n) [
      | inl (e, run) ↦ ap files run ∙ resized
      | inr (p, e, run) ↦ ap files run ∙ resized
    ]

stamp_run :
    (before : ℕ → Page) (s : Pager)
    → Journaling before s
    → stamp s ≡ write_stamp (buffer_of (get_page 0 s).1 0) (get_page 0 s).1
unfolding stamp
stamp_run before s j =
    ap
      (λ (r : Option Buffer × Pager). elim r.0 [
        | none ↦ r.1
        | some buffer ↦ write_stamp buffer r.1
      ])
      (get_page_buffer before s 0 j)

take_lsn-IsProtected :
    (before : ℕ → Page) (s : Pager) → IsProtected before s → IsProtected before (take_lsn s)
unfolding take_lsn read_page wal_lookup is_journaled is_shadowed
take_lsn-IsProtected before s (j, covered) = (
  record {
    started = j.started;
    on_file = j.on_file;
    reserved = j.reserved;
    node = j.node;
    journal_on = j.journal_on;
    plain = j.plain;
    at_end = j.at_end;
    some_room = j.some_room;
    reads = j.reads;
    caches = j.caches;
    images = j.images;
    tracked = j.tracked;
    flags = j.flags;
  },
  covered,
)

-- The file's pages, before a commit writes them.
pub disk_lem :
    (before : ℕ → Page) (s : Pager) (n : ℕ)
    → Journaling before s
    → s.use_wal ≡ false
    → n < s.file_length / page_size
    → s.disk n ≡ before n
disk_lem before s n j no_log inside =
    let direct : read_page s n ≡ s.disk n =
      (unfold read_page wal_lookup in ground (arith, no_log, inside)) in
    sym direct ∙ j.reads n

touched_stamped :
    (s : Pager) (m : ℕ)
    → 1 ≤ m
    → touched (write_stamp (buffer_of s 0) s) m ≡ true
    → touched s m ≡ true
unfolding write_stamp store is_shadowed update buffer_of
touched_stamped s m some_ e = ground arith

files-write_stamp : (s : Pager) (b : Buffer) → files (write_stamp b s) ≡ files s
unfolding write_stamp store
files-write_stamp s (base n) = refl
files-write_stamp s (shadow n) = refl

stamp-Flushing :
    (before : ℕ → Page) (s : Pager)
    → IsProtected before s
    → s.use_wal ≡ false
    → (s.grants 2 ≡ true) × (s.grants 3 ≡ true)
    → Flushing before (s.file_length / page_size) s.journal (stamp s)
stamp-Flushing before s (j, covered) no_log free =
    let t = (get_page 0 s).1 in
    let same : files (write_stamp (buffer_of t 0) t) ≡ files s =
      files-write_stamp t (buffer_of t 0) ∙ files-get_page before s 0 j in
    subst (Flushing before (s.file_length / page_size) s.journal) (sym (stamp_run before s j))
      (record {
        on_file = ap (λ f. f.1.1.1.1.1) same ∙ j.on_file;
        no_log = ap (λ f. f.1.1.1.0) same ∙ no_log;
        entries = ap (λ f. f.1.0) same;
        there = ap (λ f. f.1.1.0) same ∙ j.journal_on.1;
        free = (ap (λ f. f.1.1.1.1.0 2) same ∙ free.0, ap (λ f. f.1.1.1.1.0 3) same ∙ free.1);
        covers = λ m some_ e.
            (let touches = get_page-Touches before s 0 j 0 in
              elim (touches.0 m (touched_stamped t m some_ e)) [
                | inl marked ↦ j.flags m (covered m marked)
                | inr zero_ ↦ absurd (omega (arith, zero_))
              ]);
        written =
            λ m some_ inside. inl (ap (λ f. f.0 m) same ∙ disk_lem before s m j no_log inside);
      })

lock-IsProtected :
    (before : ℕ → Page) (s : Pager) → IsProtected before s → IsProtected before (pager_lock 4 s).1
lock-IsProtected before s (j, covered) = subst (IsProtected before) (sym (pager_lock_keeps 4 s)) (
    unfold read_page wal_lookup is_journaled is_shadowed in
    ((
      record {
        started = j.started;
        on_file = j.on_file;
        reserved = omega (arith, j.reserved, (pager_lock_level 4 s).0);
        node = j.node;
        journal_on = j.journal_on;
        plain = j.plain;
        at_end = j.at_end;
        some_room = j.some_room;
        reads = j.reads;
        caches = j.caches;
        images = j.images;
        tracked = j.tracked;
        flags = j.flags;
      },
      covered,
    )))

-- The files when a crash cuts off a commit after some rounds of the loop that writes the pages.
abbrev pub cut_off : ℕ → Pager → Pager
cut_off rounds s = flush_changed rounds 0 (stamp (take_lsn (pager_lock 4 s).1))

-- In rollback mode, if a commit of a protected transaction is cut off by a crash after any number of
-- rounds of the loop that writes the pages, and no other process is in the way, then the recovery
-- restores what every page of the file but page 0 read at the transaction's start.
pub commit_crash-disk :
    (before : ℕ → Page) (s : Pager)
    → IsProtected before s
    → s.use_wal ≡ false
    → (s.grants 2 ≡ true) × (s.grants 3 ≡ true)
    → (rounds n : ℕ) → 1 ≤ n
    → n < s.file_length / page_size
    → (check_and_recover_journal (cut_off rounds s)).disk n ≡ before n
commit_crash-disk before s h no_log free rounds n some_ inside =
    let locked : Pager = record s { lock_state = (pager_lock 4 s).1.lock_state } in
    let limit = s.file_length / page_size in
    let safe : IsProtected before (take_lsn locked) =
      take_lsn-IsProtected before locked
        (subst (IsProtected before) (pager_lock_keeps 4 s) (lock-IsProtected before s h)) in
    let start : Flushing before limit s.journal (stamp (take_lsn locked)) =
      (unfold take_lsn in stamp-Flushing before (take_lsn locked) safe no_log free) in
    subst
      (λ t.
        (check_and_recover_journal (flush_changed rounds 0 (stamp (take_lsn t)))).disk n ≡ before n)
      (sym (pager_lock_keeps 4 s))
      (recovered before limit s.journal (flush_changed rounds 0 (stamp (take_lsn locked))) n
        h.0.images some_ inside
        (flush_changed-Flushing before limit s.journal rounds 0 (stamp (take_lsn locked)) start))
