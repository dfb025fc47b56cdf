-- ===== src/Pager/Shadow.antt =====
-- `pager_shadow_page_write` and `pager_journal_page` of src/pager.c: before a page is changed, the
-- writer gets a copy of its own, and the page's content goes to the journal.
pub mod Journaled
pub mod Kept
pub mod Touches
pub mod Copies
pub mod Steps
pub mod Start
pub mod Runs
pub mod Flushing
pub mod Crash
pub mod Undo
use custom_db.Prelude.{
  ℕ, zero, suc, ◌+◌, ◌*◌, ◌/◌, Bool, true, false, not, ◌&&◌, ◌||◌, Option, none, some, List, [],
  ◌∷◌, ◌++◌, take, drop, replicate, length, ◌-◌, ltb, leb, ◌==◌, if◌then◌else◌,
}
use custom_db.Pager.State.{Page, zero_page, page_size, u32, Entry, Savepoint, Pager, update}
use custom_db.Pager.Cache.{or_zero, is_shadowed, get_page}
use custom_db.Pager.Begin.{pager_ensure_write_lock}

abbrev pub track_size : Pager → ℕ
track_size s = s.max_pages + 1024

abbrev pub or_clear : Option (ℕ → Bool) → ℕ → Bool
or_clear none = λ i. false
or_clear (some f) = f

unfoldable pub mark_dirty : ℕ → Pager → Pager
unfolding update
mark_dirty n s =
    let f = or_clear s.is_dirty in
    record s { is_dirty = some (if ltb n (track_size s) then update f n true else f) }

unfoldable pub grow_shadows : ℕ → Pager → Pager
grow_shadows n s =
    if leb s.shadow_capacity n
    then record s {
      shadow = λ i. if leb s.shadow_capacity i && ltb i (u32 (n + 1024)) then none else s.shadow i;
      shadow_capacity = u32 (n + 1024);
    }
    else s

-- `(page_num < pager->max_pages) ? pager->pages[page_num] : NULL`
unfoldable pub cached : Pager → ℕ → Option Page
cached s n = if ltb n s.max_pages then s.pages n else none

-- The page is fetched if it is not cached.
unfoldable pub fetch_base : ℕ → Pager → Pager
fetch_base n s = elim (cached s n) [ none ↦ (get_page n s).1 | some p ↦ s ]

unfoldable pub make_shadow : ℕ → Pager → Pager
make_shadow n s =
    let t = fetch_base n s in
    if is_shadowed s n
    then s
    else record t { shadow = update t.shadow n (some (or_zero (cached t n))) }

unfoldable pub pager_shadow_page_write : ℕ → Pager → Pager
pager_shadow_page_write n s =
    if not s.in_transaction
    then s
    else (let (ok, t) = pager_ensure_write_lock s in
        if ok && t.is_writer then make_shadow n (grow_shadows n (mark_dirty n t)) else t)

-- The content that goes to the journal.
unfoldable pub pre_image : Pager → ℕ → Page
pre_image s n = if is_shadowed s n then or_zero (s.shadow n) else elim (cached s n) [
  | some p ↦ p
  | none ↦ if ltb n (s.file_length / page_size) then s.disk n else zero_page
]

abbrev pub no_savepoints : List Savepoint → Bool
no_savepoints [] = true
no_savepoints (p ∷ ps) = false

-- A flag that is there and set, in an array for `max` pages, and 1024 more.
abbrev pub is_set : ℕ → Option (ℕ → Bool) → ℕ → Bool
is_set max none n = false
is_set max (some f) n = ltb n (max + 1024) && f n

unfoldable pub is_journaled : Pager → ℕ → Bool
is_journaled s n = is_set s.max_pages s.page_is_journaled n

-- A hole in a file reads as zeros: an entry of page 0, and zeros for its content.
abbrev pub zero_entry : Entry
zero_entry = record { pnum = 0; page = zero_page }

-- One entry is written at the position of `journal_fd`.
unfoldable pub write_entry : ℕ → Entry → List Entry → List Entry
write_entry pos e es =
    take pos (es ++ replicate (pos - length es) zero_entry) ++ (e ∷ drop (pos + 1) es)

unfoldable pub mark_journaled : ℕ → Pager → Pager
unfolding update
mark_journaled n s = record s {
  page_is_journaled = elim s.page_is_journaled [
    | none ↦ none
    | some f ↦ some (if ltb n (track_size s) then update f n true else f)
  ];
}

unfoldable pub append_image : ℕ → Pager → Pager
unfolding write_entry mark_journaled
append_image n s = mark_journaled n (record s {
  journal = write_entry s.journal_pos (record { pnum = n; page = pre_image s n }) s.journal;
  journal_pos = s.journal_pos + 1;
})

unfoldable pub pager_journal_page : ℕ → Pager → Pager
pager_journal_page n s =
    let t = pager_shadow_page_write n s in
    if not t.in_transaction || not t.journal_open
    then t
    else if no_savepoints t.savepoints && is_journaled t n
    then t
    else append_image n t
