-- ===== src/Pager/Shadow/Journaled.antt =====
-- The invariant of a transaction without savepoints: the journal has the content at its start of
-- every page that it may have changed.
use custom_db.Prelude.{
  ℕ, zero, suc, ◌*◌, ◌^◌, ◌≤◌, ◌<◌, ◌≡◌, refl, sym, ap, ◌∙◌, Bool, true, false, not, ◌&&◌, ◌||◌,
  Option, none, some, List, [], ◌∷◌, ◌++◌, All, length, ltb, leb, ◌==◌, if◌then◌else◌, arith,
  Bool-cases, inl, inr, ◌⊎◌,
}
use custom_db.Pager.State.{Page, Entry, Pager, pager_lock}
use custom_db.Pager.Cache.{
  wal_lookup, read_page, grow, grow_flags, resize, pager_refresh_if_modified, fetch, locked_fetch,
  get_page, is_shadowed, buffer_of, Buffer,
}
use custom_db.Pager.Begin.{take_node, reserve, open_journal, pager_ensure_write_lock}
use custom_db.Pager.Shadow.{or_clear, is_set, is_journaled}
use mathlib.Core.Path.{subst}
use native.Mathlib.Nat.{pow-suc}

unfoldable pub has_image : ℕ → List Entry → Bool
has_image n [] = false
has_image n (e ∷ es) = e.pnum == n || has_image n es

pub has_image-append :
    (n : ℕ) (e : Entry) (es : List Entry)
    → has_image n (es ++ e ∷ []) ≡ (has_image n es || (e.pnum == n))
unfolding has_image
has_image-append n e [] = ground arith
has_image-append n e (x ∷ es) = ground (arith, has_image-append n e es)

-- What does not depend on the pages that were changed.
pub record Journaling (base : ℕ → Page) (s : Pager) : Type 0 where
  pub started : s.in_transaction ≡ true
  pub on_file : s.is_memory ≡ false
  pub reserved : 2 ≤ s.lock_state
  pub node : s.node_free ≡ true
  pub journal_on : (s.journal_open ≡ true) × (s.journal_exists ≡ true)
  pub plain : s.savepoints ≡ []
  pub at_end : s.journal_pos ≡ length s.journal
  pub some_room : 1 ≤ s.max_pages
  pub reads : (n : ℕ) → read_page s n ≡ base n
  pub caches : (n : ℕ) (p : Page) → s.pages n ≡ some p → p ≡ base n
  pub images : All (λ e. e.page ≡ base e.pnum) s.journal
  pub tracked : (f : ℕ → Bool) × (s.page_is_journaled ≡ some f)
  pub flags : (n : ℕ) → is_journaled s n ≡ true → has_image n s.journal ≡ true

abbrev pub touched : Pager → ℕ → Bool
touched s n = is_shadowed s n || or_clear s.is_dirty n

-- Every page that has a shadow or is marked dirty is in the journal, but for page `x`.
abbrev pub CoveredBut : ℕ → Pager → Type 0
CoveredBut x s = (n : ℕ) → touched s n ≡ true → (is_journaled s n ≡ true) ⊎ (n ≡ x)

abbrev pub Covered : Pager → Type 0
Covered s = (n : ℕ) → touched s n ≡ true → is_journaled s n ≡ true

-- The write lock is there already.
take_node_run :
    (s : Pager) → s.node_free ≡ true → take_node s ≡ (true, record s { active_writer = true })
unfolding take_node
take_node_run s e = simp e

reserve_run : (s : Pager) → 2 ≤ s.lock_state → reserve s ≡ (true, s)
unfolding reserve
reserve_run s h =
    let held : (not s.is_memory && ltb s.lock_state 2) ≡ false = ground arith in rw held refl

open_journal_run :
    (s : Pager) (f : ℕ → Bool)
    → s.journal_open ≡ true
    → s.page_is_journaled ≡ some f
    → open_journal s ≡ record s { is_writer = true }
unfolding open_journal
open_journal_run s f e e' =
    let kept : (not s.journal_open && not s.is_memory) ≡ false = ground arith in
    let same : (elim s.page_is_journaled [ none ↦ some (λ i. false) | some g ↦ some g ])
        ≡ s.page_is_journaled =
      (rw e' refl) in
    rw (kept, same) refl

pub ensure_run :
    (base : ℕ → Page) (s : Pager)
    → Journaling base s
    → pager_ensure_write_lock s ≡ (true, record s { active_writer = true; is_writer = true })
unfolding pager_ensure_write_lock
ensure_run base s j =
    let t : Pager = record s { active_writer = true } in
    rw
      (
        take_node_run s j.node,
        reserve_run t j.reserved,
        open_journal_run t j.tracked.0 j.journal_on.0 j.tracked.1,
      )
      refl

-- What growing the cache keeps.
pub grow-le : (fuel n max : ℕ) → max ≤ grow fuel n max
unfolding grow
grow-le zero n max = omega arith
grow-le (suc fuel) n max = ground (arith, grow-le fuel n (max * 2))

grow-lt : (fuel n max : ℕ) → n < 2 ^ fuel * max → n < grow fuel n max
unfolding grow
grow-lt zero n max h = omega arith
grow-lt (suc fuel) n max h =
    let double : n < 2 ^ fuel * (max * 2) =
      (let e : 2 ^ suc fuel * max ≡ 2 ^ fuel * (max * 2) = rw (pow-suc 2 fuel) (grind arith) in
        rw e at h) in
    ground (arith, grow-lt fuel n (max * 2))

lock_run : (s : Pager) → s.is_memory ≡ false → 1 ≤ s.lock_state → pager_lock 1 s ≡ (true, s)
unfolding pager_lock
lock_run s e h = let held : leb 1 s.lock_state ≡ true = ground arith in rw (e, held) refl

refresh_run : (s : Pager) → s.in_transaction ≡ true → pager_refresh_if_modified s ≡ s
unfolding pager_refresh_if_modified
refresh_run s e =
    let skipped : (s.in_transaction || s.is_memory) ≡ true = rw e refl in rw skipped refl

locked_fetch_run :
    (n : ℕ) (s : Pager) → s.in_transaction ≡ true → (locked_fetch n s).1 ≡ fetch n (resize n s)
unfolding locked_fetch
locked_fetch_run n s e = ap (λ t. fetch n (resize n t)) (refresh_run s e)

get_page_locked :
    (n : ℕ) (s : Pager)
    → s.is_memory ≡ false
    → pager_lock 1 s ≡ (true, s)
    → get_page n s ≡ locked_fetch n (record s { lock_error = false })
unfolding get_page
get_page_locked n s e e' =
    ap (λ b. if b then locked_fetch n s else get_page_locking n s) e
    ∙ ap
        (λ (r : Bool × Pager).
          if r.0
          then locked_fetch n (record r.1 { lock_error = false })
          else (none, record r.1 { lock_error = true }))
        e'
  where
    get_page_locking : ℕ → Pager → Option Buffer × Pager
    get_page_locking m t =
        let (got, t') = pager_lock 1 t in
        if got
        then locked_fetch m (record t' { lock_error = false })
        else (none, record t' { lock_error = true })

pub get_page_run :
    (base : ℕ → Page) (s : Pager) (n : ℕ)
    → Journaling base s
    → (get_page n s).1 ≡ fetch n (resize n (record s { lock_error = false }))
get_page_run base s n j =
    let held : 1 ≤ s.lock_state = omega (arith, j.reserved) in
    ap (λ r. r.1) (get_page_locked n s j.on_file (lock_run s j.on_file held))
    ∙ locked_fetch_run n (record s { lock_error = false }) j.started

pub get_page_buffer :
    (base : ℕ → Page) (s : Pager) (n : ℕ)
    → Journaling base s
    → get_page n s ≡ (some (buffer_of (get_page n s).1 n), (get_page n s).1)
unfolding locked_fetch
get_page_buffer base s n j =
    let held : 1 ≤ s.lock_state = omega (arith, j.reserved) in
    let t : Pager = record s { lock_error = false } in
    let run : get_page n s ≡ locked_fetch n t =
      get_page_locked n s j.on_file (lock_run s j.on_file held) in
    subst (λ (r : Option Buffer × Pager). r ≡ (some (buffer_of r.1 n), r.1)) (sym run) refl

-- The fields that a change of the writer's own copies touches.
pub own_copies-Journaling :
    (base : ℕ → Page) (s : Pager) (a w e : Bool) (d : Option (ℕ → Bool)) (sh : ℕ → Option Page)
    (c : ℕ)
    → Journaling base s
    → Journaling base (record s {
      active_writer = a;
      is_writer = w;
      lock_error = e;
      is_dirty = d;
      shadow = sh;
      shadow_capacity = c;
    })
unfolding read_page wal_lookup is_journaled
own_copies-Journaling base s a w e d sh c j = record {
  started = j.started;
  on_file = j.on_file;
  reserved = j.reserved;
  node = j.node;
  journal_on = j.journal_on;
  plain = j.plain;
  at_end = j.at_end;
  some_room = j.some_room;
  reads = j.reads;
  caches = j.caches;
  images = j.images;
  tracked = j.tracked;
  flags = j.flags;
}

pub resize-caches :
    (s : Pager) (n i : ℕ) (p : Page) → (resize n s).pages i ≡ some p → s.pages i ≡ some p
unfolding resize
resize-caches s n i p e = ground arith

pub resize-room : (s : Pager) (n : ℕ) → s.max_pages ≤ (resize n s).max_pages
unfolding resize
resize-room s n = ground (arith, grow-le 32 n s.max_pages)

pub resize-fits : (s : Pager) (n : ℕ) → 1 ≤ s.max_pages → n < 2 ^ 32 → n < (resize n s).max_pages
unfolding resize
resize-fits s n room small =
    let much : n < 2 ^ 32 * s.max_pages = omega arith in ground (arith, grow-lt 32 n s.max_pages)

pub is_set-grow_flags :
    (o : Option (ℕ → Bool)) (old new i : ℕ)
    → old ≤ new
    → is_set new (grow_flags old o) i ≡ is_set old o i
is_set-grow_flags none old new i h = refl
is_set-grow_flags (some f) old new i h = ground arith

pub is_journaled-resize :
    (s : Pager) (n i : ℕ) → s.in_transaction ≡ true → is_journaled (resize n s) i ≡ is_journaled s i
unfolding resize is_journaled
is_journaled-resize s n i e = elim (Bool-cases (ltb n s.max_pages)) [
  | inl fits ↦ simp fits
  | inr fits ↦
      simp (fits, e)
        (is_set-grow_flags s.page_is_journaled s.max_pages (grow 32 n s.max_pages) i
          (grow-le 32 n s.max_pages))
]

clear-grow_flags :
    (o : Option (ℕ → Bool)) (old i : ℕ) → or_clear (grow_flags old o) i ≡ true → or_clear o i ≡ true
clear-grow_flags none old i e = e
clear-grow_flags (some f) old i e = ground arith

pub is_dirty-resize :
    (s : Pager) (n i : ℕ) → or_clear (resize n s).is_dirty i ≡ true → or_clear s.is_dirty i ≡ true
unfolding resize
is_dirty-resize s n i e = ground (arith, clear-grow_flags s.is_dirty s.max_pages i)
