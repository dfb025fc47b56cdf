-- ===== src/Pager/Shadow/Kept.antt =====
-- The cache and `pager_journal_page` keep the invariant of the journal.
use custom_db.Prelude.{
  ℕ, ◌+◌, ◌≤◌, ◌≡◌, refl, sym, ap, ◌∙◌, Bool, true, false, Option, none, some, ltb, leb, ◌==◌,
  if◌then◌else◌, arith, Bool-cases, Option-cases, ==_iff, inl, inr, ◌⊎◌,
}
use custom_db.Pager.State.{Page, Pager, update}
use custom_db.Pager.Cache.{
  or_zero, wal_lookup, read_page, grow, grow_flags, resize, fetched, fetch, get_page,
}
use custom_db.Pager.Shadow.{is_set, is_journaled}
use custom_db.Pager.Shadow.Journaled.{
  Journaling, get_page_run, own_copies-Journaling, grow-le, is_set-grow_flags,
}
use mathlib.Core.Path.{subst}

-- The fields that the cache touches.
cache-Journaling :
    (base : ℕ → Page) (s : Pager) (m np dr ch : ℕ) (pg : ℕ → Option Page)
    (fl di : Option (ℕ → Bool))
    → Journaling base s
    → 1 ≤ m
    → ((n : ℕ) (p : Page) → pg n ≡ some p → p ≡ base n)
    → (f : ℕ → Bool) × (fl ≡ some f)
    → ((n : ℕ) → is_set m fl n ≡ is_journaled s n)
    → Journaling base (record s {
      max_pages = m;
      pages = pg;
      page_is_journaled = fl;
      is_dirty = di;
      num_pages = np;
      disk_reads = dr;
      cache_hits = ch;
    })
unfolding read_page wal_lookup is_journaled
cache-Journaling base s m np dr ch pg fl di j room caches tracked same = record {
  started = j.started;
  on_file = j.on_file;
  reserved = j.reserved;
  node = j.node;
  journal_on = j.journal_on;
  plain = j.plain;
  at_end = j.at_end;
  some_room = room;
  reads = j.reads;
  caches = caches;
  images = j.images;
  tracked = tracked;
  flags = λ n e. j.flags n (sym (same n) ∙ e);
}

tracked_grown :
    (o : Option (ℕ → Bool)) (old : ℕ)
    → (f : ℕ → Bool) × (o ≡ some f)
    → (f : ℕ → Bool) × (grow_flags old o ≡ some f)
tracked_grown o old (f, e) = rw e (_, refl)

pub resize_cases :
    (s : Pager) (n : ℕ)
    → s.in_transaction ≡ true
    → (resize n s ≡ s)
      ⊎ (resize n s ≡ record s {
        max_pages = grow 32 n s.max_pages;
        pages = λ i. if ltb i s.max_pages then s.pages i else none;
        page_is_journaled = grow_flags s.max_pages s.page_is_journaled;
        is_dirty = grow_flags s.max_pages s.is_dirty;
      })
unfolding resize
resize_cases s n e = elim (Bool-cases (ltb n s.max_pages)) [
  | inl fits ↦ inl (simp fits)
  | inr fits ↦ inr (simp (fits, e))
]

pub fetch_cases :
    (s : Pager) (n : ℕ)
    → ((s.pages n ≡ none)
        × (fetch n s ≡ record s {
          disk_reads = s.disk_reads + 1;
          pages = update s.pages n (some (read_page s n));
          num_pages = if leb s.num_pages n then n + 1 else s.num_pages;
        }))
      ⊎ ((p : Page) × (s.pages n ≡ some p)
          × (fetch n s ≡ record s { cache_hits = s.cache_hits + 1 }))
unfolding fetch
fetch_cases s n = elim (Option-cases (s.pages n)) [
  | inl e ↦ inl (e, ap (λ o. fetched n o s) e)
  | inr (p, e) ↦ inr (p, e, ap (λ o. fetched n o s) e)
]

module _ (base : ℕ → Page) (s : Pager) (n : ℕ) (j : Journaling base s) where
  grown_caches :
      (i : ℕ) (p : Page) → (if ltb i s.max_pages then s.pages i else none) ≡ some p → p ≡ base i
  grown_caches i p e = j.caches i p (ground arith)

  resize-Journaling : Journaling base (resize n s)
  resize-Journaling = elim (resize_cases s n j.started) [
    | inl e ↦ subst (Journaling base) (sym e) j
    | inr e ↦ subst (Journaling base) (sym e) (
        cache-Journaling base s (grow 32 n s.max_pages) s.num_pages s.disk_reads s.cache_hits
          (λ i. if ltb i s.max_pages then s.pages i else none)
          (grow_flags s.max_pages s.page_is_journaled) (grow_flags s.max_pages s.is_dirty) j
          (omega (arith, grow-le 32 n s.max_pages, j.some_room)) grown_caches
          (tracked_grown s.page_is_journaled s.max_pages j.tracked)
          (λ i.
            unfold is_journaled in
            is_set-grow_flags s.page_is_journaled s.max_pages (grow 32 n s.max_pages) i
              (grow-le 32 n s.max_pages)))
  ]

  fetched_caches :
      (i : ℕ) (p : Page) → update s.pages n (some (read_page s n)) i ≡ some p → p ≡ base i
  unfolding update
  fetched_caches i p e = elim (Bool-cases (i == n)) [
    | inl same ↦
        (let here : i ≡ n = (==_iff i n).0 same in
          let it : read_page s n ≡ p = ap or_zero (rw same at e) in
          sym it ∙ j.reads n ∙ ap base (sym here))
    | inr other ↦ j.caches i p (rw other at e)
  ]

  fetch-Journaling : Journaling base (fetch n s)
  fetch-Journaling = elim (fetch_cases s n) [
    | inl (e, run) ↦ subst (Journaling base) (sym run) (
        cache-Journaling base s s.max_pages (if leb s.num_pages n then n + 1 else s.num_pages)
          (s.disk_reads + 1) s.cache_hits (update s.pages n (some (read_page s n)))
          s.page_is_journaled s.is_dirty j j.some_room fetched_caches j.tracked
          (λ i. (unfold is_journaled in refl)))
    | inr (p, e, run) ↦ subst (Journaling base) (sym run) (
        cache-Journaling base s s.max_pages s.num_pages s.disk_reads (s.cache_hits + 1) s.pages
          s.page_is_journaled s.is_dirty j j.some_room j.caches j.tracked
          (λ i. (unfold is_journaled in refl)))
  ]

pub get_page-Journaling :
    (base : ℕ → Page) (s : Pager) (n : ℕ) → Journaling base s → Journaling base (get_page n s).1
get_page-Journaling base s n j =
    let t : Pager = record s { lock_error = false } in
    let jt =
      own_copies-Journaling base s s.active_writer s.is_writer false s.is_dirty s.shadow
        s.shadow_capacity j in
    subst (Journaling base) (sym (get_page_run base s n j))
      (fetch-Journaling base (resize n t) n (resize-Journaling base t n jt))
