-- ===== src/Pager/Cache/Rest.antt =====
-- What reading a page leaves alone.
use custom_db.Prelude.{
  ℕ, ◌≡◌, refl, ap, ◌∙◌, Bool, true, false, ◌&&◌, Option, none, some, if◌then◌else◌, arith,
  Bool-cases, Option-cases, inl, inr, ◌⊎◌,
}
use custom_db.Pager.State.{Page, Pager, pager_lock}
use custom_db.Pager.Levels.{pager_lock_keeps}
use custom_db.Pager.Cache.{
  Buffer, base, shadow, see_wal, forget_cache, pager_refresh_if_modified, resize, fetch, fetched,
  is_shadowed, buffer_of, locked_fetch, get_page,
}

abbrev pub Rest : Type 0
Rest = ℕ × (ℕ × ((ℕ → Option Page) × ℕ))

abbrev pub rest : Pager → Rest
rest s = (s.freelist_head, (s.reserved_catalog_pages, (s.shadow, s.shadow_capacity)))

rest-refresh : (s : Pager) → rest (pager_refresh_if_modified s) ≡ rest s
unfolding pager_refresh_if_modified see_wal forget_cache
rest-refresh s = ground arith

rest-resize : (n : ℕ) (s : Pager) → rest (resize n s) ≡ rest s
unfolding resize
rest-resize n s = ground arith

rest-fetch : (n : ℕ) (s : Pager) → rest (fetch n s) ≡ rest s
unfolding fetch
rest-fetch n s = elim (Option-cases (s.pages n)) [
  | inl e ↦ ap (λ o. rest (fetched n o s)) e
  | inr (p, e) ↦ ap (λ o. rest (fetched n o s)) e
]

rest-locked : (n : ℕ) (s : Pager) → rest (locked_fetch n s).1 ≡ rest s
unfolding locked_fetch
rest-locked n s =
    rest-fetch n (resize n (pager_refresh_if_modified s))
    ∙ rest-resize n (pager_refresh_if_modified s)
    ∙ rest-refresh s

abbrev got_page : ℕ → Pager → Bool → Bool × Pager → Option Buffer × Pager
got_page n s in_memory r =
    if in_memory
    then locked_fetch n s
    else if r.0
    then locked_fetch n (record r.1 { lock_error = false })
    else (none, record r.1 { lock_error = true })

rest-got_page :
    (n : ℕ) (s : Pager) (in_memory : Bool) (r : Bool × Pager)
    → rest r.1 ≡ rest s
    → rest (got_page n s in_memory r).1 ≡ rest s
rest-got_page n s true r h = rest-locked n s
rest-got_page n s false (true, t) h = rest-locked n (record t { lock_error = false }) ∙ h
rest-got_page n s false (false, t) h = h

pub rest-get_page : (n : ℕ) (s : Pager) → rest (get_page n s).1 ≡ rest s
unfolding get_page
rest-get_page n s = rest-got_page n s s.is_memory (pager_lock 1 s) (ap rest (pager_lock_keeps 1 s))

-- The pointer that is returned.
abbrev pub IsBufferOf : ℕ → Option Buffer → Type 0
IsBufferOf n o = (o ≡ none) ⊎ ((o ≡ some (base n)) ⊎ (o ≡ some (shadow n)))

buffer_cases : (n : ℕ) (s : Pager) → IsBufferOf n (some (buffer_of s n))
unfolding buffer_of
buffer_cases n s = elim (Bool-cases (s.in_transaction && (s.is_writer && is_shadowed s n))) [
  | inl e ↦ inr (inr (rw e refl))
  | inr e ↦ inr (inl (rw e refl))
]

locked_buffer : (n : ℕ) (s : Pager) → IsBufferOf n (locked_fetch n s).0
unfolding locked_fetch
locked_buffer n s = buffer_cases n (fetch n (resize n (pager_refresh_if_modified s)))

got_buffer :
    (n : ℕ) (s : Pager) (in_memory : Bool) (r : Bool × Pager)
    → IsBufferOf n (got_page n s in_memory r).0
got_buffer n s true r = locked_buffer n s
got_buffer n s false (true, t) = locked_buffer n (record t { lock_error = false })
got_buffer n s false (false, t) = inl refl

pub get_page-IsBufferOf : (n : ℕ) (s : Pager) → IsBufferOf n (get_page n s).0
unfolding get_page
get_page-IsBufferOf n s = got_buffer n s s.is_memory (pager_lock 1 s)
