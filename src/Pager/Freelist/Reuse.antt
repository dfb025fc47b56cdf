-- ===== src/Pager/Freelist/Reuse.antt =====
-- Which pages the free list hands out.
use custom_db.Prelude.{
  ℕ, ◌≤◌, ◌<◌, ◌≡◌, refl, ap, ◌∙◌, true, false, not, ◌&&◌, ◌||◌, Option, none, some, ltb, leb, ◌==◌,
  arith, Bool-cases, Option-cases, inl, inr, ◌≢◌,
}
use custom_db.Catalog.Varint.{from}
use custom_db.Catalog.Row.Decode.{read_le}
use custom_db.Catalog.Row.Encode.{le_bytes}
use custom_db.Pager.State.{Page, zero_page, Pager}
use custom_db.Pager.Cache.{Buffer, base, shadow, load, store, store_bytes, get_page}
use custom_db.Pager.Cache.Rest.{rest-get_page}
use custom_db.Pager.Freelist.{
  invalid_page_num, write_head, take_free, get_unused_page_num, pager_free_page,
}

-- What no read of a page touches.
abbrev Heads : Type 0
Heads = ℕ × ℕ

abbrev heads : Pager → Heads
heads s = (s.freelist_head, s.reserved_catalog_pages)

heads-get_page : (n : ℕ) (s : Pager) → heads (get_page n s).1 ≡ heads s
heads-get_page n s = ap (λ r. (r.0, r.1.0)) (rest-get_page n s)

heads-store : (s : Pager) (b : Buffer) (p : Page) → heads (store s b p) ≡ heads s
unfolding store
heads-store s (base n) p = refl
heads-store s (shadow n) p = refl

heads-write_head : (s : Pager) → heads (write_head s) ≡ heads s
unfolding write_head
heads-write_head s =
    let t = (get_page 0 s).1 in
    let put : Option Buffer → Pager = λ b. elim b [
      | none ↦ t
      | some buffer ↦ store t buffer (store_bytes 4092 (le_bytes 4 t.freelist_head) (load t buffer))
    ] in
    elim (Option-cases (get_page 0 s).0) [
      | inl e ↦ ap (λ b. heads (put b)) e ∙ heads-get_page 0 s
      | inr (buffer, e) ↦
          ap (λ b. heads (put b)) e
          ∙ heads-store t buffer (store_bytes 4092 (le_bytes 4 t.freelist_head) (load t buffer))
          ∙ heads-get_page 0 s
    ]

-- A page that the free list takes is at its head, unless no page was to be had for reading.
freed_cases :
    (n : ℕ) (s : Pager)
    → ltb n s.reserved_catalog_pages || (n == 0 || n == invalid_page_num) ≡ false
    → (get_page n s).0 ≢ none
    → heads (pager_free_page n s) ≡ (n, s.reserved_catalog_pages)
unfolding pager_free_page
freed_cases n s free there =
    let t = (get_page n s).1 in
    let cleared : Buffer → Pager = λ b.
      record (store t b (store_bytes 0 (le_bytes 4 t.freelist_head) zero_page)) {
        freelist_head = n;
      } in
    let put : Option Buffer → Pager = λ o. elim o [ none ↦ t | some b ↦ write_head (cleared b) ] in
    rw free (elim (Option-cases (get_page n s).0) [
      | inl e ↦ absurd (there e)
      | inr (b, e) ↦
          ap (λ o. heads (put o)) e
          ∙ heads-write_head (cleared b)
          ∙ ap (λ h. (n, h.1))
              (heads-store t b (store_bytes 0 (le_bytes 4 t.freelist_head) zero_page)
                ∙ heads-get_page n s)
    ])

taken_lem : (s : Pager) → (take_free s).0 ≡ s.freelist_head
unfolding take_free
taken_lem s =
    let (b, t) = get_page s.freelist_head s in
    let taken : Option Buffer → ℕ × Pager = λ o. elim o [
      | none ↦ (s.freelist_head, t)
      | some buffer ↦ (
        s.freelist_head,
        write_head (
            store (record t { freelist_head = read_le 4 (from (load t buffer) 0) }) buffer
              zero_page),
      )
    ] in
    elim (Option-cases (get_page s.freelist_head s).0) [
      | inl e ↦ ap (λ o. (taken o).0) e
      | inr (buffer, e) ↦ ap (λ o. (taken o).0) e
    ]

unused_bound : (s : Pager) → s.reserved_catalog_pages ≤ (get_unused_page_num s).0
unfolding get_unused_page_num
unused_bound s =
    let reused =
      not (s.freelist_head == 0)
      && (not (s.freelist_head == invalid_page_num)
          && leb s.reserved_catalog_pages s.freelist_head) in
    elim (Bool-cases reused) [
      | inl e ↦ rw (e, taken_lem s) (ground (arith, e))
      | inr e ↦ rw e (ground arith)
    ]

unused_head :
    (s : Pager) (n r : ℕ)
    → s.freelist_head ≡ n
    → s.reserved_catalog_pages ≡ r
    → ltb n r || (n == 0 || n == invalid_page_num) ≡ false
    → (get_unused_page_num s).0 ≡ n
unfolding get_unused_page_num
unused_head s n r e e' free =
    let reused : (not (s.freelist_head == 0)
          && (not (s.freelist_head == invalid_page_num)
              && leb s.reserved_catalog_pages s.freelist_head))
        ≡ true =
      rw (e, e') (ground (arith, free)) in
    rw reused (taken_lem s ∙ e)

-- Freeing a page that is neither the catalog's nor page 0 nor the invalid one, and that is to be had for
-- reading, makes it the next that is handed out; without it, too, no page below
-- `reserved_catalog_pages` is handed out.
pub get_unused_page_num-pager_free_page :
    (s : Pager) (n : ℕ)
    → s.reserved_catalog_pages ≤ n
    → 1 ≤ n
    → n < invalid_page_num
    → (get_page n s).0 ≢ none
    → ((get_unused_page_num (pager_free_page n s)).0 ≡ n)
      × (s.reserved_catalog_pages ≤ (get_unused_page_num s).0)
get_unused_page_num-pager_free_page s n above some_ valid there =
    let free : (ltb n s.reserved_catalog_pages || (n == 0 || n == invalid_page_num)) ≡ false =
      ground (arith, above, some_, valid) in
    let kept = freed_cases n s free there in
    (
      unused_head (pager_free_page n s) n s.reserved_catalog_pages (ap (λ h. h.0) kept)
          (ap (λ h. h.1) kept) free,
      unused_bound s,
    )
