-- ===== src/Pager/Shadow/Copies.antt =====
-- The steps of `pager_shadow_page_write`.
use custom_db.Prelude.{
  ℕ, ◌+◌, ◌^◌, ◌<◌, ◌≡◌, refl, sym, ap, ◌∙◌, Bool, true, false, ◌&&◌, Option, none, some, ltb, leb,
  ◌==◌, if◌then◌else◌, arith, Bool-cases, Option-cases, inl, inr, ◌⊎◌,
}
use custom_db.Pager.State.{Page, u32, Pager, update}
use custom_db.Pager.Cache.{or_zero, resize, get_page, is_shadowed}
use custom_db.Pager.Shadow.{
  track_size, or_clear, mark_dirty, grow_shadows, cached, fetch_base, make_shadow,
  pager_shadow_page_write, pre_image, is_journaled,
}
use custom_db.Pager.Shadow.Journaled.{
  Journaling, Covered, ensure_run, get_page_run, own_copies-Journaling, resize-fits,
}
use custom_db.Pager.Shadow.Kept.{get_page-Journaling, fetch_cases}
use custom_db.Pager.Shadow.Touches.{
  Touches, Touches-trans, mark_dirty-Touches, grow_shadows-Touches, get_page-Touches, fetched_page,
}
use mathlib.Core.Path.{subst}

-- The page that the copy is made of.
cached_base :
    (base : ℕ → Page) (s : Pager) (n : ℕ) (q : Page)
    → Journaling base s
    → cached s n ≡ some q
    → q ≡ base n
unfolding cached
cached_base base s n q j e = j.caches n q (ground arith)

cached_inside : (s : Pager) (n : ℕ) (q : Page) → cached s n ≡ some q → n < s.max_pages
unfolding cached
cached_inside s n q e = ground arith

fetch_base_cases :
    (s : Pager) (n : ℕ)
    → ((cached s n ≡ none) × (fetch_base n s ≡ (get_page n s).1))
      ⊎ ((p : Page) × (cached s n ≡ some p) × (fetch_base n s ≡ s))
unfolding fetch_base
fetch_base_cases s n =
    let chosen : Option Page → Pager = λ o. elim o [ none ↦ (get_page n s).1 | some p ↦ s ] in
    elim (Option-cases (cached s n)) [
      | inl e ↦ inl (e, ap chosen e)
      | inr (p, e) ↦ inr (p, e, ap chosen e)
    ]

-- What is known of the page once it is cached.
abbrev pub IsFetched : (ℕ → Page) → ℕ → Pager → Pager → Type 0
IsFetched base n s t =
    Journaling base t × Touches n s t × (or_zero (cached t n) ≡ base n) × (n < t.max_pages)

pub fetch_base_lem :
    (base : ℕ → Page) (s : Pager) (n : ℕ)
    → n < 2 ^ 32
    → Journaling base s
    → IsFetched base n s (fetch_base n s)
fetch_base_lem base s n small j =
    let t : Pager = record s { lock_error = false } in
    elim (fetch_base_cases s n) [
      | inl (e, run) ↦
          (let (q, there) = fetched_page base s n j (resize-fits t n j.some_room small) in
            let jt = get_page-Journaling base s n j in
            subst (IsFetched base n s) (sym run) (
              jt,
              get_page-Touches base s n j n,
              ap or_zero there ∙ cached_base base (get_page n s).1 n q jt there,
              cached_inside (get_page n s).1 n q there,
            ))
      | inr (p, e, run) ↦ subst (IsFetched base n s) (sym run) (
        j,
        (λ m h. inl h, λ m. refl),
        ap or_zero e ∙ cached_base base s n p j e,
        cached_inside s n p e,
      )
    ]

make_shadow_cases :
    (s : Pager) (n : ℕ)
    → ((is_shadowed s n ≡ true) × (make_shadow n s ≡ s))
      ⊎ ((is_shadowed s n ≡ false)
          × (make_shadow n s ≡ record (fetch_base n s) {
            shadow = update (fetch_base n s).shadow n (some (or_zero (cached (fetch_base n s) n)));
          }))
unfolding make_shadow
make_shadow_cases s n = elim (Bool-cases (is_shadowed s n)) [
  | inl e ↦ inl (e, simp e)
  | inr e ↦ inr (e, simp e)
]

shadowed-Touches :
    (n : ℕ) (s : Pager) (q : Page) → Touches n s (record s { shadow = update s.shadow n (some q) })
unfolding is_shadowed is_journaled update
shadowed-Touches n s q = (λ m e. ground arith, λ m. refl)

fetch_base-capacity :
    (base : ℕ → Page) (s : Pager) (n : ℕ)
    → Journaling base s
    → (fetch_base n s).shadow_capacity ≡ s.shadow_capacity
fetch_base-capacity base s n j =
    let r = resize n (record s { lock_error = false }) in
    let kept : r.shadow_capacity ≡ s.shadow_capacity = (unfold resize in ground arith) in
    elim (fetch_base_cases s n) [
      | inl (e, run) ↦
          (ap (λ t. t.shadow_capacity) (run ∙ get_page_run base s n j) ∙ elim (fetch_cases r n) [
            | inl (e', run') ↦ ap (λ t. t.shadow_capacity) run' ∙ kept
            | inr (p, e', run') ↦ ap (λ t. t.shadow_capacity) run' ∙ kept
          ])
      | inr (p, e, run) ↦ ap (λ t. t.shadow_capacity) run
    ]

-- The writer's marks, before the copy is made.
abbrev pub prepared : ℕ → Pager → Pager
prepared n s = grow_shadows n (mark_dirty n (record s { active_writer = true; is_writer = true }))

module _ (base : ℕ → Page) (s : Pager) (n : ℕ) (j : Journaling base s) where
  prepared-Journaling : Journaling base (prepared n s)
  unfolding grow_shadows mark_dirty
  prepared-Journaling =
      let f = or_clear s.is_dirty in
      let d = some (if ltb n (track_size s) then update f n true else f) in
      elim (Bool-cases (leb s.shadow_capacity n)) [
        | inl e ↦ simp e (
            own_copies-Journaling base s true true s.lock_error d
              (λ i. if leb s.shadow_capacity i && ltb i (u32 (n + 1024)) then none else s.shadow i)
              (u32 (n + 1024)) j)
        | inr e ↦
            simp e
              (own_copies-Journaling base s true true s.lock_error d s.shadow s.shadow_capacity j)
      ]

  prepared-Touches : Touches n s (prepared n s)
  unfolding is_shadowed is_journaled
  prepared-Touches =
      let t : Pager = record s { active_writer = true; is_writer = true } in
      Touches-trans n s (mark_dirty n t) (grow_shadows n (mark_dirty n t)) (mark_dirty-Touches n t)
        (grow_shadows-Touches n (mark_dirty n t))

  prepared-shadowed : is_shadowed (prepared n s) n ≡ true → is_shadowed s n ≡ true
  unfolding is_shadowed grow_shadows mark_dirty
  prepared-shadowed h = ground arith

  prepared-capacity : n + 1024 < 2 ^ 32 → n < (prepared n s).shadow_capacity
  unfolding grow_shadows mark_dirty
  prepared-capacity small = ground arith

pub shadow_page_write_run :
    (base : ℕ → Page) (s : Pager) (n : ℕ)
    → Journaling base s
    → pager_shadow_page_write n s ≡ make_shadow n (prepared n s)
unfolding pager_shadow_page_write
shadow_page_write_run base s n j = simp (j.started, ensure_run base s j)

-- After `pager_shadow_page_write` the page is journaled already, or its image to be is the content
-- at the start.
abbrev pub IsReady : (ℕ → Page) → ℕ → Pager → Pager → Type 0
IsReady base n s t =
    Journaling base t
    × Touches n s t
    × ((is_journaled t n ≡ true) ⊎ ((pre_image t n ≡ base n) × (n < track_size t)))

update_self {ℓ} : {A : Type ℓ} (f : ℕ → A) (n : ℕ) (a : A) → update f n a n ≡ a
unfolding update
update_self f n a = let self : (n == n) ≡ true = ground arith in rw self refl

is_shadowed_copy :
    (s : Pager) (n : ℕ) (q : Page)
    → n < s.shadow_capacity
    → is_shadowed (record s { shadow = update s.shadow n (some q) }) n ≡ true
unfolding is_shadowed
is_shadowed_copy s n q h =
    let inside : ltb n s.shadow_capacity ≡ true = ground arith in
    let there : Option Page → Bool =
      λ o. elim o [ none ↦ false | some p ↦ ltb n s.shadow_capacity ] in
    ap there (update_self s.shadow n (some q)) ∙ inside

image_of_copy :
    (s : Pager) (n : ℕ) (q : Page)
    → n < s.shadow_capacity
    → pre_image (record s { shadow = update s.shadow n (some q) }) n ≡ q
unfolding pre_image
image_of_copy s n q h = rw (is_shadowed_copy s n q h) (ap or_zero (update_self s.shadow n (some q)))

pub shadow_page_write_lem :
    (base : ℕ → Page) (s : Pager) (n : ℕ)
    → n + 1024 < 2 ^ 32
    → Journaling base s
    → Covered s
    → IsReady base n s (pager_shadow_page_write n s)
shadow_page_write_lem base s n small j covered =
    let u = prepared n s in
    let ju = prepared-Journaling base s n j in
    let tu = prepared-Touches base s n j in
    subst (IsReady base n s) (sym (shadow_page_write_run base s n j))
      (elim (make_shadow_cases u n) [
        | inl (e, run) ↦
            (let before : is_shadowed s n ≡ true = prepared-shadowed base s n j e in
              let there = covered n (ground (arith, before)) in
              subst (IsReady base n s) (sym run) (ju, tu, inl (tu.1 n ∙ there)))
        | inr (e, run) ↦
            (let (jt, tt_, image, inside) = fetch_base_lem base u n (omega (arith, small)) ju in
              let t = fetch_base n u in
              let q = or_zero (cached t n) in
              let c : n < t.shadow_capacity =
                omega
                  (arith, fetch_base-capacity base u n ju, prepared-capacity base s n j small) in
              let v : Pager = record t { shadow = update t.shadow n (some q) } in
              let jv =
                own_copies-Journaling base t t.active_writer t.is_writer t.lock_error t.is_dirty
                  (update t.shadow n (some q)) t.shadow_capacity jt in
              subst (IsReady base n s) (sym run) (
                jv,
                Touches-trans n s u v tu (Touches-trans n u t v tt_ (shadowed-Touches n t q)),
                inr (image_of_copy t n q c ∙ image, omega (arith, inside)),
              ))
      ])
