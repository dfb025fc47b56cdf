-- ===== src/Pager/Shadow/Touches.antt =====
-- Which pages the steps of `pager_shadow_page_write` touch.
use custom_db.Prelude.{ℕ, ◌<◌, ◌≡◌, refl, sym, ◌∙◌, true, false, some, ltb, arith, inl, inr, ◌⊎◌}
use custom_db.Pager.State.{Page, Pager, update}
use custom_db.Pager.Cache.{read_page, resize, fetch, get_page, is_shadowed}
use custom_db.Pager.Shadow.{mark_dirty, grow_shadows, cached, is_journaled}
use custom_db.Pager.Shadow.Journaled.{
  Journaling, touched, CoveredBut, get_page_run, is_journaled-resize, is_dirty-resize,
}
use custom_db.Pager.Shadow.Kept.{fetch_cases}
use mathlib.Core.Path.{subst}

-- A page that is touched after a step was touched before it, or is page `x`; the flags on journaled
-- pages stay.
abbrev pub Touches : ℕ → Pager → Pager → Type 0
Touches x s t =
    ((n : ℕ) → touched t n ≡ true → (touched s n ≡ true) ⊎ (n ≡ x))
    × ((n : ℕ) → is_journaled t n ≡ is_journaled s n)

pub CoveredBut-Touches : (x : ℕ) (s t : Pager) → Touches x s t → CoveredBut x s → CoveredBut x t
CoveredBut-Touches x s t (only, flags) h n e = elim (only n e) [
  | inl before ↦ elim (h n before) [ inl there ↦ inl (flags n ∙ there) | inr same ↦ inr same ]
  | inr same ↦ inr same
]

pub mark_dirty-Touches : (n : ℕ) (s : Pager) → Touches n s (mark_dirty n s)
unfolding mark_dirty is_journaled is_shadowed update
mark_dirty-Touches n s = (λ m e. ground arith, λ m. refl)

pub grow_shadows-Touches : (n : ℕ) (s : Pager) → Touches n s (grow_shadows n s)
unfolding grow_shadows is_journaled is_shadowed
grow_shadows-Touches n s = (λ m e. ground arith, λ m. ground arith)

is_shadowed-resize : (n m : ℕ) (s : Pager) → is_shadowed (resize n s) m ≡ is_shadowed s m
unfolding resize is_shadowed
is_shadowed-resize n m s = ground arith

resize-Touches : (x n : ℕ) (s : Pager) → s.in_transaction ≡ true → Touches x s (resize n s)
resize-Touches x n s e = (
  λ m h. ground (arith, is_shadowed-resize n m s, is_dirty-resize s n m),
  λ m. is_journaled-resize s n m e,
)

fetch-Touches : (x n : ℕ) (s : Pager) → Touches x s (fetch n s)
unfolding is_shadowed is_journaled
fetch-Touches x n s = elim (fetch_cases s n) [
  | inl (e, run) ↦ subst (Touches x s) (sym run) (λ m e. inl e, λ m. refl)
  | inr (p, e, run) ↦ subst (Touches x s) (sym run) (λ m e. inl e, λ m. refl)
]

pub Touches-trans : (x : ℕ) (s t u : Pager) → Touches x s t → Touches x t u → Touches x s u
Touches-trans x s t u (a, b) (c, d) =
    (λ m e. elim (c m e) [ inl e' ↦ a m e' | inr same ↦ inr same ], λ m. d m ∙ b m)

module _ (base : ℕ → Page) (s : Pager) (n : ℕ) (j : Journaling base s) where
  pub get_page-Touches : (x : ℕ) → Touches x s (get_page n s).1
  unfolding is_shadowed is_journaled
  get_page-Touches x =
      let t : Pager = record s { lock_error = false } in
      subst (Touches x s) (sym (get_page_run base s n j)) (
        Touches-trans x s (resize n t) (fetch n (resize n t)) (resize-Touches x n t j.started)
          (fetch-Touches x n (resize n t)))

  pub fetched_page :
      n < (resize n (record s { lock_error = false })).max_pages
      → (q : Page) × (cached (get_page n s).1 n ≡ some q)
  fetched_page fits =
      let r = resize n (record s { lock_error = false }) in
      let inside : ltb n r.max_pages ≡ true = ground (arith, fits) in
      subst (λ t. (q : Page) × (cached t n ≡ some q)) (sym (get_page_run base s n j))
        (elim (fetch_cases r n) [
          | inl (e, run) ↦
              subst (λ t. (q : Page) × (cached t n ≡ some q)) (sym run)
                (read_page r n, unfold cached update in ground (arith, inside))
          | inr (p, e, run) ↦
              subst (λ t. (q : Page) × (cached t n ≡ some q)) (sym run)
                (p, unfold cached in ground (arith, inside, e))
        ])
