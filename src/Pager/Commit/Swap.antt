-- ===== src/Pager/Commit/Swap.antt =====
-- The loop of a commit that puts the shadow pages in the places of the pages.
use custom_db.Prelude.{
  ℕ, zero, suc, ◌+◌, ◌≤◌, ◌<◌, ◌≡◌, refl, sym, ap, ◌∙◌, true, false, Option, none, some, ◌∷◌, ◌==◌,
  arith, Bool-cases, inl, inr,
}
use custom_db.Pager.State.{Page, Pager, update}
use mathlib.Core.Path.{subst}
use custom_db.Pager.Commit.{swap_page, swap_pages}

-- The shadow page takes the place of the page.
abbrev pub published : Option Page → Option Page → Option Page
published none old = old
published (some p) old = some p

abbrev swap_with : ℕ → Pager → Option Page → Pager
unfolding update
swap_with i s o = elim o [
  | none ↦ s
  | some p ↦ record s {
    retired_pages = record { buffer = s.pages i; retired_lsn = s.wal_lsn } ∷ s.retired_pages;
    pages = update s.pages i (some p);
    shadow = update s.shadow i none;
  }
]

abbrev Unswapped : ℕ → Pager → Pager → Type 0
Unswapped j s t = (t.pages j ≡ s.pages j) × (t.shadow j ≡ s.shadow j)

abbrev pub Swapped : ℕ → Pager → Pager → Type 0
Swapped j s t = (t.pages j ≡ published (s.shadow j) (s.pages j)) × (t.shadow j ≡ none)

swap-other :
    (i j : ℕ) (s : Pager) (o : Option Page) → (j == i) ≡ false → Unswapped j s (swap_with i s o)
unfolding swap_with update
swap-other i j s none e = (refl, refl)
swap-other i j s (some p) e = (rw e refl, rw e refl)

swap-same :
    (i : ℕ) (s : Pager) (o : Option Page)
    → s.shadow i ≡ o
    → ((swap_with i s o).pages i ≡ published o (s.pages i)) × ((swap_with i s o).shadow i ≡ none)
unfolding swap_with update
swap-same i s none h = (refl, h)
swap-same i s (some p) h = let self : (i == i) ≡ true = ground arith in (rw self refl, rw self refl)

swap_page-other : (i j : ℕ) (s : Pager) → (j == i) ≡ false → Unswapped j s (swap_page i s)
unfolding swap_page swap_with
swap_page-other i j s e = swap-other i j s (s.shadow i) e

swap_page-same : (i : ℕ) (s : Pager) → Swapped i s (swap_page i s)
unfolding swap_page swap_with
swap_page-same i s = swap-same i s (s.shadow i) refl

swap_pages-before : (left i j : ℕ) (s : Pager) → j < i → Unswapped j s (swap_pages left i s)
unfolding swap_pages
swap_pages-before zero i j s h = (refl, refl)
swap_pages-before (suc left) i j s h =
    let apart : (j == i) ≡ false = ground arith in
    let rest_ = swap_pages-before left (i + 1) j (swap_page i s) (omega arith) in
    let first = swap_page-other i j s apart in (rest_.0 ∙ first.0, rest_.1 ∙ first.1)

pub swap_pages-Swapped :
    (left i j : ℕ) (s : Pager) → i ≤ j → j < i + left → Swapped j s (swap_pages left i s)
unfolding swap_pages
swap_pages-Swapped zero i j s low high = absurd (omega arith)
swap_pages-Swapped (suc left) i j s low high = elim (Bool-cases (j == i)) [
  | inl e ↦
      (let same : j ≡ i = ground (arith, e) in
        let rest_ = swap_pages-before left (i + 1) j (swap_page i s) (omega arith) in
        let first = swap_page-same i s in
        subst (λ k. Swapped k s (swap_pages left (i + 1) (swap_page i s))) (sym same)
          (let later = swap_pages-before left (i + 1) i (swap_page i s) (omega arith) in
            (later.0 ∙ first.0, later.1 ∙ first.1)))
  | inr e ↦
      (let above : i + 1 ≤ j = ground (arith, e, low) in
        let rest_ = swap_pages-Swapped left (i + 1) j (swap_page i s) above (omega arith) in
        let first = swap_page-other i j s e in
        (
          rest_.0
              ∙ ap (λ o. published o ((swap_page i s).pages j)) first.1
              ∙ ap (published (s.shadow j)) first.0,
          rest_.1,
        ))
]
