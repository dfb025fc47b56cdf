-- ===== src/Pager/Shadow/Runs.antt =====
-- The runs of a transaction between its first change and its end.
use custom_db.Prelude.{ℕ, ◌+◌, ◌^◌, ◌<◌, ◌≡◌, ◌∙◌, true, some, arith, inl, inr}
use custom_db.Pager.State.{Page, Pager, update}
use custom_db.Pager.Cache.{shadow, store, get_page, is_shadowed}
use custom_db.Pager.Shadow.{is_journaled, pager_journal_page}
use custom_db.Pager.Shadow.Journaled.{Journaling, touched, Covered, own_copies-Journaling}
use custom_db.Pager.Shadow.Kept.{get_page-Journaling}
use custom_db.Pager.Shadow.Touches.{get_page-Touches}
use custom_db.Pager.Shadow.Steps.{IsProtected, pager_journal_page_lem}

-- What a writer does: it has a page journaled, it reads a page, and it writes to a copy of its own.
-- The number of a journaled page leaves room for the arrays that are grown by 1024 behind it.
pub data Step : Pager → Pager → Type 0 where
  journals : {s : Pager} (n : ℕ) → n + 1024 < 2 ^ 32 → Step s (pager_journal_page n s)
  reads_page : {s : Pager} (n : ℕ) → Step s (get_page n s).1
  writes : {s : Pager} (n : ℕ) (p : Page) → is_shadowed s n ≡ true → Step s (store s (shadow n) p)

pub data Run : Pager → Pager → Type 0 where
  done : {s : Pager} → Run s s
  next : {s t u : Pager} → Step s t → Run t u → Run s u

touched_stored :
    (s : Pager) (n m : ℕ) (p : Page)
    → is_shadowed s n ≡ true
    → touched (record s { shadow = update s.shadow n (some p) }) m ≡ true
    → touched s m ≡ true
unfolding is_shadowed update
touched_stored s n m p there e = ground arith

store_lem :
    (base : ℕ → Page) (s : Pager) (n : ℕ) (p : Page)
    → is_shadowed s n ≡ true
    → IsProtected base s
    → IsProtected base (store s (shadow n) p)
unfolding store
store_lem base s n p there (j, covered) = (
  own_copies-Journaling base s s.active_writer s.is_writer s.lock_error s.is_dirty
      (update s.shadow n (some p)) s.shadow_capacity j,
  λ m e.
      (let before : is_journaled s m ≡ true = covered m (touched_stored s n m p there e) in
        unfold is_journaled in before),
)

get_page-Covered :
    (base : ℕ → Page) (s : Pager) (n : ℕ) → Journaling base s → Covered s → Covered (get_page n s).1
get_page-Covered base s n j covered m e =
    let touches = get_page-Touches base s n j (m + 1) in
    elim (touches.0 m e) [
      | inl before ↦ touches.1 m ∙ covered m before
      | inr same ↦ absurd (omega (arith, same))
    ]

step_lem : (base : ℕ → Page) (s t : Pager) → Step s t → IsProtected base s → IsProtected base t
step_lem base s t (journals n small) h = pager_journal_page_lem base s n small h
step_lem base s t (reads_page n) (j, covered) =
    (get_page-Journaling base s n j, get_page-Covered base s n j covered)
step_lem base s t (writes n p there) h = store_lem base s n p there h

-- In a transaction without savepoints whose journal has the content at the start of every page that
-- has a shadow or is marked dirty, this stays so whatever the writer does: it may have pages journaled,
-- read pages, and write to its own copies, in any order.
pub Run-IsProtected :
    (base : ℕ → Page) (s t : Pager) → Run s t → IsProtected base s → IsProtected base t
Run-IsProtected base s t done h = h
Run-IsProtected base s t (next {t = u} step rest) h =
    Run-IsProtected base u t rest (step_lem base s u step h)
