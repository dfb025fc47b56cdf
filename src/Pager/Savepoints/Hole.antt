-- ===== src/Pager/Savepoints/Hole.antt =====
-- The first page that is journaled after a ROLLBACK TO: `journal_fd` has no O_APPEND and still stands
-- at the old end of the journal.
use custom_db.Prelude.{
  ℕ, zero, suc, ◌+◌, ◌-◌, ◌≤◌, ◌<◌, ◌≡◌, refl, sym, ap, ◌∙◌, true, false, not, ◌&&◌, Option, none,
  some, List, [], ◌∷◌, ◌++◌, take, drop, replicate, length, length-append, length-take,
  length-replicate, take_past, drop_past, ltb, ◌==◌, if◌then◌else◌, arith, Bool-cases, inl, inr,
}
use custom_db.Pager.State.{Page, zero_page, Entry, Savepoint, Pager}
use custom_db.Pager.Journal.Rollback.{last_image}
use custom_db.Pager.Shadow.{zero_entry, write_entry, mark_journaled, append_image, pre_image}
use custom_db.Pager.Savepoints.{
  find_savepoint, undo_page, undo_pages, undo_journal, drop_pages, pager_rollback_to_savepoint,
}
use mathlib.Core.List.{reverse}

last_image-append :
    (n : ℕ) (d : Page) (xs ys : List Entry)
    → last_image n d (xs ++ ys) ≡ last_image n (last_image n d xs) ys
unfolding last_image
last_image-append n d [] ys = refl
last_image-append n d (x ∷ xs) ys = last_image-append n (if x.pnum == n then x.page else d) xs ys

last_image-zeros : (k : ℕ) (d : Page) → last_image 0 d (replicate (suc k) zero_entry) ≡ zero_page
unfolding last_image
last_image-zeros zero d = refl
last_image-zeros (suc k) d = last_image-zeros k zero_page

-- An entry that is written behind the end of the journal leaves a hole.
hole_lem :
    (pos : ℕ) (e : Entry) (es : List Entry) (d : Page)
    → length es < pos
    → 1 ≤ e.pnum
    → last_image 0 d (write_entry pos e es) ≡ zero_page
unfolding write_entry
hole_lem pos e es d h some_ =
    let k = pos - length es in
    let hole = es ++ replicate k zero_entry in
    let long : length hole ≡ pos =
      omega (arith, length-append es (replicate k zero_entry), length-replicate k zero_entry) in
    let more : suc (k - 1) ≡ k = omega arith in
    let zeros : last_image 0 (last_image 0 d es) (replicate k zero_entry) ≡ zero_page =
      rw (sym more) (last_image-zeros (k - 1) (last_image 0 d es)) in
    let other : (e.pnum == 0) ≡ false = ground arith in
    let last : last_image 0 zero_page (e ∷ []) ≡ zero_page = (unfold last_image in rw other refl) in
    rw (take_past pos hole (omega (arith, long)), drop_past (pos + 1) es (omega arith))
      (last_image-append 0 d hole (e ∷ [])
        ∙ ap (λ p. last_image 0 p (e ∷ []))
            (last_image-append 0 d es (replicate k zero_entry) ∙ zeros)
        ∙ last)

-- What undoing pages keeps of the journal.
undo_pages-journal :
    (es : List Entry) (s : Pager)
    → ((undo_pages es s).journal_pos ≡ s.journal_pos) × ((undo_pages es s).journal ≡ s.journal)
unfolding undo_pages
undo_pages-journal [] s = (refl, refl)
undo_pages-journal (e ∷ es) s =
    let rest = undo_pages-journal es (undo_page s e) in unfold undo_page in rest

undo_journal-cut :
    (target : ℕ) (s : Pager)
    → s.journal_exists ≡ true
    → target < length s.journal
    → ((undo_journal target s).journal_pos ≡ s.journal_pos)
      × ((undo_journal target s).journal ≡ take target s.journal)
unfolding undo_journal
undo_journal-cut target s there h =
    let cut : (s.journal_exists && ltb target (length s.journal)) ≡ true = ground (arith, there) in
    rw cut ((undo_pages-journal (reverse (drop target s.journal)) s).0, refl)

drop_pages-journal :
    (n : ℕ) (s : Pager)
    → ((drop_pages n s).journal_pos ≡ s.journal_pos) × ((drop_pages n s).journal ≡ s.journal)
unfolding drop_pages
drop_pages-journal n s = elim (Bool-cases (ltb 0 n && ltb n s.num_pages)) [
  | inl e ↦ rw e (refl, refl)
  | inr e ↦ rw e (refl, refl)
]

rollback_to_run :
    (name : List ℕ) (s : Pager) (idx : ℕ) (p : Savepoint)
    → s.in_transaction ≡ true
    → find_savepoint name 0 s.savepoints ≡ some (idx, p)
    → pager_rollback_to_savepoint name s
      ≡ record (drop_pages p.num_pages_at_savepoint (undo_journal p.journal_offset s)) {
        savepoints = take (idx + 1) s.savepoints;
      }
unfolding pager_rollback_to_savepoint
rollback_to_run name s idx p open_ found =
    let go : Option (ℕ × Savepoint) → Pager = λ o. elim o [
      | none ↦ s
      | some (i, q) ↦
          record (drop_pages q.num_pages_at_savepoint (undo_journal q.journal_offset s)) {
            savepoints = take (i + 1) s.savepoints;
          }
    ] in
    let started : not s.in_transaction ≡ false = ap not open_ in rw started (ap go found)

-- If a ROLLBACK TO cuts off journal entries written behind the savepoint, with the journal's descriptor
-- at its end, then once the next page, not page 0, is journaled, the image from which a rollback
-- or a recovery restores page 0 is all zeros.
pub rollback_to-hole :
    (name : List ℕ) (s : Pager) (idx : ℕ) (p : Savepoint) (n : ℕ) (d : Page)
    → s.in_transaction ≡ true
    → find_savepoint name 0 s.savepoints ≡ some (idx, p)
    → s.journal_exists ≡ true
    → p.journal_offset < length s.journal
    → s.journal_pos ≡ length s.journal
    → 1 ≤ n
    → last_image 0 d (append_image n (pager_rollback_to_savepoint name s)).journal ≡ zero_page
rollback_to-hole name s idx p n d open_ found there behind at_end some_ =
    let off = p.journal_offset in
    let t = pager_rollback_to_savepoint name s in
    let u = undo_journal off s in
    let cut = undo_journal-cut off s there behind in
    let kept = drop_pages-journal p.num_pages_at_savepoint u in
    let run = rollback_to_run name s idx p open_ found in
    let journal : t.journal ≡ take off s.journal = ap (λ v. v.journal) run ∙ kept.1 ∙ cut.1 in
    let pos : t.journal_pos ≡ length s.journal =
      ap (λ v. v.journal_pos) run ∙ kept.0 ∙ cut.0 ∙ at_end in
    let e : Entry = record { pnum = n; page = pre_image t n } in
    let short : length (take off s.journal) ≡ off = length-take off s.journal (omega arith) in
    let written : (append_image n t).journal ≡ write_entry t.journal_pos e t.journal =
      (unfold append_image mark_journaled in refl) in
    ap (last_image 0 d) (
      written
      ∙ ap (λ k. write_entry k e t.journal) pos
      ∙ ap (write_entry (length s.journal) e) journal)
    ∙ hole_lem (length s.journal) e (take off s.journal) d (omega (arith, short)) some_
