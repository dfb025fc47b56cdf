-- ===== src/Pager/Shadow/Steps.antt =====
-- A transaction's steps, and what they all keep: the journal has what a rollback needs.
use custom_db.Prelude.{
  ℕ, ◌+◌, ◌-◌, ◌^◌, ◌<◌, ◌≡◌, sym, ap, ◌∙◌, Bool, true, false, not, ◌||◌, Option, none, some, List,
  [], ◌∷◌, ◌++◌, All, length, length-append, drop_past, take-length-append, ltb, if◌then◌else◌,
  arith, Bool-cases, inl, inr, ◌⊎◌,
}
use custom_db.Pager.State.{Page, Entry, Pager, update}
use custom_db.Pager.Cache.{wal_lookup, read_page, is_shadowed}
use custom_db.Pager.Shadow.{
  track_size, pager_shadow_page_write, pre_image, no_savepoints, is_set, is_journaled, write_entry,
  mark_journaled, append_image, pager_journal_page,
}
use custom_db.Pager.Shadow.Journaled.{
  has_image, has_image-append, Journaling, touched, CoveredBut, Covered,
}
use custom_db.Pager.Shadow.Touches.{Touches, CoveredBut-Touches}
use custom_db.Pager.Shadow.Copies.{shadow_page_write_lem}
use mathlib.Core.Path.{subst}

-- At the end of the journal an entry is appended.
write_entry_end : (e : Entry) (es : List Entry) → write_entry (length es) e es ≡ es ++ e ∷ []
unfolding write_entry
write_entry_end e es =
    let none_missing : length es - length es ≡ 0 = omega arith in
    rw (none_missing, drop_past (length es + 1) es (omega arith))
      (ap (λ l. l ++ e ∷ []) (take-length-append es []))

All-append {ℓ κ} :
    {A : Type ℓ} (P : A → Type κ) (xs : List A) (x : A) → All P xs → P x → All P (xs ++ x ∷ [])
All-append P [] x all px = (px, tt)
All-append P (y ∷ ys) x all px = (all.0, All-append P ys x all.1 px)

is_set-mark :
    (f : ℕ → Bool) (max n m : ℕ)
    → is_set max (some (if ltb n (max + 1024) then update f n true else f)) m ≡ true
    → (is_set max (some f) m ≡ true) ⊎ (m ≡ n)
unfolding update
is_set-mark f max n m e = ground arith

is_set-marked :
    (f : ℕ → Bool) (max n m : ℕ)
    → (is_set max (some f) m ≡ true) ⊎ ((m ≡ n) × (n < max + 1024))
    → is_set max (some (if ltb n (max + 1024) then update f n true else f)) m ≡ true
unfolding update
is_set-marked f max n m e = ground arith

module _ (base : ℕ → Page) (s : Pager) (n : ℕ) (j : Journaling base s)
    (image : pre_image s n ≡ base n) where
  append_image-journal :
      (append_image n s).journal ≡ s.journal ++ record { pnum = n; page = pre_image s n } ∷ []
  unfolding append_image mark_journaled
  append_image-journal =
      ap (λ k. write_entry k (record { pnum = n; page = pre_image s n }) s.journal) j.at_end
      ∙ write_entry_end (record { pnum = n; page = pre_image s n }) s.journal

  marked_flags :
      (append_image n s).page_is_journaled
      ≡ some (if ltb n (track_size s) then update j.tracked.0 n true else j.tracked.0)
  unfolding append_image mark_journaled
  marked_flags =
      let marking : Option (ℕ → Bool) → Option (ℕ → Bool) = λ o. elim o [
        | none ↦ none
        | some f ↦ some (if ltb n (track_size s) then update f n true else f)
      ] in
      ap marking j.tracked.1

  is_journaled-append_image :
      (m : ℕ)
      → is_journaled (append_image n s) m
        ≡ is_set s.max_pages
            (some (if ltb n (track_size s) then update j.tracked.0 n true else j.tracked.0))
            m
  unfolding is_journaled append_image mark_journaled
  is_journaled-append_image m = ap (λ o. is_set s.max_pages o m) marked_flags

  flag_before : (m : ℕ) → is_set s.max_pages (some j.tracked.0) m ≡ is_journaled s m
  unfolding is_journaled
  flag_before m = ap (λ o. is_set s.max_pages o m) (sym j.tracked.1)

  flags_after :
      (m : ℕ)
      → is_journaled (append_image n s) m ≡ true
      → has_image m (append_image n s).journal ≡ true
  flags_after m e =
      let old = j.tracked.0 in
      let in_journal = has_image-append m (record { pnum = n; page = pre_image s n }) s.journal in
      rw append_image-journal
        (elim (is_set-mark old s.max_pages n m (sym (is_journaled-append_image m) ∙ e)) [
          | inl before ↦
              (let there = j.flags m (sym (flag_before m) ∙ before) in
                ground (arith, in_journal, there))
          | inr same ↦ ground (arith, in_journal, same)
        ])

  append_image-Journaling : Journaling base (append_image n s)
  unfolding append_image mark_journaled read_page wal_lookup
  append_image-Journaling =
      let journal = append_image-journal in
      let last : Entry = record { pnum = n; page = pre_image s n } in
      record {
        started = j.started;
        on_file = j.on_file;
        reserved = j.reserved;
        node = j.node;
        journal_on = j.journal_on;
        plain = j.plain;
        at_end = rw journal (omega (arith, j.at_end, length-append s.journal (last ∷ [])));
        some_room = j.some_room;
        reads = j.reads;
        caches = j.caches;
        images = rw journal (All-append (λ e. e.page ≡ base e.pnum) s.journal last j.images image);
        tracked = (_, marked_flags);
        flags = flags_after;
      }

  append_image-Covered : n < track_size s → CoveredBut n s → Covered (append_image n s)
  append_image-Covered inside covered m e =
      let before : touched s m ≡ true = (unfold append_image mark_journaled is_shadowed in e) in
      is_journaled-append_image m
      ∙ is_set-marked j.tracked.0 s.max_pages n m (elim (covered m before) [
        | inl there ↦ inl (flag_before m ∙ there)
        | inr same ↦ inr (same, inside)
      ])

pager_journal_page_cases :
    (base : ℕ → Page) (s : Pager) (n : ℕ)
    → Journaling base (pager_shadow_page_write n s)
    → ((is_journaled (pager_shadow_page_write n s) n ≡ true)
        × (pager_journal_page n s ≡ pager_shadow_page_write n s))
      ⊎ ((is_journaled (pager_shadow_page_write n s) n ≡ false)
          × (pager_journal_page n s ≡ append_image n (pager_shadow_page_write n s)))
unfolding pager_journal_page
pager_journal_page_cases base s n j =
    let t = pager_shadow_page_write n s in
    let open_ : (not t.in_transaction || not t.journal_open) ≡ false =
      ground (arith, j.started, j.journal_on.0) in
    let plain : no_savepoints t.savepoints ≡ true = ap no_savepoints j.plain in
    elim (Bool-cases (is_journaled t n)) [
      | inl e ↦ inl (e, simp (open_, plain, e))
      | inr e ↦ inr (e, simp (open_, plain, e))
    ]

-- What a rollback relies on.
abbrev pub IsProtected : (ℕ → Page) → Pager → Type 0
IsProtected base s = Journaling base s × Covered s

Covered-journaled :
    (s t : Pager) (n : ℕ) → Covered s → Touches n s t → is_journaled t n ≡ true → Covered t
Covered-journaled s t n covered touches there m e =
    elim (CoveredBut-Touches n s t touches (λ i e'. inl (covered i e')) m e) [
      | inl before ↦ before
      | inr same ↦ subst (λ i. is_journaled t i ≡ true) (sym same) there
    ]

pub pager_journal_page_lem :
    (base : ℕ → Page) (s : Pager) (n : ℕ)
    → n + 1024 < 2 ^ 32
    → IsProtected base s
    → IsProtected base (pager_journal_page n s)
pager_journal_page_lem base s n small (j, covered) =
    let t = pager_shadow_page_write n s in
    let (jt, touches, ready) = shadow_page_write_lem base s n small j covered in
    elim (pager_journal_page_cases base s n jt) [
      | inl (there, run) ↦
          subst (IsProtected base) (sym run) (jt, Covered-journaled s t n covered touches there)
      | inr (fresh, run) ↦ subst (IsProtected base) (sym run) (elim ready [
        | inl there ↦ absurd (ground (arith, there, fresh))
        | inr (image, inside) ↦ (
          append_image-Journaling base t n jt image,
          append_image-Covered base t n jt image inside
              (CoveredBut-Touches n s t touches (λ i e. inl (covered i e))),
        )
      ])
    ]
