-- ===== src/Pager/Shadow/Flushing.antt =====
-- The loop of a commit that writes the main file, in rollback mode, and the recovery behind it.
use custom_db.Prelude.{
  ℕ, zero, suc, ◌+◌, ◌≤◌, ◌<◌, ◌≡◌, refl, sym, ap, ◌∙◌, Bool, true, false, ◌&&◌, Option, none, some,
  List, [], ◌∷◌, All, ◌==◌, if◌then◌else◌, arith, Bool-cases, Option-cases, ==_iff, inl, inr, ◌⊎◌,
}
use custom_db.Pager.State.{Page, Entry, Pager, update}
use custom_db.Pager.Cache.{is_shadowed, flush_buf, append_frame, write_main, pager_flush}
use custom_db.Pager.Commit.{is_changed, flush_changed}
use custom_db.Pager.Journal.{has_entries, check_and_recover_journal}
use custom_db.Pager.Journal.Rollback.{last_image, check_and_recover_journal-disk}
use custom_db.Pager.Shadow.Journaled.{has_image, touched}
use mathlib.Core.Path.{subst}

-- An image in the journal decides what a recovery leaves.
pub last_image-base :
    (before : ℕ → Page) (n : ℕ) (es : List Entry) (d : Page)
    → All (λ e. e.page ≡ before e.pnum) es
    → (d ≡ before n) ⊎ (has_image n es ≡ true)
    → last_image n d es ≡ before n
unfolding last_image has_image
last_image-base before n [] d images (inl e) = e
last_image-base before n [] d images (inr e) = absurd (ground (arith, e))
last_image-base before n (e ∷ es) d (image, images) h = elim (Bool-cases (e.pnum == n)) [
  | inl here ↦
      (let it : e.page ≡ before n = image ∙ ap before ((==_iff e.pnum n).0 here) in
        rw here (last_image-base before n es e.page images (inl it)))
  | inr other ↦ rw other (last_image-base before n es d images (rw other at h))
]

-- What the loop of a commit keeps, for the pages behind page 0 that the file has.
pub record Flushing (before : ℕ → Page) (limit : ℕ) (es : List Entry) (s : Pager) : Type 0 where
  pub on_file : s.is_memory ≡ false
  pub no_log : s.use_wal ≡ false
  pub entries : s.journal ≡ es
  pub there : s.journal_exists ≡ true
  pub free : (s.grants 2 ≡ true) × (s.grants 3 ≡ true)
  pub covers : (m : ℕ) → 1 ≤ m → touched s m ≡ true → has_image m es ≡ true
  pub written : (m : ℕ) → 1 ≤ m → m < limit → (s.disk m ≡ before m) ⊎ (has_image m es ≡ true)

is_changed-touched : (s : Pager) (i : ℕ) → is_changed s i ≡ true → touched s i ≡ true
unfolding is_changed
is_changed-touched s i e = ground arith

touched_written :
    (s : Pager) (i m : ℕ) (p : Page) → touched (write_main i p s) m ≡ true → touched s m ≡ true
unfolding write_main is_shadowed update
touched_written s i m p e = ground arith

disk_written :
    (s : Pager) (i m : ℕ) (p : Page)
    → ((m ≡ i) × ((write_main i p s).disk m ≡ p)) ⊎ ((write_main i p s).disk m ≡ s.disk m)
unfolding write_main update
disk_written s i m p = ground arith

flush_cases :
    (s : Pager) (i : ℕ)
    → s.is_memory ≡ false
    → s.use_wal ≡ false
    → (pager_flush i s ≡ s) ⊎ ((p : Page) × (pager_flush i s ≡ write_main i p s))
unfolding pager_flush
flush_cases s i e e' =
    let here : Bool → Bool → Option Page → Pager = λ m w o.
      if m
      then s
      else elim o [ none ↦ s | some p ↦ if w then append_frame i p s else write_main i p s ] in
    let there : (o : Option Page) → here s.is_memory s.use_wal o ≡ here false false o =
      λ o. ap (λ m. here m s.use_wal o) e ∙ ap (λ w. here false w o) e' in
    elim (Option-cases (flush_buf s i)) [
      | inl none_ ↦ inl (there (flush_buf s i) ∙ ap (here false false) none_)
      | inr (p, some_) ↦ inr (p, there (flush_buf s i) ∙ ap (here false false) some_)
    ]

no_image : (n : ℕ) (es : List Entry) → has_entries es ≡ false → has_image n es ≡ false
unfolding has_entries has_image
no_image n [] e = refl
no_image n (x ∷ es) e = absurd (ground (arith, e))

unrecovered :
    (s : Pager) (n : ℕ)
    → has_entries s.journal ≡ false
    → (check_and_recover_journal s).disk n ≡ s.disk n
unfolding check_and_recover_journal
unrecovered s n e =
    let skipped : (s.journal_exists && (has_entries s.journal && (s.grants 2 && s.grants 3)))
        ≡ false =
      ground (arith, e) in
    rw skipped refl

module _ (before : ℕ → Page) (limit : ℕ) (es : List Entry) where
  write_main-Flushing :
      (s : Pager) (i : ℕ) (p : Page)
      → touched s i ≡ true
      → Flushing before limit es s
      → Flushing before limit es (write_main i p s)
  write_main-Flushing s i p marked f = record {
    on_file = (unfold write_main in f.on_file);
    no_log = (unfold write_main in f.no_log);
    entries = (unfold write_main in f.entries);
    there = (unfold write_main in f.there);
    free = (unfold write_main in f.free);
    covers = λ m some_ e. f.covers m some_ (touched_written s i m p e);
    written = λ m some_ inside. elim (disk_written s i m p) [
      | inl (same, e) ↦ inr (f.covers m some_ (subst (λ k. touched s k ≡ true) (sym same) marked))
      | inr e ↦ elim (f.written m some_ inside) [
        | inl kept ↦ inl (e ∙ kept)
        | inr image ↦ inr image
      ]
    ];
  }

  flush-Flushing :
      (s : Pager) (i : ℕ)
      → touched s i ≡ true
      → Flushing before limit es s
      → Flushing before limit es (pager_flush i s)
  flush-Flushing s i marked f = elim (flush_cases s i f.on_file f.no_log) [
    | inl run ↦ subst (Flushing before limit es) (sym run) f
    | inr (p, run) ↦ subst (Flushing before limit es) (sym run) (write_main-Flushing s i p marked f)
  ]

  pub flush_changed-Flushing :
      (left i : ℕ) (s : Pager)
      → Flushing before limit es s
      → Flushing before limit es (flush_changed left i s)
  unfolding flush_changed
  flush_changed-Flushing zero i s f = f
  flush_changed-Flushing (suc left) i s f = elim (Bool-cases (is_changed s i)) [
    | inl e ↦ rw e (
        flush_changed-Flushing left (i + 1) (pager_flush i s)
          (flush-Flushing s i (is_changed-touched s i e) f))
    | inr e ↦ rw e (flush_changed-Flushing left (i + 1) s f)
  ]

  pub recovered :
      (s : Pager) (n : ℕ)
      → All (λ e. e.page ≡ before e.pnum) es
      → 1 ≤ n
      → n < limit
      → Flushing before limit es s
      → (check_and_recover_journal s).disk n ≡ before n
  recovered s n images some_ inside f = elim (Bool-cases (has_entries s.journal)) [
    | inl e ↦
        (let disk = (check_and_recover_journal-disk s (f.there, e, f.free.0, f.free.1)).0 n in
          disk
          ∙ ap (last_image n (s.disk n)) f.entries
          ∙ last_image-base before n es (s.disk n) images (f.written n some_ inside))
    | inr e ↦
        (let empty : has_image n es ≡ false = no_image n es (ap has_entries (sym f.entries) ∙ e) in
          elim (f.written n some_ inside) [
            | inl kept ↦ unrecovered s n e ∙ kept
            | inr image ↦ absurd (ground (arith, image, empty))
          ])
  ]
