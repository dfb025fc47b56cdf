-- ===== src/Pager/Commit/Publish.antt =====
-- What a commit that succeeds leaves behind.
use custom_db.Prelude.{
  ℕ, zero, suc, ◌+◌, ◌≤◌, ◌<◌, ◌≡◌, refl, sym, ap, ◌∙◌, Bool, true, false, not, Option, none, some,
  ◌==◌, if◌then◌else◌, arith, inl, inr,
}
use custom_db.Pager.State.{Page, Pager, update, pager_lock, pager_unlock}
use custom_db.Pager.Levels.{pager_lock_keeps}
use custom_db.Pager.Cache.{
  Buffer, base, shadow, store, get_page, flush_buf, append_frame, write_main, pager_flush,
}
use custom_db.Pager.Cache.Rest.{rest, rest-get_page, get_page-IsBufferOf}
use custom_db.Pager.Snapshots.{pager_unregister_snapshot, pager_reclaim_retired_pages}
use custom_db.Pager.Journal.{end_snapshot}
use custom_db.Pager.Commit.Swap.{published, Swapped, swap_pages-Swapped}
use custom_db.Pager.Commit.{
  has_writes, close_transaction, drop_journal, take_lsn, write_stamp, stamp, is_changed,
  flush_changed, write_changes, publish, pager_commit,
}

-- The end of a commit keeps the pages.
closed_lem :
    (s : Pager)
    → ((close_transaction (drop_journal s)).in_transaction ≡ false)
      × ((close_transaction (drop_journal s)).lock_state ≡ 0)
      × ((close_transaction (drop_journal s)).journal_exists ≡ false)
      × ((i : ℕ) → (close_transaction (drop_journal s)).pages i ≡ s.pages i)
      × ((i : ℕ) → (close_transaction (drop_journal s)).shadow i ≡ s.shadow i)
unfolding close_transaction drop_journal pager_unlock end_snapshot pager_unregister_snapshot
    pager_reclaim_retired_pages
closed_lem s = (ground arith, ground arith, ground arith, λ i. ground arith, λ i. ground arith)

-- What the loop that writes the pages keeps.
flush-shadow : (i : ℕ) (s : Pager) → rest (pager_flush i s) ≡ rest s
unfolding pager_flush append_frame write_main
flush-shadow i s =
    let flushed : Bool → Bool → Option Page → Pager = λ m w o.
      if m
      then s
      else elim o [ none ↦ s | some p ↦ if w then append_frame i p s else write_main i p s ] in
    kept s.is_memory s.use_wal (flush_buf s i)
  where
    kept :
        (m w : Bool) (o : Option Page)
        → rest (
            if m
            then s
            else elim o [ none ↦ s | some p ↦ if w then append_frame i p s else write_main i p s ])
          ≡ rest s
    kept true w o = refl
    kept false w none = refl
    kept false true (some p) = refl
    kept false false (some p) = refl

flush_changed-shadow : (left i : ℕ) (s : Pager) → rest (flush_changed left i s) ≡ rest s
unfolding flush_changed
flush_changed-shadow zero i s = refl
flush_changed-shadow (suc left) i s =
    flush_changed-shadow left (i + 1) (if is_changed s i then pager_flush i s else s)
    ∙ round (is_changed s i)
  where
    round : (b : Bool) → rest (if b then pager_flush i s else s) ≡ rest s
    round true = flush-shadow i s
    round false = refl

abbrev SameShadow : ℕ → Pager → Pager → Type 0
SameShadow i s t = (t.shadow i ≡ s.shadow i) × (t.shadow_capacity ≡ s.shadow_capacity)

write_stamp-base : (i : ℕ) (s : Pager) → SameShadow i s (write_stamp (base 0) s)
unfolding write_stamp store
write_stamp-base i s = (refl, refl)

write_stamp-shadow : (i : ℕ) (s : Pager) → 1 ≤ i → SameShadow i s (write_stamp (shadow 0) s)
unfolding write_stamp store update
write_stamp-shadow i s h = let other : (i == 0) ≡ false = ground arith in (rw other refl, refl)

stamp-shadow : (i : ℕ) (s : Pager) → 1 ≤ i → SameShadow i s (stamp s)
unfolding stamp
stamp-shadow i s h =
    let t = (get_page 0 s).1 in
    let go : Option Buffer → Pager = λ o. elim o [ none ↦ t | some b ↦ write_stamp b t ] in
    let read = rest-get_page 0 s in
    let here : t.shadow i ≡ s.shadow i = ap (λ r. r.1.1.0 i) read in
    let size : t.shadow_capacity ≡ s.shadow_capacity = ap (λ r. r.1.1.1) read in
    elim (get_page-IsBufferOf 0 s) [
      | inl e ↦ (ap (λ o. (go o).shadow i) e ∙ here, ap (λ o. (go o).shadow_capacity) e ∙ size)
      | inr found ↦ elim found [
        | inl e ↦ (
          ap (λ o. (go o).shadow i) e ∙ (write_stamp-base i t).0 ∙ here,
          ap (λ o. (go o).shadow_capacity) e ∙ (write_stamp-base i t).1 ∙ size,
        )
        | inr e ↦ (
          ap (λ o. (go o).shadow i) e ∙ (write_stamp-shadow i t h).0 ∙ here,
          ap (λ o. (go o).shadow_capacity) e ∙ (write_stamp-shadow i t h).1 ∙ size,
        )
      ]
    ]

write_changes-shadow : (i : ℕ) (s : Pager) → 1 ≤ i → SameShadow i s (write_changes s)
unfolding write_changes
write_changes-shadow i s h =
    let t = take_lsn s in
    let u = stamp t in
    let loop = flush_changed-shadow u.num_pages 0 u in
    let stamped = stamp-shadow i t h in
    (
      ap (λ r. r.1.1.0 i) loop ∙ stamped.0 ∙ (unfold take_lsn in refl),
      ap (λ r. r.1.1.1) loop ∙ stamped.1 ∙ (unfold take_lsn in refl),
    )

publish-Swapped : (i : ℕ) (s : Pager) → i < s.shadow_capacity → Swapped i s (publish s)
unfolding publish pager_reclaim_retired_pages
publish-Swapped i s h =
    let done = swap_pages-Swapped s.shadow_capacity 0 i s (omega arith) (omega arith) in done

abbrev committed : Pager → Pager
committed s = close_transaction (drop_journal (publish (write_changes s)))

commit_run :
    (s : Pager) (t : Pager)
    → s.in_transaction ≡ true
    → has_writes s ≡ true
    → (if s.use_wal then (true, s) else pager_lock 4 s) ≡ (true, t)
    → pager_commit s ≡ some (committed t)
unfolding pager_commit
commit_run s t open_ writes got =
    let started : not s.in_transaction ≡ false = ap not open_ in
    let writing : not (has_writes s) ≡ false = ap not writes in
    let finish : Bool × Pager → Option Pager = λ r. if r.0 then some (committed r.1) else none in
    rw (started, writing) (ap finish got)

-- A commit of a transaction with writes, in WAL mode or with the exclusive lock to be had, ends the
-- transaction with no lock and no journal left, and has put every shadow page within the capacity but
-- that of page 0, which takes the commit's number, in its page's place.
pub pager_commit-publishes :
    (s : Pager) (t : Pager)
    → s.in_transaction ≡ true
    → has_writes s ≡ true
    → (if s.use_wal then (true, s) else pager_lock 4 s) ≡ (true, t)
    → (r : Pager) × (pager_commit s ≡ some r)
      × (r.in_transaction ≡ false)
      × (r.lock_state ≡ 0)
      × (r.journal_exists ≡ false)
      × ((i : ℕ) (p : Page)
          → 1 ≤ i
          → i < s.shadow_capacity
          → s.shadow i ≡ some p
          → (r.pages i ≡ some p) × (r.shadow i ≡ none))
pager_commit-publishes s t open_ writes got =
    let w = write_changes t in
    let closed = closed_lem (publish w) in
    let locked : rest t ≡ rest s = locked_rest s t s.use_wal got in
    (
      committed t,
      commit_run s t open_ writes got,
      closed.0,
      closed.1,
      closed.2,
      λ i p some_ inside there.
          (let same = write_changes-shadow i t some_ in
            let fits : i < w.shadow_capacity =
              omega (arith, same.1, ap (λ r. r.1.1.1) locked, inside) in
            let swap = publish-Swapped i w fits in
            let it : w.shadow i ≡ some p = same.0 ∙ ap (λ r. r.1.1.0 i) locked ∙ there in
            (closed.3 i ∙ swap.0 ∙ ap (λ o. published o (w.pages i)) it, closed.4 i ∙ swap.1)),
    )
  where
    locked_rest :
        (s t : Pager) (b : Bool)
        → (if b then (true, s) else pager_lock 4 s) ≡ (true, t)
        → rest t ≡ rest s
    locked_rest s t true e = sym (ap (λ (r : Bool × Pager). rest r.1) e)
    locked_rest s t false e =
        sym (ap (λ (r : Bool × Pager). rest r.1) e) ∙ ap rest (pager_lock_keeps 4 s)
