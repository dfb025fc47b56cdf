-- ===== src/Pager/Journal/Rollback.antt =====
-- What a rollback and a recovery leave in the main file.
use custom_db.Prelude.{
  ℕ, ◌*◌, ◌^◌, ◌<◌, ◌≡◌, refl, ap, ◌∙◌, true, false, none, some, List, [], ◌∷◌, ltb, ◌==◌,
  if◌then◌else◌, arith,
}
use custom_db.Pager.State.{Page, page_size, Entry, Pager, update, pager_lock, pager_unlock}
use custom_db.Pager.Levels.{pager_lock_keeps}
use custom_db.Pager.Snapshots.{pager_unregister_snapshot, pager_reclaim_retired_pages}
use custom_db.Pager.Journal.{
  recover_page, recover_pages, has_entries, check_and_recover_journal, restore_page, restore_pages,
  discard_shadows, replay_journal, discard_new_pages, end_snapshot, end_transaction, free_marks,
  pager_rollback,
}

-- The image that the journal has of a page that reads `d` without it: the last one.
unfoldable pub last_image : ℕ → Page → List Entry → Page
last_image n d [] = d
last_image n d (e ∷ es) = last_image n (if e.pnum == n then e.page else d) es

disk-recover_pages :
    (es : List Entry) (s : Pager) (n : ℕ) → (recover_pages es s).disk n ≡ last_image n (s.disk n) es
unfolding recover_pages last_image
disk-recover_pages [] s n = refl
disk-recover_pages (e ∷ es) s n =
    let one : (recover_page s e).disk n ≡ (if e.pnum == n then e.page else s.disk n) =
      (unfold recover_page update in ground arith) in
    disk-recover_pages es (recover_page s e) n ∙ ap (λ d. last_image n d es) one

-- The recovery of a journal that no other process may be using puts the last image of every page
-- in the journal into the main file, leaves the other pages, and removes the journal.
pub check_and_recover_journal-disk :
    (s : Pager)
    → (s.journal_exists ≡ true)
      × (has_entries s.journal ≡ true)
      × (s.grants 2 ≡ true)
      × (s.grants 3 ≡ true)
    → ((n : ℕ) → (check_and_recover_journal s).disk n ≡ last_image n (s.disk n) s.journal)
      × ((check_and_recover_journal s).journal ≡ [])
      × ((check_and_recover_journal s).journal_exists ≡ false)
unfolding check_and_recover_journal
check_and_recover_journal-disk s (there, some_entry, free, free') =
    simp (there, some_entry, free, free') (disk-recover_pages s.journal s, refl, refl)

restore_pages-disk :
    (es : List Entry) (s : Pager) (n : ℕ)
    → ((restore_pages es s).disk n ≡ last_image n (s.disk n) es)
      × ((restore_pages es s).num_pages_at_tx_start ≡ s.num_pages_at_tx_start)
unfolding restore_pages last_image
restore_pages-disk [] s n = (refl, refl)
restore_pages-disk (e ∷ es) s n =
    let one : (restore_page s e).disk n ≡ (if e.pnum == n then e.page else s.disk n) =
      (unfold restore_page recover_page update in ground arith) in
    let same : (restore_page s e).num_pages_at_tx_start ≡ s.num_pages_at_tx_start =
      (unfold restore_page recover_page in refl) in
    let rest = restore_pages-disk es (restore_page s e) n in
    (rest.0 ∙ ap (λ d. last_image n d es) one, rest.1 ∙ same)

replay_journal-disk :
    (s : Pager) (n : ℕ)
    → s.journal_exists ≡ true
    → ((replay_journal s).disk n ≡ last_image n (s.disk n) s.journal)
      × ((replay_journal s).num_pages_at_tx_start ≡ s.num_pages_at_tx_start)
unfolding replay_journal
replay_journal-disk s n e = simp e (restore_pages-disk s.journal s n)

disk-discard_new_pages :
    (s : Pager) (n : ℕ)
    → n < s.num_pages_at_tx_start
    → s.num_pages_at_tx_start * page_size < 2 ^ 32
    → (discard_new_pages s).disk n ≡ s.disk n
unfolding discard_new_pages
disk-discard_new_pages s n h small = ground arith

end_snapshot-disk : (s : Pager) (n : ℕ) → (end_snapshot s).disk n ≡ s.disk n
unfolding end_snapshot pager_unregister_snapshot pager_reclaim_retired_pages
end_snapshot-disk s n = ground arith

end_transaction-disk :
    (s : Pager) (n : ℕ)
    → ((end_transaction s).disk n ≡ s.disk n)
      × ((end_transaction s).in_transaction ≡ false)
      × ((end_transaction s).lock_state ≡ 0)
unfolding end_transaction pager_unlock
end_transaction-disk s n = ground arith

module _ (s : Pager) (n : ℕ) (there : s.journal_exists ≡ true) where
  replayed :
      ((free_marks (replay_journal (discard_shadows s))).disk n ≡ last_image n (s.disk n) s.journal)
      × ((free_marks (replay_journal (discard_shadows s))).num_pages_at_tx_start
          ≡ s.num_pages_at_tx_start)
  unfolding free_marks discard_shadows
  replayed =
      replay_journal-disk
        (record s {
          shadow = λ i. if ltb i s.shadow_capacity then none else s.shadow i;
          journal_open = false;
        })
        n there

  rolled_back-disk :
      n < s.num_pages_at_tx_start
      → s.num_pages_at_tx_start * page_size < 2 ^ 32
      → (end_transaction (
            end_snapshot
              (discard_new_pages (free_marks (replay_journal (discard_shadows s)))))).disk
          n
        ≡ last_image n (s.disk n) s.journal
  rolled_back-disk old small =
      let t = free_marks (replay_journal (discard_shadows s)) in
      let start = replayed.1 in
      (end_transaction-disk (end_snapshot (discard_new_pages t)) n).0
      ∙ end_snapshot-disk (discard_new_pages t) n
      ∙ disk-discard_new_pages t n (rw start old) (rw start small)
      ∙ replayed.0

pager_rollback_run :
    (s : Pager)
    → s.in_transaction ≡ true
    → (pager_lock 4 s).0 ≡ true
    → pager_rollback s
      ≡ some (
          end_transaction (
            end_snapshot (
              discard_new_pages
                (free_marks (replay_journal (discard_shadows (pager_lock 4 s).1))))))
unfolding pager_rollback
pager_rollback_run s e got = simp (e, got)

-- A rollback of a transaction that has a journal, once the exclusive lock is there, ends the
-- transaction with no lock held and puts the last image in the journal of every page that was
-- there at the start into the main file, if the start's length fits a uint32_t.
pub pager_rollback-disk :
    (s : Pager)
    → (s.in_transaction ≡ true) × (s.journal_exists ≡ true)
    → s.num_pages_at_tx_start * page_size < 2 ^ 32
    → (pager_lock 4 s).0 ≡ true
    → (r : Pager) × (pager_rollback s ≡ some r)
      × (r.in_transaction ≡ false)
      × (r.lock_state ≡ 0)
      × ((n : ℕ) → n < s.num_pages_at_tx_start → r.disk n ≡ last_image n (s.disk n) s.journal)
pager_rollback-disk s (open_, there) small got =
    let level = (pager_lock 4 s).1.lock_state in
    let t : Pager = record s { lock_state = level } in
    let u = end_snapshot (discard_new_pages (free_marks (replay_journal (discard_shadows t)))) in
    let ended = end_transaction-disk u 0 in
    (
      end_transaction u,
      pager_rollback_run s open_ got
          ∙ ap
              (λ v. some (
                end_transaction (
                  end_snapshot
                    (discard_new_pages (free_marks (replay_journal (discard_shadows v)))))))
              (pager_lock_keeps 4 s),
      ended.1,
      ended.2,
      λ n old. rolled_back-disk t n there old small,
    )
