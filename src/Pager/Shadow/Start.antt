-- ===== src/Pager/Shadow/Start.antt =====
-- A transaction that has just taken the write lock keeps the invariant of the journal.
use custom_db.Prelude.{
  ℕ, zero, suc, ◌+◌, ◌*◌, ◌≤◌, ◌≡◌, refl, ap, ◌∙◌, Bool, true, false, not, ◌&&◌, ◌||◌, Option, none,
  some, [], if◌then◌else◌, ltb, ◌==◌, arith, Bool-cases, inl, inr,
}
use custom_db.Pager.State.{Page, page_size, u32, Lock, Pager, climb, raise, pager_lock}
use custom_db.Pager.Cache.{
  read_page, see_wal, forget_cache, effective_lsn, pager_refresh_if_modified, is_shadowed,
  pager_flush,
}
use custom_db.Pager.Snapshots.{pager_register_snapshot}
use custom_db.Pager.Begin.{
  take_node, flush_cached, make_baseline, reserve, open_journal, pager_ensure_write_lock,
  start_transaction, pager_begin_transaction,
}
use custom_db.Pager.Shadow.{is_journaled}
use custom_db.Pager.Shadow.Steps.{IsProtected}

-- A pager without cached pages and without marks, and no other connection in the way.
pub record IsQuiet (s : Pager) : Type 0 where
  pub on_file : s.is_memory ≡ false
  pub node : s.node_free ≡ true
  pub unlocked : s.lock_state ≡ 0
  pub free : (l : Lock) → s.grants l ≡ true
  pub no_pages : (n : ℕ) → s.pages n ≡ none
  pub no_shadows : (n : ℕ) → s.shadow n ≡ none
  pub clean : s.is_dirty ≡ none
  pub none_journaled : s.page_is_journaled ≡ none
  pub no_journal : s.journal_open ≡ false
  pub plain : s.savepoints ≡ []
  pub some_room : 1 ≤ s.max_pages

see_wal-IsQuiet : (s : Pager) → IsQuiet s → IsQuiet (see_wal s)
unfolding see_wal
see_wal-IsQuiet s q = elim (Bool-cases s.wal_header) [
  | inl e ↦ simp e (record {
    on_file = q.on_file;
    node = q.node;
    unlocked = q.unlocked;
    free = q.free;
    no_pages = q.no_pages;
    no_shadows = q.no_shadows;
    clean = q.clean;
    none_journaled = q.none_journaled;
    no_journal = q.no_journal;
    plain = q.plain;
    some_room = q.some_room;
  })
  | inr e ↦ simp e q
]

forget_cache-IsQuiet : (lsn : ℕ) (s : Pager) → IsQuiet s → IsQuiet (forget_cache lsn s)
unfolding forget_cache
forget_cache-IsQuiet lsn s q = record {
  on_file = q.on_file;
  node = q.node;
  unlocked = q.unlocked;
  free = q.free;
  no_pages = λ n. refl;
  no_shadows = q.no_shadows;
  clean = q.clean;
  none_journaled = q.none_journaled;
  no_journal = q.no_journal;
  plain = q.plain;
  some_room = q.some_room;
}

refresh-IsQuiet : (s : Pager) → IsQuiet s → IsQuiet (pager_refresh_if_modified s)
unfolding pager_refresh_if_modified
refresh-IsQuiet s q =
    let modified =
      ltb s.wal_lsn (effective_lsn s) || not (u32 (s.disk_pages * page_size) == s.file_length) in
    elim (Bool-cases (s.in_transaction || s.is_memory)) [
      | inl e ↦ simp e q
      | inr e ↦ elim (Bool-cases modified) [
        | inl e' ↦
            simp (e, e') (forget_cache-IsQuiet (effective_lsn s) (see_wal s) (see_wal-IsQuiet s q))
        | inr e' ↦ simp (e, e') (see_wal-IsQuiet s q)
      ]
    ]

pub start_transaction-IsQuiet : (s : Pager) → IsQuiet s → IsQuiet (start_transaction s)
unfolding start_transaction pager_register_snapshot
start_transaction-IsQuiet s q =
    let r = refresh-IsQuiet s q in
    record {
      on_file = r.on_file;
      node = r.node;
      unlocked = r.unlocked;
      free = r.free;
      no_pages = r.no_pages;
      no_shadows = r.no_shadows;
      clean = r.clean;
      none_journaled = r.none_journaled;
      no_journal = r.no_journal;
      plain = r.plain;
      some_room = r.some_room;
    }

pub started_lem : (s : Pager) → (start_transaction s).in_transaction ≡ true
unfolding start_transaction pager_register_snapshot
started_lem s = refl

pub begin_run :
    (s : Pager)
    → IsQuiet s
    → s.in_transaction ≡ false
    → pager_begin_transaction s ≡ (true, start_transaction s)
unfolding pager_begin_transaction
begin_run s q e = simp (e, q.node, q.on_file, q.free 2)

flush_cached_empty :
    (left i : ℕ) (s : Pager) → ((n : ℕ) → s.pages n ≡ none) → flush_cached left i s ≡ s
unfolding flush_cached
flush_cached_empty zero i s h = refl
flush_cached_empty (suc left) i s h =
    let same : (elim (s.pages i) [ none ↦ s | some p ↦ pager_flush i s ]) ≡ s =
      (let step : Option Page → Pager = λ o. elim o [ none ↦ s | some p ↦ pager_flush i s ] in
        ap step (h i)) in
    ap (flush_cached left (i + 1)) same ∙ flush_cached_empty left (i + 1) s h

if_same : (b : Bool) (s : Pager) → (if b then s else s) ≡ s
if_same true s = refl
if_same false s = refl

make_baseline_run :
    (s : Pager)
    → ((n : ℕ) → s.pages n ≡ none)
    → make_baseline s ≡ record s {
      lock_error = false;
      num_pages_at_tx_start = s.num_pages;
      file_length = u32 (s.disk_pages * page_size);
    }
unfolding make_baseline
make_baseline_run s h =
    let t : Pager = record s { lock_error = false } in
    let same : (if s.use_wal then t else flush_cached t.max_pages 0 t) ≡ t =
      rw (flush_cached_empty t.max_pages 0 t h) (if_same s.use_wal t) in
    ap
      (λ (v : Pager). record v {
        num_pages_at_tx_start = v.num_pages;
        file_length = u32 (v.disk_pages * page_size);
      })
      same

reserved_lem :
    (s : Pager)
    → s.is_memory ≡ false
    → s.lock_state ≡ 0
    → ((l : Lock) → s.grants l ≡ true)
    → pager_lock 2 s ≡ (true, record s { lock_state = 2 })
unfolding pager_lock climb raise
reserved_lem s e e' free = simp (e, e', free 1, free 2)

-- The state in which a transaction has taken the write lock.
abbrev writer : Pager → Pager
writer s = record s {
  active_writer = true;
  lock_state = 2;
  lock_error = false;
  num_pages_at_tx_start = s.num_pages;
  file_length = u32 (s.disk_pages * page_size);
  journal = [];
  journal_pos = 0;
  journal_exists = true;
  journal_open = true;
  page_is_journaled = some (λ i. false);
  is_writer = true;
}

take_node_free :
    (s : Pager) → s.node_free ≡ true → take_node s ≡ (true, record s { active_writer = true })
unfolding take_node
take_node_free s e = simp e

reserve_free :
    (s : Pager)
    → IsQuiet s
    → reserve (record s { active_writer = true })
      ≡ (true, make_baseline (record s { active_writer = true; lock_state = 2 }))
unfolding reserve
reserve_free s q =
    let t : Pager = record s { active_writer = true } in
    let free : (not s.is_memory && ltb s.lock_state 2) ≡ true =
      ground (arith, q.on_file, q.unlocked) in
    let go : Bool × Pager → Bool × Pager = λ r.
      if r.0
      then (true, make_baseline r.1)
      else (false, record r.1 { lock_error = true; active_writer = false }) in
    rw free (ap go (reserved_lem t q.on_file q.unlocked q.free))

open_journal_fresh :
    (s : Pager)
    → s.journal_open ≡ false
    → s.is_memory ≡ false
    → s.page_is_journaled ≡ none
    → open_journal s ≡ record s {
      journal = [];
      journal_pos = 0;
      journal_exists = true;
      journal_open = true;
      page_is_journaled = some (λ i. false);
      is_writer = true;
    }
unfolding open_journal
open_journal_fresh s e e' e'' = simp (e, e', e'')

pub ensure_quiet : (s : Pager) → IsQuiet s → pager_ensure_write_lock s ≡ (true, writer s)
unfolding pager_ensure_write_lock
ensure_quiet s q =
    let t : Pager = record s { active_writer = true; lock_state = 2 } in
    let u : Pager = record t {
      lock_error = false;
      num_pages_at_tx_start = s.num_pages;
      file_length = u32 (s.disk_pages * page_size);
    } in
    simp (take_node_free s q.node, reserve_free s q)
      (ap (λ v. (true, open_journal v)) (make_baseline_run t q.no_pages)
        ∙ ap (λ v. (true, v)) (open_journal_fresh u q.no_journal q.on_file q.none_journaled))

pub writer-IsProtected :
    (s : Pager)
    → IsQuiet s
    → s.in_transaction ≡ true
    → IsProtected (read_page (writer s)) (writer s)
unfolding is_journaled is_shadowed
writer-IsProtected s q e = (
  record {
    started = e;
    on_file = q.on_file;
    reserved = omega arith;
    node = q.node;
    journal_on = (refl, refl);
    plain = q.plain;
    at_end = refl;
    some_room = q.some_room;
    reads = λ n. refl;
    caches = λ n p there. absurd (ground (arith, there, q.no_pages n));
    images = tt;
    tracked = (_, refl);
    flags = λ n h. absurd (ground (arith, h));
  },
  λ n h. absurd (ground (arith, h, q.no_shadows n, q.clean)),
)
