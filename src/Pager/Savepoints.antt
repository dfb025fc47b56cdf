-- ===== src/Pager/Savepoints.antt =====
-- Savepoints of src/pager.c: `pager_savepoint`, `pager_rollback_to_savepoint` and
-- `pager_release_savepoint`. The name of one has 63 characters at most.
pub mod Hole
use custom_db.Prelude.{
  ℕ, zero, suc, ◌+◌, ◌*◌, ◌/◌, Bool, true, false, not, ◌&&◌, ◌||◌, Option, none, some, List, [],
  ◌∷◌, ◌++◌, take, drop, length, ltb, leb, ◌==◌, if◌then◌else◌,
}
use custom_db.Pager.State.{Page, zero_page, page_size, u32, Entry, Savepoint, Pager, update}
use custom_db.Pager.Begin.{pager_begin_transaction}
use mathlib.Core.List.{reverse}

unfoldable pub same_name : List ℕ → List ℕ → Bool
same_name [] [] = true
same_name (c ∷ cs) (d ∷ ds) = let rest = same_name cs ds in if c == d then rest else false
same_name _ _ = false

-- The position in the list, the last of that name, and what is there.
unfoldable pub find_savepoint : List ℕ → ℕ → List Savepoint → Option (ℕ × Savepoint)
unfolding same_name
find_savepoint name i [] = none
find_savepoint name i (p ∷ ps) = elim (find_savepoint name (i + 1) ps) [
  | some found ↦ some found
  | none ↦ if same_name p.name name then some (i, p) else none
]

unfoldable pub add_savepoint : List ℕ → Pager → Pager
add_savepoint name s = record s {
  journal_pos = if s.journal_open then length s.journal else s.journal_pos;
  savepoints =
      s.savepoints
      ++ (record {
        name = take 63 name;
        journal_offset = if s.journal_open then length s.journal else 0;
        num_pages_at_savepoint = s.num_pages;
      }
          ∷ []);
}

-- The result of beginning a transaction is not looked at.
unfoldable pub pager_savepoint : List ℕ → Pager → Pager
unfolding add_savepoint
pager_savepoint name s =
    let t = if s.in_transaction then s else (pager_begin_transaction s).1 in
    if leb 16 (length t.savepoints) then t else add_savepoint name t

-- One entry is undone: in the cache, in the writer's copy and in the main file.
unfoldable pub undo_page : Pager → Entry → Pager
unfolding update
undo_page s e = record s {
  pages = elim (s.pages e.pnum) [
    | none ↦ s.pages
    | some old ↦ if ltb e.pnum s.max_pages then update s.pages e.pnum (some e.page) else s.pages
  ];
  shadow = elim (s.shadow e.pnum) [
    | none ↦ s.shadow
    | some old ↦
        if ltb e.pnum s.shadow_capacity then update s.shadow e.pnum (some e.page) else s.shadow
  ];
  disk = update s.disk e.pnum e.page;
  disk_pages = if leb s.disk_pages e.pnum then e.pnum + 1 else s.disk_pages;
}

unfoldable pub undo_pages : List Entry → Pager → Pager
unfolding undo_page
undo_pages [] s = s
undo_pages (e ∷ es) s = undo_pages es (undo_page s e)

-- The entries behind the savepoint, from the last one back; the journal is cut through a descriptor
-- of its own.
unfoldable pub undo_journal : ℕ → Pager → Pager
unfolding undo_pages
undo_journal target s =
    if s.journal_exists && ltb target (length s.journal)
    then record (undo_pages (reverse (drop target s.journal)) s) { journal = take target s.journal }
    else s

unfoldable pub drop_pages : ℕ → Pager → Pager
drop_pages target s =
    if ltb 0 target && ltb target s.num_pages
    then (let gone = λ (i : ℕ). leb target i && ltb i s.num_pages in
        record s {
          pages = λ i. if gone i && ltb i s.max_pages then none else s.pages i;
          shadow = λ i. if gone i && ltb i s.shadow_capacity then none else s.shadow i;
          num_pages = target;
          file_length = u32 (target * page_size);
          disk = if s.is_memory then s.disk else (λ i.
              if ltb i (u32 (target * page_size) / page_size) then s.disk i else zero_page);
          disk_pages = if s.is_memory then s.disk_pages else u32 (target * page_size) / page_size;
        })
    else record s { num_pages = target }

unfoldable pub pager_rollback_to_savepoint : List ℕ → Pager → Pager
unfolding find_savepoint
pager_rollback_to_savepoint name s =
    if not s.in_transaction then s else elim (find_savepoint name 0 s.savepoints) [
      | none ↦ s
      | some (idx, p) ↦
          record (drop_pages p.num_pages_at_savepoint (undo_journal p.journal_offset s)) {
            savepoints = take (idx + 1) s.savepoints;
          }
    ]

unfoldable pub pager_release_savepoint : List ℕ → Pager → Pager
unfolding find_savepoint
pager_release_savepoint name s =
    if not s.in_transaction then s else elim (find_savepoint name 0 s.savepoints) [
      | none ↦ s
      | some (idx, p) ↦ record s { savepoints = take idx s.savepoints }
    ]
