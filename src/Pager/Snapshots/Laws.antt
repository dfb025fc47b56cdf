-- ===== src/Pager/Snapshots/Laws.antt =====
-- No buffer is freed that a registered reader may still see, and every other one is.
use custom_db.Prelude.{
  ℕ, suc, ◌-◌, ◌≤◌, ◌<◌, ◌≡◌, refl, sym, ap, Bool, true, false, Option, none, some, List, [], ◌∷◌,
  ltb, ◌==◌, if◌then◌else◌, arith, Bool-cases, inl, inr, ◌⊎◌,
}
use custom_db.Pager.State.{Retired, Pager}
use custom_db.Pager.Snapshots.{
  take_slot, free_slot, current_snapshot, pager_register_snapshot, min_loop,
  pager_get_min_active_snapshot_xid, reclaim_loop, pager_reclaim_retired_pages,
  pager_unregister_snapshot,
}
use mathlib.Core.List.{Memᴰ}
use mathlib.Core.Path.{subst}
use mathlib.Core.List.Memᴰ

-- How often a snapshot is registered, and how many entries are free.
unfoldable pub readers : ℕ → List (Option ℕ) → ℕ
readers x [] = 0
readers x (none ∷ slots) = readers x slots
readers x (some y ∷ slots) = if y == x then suc (readers x slots) else readers x slots

unfoldable pub free_slots : List (Option ℕ) → ℕ
free_slots [] = 0
free_slots (none ∷ slots) = suc (free_slots slots)
free_slots (some y ∷ slots) = free_slots slots

readers-take_slot :
    (x snap : ℕ) (slots : List (Option ℕ))
    → 0 < free_slots slots
    → readers x (take_slot snap slots)
      ≡ (if snap == x then suc (readers x slots) else readers x slots)
unfolding readers free_slots take_slot
readers-take_slot x snap [] h = absurd (omega arith)
readers-take_slot x snap (none ∷ slots) h = refl
readers-take_slot x snap (some y ∷ slots) h = ground (arith, readers-take_slot x snap slots h)

readers-free_slot :
    (x snap : ℕ) (slots : List (Option ℕ))
    → readers x (free_slot snap slots)
      ≡ (if snap == x then readers x slots - 1 else readers x slots)
unfolding readers free_slot
readers-free_slot x snap [] = ground arith
readers-free_slot x snap (none ∷ slots) = readers-free_slot x snap slots
readers-free_slot x snap (some y ∷ slots) = ground (arith, readers-free_slot x snap slots)

min_loop-found : (slots : List (Option ℕ)) (m : ℕ) → min_loop slots m true ≤ m
unfolding min_loop
min_loop-found [] m = omega arith
min_loop-found (none ∷ slots) m = min_loop-found slots m
min_loop-found (some x ∷ slots) m = ground (arith, min_loop-found slots x, min_loop-found slots m)

min_loop-le :
    (slots : List (Option ℕ)) (m : ℕ) (found : Bool) (x : ℕ)
    → 0 < readers x slots
    → min_loop slots m found ≤ x
unfolding min_loop readers
min_loop-le [] m found x h = absurd (omega arith)
min_loop-le (none ∷ slots) m found x h = min_loop-le slots m found x h
min_loop-le (some y ∷ slots) m true x h = ground (
  arith,
  min_loop-found slots y,
  min_loop-found slots m,
  min_loop-le slots y true x,
  min_loop-le slots m true x,
)
min_loop-le (some y ∷ slots) m false x h =
    ground (arith, min_loop-found slots y, min_loop-le slots y true x)

pub min_active-le :
    (s : Pager) (x : ℕ) → 0 < readers x s.active_snapshots → pager_get_min_active_snapshot_xid s ≤ x
unfolding pager_get_min_active_snapshot_xid
min_active-le s x reader = min_loop-le s.active_snapshots s.wal_lsn false x reader

-- What the loop gives is what it had, or registered.
min_loop_cases :
    (slots : List (Option ℕ)) (m : ℕ) (found : Bool)
    → (min_loop slots m found ≡ m) ⊎ (0 < readers (min_loop slots m found) slots)
unfolding min_loop readers
min_loop_cases [] m found = inl refl
min_loop_cases (none ∷ slots) m found = min_loop_cases slots m found
min_loop_cases (some y ∷ slots) m found =
    ground (arith, min_loop_cases slots y true, min_loop_cases slots m found)

-- It is registered, or else no snapshot is.
min_loop_start :
    (slots : List (Option ℕ)) (m : ℕ)
    → (((x : ℕ) → readers x slots ≡ 0) × (min_loop slots m false ≡ m))
      ⊎ (0 < readers (min_loop slots m false) slots)
unfolding min_loop readers
min_loop_start [] m = inl (λ x. refl, refl)
min_loop_start (none ∷ slots) m = min_loop_start slots m
min_loop_start (some y ∷ slots) m = inr (ground (arith, min_loop_cases slots y true))

reclaim_loop_keeps :
    (min_active : ℕ) (rs : List Retired) (r : Retired)
    → Memᴰ r rs
    → min_active ≤ r.retired_lsn
    → Memᴰ r (reclaim_loop min_active rs)
unfolding reclaim_loop
reclaim_loop_keeps min_active [] r m h = m
reclaim_loop_keeps min_active (q ∷ rs) r (Memᴰ.head e) h =
    let kept : ltb q.retired_lsn min_active ≡ false =
      (let same : r.retired_lsn ≡ q.retired_lsn = ap (λ x. x.retired_lsn) e in ground arith) in
    simp kept (Memᴰ.head e)
reclaim_loop_keeps min_active (q ∷ rs) r (Memᴰ.tail m) h =
    let below = reclaim_loop_keeps min_active rs r m h in
    elim (Bool-cases (ltb q.retired_lsn min_active)) [
      | inl e ↦ simp e below
      | inr e ↦ simp e (Memᴰ.tail below)
    ]

reclaim_loop_step :
    (min_active : ℕ) (q : Retired) (rs : List Retired)
    → ((ltb q.retired_lsn min_active ≡ true)
        × (reclaim_loop min_active (q ∷ rs) ≡ reclaim_loop min_active rs))
      ⊎ ((min_active ≤ q.retired_lsn)
          × (reclaim_loop min_active (q ∷ rs) ≡ q ∷ reclaim_loop min_active rs))
unfolding reclaim_loop
reclaim_loop_step min_active q rs = ground arith

reclaim_loop_frees :
    (min_active : ℕ) (rs : List Retired) (r : Retired)
    → Memᴰ r (reclaim_loop min_active rs)
    → (min_active ≤ r.retired_lsn) × Memᴰ r rs
reclaim_loop_frees min_active [] r m = unfold reclaim_loop in absurd (Memᴰ.not-nil {a = r} m)
reclaim_loop_frees min_active (q ∷ rs) r m = elim (reclaim_loop_step min_active q rs) [
  | inl freed ↦
      (let below = reclaim_loop_frees min_active rs r (subst (Memᴰ r) freed.1 m) in
        (below.0, Memᴰ.tail below.1))
  | inr kept ↦ elim (Memᴰ.cases_cons (subst (Memᴰ r) kept.1 m)) [
    | inl same ↦
        (let stamp : q.retired_lsn ≡ r.retired_lsn = ap (λ x. x.retired_lsn) (sym same) in
          (ground (arith, kept.0), Memᴰ.head same))
    | inr later ↦
        (let below = reclaim_loop_frees min_active rs r later in (below.0, Memᴰ.tail below.1))
  ]
]

-- A replaced page buffer outlives the end of a reader as long as another reader is registered whose
-- snapshot is not later than the replacement.
pub pager_unregister_snapshot-keeps :
    (s : Pager) (snap other : ℕ) (r : Retired)
    → Memᴰ r s.retired_pages
    → other ≤ r.retired_lsn
    → (if snap == other then 1 else 0) < readers other s.active_snapshots
    → Memᴰ r (pager_unregister_snapshot snap s).retired_pages
unfolding pager_unregister_snapshot pager_reclaim_retired_pages pager_get_min_active_snapshot_xid
pager_unregister_snapshot-keeps s snap other r m h more =
    let left = free_slot snap s.active_snapshots in
    let still : 0 < readers other left =
      ground (arith, readers-free_slot other snap s.active_snapshots) in
    let min = min_loop-le left s.wal_lsn false other still in
    reclaim_loop_keeps (min_loop left s.wal_lsn false) s.retired_pages r m (omega arith)

-- The least of the registered snapshots.
abbrev pub IsLeastReader : ℕ → List (Option ℕ) → Type 0
IsLeastReader x slots = (0 < readers x slots) × ((y : ℕ) → 0 < readers y slots → x ≤ y)

-- When a reader ends, only such buffers stay as were there before and that the least snapshot still
-- registered is not later than, or, if no snapshot is registered any more, the log's position.
pub pager_unregister_snapshot-frees :
    (s : Pager) (snap : ℕ) (r : Retired)
    → Memᴰ r (pager_unregister_snapshot snap s).retired_pages
    → let left = (pager_unregister_snapshot snap s).active_snapshots in
      Memᴰ r s.retired_pages
      × ((((x : ℕ) → readers x left ≡ 0) × (s.wal_lsn ≤ r.retired_lsn))
          ⊎ ((x : ℕ) × IsLeastReader x left × (x ≤ r.retired_lsn)))
unfolding pager_unregister_snapshot pager_reclaim_retired_pages pager_get_min_active_snapshot_xid
pager_unregister_snapshot-frees s snap r m =
    let left = free_slot snap s.active_snapshots in
    let least = min_loop left s.wal_lsn false in
    let kept = reclaim_loop_frees least s.retired_pages r m in
    (
      kept.1,
      elim (min_loop_start left s.wal_lsn) [
        | inl (nobody, e) ↦ inl (nobody, ground (arith, kept.0, e))
        | inr some_reader ↦
            inr (least, (some_reader, λ y h. min_loop-le left s.wal_lsn false y h), kept.0)
      ],
    )

-- With a free entry, registering the current snapshot and ending it again leaves every snapshot
-- registered as often as before.
pub unregister-register :
    (s : Pager) (x : ℕ)
    → 0 < free_slots s.active_snapshots
    → readers x
        (pager_unregister_snapshot
          (pager_register_snapshot s).0
          (pager_register_snapshot s).1).active_snapshots
      ≡ readers x s.active_snapshots
unfolding pager_register_snapshot pager_unregister_snapshot pager_reclaim_retired_pages
unregister-register s x h =
    let snap = current_snapshot s in
    ground (
      arith,
      readers-free_slot x snap (take_slot snap s.active_snapshots),
      readers-take_slot x snap s.active_snapshots h,
    )
