-- ===== src/Executor/Visibility/Laws.antt =====
-- What a snapshot sees of the rows that were stored, and which snapshot a statement has.
use custom_db.Prelude.{
  ℕ, ◌^◌, ◌≤◌, ◌<◌, ◌≡◌, Bool, true, false, ◌&&◌, none, some, List, if◌then◌else◌, arith, ◌⊎◌, ◌↔◌,
  length,
}
use custom_db.Catalog.Types.{ColumnType, Value, Floats}
use custom_db.Catalog.Varint.{Memory, IsU64}
use custom_db.Catalog.Varint.RoundTrip.{Holds}
use custom_db.Catalog.Row.Encode.{serialize_row_with_mvcc}
use custom_db.Catalog.Row.Decode.{Extras}
use custom_db.Catalog.Row.Columns.{Stored, read_all}
use custom_db.Catalog.Row.Extras.{found}
use custom_db.Catalog.Row.RoundTrip.{deserialize_row_with_mvcc-serialize_row_with_mvcc}
use custom_db.Executor.Visibility.{
  time_lt, is_visible, is_dead, row_is_visible_and_active, get_current_snapshot_xid,
}
use custom_db.Pager.Cache.{any_shadow}
use custom_db.Pager.State.{Pager}
use custom_db.Pager.Snapshots.{
  current_snapshot, pager_register_snapshot, pager_get_min_active_snapshot_xid,
}
use custom_db.Pager.Snapshots.Laws.{readers, min_active-le}

-- A row is alive at a time, and in a snapshot.
abbrev pub IsAlive : ℕ → ℕ → Type 0
IsAlive expire_at now = (expire_at ≡ 0) ⊎ ((now ≡ 0) ⊎ (now ≤ expire_at))

abbrev pub InSnapshot : ℕ → ℕ → ℕ → Type 0
InSnapshot xmin xmax snapshot = (xmin ≤ snapshot) × ((xmax ≡ 0) ⊎ (snapshot < xmax))

is_visible_iff :
    (snapshot now : ℕ) (x : Extras)
    → now < 2 ^ 63
    → x.expire_at < 2 ^ 63
    → (is_visible snapshot now x ≡ true)
      ↔ (IsAlive x.expire_at now × InSnapshot x.xmin x.xmax snapshot)
unfolding is_visible time_lt
is_visible_iff snapshot now x small small' = ground arith

some-is_visible :
    (b : Bool) (vs : List Value) → ((if b then some vs else none) ≡ some vs) ↔ (b ≡ true)
some-is_visible b vs = ground arith

-- A row of at most sixteen stored values, written with expiry time `e` and transaction ids `x`
-- and `y` in bytes whose number fits a uint32_t, is given to a reader with its values exactly if
-- it is alive by then and its snapshot has seen `x` and not yet `y`; times are below 2^63.
pub row_is_visible_iff :
    (fl : Floats) (cols : List ColumnType) (vs : List Value) (e x y : ℕ) (p : Memory)
    (snapshot now : ℕ)
    → Stored cols vs
    → length cols ≤ 16
    → (e < 2 ^ 63) × IsU64 x × IsU64 y × (now < 2 ^ 63)
    → length (serialize_row_with_mvcc fl cols vs e x y) < 2 ^ 32
    → Holds p 0 (serialize_row_with_mvcc fl cols vs e x y)
    → (row_is_visible_and_active fl cols p snapshot now ≡ some (read_all fl cols vs))
      ↔ (IsAlive e now × InSnapshot x y snapshot)
unfolding row_is_visible_and_active
row_is_visible_iff fl cols vs e x y p snapshot now s few (fe, fx, fy, fn) small held =
    rw
      (deserialize_row_with_mvcc-serialize_row_with_mvcc fl cols vs e x y p s few
        (omega arith, fx, fy) small held)
      (let bytes = length (serialize_row_with_mvcc fl cols vs e x y) in
        let seen = is_visible_iff snapshot now (found e x y bytes) fn fe in
        let given =
          some-is_visible (is_visible snapshot now (found e x y bytes)) (read_all fl cols vs) in
        (λ h. seen.0 (given.0 h), λ h. given.1 (seen.1 h)))

-- `VACUUM INTO` leaves no row out that some registered snapshot still sees, then or later; the
-- times are positive and below 2^63.
pub is_dead-is_visible :
    (s : Pager) (x : Extras) (snapshot now later : ℕ)
    → 0 < readers snapshot s.active_snapshots
    → is_dead (pager_get_min_active_snapshot_xid s) now x ≡ true
    → (0 < now) × (now ≤ later) × (later < 2 ^ 63) × (x.expire_at < 2 ^ 63)
    → is_visible snapshot later x ≡ false
unfolding is_dead is_visible time_lt
is_dead-is_visible s x snapshot now later reader dead times =
    ground (arith, min_active-le s snapshot reader)

-- Outside a writer's own changes, a statement has the snapshot that registering would record.
pub get_current_snapshot-register :
    (s : Pager)
    → (s.is_writer && any_shadow s.shadow_capacity s.shadow) ≡ false
    → get_current_snapshot_xid s ≡ (pager_register_snapshot s).0
unfolding get_current_snapshot_xid pager_register_snapshot current_snapshot
get_current_snapshot-register s h = ground arith
