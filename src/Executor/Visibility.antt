-- ===== src/Executor/Visibility.antt =====
-- Which rows a statement sees: `row_is_visible_and_active` and `get_current_snapshot_xid` of
-- src/executor.c.
pub mod Laws
use custom_db.Prelude.{
  ℕ, zero, suc, ◌+◌, ◌%◌, ◌^◌, Bool, true, false, not, ◌&&◌, ◌||◌, Option, none, some, List, ltb,
  leb, ◌==◌, if◌then◌else◌,
}
use custom_db.Catalog.Types.{ColumnType, Value, Floats}
use custom_db.Catalog.Varint.{Memory}
use custom_db.Catalog.Row.Decode.{Extras, Row, deserialize_row_with_mvcc}
use custom_db.Pager.State.{Pager}
use custom_db.Pager.Cache.{any_shadow}

-- `(time_t)a < (time_t)b` for two uint64_t
unfoldable pub time_lt : ℕ → ℕ → Bool
time_lt a b = ltb ((a + 2 ^ 63) % 2 ^ 64) ((b + 2 ^ 63) % 2 ^ 64)

unfoldable pub is_visible : ℕ → ℕ → Extras → Bool
unfolding time_lt
is_visible snapshot_xid now_ts x =
    if ltb 0 x.expire_at && (ltb 0 now_ts && time_lt x.expire_at now_ts)
    then false
    else if ltb snapshot_xid x.xmin
    then false
    else if not (x.xmax == 0) && leb x.xmax snapshot_xid
    then false
    else true

-- The values, or `none` where the function frees them and returns false.
unfoldable pub row_is_visible_and_active :
    Floats → List ColumnType → Memory → ℕ → ℕ → Option (List Value)
row_is_visible_and_active fl cols row_bytes snapshot_xid now_ts =
    let row = deserialize_row_with_mvcc fl cols row_bytes in
    if is_visible snapshot_xid now_ts row.extras then some row.values else none

-- The rows that `VACUUM INTO` leaves out of the copy.
unfoldable pub is_dead : ℕ → ℕ → Extras → Bool
unfolding time_lt
is_dead min_active now_ts x =
    if not (x.xmax == 0) && leb x.xmax min_active
    then true
    else if ltb 0 x.expire_at && time_lt x.expire_at now_ts
    then true
    else false

unfoldable pub get_current_snapshot_xid : Pager → ℕ
unfolding any_shadow
get_current_snapshot_xid s =
    if s.in_transaction
    then (if s.is_writer && any_shadow s.shadow_capacity s.shadow
        then (if s.current_commit_lsn == 0 then (s.wal_lsn + 1) % 2 ^ 64 else s.current_commit_lsn)
        else if ltb 0 s.tx_snapshot_xid
        then s.tx_snapshot_xid
        else s.wal_lsn)
    else s.wal_lsn
