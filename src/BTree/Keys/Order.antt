-- ===== src/BTree/Keys/Order.antt =====
-- The order of the keys in the nodes, and the order of the values.
use custom_db.Prelude.{◌^◌, ◌<◌, ◌≡◌, refl, false, arith}
use custom_db.Catalog.Types.{int, bool, Value, Floats}
use custom_db.Catalog.Row.Encode.{le_bytes}
use custom_db.Catalog.Row.Decode.{read_le}
use custom_db.Pager.Cache.{store_bytes}
use custom_db.BTree.Keys.{
  FloatOrder, bit, compare_keys, compare_present, compare_values, key_bytes, serialize_col0_key,
}

int_key : (v : Value) → v.int_val < 2 ^ 32 → read_le 4 (serialize_col0_key int v) ≡ v.int_val
unfolding read_le serialize_col0_key store_bytes key_bytes le_bytes
int_key v h = omega arith

bool_key : (v : Value) → serialize_col0_key bool v 0 ≡ bit v.bool_val
unfolding serialize_col0_key store_bytes key_bytes
bool_key v = refl

-- For INT and BOOL columns the order of the keys in the tree's nodes is the order of the values, which
-- must not be NULL.
pub compare_keys-serialize_col0_key :
    (fl : Floats) (fo : FloatOrder) (v w : Value)
    → (v.is_null ≡ false) × (w.is_null ≡ false)
    → (v.int_val < 2 ^ 32) × (w.int_val < 2 ^ 32)
    → (compare_keys fo int (serialize_col0_key int v) (serialize_col0_key int w)
        ≡ compare_values fl fo int v w)
      × (compare_keys fo bool (serialize_col0_key bool v) (serialize_col0_key bool w)
          ≡ compare_values fl fo bool v w)
unfolding compare_keys compare_values compare_present
compare_keys-serialize_col0_key fl fo v w (there, there') (small, small') = (
  simp (there, there', int_key v small, int_key w small'),
  simp (there, there', bool_key v, bool_key w),
)
