-- ===== src/Catalog/Types.antt =====
-- The column types and row values of include/catalog.h. An `int32_t` is its bit pattern, below 2 ^ 32;
-- a `float` is its pattern below 2 ^ 32 and a `double` its pattern below 2 ^ 64.
use custom_db.Prelude.{ℕ, ◌^◌, ◌%◌, ◌<◌, Bool, true, false, not, List, [], ◌==◌}

pub data ColumnType : Type 0 where
  int text float double bool varchar blob : ColumnType
  datetime date time timestamp numeric decimal vector : ColumnType

pub data CollationType : Type 0 where
  not_set binary nocase rtrim : CollationType

-- `text_cap` is the size of an allocation, and is not modelled.
pub record Value : Type 0 where
  pub int_val : ℕ
  pub float_val : ℕ
  pub double_val : ℕ
  pub bool_val : Bool
  pub is_null : Bool
  pub text_val : List ℕ
  pub text_len : ℕ

-- `value_init`
abbrev pub value_init : Value
value_init = record {
  int_val = 0;
  float_val = 0;
  double_val = 0;
  bool_val = false;
  is_null = false;
  text_val = [];
  text_len = 0;
}

-- The conversions between C's number types, on bit patterns. They are the machine's.
pub record Floats : Type 0 where
  pub widen : ℕ → ℕ  -- (double) of a float
  pub narrow : ℕ → ℕ  -- (float) of a double
  pub double_of_int : ℕ → ℕ
  pub float_of_int : ℕ → ℕ
  pub int_of_double : ℕ → ℕ
  pub widen_fits : (f : ℕ) → widen f < 2 ^ 64

-- `d != 0.0`: both zeros have all bits but the sign clear.
unfoldable pub is_nonzero : ℕ → Bool
is_nonzero d = not (d % 2 ^ 63 == 0)

-- `col->type == COL_DOUBLE || col->type == COL_NUMERIC || col->type == COL_DECIMAL`
unfoldable pub is_double : ColumnType → Bool
is_double double = true
is_double numeric = true
is_double decimal = true
is_double _ = false
