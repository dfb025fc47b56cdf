-- ===== src/Parser/Conditions.antt =====
-- The WHERE clauses of src/parser.c.
use custom_db.Prelude.{ℕ, Bool, false, List, []}
use custom_db.Catalog.Types.{CollationType, not_set}

pub data CompOp : Type 0 where
  op_eq op_gt op_lt op_gte op_lte op_in op_is_null op_is_not_null op_match op_like op_between
        op_glob op_not_like op_not_glob :
      CompOp

pub data LogicOp : Type 0 where
  logic_and logic_or : LogicOp

pub record SingleCond : Type 0 where
  pub col_name : List ℕ
  pub op : CompOp
  pub raw_val : List ℕ
  pub raw_val2 : List ℕ
  pub is_subquery : Bool
  pub sub_table : List ℕ
  pub sub_col : List ℕ
  pub sub_where_col : List ℕ
  pub sub_where_op : CompOp
  pub sub_where_val : List ℕ
  pub has_sub_where : Bool
  pub is_exists : Bool
  pub is_not_exists : Bool
  pub sub_where_is_correlated : Bool
  pub sub_correlated_outer_col : List ℕ
  pub collation : CollationType

-- All bytes zero.
abbrev pub blank_cond : SingleCond
blank_cond = record {
  col_name = [];
  op = op_eq;
  raw_val = [];
  raw_val2 = [];
  is_subquery = false;
  sub_table = [];
  sub_col = [];
  sub_where_col = [];
  sub_where_op = op_eq;
  sub_where_val = [];
  has_sub_where = false;
  is_exists = false;
  is_not_exists = false;
  sub_where_is_correlated = false;
  sub_correlated_outer_col = [];
  collation = not_set;
}

-- `num_conds` is the length of `conds`.
pub record WhereClause : Type 0 where
  pub has_where : Bool
  pub conds : List SingleCond
  pub logic_ops : ℕ → LogicOp
