-- ===== src/Examples/Parsed.antt =====
-- Texts that are parsed.
use custom_db.Prelude.{
  ℕ, ◌<◌, ◌≡◌, refl, arith, true, false, some, List, [], ◌∷◌, ◌++◌, map, get_or, length, take,
}
use custom_db.Parser.Word
use custom_db.Parser.Conditions.{op_eq, op_gte, LogicOp, logic_and, logic_or, WhereClause}
use custom_db.Parser.Tokens.{parse_value_token_alloc}
use custom_db.Parser.Tokens.Quoted.{literal, value, parse_value_token_alloc-literal}
use custom_db.Executor.Like.{tolower}
use custom_db.Parser.Subqueries.{prefix_nocase}
use custom_db.Parser.Where.{parse_where_clause}
use custom_db.Parser.Where.Shown.{Comparison, cond_of}
use custom_db.Parser.Where.Limit.{show_all, left_over, comparisons, connectives}
use custom_db.Parser.Where.Kept.{parse_where_clause-show_all}

-- `it's`, cut off to three bytes.
abbrev its : List ℕ
its = b'i' ∷ b't' ∷ 39 ∷ b's' ∷ []

parse_value_token_alloc-literal_example :
    let token = parse_value_token_alloc true 4 (32 ∷ 10 ∷ (literal 39 its ++ (b',' ∷ []))) in
    (token.rest ≡ b',' ∷ [])
    × (token.was_quoted ≡ true)
    × (token.is_null ≡ false)
    × (token.dest ≡ b'i' ∷ b't' ∷ 39 ∷ [])
    × (value token ≡ its)
parse_value_token_alloc-literal_example =
    parse_value_token_alloc-literal true 4 39 (32 ∷ 10 ∷ []) its (b',' ∷ []) (omega arith)
      (omega arith) (omega arith) refl (refl, (refl, tt)) refl

no_exists :
    (prefix_nocase Word.exists (b'i' ∷ b'd' ∷ []) ≡ false)
    × (prefix_nocase Word.exists (b't' ∷ b'.' ∷ b'x' ∷ []) ≡ false)
unfolding prefix_nocase tolower
no_exists = (refl, refl)

-- id >= '7'
abbrev id_from : Comparison
id_from = record {
  name = b'i' ∷ b'd' ∷ [];
  op = op_gte;
  val = b'7' ∷ [];
  named = (refl, (refl, tt));
  name_some = omega arith;
  name_fits = omega arith;
  no_exists = no_exists.0;
  compares = refl;
  val_some = omega arith;
  val_fits = omega arith;
}

-- t.x = 'it''s'
abbrev x_is : Comparison
x_is = record {
  name = b't' ∷ b'.' ∷ b'x' ∷ [];
  op = op_eq;
  val = its;
  named = (refl, (refl, (refl, tt)));
  name_some = omega arith;
  name_fits = omega arith;
  no_exists = no_exists.1;
  compares = refl;
  val_some = omega arith;
  val_fits = omega arith;
}

-- Five conditions, the last of which is not read.
abbrev four_more : List (LogicOp × Comparison)
four_more = (logic_and, x_is) ∷ (logic_or, id_from) ∷ (logic_and, id_from) ∷ (logic_and, x_is) ∷ []

parse_where_clause-show_all_example :
    (w : WhereClause) × (parse_where_clause (Word.where_ ++ (32 ∷ show_all id_from four_more))
      ≡ some (left_over 3 four_more, w))
    × (w.has_where ≡ true)
    × (w.conds ≡ map cond_of (take 4 (id_from ∷ comparisons four_more)))
    × ((i : ℕ)
        → i < length four_more
        → i < 3
        → w.logic_ops i ≡ get_or (connectives four_more) i logic_and)
parse_where_clause-show_all_example = parse_where_clause-show_all id_from four_more
