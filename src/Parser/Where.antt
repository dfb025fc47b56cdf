-- ===== src/Parser/Where.antt =====
-- `parse_where_clause` of src/parser.c. `none` is its NULL.
pub mod Shown
pub mod Limit
pub mod Kept
use custom_db.Prelude.{
  ℕ, zero, suc, ◌+◌, ◌-◌, Bool, true, false, not, ◌&&◌, ◌||◌, Option, none, some, List, [], ◌∷◌,
  ◌++◌, length, take, drop, ltb, ◌==◌, if◌then◌else◌,
}
use custom_db.Catalog.Types.{CollationType, nocase, binary, rtrim, not_set}
use custom_db.Executor.Like.{is_nil, tolower}
use custom_db.Pager.State.{update}
use custom_db.Parser.Conditions.{
  CompOp, op_eq, op_gt, op_lt, op_gte, op_lte, op_in, op_is_null, op_is_not_null, op_match, op_like,
  op_between, op_glob, op_not_like, op_not_glob, LogicOp, logic_and, logic_or, SingleCond,
  blank_cond, WhereClause,
}
use custom_db.Parser.Word
use custom_db.Parser.Subqueries.{
  prefix_nocase, comparison, exists_clause, in_clause, between_clause,
}
use custom_db.Parser.Tokens.{
  isspace, isdigit, at, skip_whitespace, span, parse_identifier, parse_value_token,
}

abbrev pub any_of : ℕ → List ℕ → Bool
any_of c [] = false
any_of c (d ∷ s) = c == d || any_of c s

-- Whether the word is at `p`, and behind it white space or one of the bytes.
abbrev pub word_at : List ℕ → List ℕ → List ℕ → Bool
unfolding prefix_nocase
word_at word ends p =
    prefix_nocase word p && (isspace (at p (length word)) || any_of (at p (length word)) ends)

-- The operator at `p`, and for IN and BETWEEN what is behind it.
unfoldable pub operator : List ℕ → SingleCond → Option (List ℕ × SingleCond)
unfolding prefix_nocase in_clause between_clause
operator p cond =
    let quotes = 39 ∷ 34 ∷ [] in
    elim (comparison p) [
      | some (n, op) ↦ some (drop n p, record cond { op = op })
      | none ↦
          if word_at Word.is_not_null (0 ∷ b')' ∷ b';' ∷ []) p
          then some (drop 11 p, record cond { op = op_is_not_null })
          else if word_at Word.is_null (0 ∷ b')' ∷ b';' ∷ []) p
          then some (drop 7 p, record cond { op = op_is_null })
          else if word_at Word.match_ (0 ∷ 39 ∷ []) p
          then some (drop 5 p, record cond { op = op_match })
          else if word_at Word.not_like quotes p
          then some (drop 8 p, record cond { op = op_not_like })
          else if word_at Word.not_glob quotes p
          then some (drop 8 p, record cond { op = op_not_glob })
          else if word_at Word.like quotes p
          then some (drop 4 p, record cond { op = op_like })
          else if word_at Word.glob quotes p
          then some (drop 4 p, record cond { op = op_glob })
          else if word_at Word.between [] p
          then between_clause (drop 7 p) cond
          else if word_at Word.in_ (b'(' ∷ []) p
          then some (in_clause (drop 2 p) (record cond { op = op_in }))
          else none
    ]

-- The condition up to its value.
unfoldable pub left_side : List ℕ → Option (List ℕ × SingleCond)
unfolding prefix_nocase exists_clause parse_identifier skip_whitespace operator
left_side p =
    let (rest, name) = parse_identifier 32 p in
    if prefix_nocase Word.not_exists p
    then some (exists_clause (drop 10 p) (record blank_cond { is_not_exists = true }))
    else if prefix_nocase Word.exists p
    then some (exists_clause (drop 6 p) (record blank_cond { is_exists = true }))
    else if is_nil name
    then none
    else operator (skip_whitespace rest) (record blank_cond { col_name = name })

-- Whether the operator has a value behind it that is not read yet.
abbrev pub takes_value : CompOp → Bool
takes_value op_is_null = false
takes_value op_is_not_null = false
takes_value op_between = false
takes_value _ = true

-- `collate`, if it is there, and the collation.
unfoldable pub collate_clause : List ℕ → SingleCond → List ℕ × SingleCond
unfolding prefix_nocase skip_whitespace
collate_clause p cond =
    let p1 = skip_whitespace (drop 7 p) in
    if prefix_nocase Word.collate p
    then if prefix_nocase Word.nocase_ p1
      then (drop 6 p1, record cond { collation = nocase })
      else if prefix_nocase Word.rtrim_ p1
      then (drop 5 p1, record cond { collation = rtrim })
      else if prefix_nocase Word.binary_ p1
      then (drop 6 p1, record cond { collation = binary })
      else (p1, cond)
    else (p, cond)

-- The value, and the collation.
unfoldable pub value_clause : List ℕ → SingleCond → Option (List ℕ × SingleCond)
unfolding parse_value_token collate_clause skip_whitespace
value_clause p cond =
    let (rest, val) = parse_value_token 4096 p in
    if not cond.is_subquery && not cond.is_exists && not cond.is_not_exists && takes_value cond.op
    then if is_nil val
      then none
      else some (collate_clause (skip_whitespace rest) (record cond { raw_val = val }))
    else some (collate_clause (skip_whitespace p) cond)

-- One condition, and what is behind it.
unfoldable pub condition : List ℕ → Option (List ℕ × SingleCond)
unfolding left_side value_clause
condition p = elim (left_side p) [ none ↦ none | some (rest, cond) ↦ value_clause rest cond ]

-- The connective at `p`, and what is behind it.
unfoldable pub connective : List ℕ → Option (LogicOp × List ℕ)
unfolding prefix_nocase
connective p =
    if word_at Word.and_ (0 ∷ []) p
    then some (logic_and, drop 3 p)
    else if word_at Word.or_ (0 ∷ []) p
    then some (logic_or, drop 2 p)
    else none

-- `logic_ops` has three places.
unfoldable pub connect : LogicOp → WhereClause → WhereClause
unfolding update
connect op wc =
    let i = length wc.conds - 1 in
    if ltb i 3 then record wc { logic_ops = update wc.logic_ops i op } else wc

-- The clause with one more condition.
abbrev pub push : SingleCond → WhereClause → WhereClause
push cond wc = record wc { conds = wc.conds ++ (cond ∷ []) }

-- The loop, with `left` more conditions to the limit of four.
unfoldable pub where_loop : ℕ → WhereClause → List ℕ → Option (List ℕ × WhereClause)
unfolding skip_whitespace condition connective connect
where_loop zero wc p = some (skip_whitespace p, wc)
where_loop (suc left) wc p =
    let p1 = skip_whitespace p in
    let more : Option (List ℕ × WhereClause) = elim (condition p1) [
      | none ↦ none
      | some (p2, cond) ↦ elim (connective (skip_whitespace p2)) [
        | none ↦ some (skip_whitespace p2, push cond wc)
        | some (op, p3) ↦ where_loop left (connect op (push cond wc)) p3
      ]
    ] in
    if is_nil p1 || at p1 0 == b';' then some (p1, wc) else more

abbrev pub blank_where : WhereClause
blank_where = record { has_where = false; conds = []; logic_ops = λ i. logic_and }

unfoldable pub parse_where_clause : List ℕ → Option (List ℕ × WhereClause)
unfolding skip_whitespace prefix_nocase where_loop
parse_where_clause p =
    let p1 = skip_whitespace p in
    if prefix_nocase Word.where_ p1
    then where_loop 4 (record blank_where { has_where = true }) (drop 5 p1)
    else some (p1, blank_where)
