-- ===== src/Parser/Subqueries.antt =====
-- The subqueries and BETWEEN in the conditions of a WHERE clause: `parse_where_clause` of src/parser.c.
use custom_db.Prelude.{
  ℕ, Bool, true, false, not, ◌&&◌, Option, none, some, List, [], ◌∷◌, take, drop, ◌==◌,
  if◌then◌else◌,
}
use custom_db.Executor.Like.{tolower}
use custom_db.Parser.Conditions.{
  CompOp, op_eq, op_gt, op_lt, op_gte, op_lte, op_between, SingleCond,
}
use custom_db.Parser.Word
use custom_db.Parser.Tokens.{
  isspace, isdigit, at, skip_whitespace, span, parse_identifier, parse_value_token,
}

-- `strncasecmp(p, word, length word) == 0`
unfoldable pub prefix_nocase : List ℕ → List ℕ → Bool
unfolding tolower
prefix_nocase [] p = true
prefix_nocase (k ∷ word) [] = false
prefix_nocase (k ∷ word) (c ∷ p) = tolower c == tolower k && prefix_nocase word p

-- `if (*p == c) p++;`
abbrev pub skip_char : ℕ → List ℕ → List ℕ
skip_char c p = if at p 0 == c then drop 1 p else p

-- The five comparisons, with the length of each; the operator is left as it is at anything else.
abbrev pub comparison : List ℕ → Option (ℕ × CompOp)
comparison p =
    if at p 0 == b'>' && at p 1 == b'='
    then some (2, op_gte)
    else if at p 0 == b'<' && at p 1 == b'='
    then some (2, op_lte)
    else if at p 0 == b'>'
    then some (1, op_gt)
    else if at p 0 == b'<'
    then some (1, op_lt)
    else if at p 0 == b'='
    then some (1, op_eq)
    else none

-- The bytes behind the first dot.
abbrev pub after_dot : List ℕ → Option (List ℕ)
after_dot [] = none
after_dot (c ∷ s) = if c == b'.' then some s else after_dot s

-- A comparison at `p`, and what is behind it.
abbrev pub sub_op : List ℕ → SingleCond → List ℕ × SingleCond
sub_op p cond = elim (comparison p) [
  | none ↦ (p, cond)
  | some (n, op) ↦ (drop n p, record cond { sub_where_op = op })
]

-- Behind `where` in the subquery of EXISTS. `sub_where_val` is what `snprintf` writes from that field
-- on, whose size in memory is 64 bytes, and not the 4,096 that it is told.
unfoldable pub exists_where : List ℕ → SingleCond → List ℕ × SingleCond
unfolding parse_identifier skip_whitespace
exists_where p cond =
    let (p1, left_tok) = parse_identifier 32 p in
    let left_col : List ℕ = elim (after_dot left_tok) [ none ↦ left_tok | some col ↦ col ] in
    let started = record cond { has_sub_where = true; sub_where_col = take 31 left_col } in
    let (p2, compared) = sub_op (skip_whitespace p1) started in
    let (p3, right_tok) = parse_identifier 4096 (skip_whitespace p2) in
    (
      p3,
      elim (after_dot right_tok) [
        | none ↦ record compared { sub_where_val = take 4095 right_tok }
        | some col ↦ record compared {
          sub_where_is_correlated = true;
          sub_correlated_outer_col = take 31 col;
        }
      ],
    )

-- `from`, if it is there, and the table.
unfoldable pub sub_from : List ℕ → SingleCond → List ℕ × SingleCond
unfolding prefix_nocase skip_whitespace parse_identifier
sub_from p cond =
    let (rest, table) = parse_identifier 64 (skip_whitespace (drop 4 p)) in
    if prefix_nocase Word.from p then (rest, record cond { sub_table = table }) else (p, cond)

-- Behind `select` in the subquery of EXISTS.
unfoldable pub exists_select : List ℕ → SingleCond → List ℕ × SingleCond
unfolding skip_whitespace span parse_identifier sub_from exists_where prefix_nocase
exists_select p cond =
    let p1 = skip_whitespace p in
    let p2 =
      if isdigit (at p1 0)
      then (span (λ c. not (isspace c)) p1).1
      else (parse_identifier 32 p1).0 in
    let (p3, with_table) = sub_from (skip_whitespace p2) cond in
    let p4 = skip_whitespace p3 in
    let (p5, done) =
      if prefix_nocase Word.where_ p4
      then exists_where (drop 5 p4) with_table
      else (p4, with_table) in
    (skip_char b')' (skip_whitespace p5), done)

-- Behind `exists` or `not exists`.
unfoldable pub exists_clause : List ℕ → SingleCond → List ℕ × SingleCond
unfolding skip_whitespace prefix_nocase exists_select
exists_clause p cond =
    let p1 = skip_whitespace (skip_char b'(' (skip_whitespace p)) in
    if prefix_nocase Word.select p1 then exists_select (drop 6 p1) cond else (p1, cond)

-- Behind `where` in the subquery of IN.
unfoldable pub in_where : List ℕ → SingleCond → List ℕ × SingleCond
unfolding parse_identifier skip_whitespace parse_value_token
in_where p cond =
    let (p1, col) = parse_identifier 32 p in
    let started = record cond { has_sub_where = true; sub_where_col = col } in
    let (p2, compared) = sub_op (skip_whitespace p1) started in
    let (p3, val) = parse_value_token 64 p2 in (p3, record compared { sub_where_val = val })

-- Behind `select` in the subquery of IN.
unfoldable pub in_select : List ℕ → SingleCond → List ℕ × SingleCond
unfolding skip_whitespace parse_identifier sub_from prefix_nocase in_where
in_select p cond =
    let (p1, col) = parse_identifier 32 (skip_whitespace p) in
    let (p2, with_table) =
      sub_from (skip_whitespace p1) (record cond { is_subquery = true; sub_col = col }) in
    let p3 = skip_whitespace p2 in
    let (p4, done) =
      if prefix_nocase Word.where_ p3 then in_where (drop 5 p3) with_table else (p3, with_table) in
    (skip_char b')' (skip_whitespace p4), done)

-- Behind `in`.
unfoldable pub in_clause : List ℕ → SingleCond → List ℕ × SingleCond
unfolding skip_whitespace prefix_nocase in_select
in_clause p cond =
    let p1 = skip_whitespace (skip_char b'(' (skip_whitespace p)) in
    if prefix_nocase Word.select p1 then in_select (drop 6 p1) cond else (p1, cond)

-- Behind `between`.
unfoldable pub between_clause : List ℕ → SingleCond → Option (List ℕ × SingleCond)
unfolding parse_value_token skip_whitespace prefix_nocase
between_clause p cond =
    let (p1, lower) = parse_value_token 4096 p in
    let p2 = skip_whitespace p1 in
    let (p3, upper) = parse_value_token 4096 (drop 3 p2) in
    if prefix_nocase Word.and_ p2
    then some (p3, record cond { op = op_between; raw_val = lower; raw_val2 = upper })
    else none
