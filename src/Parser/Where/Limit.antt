-- ===== src/Parser/Where/Limit.antt =====
-- One round of the loop over the conditions of a WHERE clause that is written out.
use custom_db.Prelude.{
  ℕ, zero, suc, ◌≤◌, ◌≡◌, refl, sym, ap, ◌∙◌, true, false, ◌||◌, Option, none, some, List, [], ◌∷◌,
  ◌++◌, All, length, ◌==◌, if◌then◌else◌, arith,
}
use custom_db.Executor.Like.{is_nil}
use custom_db.Parser.Word
use custom_db.Parser.Conditions.{
  CompOp, op_eq, op_gt, op_lt, op_gte, op_lte, op_in, op_is_null, op_is_not_null, op_match, op_like,
  op_between, op_glob, op_not_like, op_not_glob, LogicOp, logic_and, logic_or, SingleCond,
  blank_cond, WhereClause,
}
use custom_db.Parser.Tokens.{at, skip_whitespace, is_name_char}
use custom_db.Parser.Tokens.Quoted.{literal}
use custom_db.Parser.Subqueries.{prefix_nocase}
use custom_db.Parser.Where.{
  takes_value, collate_clause, value_clause, condition, connective, connect, push, where_loop,
}
use custom_db.Parser.Where.Shown.{
  is_comparison, symbol, Comparison, show, cond_of, skip-name, is_nil-some, left_side-shown,
  parse_value_token-literal,
}
use mathlib.Core.Path.{subst}

abbrev pub word : LogicOp → List ℕ
word logic_and = Word.and_
word logic_or = Word.or_

-- A condition and those behind it, each after its connective.
abbrev pub show_all : Comparison → List (LogicOp × Comparison) → List ℕ
show_all c [] = show c
show_all c ((op, d) ∷ ds) = show c ++ (32 ∷ (word op ++ (32 ∷ show_all d ds)))

-- The text of the conditions behind the first `n + 1`.
abbrev pub left_over : ℕ → List (LogicOp × Comparison) → List ℕ
left_over n [] = []
left_over zero ((op, d) ∷ ds) = show_all d ds
left_over (suc n) ((op, d) ∷ ds) = left_over n ds

abbrev pub comparisons : List (LogicOp × Comparison) → List Comparison
comparisons [] = []
comparisons ((op, d) ∷ ds) = d ∷ comparisons ds

abbrev pub connectives : List (LogicOp × Comparison) → List LogicOp
connectives [] = []
connectives ((op, d) ∷ ds) = op ∷ connectives ds

takes_value-comparison : (op : CompOp) → is_comparison op ≡ true → takes_value op ≡ true
takes_value-comparison op_eq h = refl
takes_value-comparison op_gt h = refl
takes_value-comparison op_lt h = refl
takes_value-comparison op_gte h = refl
takes_value-comparison op_lte h = refl
takes_value-comparison op_in h = refl
takes_value-comparison op_is_null h = absurd (ground (arith, h))
takes_value-comparison op_is_not_null h = absurd (ground (arith, h))
takes_value-comparison op_match h = refl
takes_value-comparison op_like h = refl
takes_value-comparison op_between h = absurd (ground (arith, h))
takes_value-comparison op_glob h = refl
takes_value-comparison op_not_like h = refl
takes_value-comparison op_not_glob h = refl

append_assoc : (a b c : List ℕ) → (a ++ b) ++ c ≡ a ++ (b ++ c)
append_assoc [] b c = refl
append_assoc (x ∷ a) b c = ap (λ l. x ∷ l) (append_assoc a b c)

pub append_nil : (a : List ℕ) → a ++ [] ≡ a
append_nil [] = refl
append_nil (x ∷ a) = ap (λ l. x ∷ l) (append_nil a)

pub show-append :
    (c : Comparison) (more : List ℕ)
    → show c ++ more ≡ c.name ++ (32 ∷ (symbol c.op ++ (32 ∷ (literal 39 c.val ++ more))))
show-append c more =
    append_assoc c.name (32 ∷ (symbol c.op ++ (32 ∷ literal 39 c.val))) more
    ∙ ap (λ l. c.name ++ (32 ∷ l)) (append_assoc (symbol c.op) (32 ∷ literal 39 c.val) more)

collate_clause-none :
    (p : List ℕ) (cond : SingleCond)
    → prefix_nocase Word.collate p ≡ false
    → collate_clause p cond ≡ (p, cond)
unfolding collate_clause
collate_clause-none p cond e = rw e refl

value_clause-shown :
    (c : Comparison) (more : List ℕ)
    → (at more 0 == 39) ≡ false
    → prefix_nocase Word.collate (skip_whitespace more) ≡ false
    → value_clause
        (32 ∷ (literal 39 c.val ++ more))
        (record blank_cond { col_name = c.name; op = c.op })
      ≡ some (skip_whitespace more, cond_of c)
unfolding value_clause
value_clause-shown c more e e' =
    let cond = record blank_cond { col_name = c.name; op = c.op } in
    let go : List ℕ × List ℕ → Option (List ℕ × SingleCond) = λ t.
      if takes_value c.op
      then if is_nil t.1
        then none
        else some (collate_clause (skip_whitespace t.0) (record cond { raw_val = t.1 }))
      else some (collate_clause (skip_whitespace (32 ∷ (literal 39 c.val ++ more))) cond) in
    let valued = takes_value-comparison c.op c.compares in
    let filled = is_nil-some c.val c.val_some in
    ap go (parse_value_token-literal c.val more c.val_fits e)
    ∙ rw (valued, filled) (ap some (collate_clause-none (skip_whitespace more) (cond_of c) e'))

condition-shown :
    (c : Comparison) (more : List ℕ)
    → (at more 0 == 39) ≡ false
    → prefix_nocase Word.collate (skip_whitespace more) ≡ false
    → condition (show c ++ more) ≡ some (skip_whitespace more, cond_of c)
unfolding condition
condition-shown c more e e' =
    let go : Option (List ℕ × SingleCond) → Option (List ℕ × SingleCond) =
      λ o. elim o [ none ↦ none | some (rest, cond) ↦ value_clause rest cond ] in
    ap condition (show-append c more)
    ∙ ap go (left_side-shown c (literal 39 c.val ++ more))
    ∙ value_clause-shown c more e e'

pub space_first :
    (c : Comparison) (more : List ℕ) → skip_whitespace (32 ∷ (show c ++ more)) ≡ show c ++ more
unfolding skip_whitespace
space_first c more =
    let e = show-append c more in
    ap (λ p. skip_whitespace (32 ∷ p)) e
    ∙ skip-name c.name (32 ∷ (symbol c.op ++ (32 ∷ (literal 39 c.val ++ more)))) c.named c.name_some
    ∙ sym e

name-goes_on :
    (a b : List ℕ)
    → All (λ c. is_name_char c ≡ true) a
    → 1 ≤ length a
    → (is_nil (a ++ b) || at (a ++ b) 0 == b';') ≡ false
name-goes_on [] b h some_ = absurd (omega (arith, some_))
name-goes_on (c ∷ a) b (h, hs) some_ = ground (arith, h)

shown-goes_on :
    (c : Comparison) (more : List ℕ)
    → (is_nil (show c ++ more) || at (show c ++ more) 0 == b';') ≡ false
shown-goes_on c more =
    subst (λ p. (is_nil p || at p 0 == b';') ≡ false) (sym (show-append c more))
      (name-goes_on c.name (32 ∷ (symbol c.op ++ (32 ∷ (literal 39 c.val ++ more)))) c.named
        c.name_some)

-- One round of the loop.
where_loop_run :
    (left : ℕ) (wc : WhereClause) (c : Comparison) (more : List ℕ)
    → (at more 0 == 39) ≡ false
    → prefix_nocase Word.collate (skip_whitespace more) ≡ false
    → where_loop (suc left) wc (32 ∷ (show c ++ more))
      ≡ elim (connective (skip_whitespace (skip_whitespace more))) [
        | none ↦ some (skip_whitespace (skip_whitespace more), push (cond_of c) wc)
        | some (op, p) ↦ where_loop left (connect op (push (cond_of c) wc)) p
      ]
unfolding where_loop
where_loop_run left wc c more e e' =
    let body : List ℕ → Option (List ℕ × SingleCond) → Option (List ℕ × WhereClause) = λ p o.
      if is_nil p || at p 0 == b';' then some (p, wc) else elim o [
        | none ↦ none
        | some (q, cond) ↦ elim (connective (skip_whitespace q)) [
          | none ↦ some (skip_whitespace q, push cond wc)
          | some (op, r) ↦ where_loop left (connect op (push cond wc)) r
        ]
      ] in
    ap (λ p. body p (condition p)) (space_first c more)
    ∙ ap (body (show c ++ more)) (condition-shown c more e e')
    ∙ rw (shown-goes_on c more) refl

pub where_loop_last :
    (left : ℕ) (wc : WhereClause) (c : Comparison)
    → where_loop (suc left) wc (32 ∷ show c) ≡ some ([], push (cond_of c) wc)
unfolding skip_whitespace connective
where_loop_last left wc c =
    ap (λ p. where_loop (suc left) wc (32 ∷ p)) (sym (append_nil (show c)))
    ∙ where_loop_run left wc c [] refl refl

pub where_loop_next :
    (left : ℕ) (wc : WhereClause) (c : Comparison) (op : LogicOp) (p : List ℕ)
    → where_loop (suc left) wc (32 ∷ (show c ++ (32 ∷ (word op ++ (32 ∷ p)))))
      ≡ where_loop left (connect op (push (cond_of c) wc)) (32 ∷ p)
unfolding skip_whitespace connective
where_loop_next left wc c logic_and p =
    where_loop_run left wc c (32 ∷ (Word.and_ ++ (32 ∷ p))) refl refl
where_loop_next left wc c logic_or p =
    where_loop_run left wc c (32 ∷ (Word.or_ ++ (32 ∷ p))) refl refl
