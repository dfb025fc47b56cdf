-- ===== src/Parser/Where/Kept.antt =====
-- A WHERE clause that is written out is read back, up to its fourth condition.
use custom_db.Prelude.{
  ℕ, zero, suc, ◌+◌, ◌-◌, ◌<◌, ◌≡◌, refl, sym, ap, ◌∙◌, inl, inr, true, false, some, List, [], ◌∷◌,
  ◌++◌, map, length, length-append, get_or, take, ltb, ◌==◌, arith, Bool-cases,
}
use custom_db.Pager.State.{update}
use custom_db.Parser.Word
use custom_db.Parser.Conditions.{LogicOp, logic_and, SingleCond, WhereClause}
use custom_db.Parser.Tokens.{skip_whitespace}
use custom_db.Parser.Where.{connect, push, where_loop, blank_where, parse_where_clause}
use custom_db.Parser.Where.Shown.{Comparison, show, cond_of}
use custom_db.Parser.Where.Limit.{
  word, show_all, left_over, comparisons, connectives, append_nil, space_first, where_loop_last,
  where_loop_next,
}

-- What the loop leaves, for the conditions shown and `left` more places behind the first of them.
record Read (left : ℕ) (wc : WhereClause) (c : Comparison) (ds : List (LogicOp × Comparison))
    (w : WhereClause) : Type 0 where
  has : w.has_where ≡ wc.has_where
  conds : w.conds ≡ wc.conds ++ (cond_of c ∷ map cond_of (take left (comparisons ds)))
  old_ops : (i : ℕ) → i < length wc.conds → w.logic_ops i ≡ wc.logic_ops i
  ops :
      (i : ℕ)
      → i < length ds
      → length wc.conds + i < 3
      → w.logic_ops (length wc.conds + i) ≡ get_or (connectives ds) i logic_and

length-push :
    (wc : WhereClause) (cond : SingleCond) → length (push cond wc).conds ≡ length wc.conds + 1
length-push wc cond = length-append wc.conds (cond ∷ [])

connect-conds :
    (op : LogicOp) (wc : WhereClause) (cond : SingleCond)
    → (connect op (push cond wc)).conds ≡ wc.conds ++ (cond ∷ [])
unfolding connect
connect-conds op wc cond = elim (Bool-cases (ltb (length (push cond wc).conds - 1) 3)) [
  | inl e ↦ rw e refl
  | inr e ↦ rw e refl
]

connect-has :
    (op : LogicOp) (wc : WhereClause) (cond : SingleCond)
    → (connect op (push cond wc)).has_where ≡ wc.has_where
unfolding connect
connect-has op wc cond = elim (Bool-cases (ltb (length (push cond wc).conds - 1) 3)) [
  | inl e ↦ rw e refl
  | inr e ↦ rw e refl
]

connect-new :
    (op : LogicOp) (wc : WhereClause) (cond : SingleCond)
    → length wc.conds < 3
    → (connect op (push cond wc)).logic_ops (length wc.conds) ≡ op
unfolding connect update
connect-new op wc cond h =
    let last : length (push cond wc).conds - 1 ≡ length wc.conds =
      omega (arith, length-push wc cond) in
    let room : ltb (length wc.conds) 3 ≡ true = ground (arith, h) in
    let same : (length wc.conds == length wc.conds) ≡ true = ground arith in
    rw (last, room, same) refl

connect-old :
    (op : LogicOp) (wc : WhereClause) (cond : SingleCond) (i : ℕ)
    → i < length wc.conds
    → (connect op (push cond wc)).logic_ops i ≡ wc.logic_ops i
unfolding connect update
connect-old op wc cond i h =
    let last : length (push cond wc).conds - 1 ≡ length wc.conds =
      omega (arith, length-push wc cond) in
    let other : (i == length wc.conds) ≡ false = ground (arith, h) in
    elim (Bool-cases (ltb (length wc.conds) 3)) [
      | inl e ↦ rw (last, e, other) refl
      | inr e ↦ rw (last, e) refl
    ]

take_none : (n : ℕ) → take {A = Comparison} n [] ≡ []
take_none zero = refl
take_none (suc n) = refl

push-Read : (left : ℕ) (wc : WhereClause) (c : Comparison) → Read left wc c [] (push (cond_of c) wc)
push-Read left wc c = record {
  has = refl;
  conds = ap (λ l. wc.conds ++ (cond_of c ∷ map cond_of l)) (sym (take_none left));
  old_ops = λ i h. refl;
  ops = λ i h h'. absurd (omega (arith, h));
}

conds_assoc :
    (a : List SingleCond) (x : SingleCond) (b : List SingleCond)
    → (a ++ (x ∷ [])) ++ b ≡ a ++ (x ∷ b)
conds_assoc [] x b = refl
conds_assoc (y ∷ a) x b = ap (λ l. y ∷ l) (conds_assoc a x b)

-- Past the fourth condition.
where_loop_end :
    (wc : WhereClause) (d : Comparison) (ds : List (LogicOp × Comparison))
    → where_loop zero wc (32 ∷ show_all d ds) ≡ some (show_all d ds, wc)
unfolding where_loop
where_loop_end wc d [] =
    ap (λ p. some (p, wc))
      (ap (λ p. skip_whitespace (32 ∷ p)) (sym (append_nil (show d)))
        ∙ space_first d []
        ∙ append_nil (show d))
where_loop_end wc d ((op, f) ∷ ds) =
    ap (λ p. some (p, wc)) (space_first d (32 ∷ (word op ++ (32 ∷ show_all f ds))))

logic_ops_lem :
    (left : ℕ) (wc : WhereClause) (c : Comparison) (op : LogicOp) (d : Comparison)
    (ds : List (LogicOp × Comparison)) (w : WhereClause)
    → length (connect op (push (cond_of c) wc)).conds ≡ length wc.conds + 1
    → length wc.conds < 3
    → Read left (connect op (push (cond_of c) wc)) d ds w
    → (i : ℕ) → i < length ((op, d) ∷ ds)
    → length wc.conds + i < 3
    → w.logic_ops (length wc.conds + i) ≡ get_or (connectives ((op, d) ∷ ds)) i logic_and
logic_ops_lem left wc c op d ds w one room r zero h h' =
    let plain : length wc.conds + 0 ≡ length wc.conds = omega arith in
    rw plain (r.old_ops (length wc.conds) (omega (arith, one)) ∙ connect-new op wc (cond_of c) room)
logic_ops_lem left wc c op d ds w one room r (suc i) h h' =
    ap w.logic_ops (omega (arith, one)) ∙ r.ops i (omega (arith, h)) (omega (arith, h', one))

where_loop-Read :
    (left : ℕ) (wc : WhereClause) (c : Comparison) (ds : List (LogicOp × Comparison))
    → length wc.conds + left ≡ 3
    → (w : WhereClause) × (where_loop (suc left) wc (32 ∷ show_all c ds)
        ≡ some (left_over left ds, w))
      × Read left wc c ds w
where_loop-Read left wc c [] e =
    (push (cond_of c) wc, where_loop_last left wc c, push-Read left wc c)
where_loop-Read zero wc c ((op, d) ∷ ds) e =
    let wc1 = connect op (push (cond_of c) wc) in
    (
      wc1,
      where_loop_next zero wc c op (show_all d ds) ∙ where_loop_end wc1 d ds,
      record {
        has = connect-has op wc (cond_of c);
        conds = connect-conds op wc (cond_of c);
        old_ops = connect-old op wc (cond_of c);
        ops = λ i h h'. absurd (omega (arith, e, h'));
      },
    )
where_loop-Read (suc left) wc c ((op, d) ∷ ds) e =
    let wc1 = connect op (push (cond_of c) wc) in
    let conds1 : wc1.conds ≡ wc.conds ++ (cond_of c ∷ []) = connect-conds op wc (cond_of c) in
    let one : length wc1.conds ≡ length wc.conds + 1 =
      ap length conds1 ∙ length-append wc.conds (cond_of c ∷ []) in
    let (w, run, r) = where_loop-Read left wc1 d ds (omega (arith, e, one)) in
    (
      w,
      where_loop_next (suc left) wc c op (show_all d ds) ∙ run,
      record {
        has = r.has ∙ connect-has op wc (cond_of c);
        conds =
            r.conds
            ∙ ap (λ l. l ++ (cond_of d ∷ map cond_of (take left (comparisons ds)))) conds1
            ∙ conds_assoc wc.conds (cond_of c)
                (cond_of d ∷ map cond_of (take left (comparisons ds)));
        old_ops = λ i h. r.old_ops i (omega (arith, one, h)) ∙ connect-old op wc (cond_of c) i h;
        ops = logic_ops_lem left wc c op d ds w one (omega (arith, e)) r;
      },
    )

-- A clause written as `where`, comparisons of columns with texts in quotes, and AND or OR between
-- them, the texts of 1 to 4,095 bytes, the names of 1 to 31 letters, digits, underscores and dots
-- and not beginning with `exists`: its first four comparisons are read, in order, with the
-- connectives between them, and the rest of the clause, if there are more, is what
-- `parse_where_clause` returns as still to be parsed.
pub parse_where_clause-show_all :
    (c : Comparison) (ds : List (LogicOp × Comparison))
    → (w : WhereClause) × (parse_where_clause (Word.where_ ++ (32 ∷ show_all c ds))
        ≡ some (left_over 3 ds, w))
      × (w.has_where ≡ true)
      × (w.conds ≡ map cond_of (take 4 (c ∷ comparisons ds)))
      × ((i : ℕ) → i < length ds → i < 3 → w.logic_ops i ≡ get_or (connectives ds) i logic_and)
unfolding parse_where_clause
parse_where_clause-show_all c ds =
    let (w, run, r) =
      where_loop-Read 3 (record blank_where { has_where = true }) c ds (omega arith) in
    let plain : (i : ℕ) → 0 + i ≡ i = λ i. omega arith in
    (
      w,
      run,
      r.has,
      r.conds,
      λ i h h'. ap w.logic_ops (sym (plain i)) ∙ r.ops i h (omega (arith, h')),
    )
