-- ===== src/Parser/Where/Shown.antt =====
-- Conditions that are written out are read back.
use custom_db.Prelude.{
  ℕ, ◌≤◌, ◌≡◌, refl, sym, ap, ◌∙◌, Bool, true, false, ◌&&◌, some, List, [], ◌∷◌, ◌++◌, All, length,
  take_past, ◌==◌, arith,
}
use mathlib.Core.Path.{subst}
use custom_db.Executor.Like.{is_nil, tolower}
use custom_db.Parser.Word
use custom_db.Parser.Conditions.{
  CompOp, op_eq, op_gt, op_lt, op_gte, op_lte, op_in, op_is_null, op_is_not_null, op_match, op_like,
  op_between, op_glob, op_not_like, op_not_glob, SingleCond, blank_cond,
}
use custom_db.Parser.Tokens.{
  isspace, at, skip_whitespace, span, is_name_char, parse_identifier, parse_value_token,
}
use custom_db.Parser.Tokens.Quoted.{literal, length-literal, parse_value_token_alloc-literal}
use custom_db.Parser.Subqueries.{prefix_nocase}
use custom_db.Parser.Where.{operator, left_side}

abbrev pub is_comparison : CompOp → Bool
is_comparison op_eq = true
is_comparison op_gt = true
is_comparison op_lt = true
is_comparison op_gte = true
is_comparison op_lte = true
is_comparison _ = false

abbrev pub symbol : CompOp → List ℕ
symbol op_gt = b'>' ∷ []
symbol op_lt = b'<' ∷ []
symbol op_gte = b'>' ∷ b'=' ∷ []
symbol op_lte = b'<' ∷ b'=' ∷ []
symbol _ = b'=' ∷ []

-- A column compared with a text. The word `exists` does not begin the column's name.
pub record Comparison : Type 0 where
  pub name : List ℕ
  pub op : CompOp
  pub val : List ℕ
  pub named : All (λ c. is_name_char c ≡ true) name
  pub name_some : 1 ≤ length name
  pub name_fits : length name ≤ 31
  pub no_exists : prefix_nocase Word.exists name ≡ false
  pub compares : is_comparison op ≡ true
  pub val_some : 1 ≤ length val
  pub val_fits : length val ≤ 4095

abbrev pub show : Comparison → List ℕ
show c = c.name ++ (32 ∷ (symbol c.op ++ (32 ∷ literal 39 c.val)))

-- The condition that is read.
abbrev pub cond_of : Comparison → SingleCond
cond_of c = record blank_cond { col_name = c.name; op = c.op; raw_val = c.val }

span-append :
    (test : ℕ → Bool) (a : List ℕ) (d : ℕ) (b : List ℕ)
    → All (λ c. test c ≡ true) a
    → test d ≡ false
    → span test (a ++ (d ∷ b)) ≡ (a, d ∷ b)
unfolding span
span-append test [] d b h e = rw e refl
span-append test (c ∷ a) d b (h, hs) e =
    rw h (ap (λ (r : List ℕ × List ℕ). (c ∷ r.0, r.1)) (span-append test a d b hs e))

name_space : (c : ℕ) → is_name_char c ≡ true → isspace c ≡ false
name_space c h = ground (arith, h)

pub skip-name :
    (a b : List ℕ)
    → All (λ c. is_name_char c ≡ true) a
    → 1 ≤ length a
    → skip_whitespace (a ++ b) ≡ a ++ b
unfolding skip_whitespace
skip-name [] b h some_ = absurd (omega (arith, some_))
skip-name (c ∷ a) b (h, hs) some_ = rw (name_space c h) refl

parse_identifier-name :
    (a b : List ℕ)
    → All (λ c. is_name_char c ≡ true) a
    → 1 ≤ length a
    → length a ≤ 31
    → parse_identifier 32 (a ++ (32 ∷ b)) ≡ (32 ∷ b, a)
unfolding parse_identifier
parse_identifier-name a b h some_ fits =
    rw (skip-name a (32 ∷ b) h some_, span-append is_name_char a 32 b h refl, take_past 31 a fits)
      refl

-- A word that has no white space begins `a`, if it begins `a` with white space behind it.
prefix-space :
    (word a b : List ℕ)
    → All (λ k. (tolower 32 == tolower k) ≡ false) word
    → prefix_nocase word (a ++ (32 ∷ b)) ≡ prefix_nocase word a
unfolding prefix_nocase
prefix-space [] a b h = refl
prefix-space (k ∷ word) [] b (h, hs) = rw h refl
prefix-space (k ∷ word) (c ∷ a) b (h, hs) =
    ap (λ (t : Bool). (tolower c == tolower k) && t) (prefix-space word a b hs)

name_no_space : (c : ℕ) → is_name_char c ≡ true → (tolower c == 32) ≡ false
unfolding tolower
name_no_space c h = ground (arith, h)

and_false : (a b c : Bool) → (a && (b && (c && false))) ≡ false
and_false a b c = ground arith

no_not_exists :
    (a : List ℕ) (d : ℕ) (b : List ℕ)
    → All (λ c. is_name_char c ≡ true) a
    → (tolower d == b'e') ≡ false
    → prefix_nocase Word.not_exists (a ++ (32 ∷ (d ∷ b))) ≡ false
unfolding prefix_nocase
no_not_exists [] d b h e = refl
no_not_exists (x ∷ []) d b h e = ground (arith)
no_not_exists (x ∷ (y ∷ [])) d b h e = ground (arith)
no_not_exists (x ∷ (y ∷ (z ∷ []))) d b h e = ground (arith, e)
no_not_exists (x ∷ (y ∷ (z ∷ (u ∷ a)))) d b (hx, (hy, (hz, (hu, h)))) e =
    rw (name_no_space u hu) (and_false (tolower x == b'n') (tolower y == b'o') (tolower z == b't'))

operator-symbol :
    (op : CompOp) (s : List ℕ) (cond : SingleCond)
    → is_comparison op ≡ true
    → operator (skip_whitespace (32 ∷ (symbol op ++ (32 ∷ s)))) cond
      ≡ some (32 ∷ s, record cond { op = op })
unfolding operator skip_whitespace
operator-symbol op_eq s cond h = refl
operator-symbol op_gt s cond h = refl
operator-symbol op_lt s cond h = refl
operator-symbol op_gte s cond h = refl
operator-symbol op_lte s cond h = refl
operator-symbol op_in s cond h = absurd (ground (arith, h))
operator-symbol op_is_null s cond h = absurd (ground (arith, h))
operator-symbol op_is_not_null s cond h = absurd (ground (arith, h))
operator-symbol op_match s cond h = absurd (ground (arith, h))
operator-symbol op_like s cond h = absurd (ground (arith, h))
operator-symbol op_between s cond h = absurd (ground (arith, h))
operator-symbol op_glob s cond h = absurd (ground (arith, h))
operator-symbol op_not_like s cond h = absurd (ground (arith, h))
operator-symbol op_not_glob s cond h = absurd (ground (arith, h))

symbol_head :
    (op : CompOp) → (d : ℕ) × (b : List ℕ) × (symbol op ≡ d ∷ b) × ((tolower d == b'e') ≡ false)
unfolding tolower
symbol_head op_gt = (b'>', [], refl, refl)
symbol_head op_lt = (b'<', [], refl, refl)
symbol_head op_gte = (b'>', b'=' ∷ [], refl, refl)
symbol_head op_lte = (b'<', b'=' ∷ [], refl, refl)
symbol_head op_eq = (b'=', [], refl, refl)
symbol_head op_in = (b'=', [], refl, refl)
symbol_head op_is_null = (b'=', [], refl, refl)
symbol_head op_is_not_null = (b'=', [], refl, refl)
symbol_head op_match = (b'=', [], refl, refl)
symbol_head op_like = (b'=', [], refl, refl)
symbol_head op_between = (b'=', [], refl, refl)
symbol_head op_glob = (b'=', [], refl, refl)
symbol_head op_not_like = (b'=', [], refl, refl)
symbol_head op_not_glob = (b'=', [], refl, refl)

pub parse_value_token-literal :
    (val more : List ℕ)
    → length val ≤ 4095
    → (at more 0 == 39) ≡ false
    → parse_value_token 4096 (32 ∷ (literal 39 val ++ more)) ≡ (more, val)
unfolding parse_value_token
parse_value_token-literal val more fits e =
    let (rest, quoted, nonnull, dest, value) =
      parse_value_token_alloc-literal false 4096 39 (32 ∷ []) val more (omega arith) (omega arith)
        (omega (arith, length-literal 39 val, fits)) refl (refl, tt) e in
    rw (rest, dest, take_past 4095 val fits) refl

exists-no_space : All (λ k. (tolower 32 == tolower k) ≡ false) Word.exists
unfolding tolower
exists-no_space = (refl, (refl, (refl, (refl, (refl, (refl, tt))))))

pub is_nil-some : (a : List ℕ) → 1 ≤ length a → is_nil a ≡ false
is_nil-some [] h = absurd (omega (arith, h))
is_nil-some (c ∷ a) h = refl

pub left_side-shown :
    (c : Comparison) (s : List ℕ)
    → left_side (c.name ++ (32 ∷ (symbol c.op ++ (32 ∷ s))))
      ≡ some (32 ∷ s, record blank_cond { col_name = c.name; op = c.op })
unfolding left_side
left_side-shown c s =
    let (d, b, e, h) = symbol_head c.op in
    let tail = symbol c.op ++ (32 ∷ s) in
    let first : prefix_nocase Word.not_exists (c.name ++ (32 ∷ tail)) ≡ false =
      subst (λ t. prefix_nocase Word.not_exists (c.name ++ (32 ∷ (t ++ (32 ∷ s)))) ≡ false) (sym e)
        (no_not_exists c.name d (b ++ (32 ∷ s)) c.named h) in
    let second : prefix_nocase Word.exists (c.name ++ (32 ∷ tail)) ≡ false =
      prefix-space Word.exists c.name tail exists-no_space ∙ c.no_exists in
    let skipped = skip-name c.name (32 ∷ tail) c.named c.name_some in
    let spanned = span-append is_name_char c.name 32 tail c.named refl in
    let whole = take_past 31 c.name c.name_fits in
    let filled : is_nil c.name ≡ false = is_nil-some c.name c.name_some in
    rw (first, second, skipped, spanned, whole, filled)
      (operator-symbol c.op s (record blank_cond { col_name = c.name }) c.compares)
