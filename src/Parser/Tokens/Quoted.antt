-- ===== src/Parser/Tokens/Quoted.antt =====
-- A text in quotes is read back.
use custom_db.Prelude.{
  ℕ, zero, suc, ◌+◌, ◌-◌, ◌*◌, ◌^◌, ◌≤◌, ◌<◌, ◌≡◌, refl, sym, ap, ◌∙◌, inl, inr, Bool, true, false,
  ◌&&◌, none, some, List, [], ◌∷◌, ◌++◌, All, length, length-append, take_past, take, leb, ◌==◌,
  if◌then◌else◌, arith, Bool-cases,
}
use custom_db.Catalog.Row.Decode.{u32}
use custom_db.Parser.Tokens.{
  isspace, at, skip_whitespace, is_quote, is_hex, cons, quoted_span, token_span, unquote, copied,
  Token, parse_value_token_alloc,
}

-- The text with each quote doubled.
abbrev pub escape : ℕ → List ℕ → List ℕ
escape quote [] = []
escape quote (c ∷ text) =
    let rest = escape quote text in if c == quote then quote ∷ quote ∷ rest else c ∷ rest

-- The text as a literal.
abbrev pub literal : ℕ → List ℕ → List ℕ
literal quote text = quote ∷ (escape quote text ++ (quote ∷ []))

quoted_span-other :
    (quote c : ℕ) (s : List ℕ)
    → (c == quote) ≡ false
    → quoted_span quote (c ∷ s) ≡ cons (c ∷ []) (quoted_span quote s)
unfolding quoted_span
quoted_span-other quote c [] e = refl
quoted_span-other quote c (d ∷ s) e = rw (quoted_span, e) refl

quoted_span-end :
    (quote : ℕ) (s : List ℕ)
    → (at s 0 == quote) ≡ false
    → quoted_span quote (quote ∷ s) ≡ (quote ∷ [], s)
unfolding quoted_span
quoted_span-end quote [] e = refl
quoted_span-end quote (d ∷ s) e =
    let same : (quote == quote) ≡ true = ground arith in rw (quoted_span, same, e) refl

quoted_span-double :
    (quote : ℕ) (s : List ℕ)
    → quoted_span quote (quote ∷ quote ∷ s) ≡ cons (quote ∷ quote ∷ []) (quoted_span quote s)
unfolding quoted_span
quoted_span-double quote s =
    let same : (quote == quote) ≡ true = ground arith in rw (quoted_span, same, same) refl

quoted_span-escape :
    (quote : ℕ) (text rest : List ℕ)
    → (at rest 0 == quote) ≡ false
    → quoted_span quote ((escape quote text ++ (quote ∷ [])) ++ rest)
      ≡ (escape quote text ++ (quote ∷ []), rest)
quoted_span-escape quote [] rest e = quoted_span-end quote rest e
quoted_span-escape quote (c ∷ text) rest e =
    let ih = quoted_span-escape quote text rest e in
    let more = (escape quote text ++ (quote ∷ [])) ++ rest in
    elim (Bool-cases (c == quote)) [
      | inl e' ↦ rw e' (quoted_span-double quote more ∙ ap (cons (quote ∷ quote ∷ [])) ih)
      | inr e' ↦ rw e' (quoted_span-other quote c more e' ∙ ap (cons (c ∷ [])) ih)
    ]

unquote-other :
    (quote c : ℕ) (s : List ℕ) → (c == quote) ≡ false → unquote quote (c ∷ s) ≡ c ∷ unquote quote s
unfolding unquote
unquote-other quote c [] e = rw e refl
unquote-other quote c (d ∷ s) e = rw (unquote, e) refl

unquote-double :
    (quote : ℕ) (s : List ℕ) → unquote quote (quote ∷ quote ∷ s) ≡ quote ∷ unquote quote s
unfolding unquote
unquote-double quote s =
    let same : (quote == quote) ≡ true = ground arith in rw (unquote, same, same) refl

unquote-escape :
    (quote : ℕ) (text : List ℕ) → unquote quote (escape quote text ++ (quote ∷ [])) ≡ text
unfolding unquote
unquote-escape quote [] = let same : (quote == quote) ≡ true = ground arith in rw same refl
unquote-escape quote (c ∷ text) =
    let ih = unquote-escape quote text in
    elim (Bool-cases (c == quote)) [
      | inl e ↦
          (let same : c ≡ quote = ground (arith, e) in
            rw e (
              unquote-double quote (escape quote text ++ (quote ∷ []))
              ∙ ap (λ t. quote ∷ t) ih
              ∙ ap (λ d. d ∷ text) (sym same)))
      | inr e ↦
          rw e (unquote-other quote c (escape quote text ++ (quote ∷ [])) e ∙ ap (λ t. c ∷ t) ih)
    ]

pub skip_whitespace-append :
    (spaces p : List ℕ)
    → All (λ c. isspace c ≡ true) spaces
    → isspace (at p 0) ≡ false
    → skip_whitespace (spaces ++ p) ≡ p
unfolding skip_whitespace
skip_whitespace-append [] [] h e = refl
skip_whitespace-append [] (c ∷ p) h e = rw e refl
skip_whitespace-append (c ∷ spaces) p (h, hs) e = rw h (skip_whitespace-append spaces p hs e)

length-escape : (quote : ℕ) (text : List ℕ) → length text ≤ length (escape quote text)
length-escape quote [] = omega arith
length-escape quote (c ∷ text) = ground (arith, length-escape quote text)

-- What a caller of `parse_value_token_alloc` uses: the allocated text, if there is one.
abbrev pub value : Token → List ℕ
value token = elim token.out_dyn [ none ↦ token.dest | some text ↦ text ]

take-take : (n : ℕ) (l : List ℕ) → take n (take n l) ≡ take n l
take-take zero l = refl
take-take (suc n) [] = refl
take-take (suc n) (x ∷ l) = ap (λ r. x ∷ r) (take-take n l)

module _ (quote : ℕ) (text rest : List ℕ) (quotes : is_quote quote ≡ true) where
  no_hex : is_hex (literal quote text ++ rest) ≡ false
  no_hex = ground (arith, quotes)

  token_span-literal :
      (at rest 0 == quote) ≡ false
      → token_span (literal quote text ++ rest) ≡ (literal quote text, rest)
  unfolding token_span
  token_span-literal e =
      rw (no_hex, quotes) (ap (cons (quote ∷ [])) (quoted_span-escape quote text rest e))

  copied-literal : copied (literal quote text ++ rest) (literal quote text) ≡ text
  unfolding copied
  copied-literal = rw (no_hex, quotes) (unquote-escape quote text)

  no_space : isspace (at (literal quote text ++ rest) 0) ≡ false
  no_space = ground (arith, quotes)

length-escape-le : (quote : ℕ) (text : List ℕ) → length (escape quote text) ≤ 2 * length text
length-escape-le quote [] = omega arith
length-escape-le quote (c ∷ text) = ground (arith, length-escape-le quote text)

pub length-literal : (quote : ℕ) (text : List ℕ) → length (literal quote text) ≤ 2 * length text + 2
length-literal quote text =
    omega (arith, length-escape-le quote text, length-append {0} (escape quote text) (quote ∷ []))

-- The bytes that the target has room for.
target_room :
    (dynamic : Bool) (max_len size : ℕ)
    → 1 ≤ max_len
    → max_len < 2 ^ 32
    → size + 1 < 2 ^ 32
    → u32 ((if dynamic then u32 (size + 1) else max_len) + 2 ^ 32 - 1)
      ≡ (if dynamic then size else max_len - 1)
target_room true max_len size pos bound small = omega (arith, small)
target_room false max_len size pos bound small = omega (arith, pos, bound)

module _ (allocates : Bool) (room size : ℕ) (text : List ℕ) (enough : length text ≤ size) where
  target : List ℕ
  target = take (if allocates && leb room size then size else room) text

  dest_lem : take room target ≡ take room text
  unfolding target
  dest_lem = elim (Bool-cases (allocates && leb room size)) [
    | inl e ↦ rw e (ap (take room) (take_past size text enough))
    | inr e ↦ rw e (take-take room text)
  ]

  value_lem :
      elim (if allocates && leb room size then some target else none) [
        | none ↦ take room target
        | some t ↦ t
      ]
      ≡ (if allocates then text else take room text)
  unfolding target
  value_lem = elim (Bool-cases allocates) [
    | inl e ↦ elim (Bool-cases (leb room size)) [
      | inl e' ↦ rw (e, e') (take_past size text enough)
      | inr e' ↦ rw (e, e') (dest_lem ∙ take_past room text (ground (arith, e', enough)))
    ]
    | inr e ↦ rw e dest_lem
  ]

-- A text in quotes, its quotes doubled, behind white space and before anything but another such
-- quote, is read back by `parse_value_token_alloc`, for a `max_len` from 1 to 2 ^ 32 - 1. It stops
-- behind the literal and says that it was quoted and is not NULL; `dest` gets as much of the text
-- as fits its `max_len` bytes with the terminator, and where there is memory for it the text that
-- callers use is the whole one. The literal has fewer than 2 ^ 32 - 1 bytes, so that the capacity of
-- the allocated buffer does not wrap around.
pub parse_value_token_alloc-literal :
    (allocates : Bool) (max_len quote : ℕ) (spaces text rest : List ℕ)
    → 1 ≤ max_len
    → max_len < 2 ^ 32
    → length (literal quote text) + 1 < 2 ^ 32
    → is_quote quote ≡ true
    → All (λ c. isspace c ≡ true) spaces
    → (at rest 0 == quote) ≡ false
    → let token =
        parse_value_token_alloc allocates max_len (spaces ++ (literal quote text ++ rest)) in
      (token.rest ≡ rest)
      × (token.was_quoted ≡ true)
      × (token.is_null ≡ false)
      × (token.dest ≡ take (max_len - 1) text)
      × (value token ≡ (if allocates then text else take (max_len - 1) text))
unfolding parse_value_token_alloc target
parse_value_token_alloc-literal allocates max_len quote spaces text rest pos bound small quotes
      blank e =
    let p = literal quote text ++ rest in
    let bytes = literal quote text in
    let skipped = skip_whitespace-append spaces p blank (no_space quote text rest quotes) in
    let spanned = token_span-literal quote text rest quotes e in
    let copy = copied-literal quote text rest quotes in
    let hex = no_hex quote text rest quotes in
    let room : u32 (max_len + 2 ^ 32 - 1) ≡ max_len - 1 = omega (arith, pos, bound) in
    let enough : length text ≤ length bytes =
      omega (arith, length-escape quote text, length-append {0} (escape quote text) (quote ∷ [])) in
    let dynamic = allocates && leb (max_len - 1) (length bytes) in
    let cap = target_room dynamic max_len (length bytes) pos bound small in
    rw (skipped, spanned, copy, hex, quotes, room, cap)
      (
        refl,
        refl,
        refl,
        dest_lem allocates (max_len - 1) (length bytes) text enough,
        value_lem allocates (max_len - 1) (length bytes) text enough,
      )
