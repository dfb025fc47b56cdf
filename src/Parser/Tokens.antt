-- ===== src/Parser/Tokens.antt =====
-- The tokens of src/parser.c. A C string is the list of the bytes before its terminator.
pub mod Quoted
use custom_db.Prelude.{
  ℕ, zero, suc, ◌+◌, ◌-◌, ◌^◌, Bool, true, false, not, ◌&&◌, ◌||◌, Option, none, some, List, [],
  ◌∷◌, ◌++◌, length, get_or, take, drop, leb, ◌==◌, if◌then◌else◌,
}
use custom_db.Catalog.Row.Decode.{u32}
use custom_db.Executor.Like.{tolower}

-- `isspace` and `isalnum` of the C locale
abbrev pub isspace : ℕ → Bool
isspace c = c == 32 || (leb 9 c && leb c 13)

abbrev pub isdigit : ℕ → Bool
isdigit c = leb b'0' c && leb c b'9'

abbrev pub isalnum : ℕ → Bool
isalnum c = isdigit c || (leb b'A' c && leb c b'Z') || (leb b'a' c && leb c b'z')

-- The byte `i` places behind `p`, or the terminator.
abbrev pub at : List ℕ → ℕ → ℕ
at p i = get_or p i 0

unfoldable pub skip_whitespace : List ℕ → List ℕ
skip_whitespace [] = []
skip_whitespace (c ∷ p) = let rest = skip_whitespace p in if isspace c then rest else c ∷ p

-- The bytes up to the first that fails the test, and those behind them.
unfoldable pub span : (ℕ → Bool) → List ℕ → List ℕ × List ℕ
span test [] = ([], [])
span test (c ∷ p) = let (a, b) = span test p in if test c then (c ∷ a, b) else ([], c ∷ p)

abbrev pub is_name_char : ℕ → Bool
is_name_char c = isalnum c || c == b'_' || c == b'.'

-- What is behind the name, and the name, cut off to `max_len - 1` bytes.
unfoldable pub parse_identifier : ℕ → List ℕ → List ℕ × List ℕ
unfolding skip_whitespace span
parse_identifier max_len p =
    let (name, rest) = span is_name_char (skip_whitespace p) in
    (rest, take (u32 (max_len + 2 ^ 32 - 1)) name)

abbrev pub is_quote : ℕ → Bool
is_quote c = c == 39 || c == 34

abbrev pub is_hex : List ℕ → Bool
is_hex p = (at p 0 == b'x' || at p 0 == b'X') && is_quote (at p 1)

abbrev pub cons : List ℕ → List ℕ × List ℕ → List ℕ × List ℕ
cons a (b, rest) = (a ++ b, rest)

-- Behind an opening quote: up to and with the closing one, a doubled quote being none.
unfoldable pub quoted_span : ℕ → List ℕ → List ℕ × List ℕ
quoted_span quote [] = ([], [])
quoted_span quote (c ∷ []) = (c ∷ [], [])
quoted_span quote (c ∷ d ∷ s) = elim (c == quote) [
  | true ↦ elim (d == quote) [
    | true ↦ cons (c ∷ d ∷ []) (quoted_span quote s)
    | false ↦ (c ∷ [], d ∷ s)
  ]
  | false ↦ cons (c ∷ []) (quoted_span quote (d ∷ s))
]

-- `depth` is the number of open brackets; the token starts with one.
unfoldable pub bracket_span : ℕ → List ℕ → List ℕ × List ℕ
bracket_span depth [] = ([], [])
bracket_span depth (c ∷ s) =
    let deeper = if c == b'[' then depth + 1 else if c == b']' then depth - 1 else depth in
    let rest = bracket_span deeper s in
    if c == b']' && deeper == 0 then (c ∷ [], s) else cons (c ∷ []) rest

abbrev pub is_plain : ℕ → Bool
is_plain c = not (isspace c || c == b',' || c == b')' || c == b'=' || c == b';')

-- The first phase: the bytes of the token as they stand, and those behind it.
unfoldable pub token_span : List ℕ → List ℕ × List ℕ
unfolding span quoted_span bracket_span
token_span p =
    let (body, rest) = span (λ c. not (c == at p 1)) (drop 2 p) in
    if is_hex p
    then (take 2 p ++ (body ++ take 1 rest), drop 1 rest)
    else if is_quote (at p 0)
    then cons (take 1 p) (quoted_span (at p 0) (drop 1 p))
    else if at p 0 == b'['
    then bracket_span 0 p
    else span is_plain p

-- The copy of the bytes behind an opening quote.
unfoldable pub unquote : ℕ → List ℕ → List ℕ
unquote quote [] = []
unquote quote (c ∷ []) = if c == quote then [] else c ∷ []
unquote quote (c ∷ d ∷ s) = elim (c == quote) [
  | true ↦ elim (d == quote) [ true ↦ quote ∷ unquote quote s | false ↦ [] ]
  | false ↦ c ∷ unquote quote (d ∷ s)
]

-- The second phase, for a target with room enough: `bytes` are those of the token at `p`.
unfoldable pub copied : List ℕ → List ℕ → List ℕ
unfolding span unquote
copied p bytes =
    let (body, rest) = span (λ c. not (c == at p 1)) (drop 2 bytes) in
    if is_hex p
    then take 2 bytes ++ (body ++ take 1 rest)
    else if is_quote (at p 0)
    then unquote (at p 0) (drop 1 bytes)
    else bytes

-- `strcasecmp(a, b) == 0`
unfoldable pub equal_nocase : List ℕ → List ℕ → Bool
unfolding tolower
equal_nocase [] [] = true
equal_nocase (a ∷ s) (b ∷ t) = tolower a == tolower b && equal_nocase s t
equal_nocase _ _ = false

abbrev pub null_word : List ℕ
null_word = b'n' ∷ b'u' ∷ b'l' ∷ b'l' ∷ []

-- `*out_dyn` is `none` for `NULL`.
pub record Token : Type 0 where
  pub rest : List ℕ
  pub dest : List ℕ
  pub out_dyn : Option (List ℕ)
  pub is_null : Bool
  pub was_quoted : Bool

-- `allocates` says that `out_dyn` is given, and that `malloc` has the memory.
unfoldable pub parse_value_token_alloc : Bool → ℕ → List ℕ → Token
unfolding skip_whitespace token_span copied equal_nocase
parse_value_token_alloc allocates max_len text =
    let p = skip_whitespace text in
    let (bytes, rest) = token_span p in
    let room = u32 (max_len + 2 ^ 32 - 1) in
    let dynamic = allocates && leb room (length bytes) in
    let target_cap = if dynamic then u32 (length bytes + 1) else max_len in
    let target = take (u32 (target_cap + 2 ^ 32 - 1)) (copied p bytes) in
    let quoted = is_hex p || is_quote (at p 0) in
    record {
      rest = rest;
      dest = take room target;
      out_dyn = if dynamic then some target else none;
      is_null = not quoted && length target == 4 && equal_nocase target null_word;
      was_quoted = quoted;
    }

-- What is behind the token, and the token.
unfoldable pub parse_value_token : ℕ → List ℕ → List ℕ × List ℕ
unfolding parse_value_token_alloc
parse_value_token max_len p =
    let token = parse_value_token_alloc false max_len p in (token.rest, token.dest)
