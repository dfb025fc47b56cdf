-- ===== src/Executor/Like.antt =====
-- `sql_like_match` of src/executor.c. A C string is the list of the bytes before its terminator.
pub mod Laws
use custom_db.Prelude.{
  ℕ, ◌+◌, Bool, true, false, ◌&&◌, ◌||◌, List, [], ◌∷◌, ltb, leb, ◌==◌, if◌then◌else◌,
}
use custom_db.Catalog.Types.{CollationType, nocase}

abbrev pub is_nil : List ℕ → Bool
is_nil [] = true
is_nil (c ∷ s) = false

-- `tolower` of the C locale
unfoldable pub tolower : ℕ → ℕ
tolower c = if leb b'A' c && leb c b'Z' then c + 32 else c

-- the comparison of one literal character
unfoldable pub same_char : CollationType → ℕ → ℕ → Bool
unfolding tolower
same_char nocase p c = tolower p == tolower c
same_char _ p c = p == c

-- `while (*str) { if (sql_like_match(pattern, str, coll)) return true; str++; } return false;`
unfoldable pub any_suffix : (List ℕ → Bool) → List ℕ → Bool
any_suffix matches [] = false
any_suffix matches (c ∷ s) = matches (c ∷ s) || any_suffix matches s

-- the branch of '%': `ps` is the pattern behind it, and `matches` the function at that pattern
unfoldable pub like_percent : (List ℕ → Bool) → List ℕ → List ℕ → Bool
unfolding any_suffix
like_percent matches [] s = true
like_percent matches (q ∷ qs) s = any_suffix matches s

-- the branches of '_' and of a literal character
unfoldable pub like_one : CollationType → ℕ → (List ℕ → Bool) → List ℕ → Bool
unfolding same_char
like_one coll p matches [] = false
like_one coll p matches (c ∷ s) =
    if p == b'_' then matches s else if same_char coll p c then matches s else false

unfoldable pub like_match : CollationType → List ℕ → List ℕ → Bool
unfolding like_percent like_one
like_match coll [] s = is_nil s
like_match coll (p ∷ ps) s =
    let matches = like_match coll ps in
    if p == b'%' then like_percent matches ps s else like_one coll p matches s
