-- ===== src/Parser/Word.antt =====
-- The words of the WHERE clause of src/parser.c, in lower case.
use custom_db.Prelude.{ℕ, List, [], ◌∷◌}

abbrev pub where_ : List ℕ
where_ = b'w' ∷ b'h' ∷ b'e' ∷ b'r' ∷ b'e' ∷ []

abbrev pub exists : List ℕ
exists = b'e' ∷ b'x' ∷ b'i' ∷ b's' ∷ b't' ∷ b's' ∷ []

abbrev pub not_exists : List ℕ
not_exists = b'n' ∷ b'o' ∷ b't' ∷ 32 ∷ exists

abbrev pub select : List ℕ
select = b's' ∷ b'e' ∷ b'l' ∷ b'e' ∷ b'c' ∷ b't' ∷ []

abbrev pub from : List ℕ
from = b'f' ∷ b'r' ∷ b'o' ∷ b'm' ∷ []

abbrev pub is_null : List ℕ
is_null = b'i' ∷ b's' ∷ 32 ∷ b'n' ∷ b'u' ∷ b'l' ∷ b'l' ∷ []

abbrev pub is_not_null : List ℕ
is_not_null = b'i' ∷ b's' ∷ 32 ∷ b'n' ∷ b'o' ∷ b't' ∷ 32 ∷ b'n' ∷ b'u' ∷ b'l' ∷ b'l' ∷ []

abbrev pub match_ : List ℕ
match_ = b'm' ∷ b'a' ∷ b't' ∷ b'c' ∷ b'h' ∷ []

abbrev pub like : List ℕ
like = b'l' ∷ b'i' ∷ b'k' ∷ b'e' ∷ []

abbrev pub glob : List ℕ
glob = b'g' ∷ b'l' ∷ b'o' ∷ b'b' ∷ []

abbrev pub not_like : List ℕ
not_like = b'n' ∷ b'o' ∷ b't' ∷ 32 ∷ like

abbrev pub not_glob : List ℕ
not_glob = b'n' ∷ b'o' ∷ b't' ∷ 32 ∷ glob

abbrev pub between : List ℕ
between = b'b' ∷ b'e' ∷ b't' ∷ b'w' ∷ b'e' ∷ b'e' ∷ b'n' ∷ []

abbrev pub and_ : List ℕ
and_ = b'a' ∷ b'n' ∷ b'd' ∷ []

abbrev pub or_ : List ℕ
or_ = b'o' ∷ b'r' ∷ []

abbrev pub in_ : List ℕ
in_ = b'i' ∷ b'n' ∷ []

abbrev pub collate : List ℕ
collate = b'c' ∷ b'o' ∷ b'l' ∷ b'l' ∷ b'a' ∷ b't' ∷ b'e' ∷ []

abbrev pub nocase_ : List ℕ
nocase_ = b'n' ∷ b'o' ∷ b'c' ∷ b'a' ∷ b's' ∷ b'e' ∷ []

abbrev pub rtrim_ : List ℕ
rtrim_ = b'r' ∷ b't' ∷ b'r' ∷ b'i' ∷ b'm' ∷ []

abbrev pub binary_ : List ℕ
binary_ = b'b' ∷ b'i' ∷ b'n' ∷ b'a' ∷ b'r' ∷ b'y' ∷ []
