-- ===== src/Vdbe/Sorter/Rows.antt =====
-- The rows that the sorter gives.
use custom_db.Prelude.{ℕ, ◌+◌, ◌<◌, ◌≡◌, List, [], ◌∷◌, get_or}
use custom_db.Catalog.Types.{value_init}
use custom_db.Vdbe.Sorter.{Register, SorterEntry, Vdbe, value_copy}

-- The registers hold the entry's row, and their own NULL marks are those of `old`.
pub record Shows (start n : ℕ) (old : ℕ → Register) (entry : SorterEntry) (regs : ℕ → Register)
    : Type 0 where
  pub vals :
      (c : ℕ) → c < n → (regs (start + c)).val ≡ value_copy (get_or entry.row_values c value_init)
  pub marks : (r : ℕ) → (regs r).is_null ≡ (old r).is_null

-- One row for each entry, in their order.
abbrev pub ShowsAll : ℕ → ℕ → (ℕ → Register) → List SorterEntry → List (ℕ → Register) → Type 0
ShowsAll start n old [] [] = Unit {0}
ShowsAll start n old (e ∷ es) (r ∷ rs) = Shows start n old e r × ShowsAll start n old es rs
ShowsAll start n old _ _ = ⊥
