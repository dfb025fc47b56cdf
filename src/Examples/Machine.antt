-- ===== src/Examples/Machine.antt =====
-- A sorter with two rows, and a register that is marked NULL.
use custom_db.Prelude.{◌≡◌, refl, true, [], ◌∷◌}
use custom_db.Catalog.Types.{int, Value, value_init}
use custom_db.Vdbe.Sorter.{Vdbe, sorter_rewind, load_columns, prints_null}
use custom_db.Pager.State.{update}

abbrev three : Value
three = record value_init { int_val = 3 }

abbrev four : Value
four = record value_init { int_val = 4 }

-- The last row that was scanned had NULL in its column.
abbrev machine : Vdbe
machine = record {
  regs = λ r. record { val = value_init; col_type = int; is_null = true };
  pc = 8;
  entries = record { row_values = three ∷ [] } ∷ record { row_values = four ∷ [] } ∷ [];
  cursor_idx = 0;
}

-- The 3 is printed as NULL.
rewound : prints_null ((sorter_rewind 10 1 1 machine).regs 1) ≡ true
unfolding sorter_rewind load_columns update
rewound = refl
