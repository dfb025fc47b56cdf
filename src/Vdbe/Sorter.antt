-- ===== src/Vdbe/Sorter.antt =====
-- The sorter of src/vdbe.c, once its entries are sorted: SorterRewind, SorterNext, and what ResultRow
-- takes as NULL. The machine has moved `pc` past the instruction that it runs.
pub mod Rows
use custom_db.Prelude.{
  ℕ, zero, suc, ◌+◌, Bool, true, false, ◌||◌, List, [], ◌∷◌, length, get_or, take, ltb, ◌==◌,
  if◌then◌else◌,
}
use custom_db.Catalog.Types.{ColumnType, Value, value_init}
use custom_db.Pager.State.{update}
use custom_db.Executor.Like.{is_nil}

-- `type` of the source is `col_type`. A machine has sixteen registers, and the code tests no number of
-- one; the numbers from 16 on stand for what follows them in the machine.
pub record Register : Type 0 where
  pub val : Value
  pub col_type : ColumnType
  pub is_null : Bool

-- The part of an entry that the rewind and the steps read.
pub record SorterEntry : Type 0 where
  pub row_values : List Value

-- The part of a machine that the sorter works on; `count` is the length of the entries.
pub record Vdbe : Type 0 where
  pub regs : ℕ → Register
  pub pc : ℕ
  pub entries : List SorterEntry
  pub cursor_idx : ℕ

-- A NULL's text is not copied.
abbrev pub value_copy : Value → Value
value_copy v =
    if v.is_null || is_nil v.text_val
    then record v { text_val = []; text_len = 0 }
    else record v { text_val = take v.text_len v.text_val }

-- The loop that copies the columns from `c` on, with `left` to go; a number of 16 or more makes it
-- write behind the registers, as nothing stops it, and what else stands there is not modelled.
unfoldable pub load_columns : SorterEntry → ℕ → ℕ → ℕ → (ℕ → Register) → ℕ → Register
unfolding update
load_columns entry start_reg zero c regs = regs
load_columns entry start_reg (suc left) c regs = load_columns entry start_reg left (c + 1) (
    update regs (start_reg + c)
      (record (regs (start_reg + c)) { val = value_copy (get_or entry.row_values c value_init) }))

abbrev pub blank_entry : SorterEntry
blank_entry = record { row_values = [] }

unfoldable pub sorter_rewind : ℕ → ℕ → ℕ → Vdbe → Vdbe
unfolding load_columns
sorter_rewind jump_pc start_reg num_cols vm =
    let entry = get_or vm.entries 0 blank_entry in
    if length vm.entries == 0
    then record vm { cursor_idx = 0; pc = jump_pc }
    else record vm { cursor_idx = 0; regs = load_columns entry start_reg num_cols 0 vm.regs }

unfoldable pub sorter_next : ℕ → ℕ → ℕ → Vdbe → Vdbe
unfolding load_columns
sorter_next jump_pc start_reg num_cols vm =
    let idx = vm.cursor_idx + 1 in
    let entry = get_or vm.entries idx blank_entry in
    if ltb idx (length vm.entries)
    then record vm {
      cursor_idx = idx;
      regs = load_columns entry start_reg num_cols 0 vm.regs;
      pc = jump_pc;
    }
    else record vm { cursor_idx = idx }

-- What ResultRow prints as NULL.
abbrev pub prints_null : Register → Bool
prints_null reg = reg.is_null || reg.val.is_null

-- The registers at each run of a loop's body at `body`, whose last instruction, SorterNext, stands
-- before `next_pc`; on fuel.
unfoldable pub sorter_loop : ℕ → ℕ → ℕ → ℕ → ℕ → Vdbe → List (ℕ → Register)
unfolding sorter_next
sorter_loop zero body next_pc start_reg num_cols vm = []
sorter_loop (suc fuel) body next_pc start_reg num_cols vm =
    let stepped = sorter_next body start_reg num_cols (record vm { pc = next_pc }) in
    let rest = sorter_loop fuel body next_pc start_reg num_cols stepped in
    vm.regs ∷ (if stepped.pc == body then rest else [])
