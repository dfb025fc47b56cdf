-- ===== src/Examples/Rows.antt =====
-- Varints and rows.
use custom_db.Prelude.{ℕ, suc, ◌+◌, ◌%◌, ◌^◌, ◌≡◌, refl, true, arith, List, [], ◌∷◌, length, get_or}
use custom_db.Catalog.Types.{ColumnType, int, text, Value, value_init, Floats}
use custom_db.Catalog.Varint.{Memory, from, put_varint, get_varint}
use custom_db.Catalog.Varint.RoundTrip.{Holds, get_varint-put_varint}
use custom_db.Catalog.Row.Encode.{serialize_row_with_mvcc}
use custom_db.Catalog.Row.Decode.{deserialize_row_with_mvcc}
use custom_db.Catalog.Row.Cells.{IsStored}
use custom_db.Catalog.Row.Capacity.{row_fits}
use custom_db.Catalog.Row.Columns.{Stored, read_all}
use custom_db.Catalog.Row.Extras.{found}
use custom_db.Catalog.Row.RoundTrip.{deserialize-serialize}

-- Conversions that do for these runs.
abbrev pub floats : Floats
floats = record {
  widen = λ f. f % 2 ^ 64;
  narrow = λ d. d % 2 ^ 32;
  double_of_int = λ w. w;
  float_of_int = λ w. w;
  int_of_double = λ d. d % 2 ^ 32;
  widen_fits = λ f. omega arith;
}

abbrev pub memory : List ℕ → Memory
memory bs i = get_or bs i 0

held_at :
    (bs : List ℕ) (p : Memory) (at : ℕ) → ((i : ℕ) → p (at + i) ≡ get_or bs i 0) → Holds p at bs
held_at [] p at h = tt
held_at (b ∷ bs) p at h =
    let here : at + 0 ≡ at = omega arith in
    (
      rw here at (h 0),
      held_at bs p (at + 1)
          (λ i. let e : at + 1 + i ≡ at + suc i = omega arith in rw e (h (suc i))),
    )

pub memory-Holds : (bs : List ℕ) → Holds (memory bs) 0 bs
memory-Holds bs = held_at bs (memory bs) 0 (λ i. let e : 0 + i ≡ i = omega arith in rw e refl)

three_hundred : put_varint 300 ≡ 0xac ∷ 0x02 ∷ []
unfolding put_varint
three_hundred = refl

abbrev pub forty_two : Value
forty_two = record value_init { int_val = 42 }

abbrev pub hello : Value
hello = record value_init { text_val = b'h' ∷ b'i' ∷ []; text_len = 2 }

abbrev pub columns : List ColumnType
columns = int ∷ text ∷ []

abbrev pub values : List Value
values = forty_two ∷ hello ∷ []

abbrev pub row_bytes : List ℕ
row_bytes =
    0x06 ∷ 0x01 ∷ 0x11 ∷ 0x0a ∷ 0x0e ∷ 0x0f ∷ 42 ∷ b'h' ∷ b'i' ∷ 100 ∷ 0 ∷ 0 ∷ 0 ∷ 0 ∷ 0 ∷ 0 ∷ 0 ∷ 5
    ∷ 0 ∷ 0 ∷ 0 ∷ 0 ∷ 0 ∷ 0 ∷ 0 ∷ 9 ∷ 0 ∷ 0 ∷ 0 ∷ 0 ∷ 0 ∷ 0 ∷ 0 ∷ []

pub row_written : serialize_row_with_mvcc floats columns values 100 5 9 ≡ row_bytes
unfolding serialize_row_with_mvcc
row_written = refl

forty_two-IsStored : IsStored forty_two
forty_two-IsStored = record {
  int_fits = omega arith;
  double_fits = omega arith;
  measured = refl;
  text_fits = omega arith;
}

hello-IsStored : IsStored hello
hello-IsStored = record {
  int_fits = omega arith;
  double_fits = omega arith;
  measured = refl;
  text_fits = omega arith;
}

pub values-Stored : Stored columns values
values-Stored = (forty_two-IsStored, (hello-IsStored, tt))

get_varint-put_varint_example :
    get_varint (from (memory (put_varint 300)) 0) ≡ (length (put_varint 300), 300)
get_varint-put_varint_example =
    get_varint-put_varint 300 (memory (put_varint 300)) 0 (omega arith)
      (memory-Holds (put_varint 300))

deserialize-serialize_example :
    (row_fits floats columns values 100 5 9 ≡ true)
    × (deserialize_row_with_mvcc floats columns (memory row_bytes) ≡ record {
      values = read_all floats columns values;
      extras = found 100 5 9 (length (serialize_row_with_mvcc floats columns values 100 5 9));
    })
deserialize-serialize_example =
    deserialize-serialize floats columns values 100 5 9 (memory row_bytes) values-Stored
      (omega arith) (omega arith, omega arith, omega arith) (rw row_written (omega arith))
      (rw row_written (memory-Holds row_bytes))
