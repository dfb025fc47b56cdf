-- ===== src/BTree/Overflow/Stub.antt =====
-- The cell of a row with overflow pages, written and read.
use custom_db.Prelude.{
  ℕ, suc, ◌+◌, ◌-◌, ◌*◌, ◌/◌, ◌%◌, ◌^◌, ◌≤◌, ◌<◌, ◌≡◌, refl, sym, ap, ◌∙◌, ◌⊎◌, inl, inr, false,
  Option, none, some, List, ◌∷◌, ◌++◌, length, length-take, get_or, take, drop, ltb, leb, ◌==◌,
  arith,
}
use custom_db.Catalog.Varint.{Memory, from}
use custom_db.Catalog.Row.Encode.{le_bytes}
use custom_db.Catalog.Row.Decode.{read_le, read_bytes}
use custom_db.Pager.Freelist.{invalid_page_num}
use custom_db.BTree.Keys.{cell_is_overflow_stub}
use custom_db.BTree.Cursor.{Pages}
use custom_db.BTree.Overflow.{
  Unused, link, btree_write_overflow_chain, btree_read_overflow_chain, cursor_value,
}
use custom_db.BTree.Overflow.Rounds.{Fresh, Outside, read_bytes-stored, take-drop, length-drop}
use custom_db.BTree.Overflow.Chain.{write_loop-Written}
use mathlib.Core.Path.{subst}

-- The bytes of a cell stand in memory.
abbrev pub Stands : Memory → List ℕ → Type 0
Stands m cell = (k : ℕ) → k < length cell → m k ≡ get_or cell k 0

long_read :
    (m : Memory) (v : ℕ)
    → v < 2 ^ 32
    → m 0 ≡ v % 256
    → m 1 ≡ v / 256 % 256
    → m 2 ≡ v / 256 / 256 % 256
    → m 3 ≡ v / 256 / 256 / 256 % 256
    → read_le 4 m ≡ v
unfolding read_le
long_read m v h e0 e1 e2 e3 = ground (arith, h, e0, e1, e2, e3)

abbrev pub stub : ℕ → ℕ → List ℕ → List ℕ
stub total first chunk = le_bytes 4 total ++ (le_bytes 4 first ++ chunk)

module _ (m : Memory) (total first : ℕ) (chunk : List ℕ)
    (stands : Stands m (stub total first chunk)) where
  total_read : total < 2 ^ 32 → read_le 4 m ≡ total
  unfolding le_bytes
  total_read h =
      long_read m total h (stands 0 (omega arith)) (stands 1 (omega arith)) (stands 2 (omega arith))
        (stands 3 (omega arith))

  first_read : first < 2 ^ 32 → read_le 4 (from m 4) ≡ first
  unfolding le_bytes
  first_read h =
      long_read (from m 4) first h (stands 4 (omega arith)) (stands 5 (omega arith))
        (stands 6 (omega arith)) (stands 7 (omega arith))

  chunk_byte : (k : ℕ) → k < length chunk → from m 8 k ≡ get_or chunk k 0
  unfolding le_bytes
  chunk_byte k h =
      let e : 8 + k ≡ suc (suc (suc (suc (suc (suc (suc (suc k))))))) = omega arith in
      rw e (stands (suc (suc (suc (suc (suc (suc (suc (suc k)))))))) (omega (arith, h)))

  local_read : read_bytes (length chunk) (from m 8) ≡ chunk
  local_read = read_bytes-stored chunk (from m 8) chunk_byte

-- The chain of the bytes, its first page, and the pages that it leaves alone.
pub chain_written :
    (u : Unused) (us : List Unused) (bytes : List ℕ) (pages : Pages)
    → Fresh (u ∷ us)
    → 1 ≤ length bytes
    → length bytes ≤ 4092 * length (u ∷ us)
    → (ps : Pages) × (btree_write_overflow_chain (u ∷ us) bytes pages ≡ some (u.page_num, ps))
      × (btree_read_overflow_chain ps u.page_num (length bytes) ≡ bytes)
      × ((q b : ℕ) → Outside q (u ∷ us) → ((q == 0) ≡ false) ⊎ (b < 4092) → ps q b ≡ pages q b)
unfolding btree_write_overflow_chain
chain_written u us bytes pages fresh more fits =
    let (first, last, ps, run, w) =
      write_loop-Written us u 0 0 bytes pages fresh (inl refl) more fits in
    let go : Option (ℕ × ℕ × Pages) → Option (ℕ × Pages) =
      λ o. elim o [ none ↦ none | some (a, b, written) ↦ some (a, link b 0 written) ] in
    (
      link last 0 ps,
      ap go run ∙ ap (λ f. some (f, link last 0 ps)) w.head,
      w.reads (length bytes) (omega arith),
      λ q b out side. w.apart q b (inl refl) out side,
    )

pub not_leb : (a b : ℕ) → b < a → leb a b ≡ false
not_leb a b h = ground (arith, h)

pub not_ltb : (a b : ℕ) → b ≤ a → ltb a b ≡ false
not_ltb a b h = ground (arith, h)

not_equal : (a b : ℕ) → (a < b) ⊎ (b < a) → (a == b) ≡ false
not_equal a b h = ground (arith, h)

pub cursor_value-stub :
    (ps : Pages) (reserved first : ℕ) (row : List ℕ) (m : Memory)
    → 1024 ≤ length row
    → length row < 2 ^ 32
    → 1 ≤ first
    → first < invalid_page_num
    → reserved ≤ first
    → btree_read_overflow_chain ps first (length (drop 1016 row)) ≡ drop 1016 row
    → Stands m (stub (length row) first (take 1016 row))
    → cursor_value ps reserved 1024 m ≡ (λ k. get_or row k 0)
unfolding cursor_value cell_is_overflow_stub
cursor_value-stub ps reserved first row m long small some_ valid kept chain stands =
    let whole = length-take 1016 row (omega (arith, long)) in
    let local : read_bytes 1016 (from m 8) ≡ take 1016 row =
      subst (λ n. read_bytes n (from m 8) ≡ take 1016 row) whole
        (local_read m (length row) first (take 1016 row) stands) in
    let total = total_read m (length row) first (take 1016 row) stands small in
    let page = first_read m (length row) first (take 1016 row) stands (omega (arith, valid)) in
    let rest : length row - 1016 ≡ length (drop 1016 row) = sym (length-drop 1016 row) in
    let more = not_leb (length row) 1016 (omega (arith, long)) in
    let buffer : List ℕ → Memory = λ r k. get_or r k 0 in
    let there = not_equal first 0 (inr some_) in
    let good = not_equal first invalid_page_num (inl valid) in
    let free = not_ltb first reserved kept in
    let bytes : read_bytes 1016 (from m 8)
          ++ btree_read_overflow_chain ps (read_le 4 (from m 4)) (read_le 4 m - 1016)
        ≡ row =
      ap (λ r. r ++ btree_read_overflow_chain ps (read_le 4 (from m 4)) (read_le 4 m - 1016)) local
      ∙ ap (λ f. take 1016 row ++ btree_read_overflow_chain ps f (read_le 4 m - 1016)) page
      ∙ ap (λ t. take 1016 row ++ btree_read_overflow_chain ps first (t - 1016)) total
      ∙ ap (λ t. take 1016 row ++ btree_read_overflow_chain ps first t) rest
      ∙ ap (λ r. take 1016 row ++ r) chain
      ∙ take-drop 1016 row in
    rw (total, page, more, there, good, free) (ap buffer bytes)
