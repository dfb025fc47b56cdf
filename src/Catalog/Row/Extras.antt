-- ===== src/Catalog/Row/Extras.antt =====
-- The markers of a row, and the size of its header: the writer and the reader in step.
use custom_db.Prelude.{
  ℕ, zero, suc, ◌+◌, ◌-◌, ◌^◌, ◌≤◌, ◌<◌, ◌≡◌, refl, arith, List, [], ◌∷◌, ◌++◌, length,
  length-append, dec_lt, ltb, if◌then◌else◌, Bool-cases, inl, inr, ◌||◌,
}
use custom_db.Prelude.Bits.{bit_and_127}
use custom_db.Catalog.Varint.{Memory, from, IsU64, put_loop, put_varint, get_varint}
use custom_db.Catalog.Varint.RoundTrip.{Holds, Holds-from, Holds-append, get_varint-put_varint}
use custom_db.Catalog.Row.Encode.{le_bytes, add_ttl, add_mvcc, hdr_size_loop, total_hdr_size}
use custom_db.Catalog.Row.Decode.{u32, read_le, Extras, decode_extras}
use custom_db.Catalog.Row.Cells.{length-le_bytes, read_le-le_bytes}
use custom_db.Catalog.Row.Columns.{add_type_room}
use mathlib.Core.List.{append_assoc, append-nil}

-- The markers behind the column types, and the words behind the columns' bytes.
unfoldable pub ttl_mark : ℕ → List ℕ
ttl_mark e = if ltb 0 e then 10 ∷ [] else []

unfoldable pub ttl_word : ℕ → List ℕ
ttl_word e = if ltb 0 e then le_bytes 8 e else []

unfoldable pub mvcc_marks : ℕ → ℕ → List ℕ
mvcc_marks x y = if ltb 0 x || ltb 0 y then 14 ∷ 15 ∷ [] else []

unfoldable pub mvcc_words : ℕ → ℕ → List ℕ
mvcc_words x y = if ltb 0 x || ltb 0 y then le_bytes 8 x ++ le_bytes 8 y else []

pub length-ttl_mark : (e : ℕ) → length (ttl_mark e) ≤ 1
unfolding ttl_mark
length-ttl_mark e = ground arith

pub length-mvcc_marks : (x y : ℕ) → length (mvcc_marks x y) ≤ 2
unfolding mvcc_marks
length-mvcc_marks x y = ground arith

mark_bytes : (m : ℕ) → m < 128 → put_varint m ≡ m ∷ []
unfolding put_varint put_loop
mark_bytes m h = ground (arith, bit_and_127 m)

pub add_ttl_lem :
    (e : ℕ) (hdr body : List ℕ)
    → length hdr + 16 ≤ 4096
    → add_ttl e (hdr, body) ≡ (hdr ++ ttl_mark e, body ++ ttl_word e)
unfolding add_ttl ttl_mark ttl_word
add_ttl_lem e hdr body h = elim (Bool-cases (ltb 0 e)) [
  | inl set ↦ rw set (rw (add_type_room hdr 10 h) (cc (mark_bytes 10 (omega arith))))
  | inr unset ↦ rw (unset, append-nil, append-nil)
]

pub add_mvcc_lem :
    (x y : ℕ) (hdr body : List ℕ)
    → length hdr + 17 ≤ 4096
    → add_mvcc x y (hdr, body) ≡ (hdr ++ mvcc_marks x y, body ++ mvcc_words x y)
unfolding add_mvcc mvcc_marks mvcc_words
add_mvcc_lem x y hdr body h = elim (Bool-cases (ltb 0 x || ltb 0 y)) [
  | inl set ↦ rw set (
      cc (
        append_assoc body (le_bytes 8 x) (le_bytes 8 y),
        append_assoc hdr (14 ∷ []) (15 ∷ []),
        add_type_room hdr 14 (omega arith),
        add_type_room (hdr ++ 14 ∷ []) 15 (omega (arith, length-append hdr (14 ∷ []))),
        mark_bytes 14 (omega arith),
        mark_bytes 15 (omega arith),
      ))
  | inr unset ↦ rw (unset, append-nil, append-nil)
]

varint_one : (n : ℕ) → n < 128 → length (put_varint n) ≡ 1
unfolding put_varint put_loop
varint_one n h = ground arith

varint_two : (n : ℕ) → 128 ≤ n → n < 16384 → length (put_varint n) ≡ 2
unfolding put_varint put_loop
varint_two n h k = ground arith

hdr_size_one : (n : ℕ) → n < 127 → total_hdr_size n ≡ n + 1
unfolding total_hdr_size hdr_size_loop
hdr_size_one n h = rw (varint_one (n + 1) (omega arith)) (ground arith)

hdr_size_two : (n : ℕ) → 127 ≤ n → n ≤ 4096 → total_hdr_size n ≡ n + 2
unfolding total_hdr_size hdr_size_loop
hdr_size_two n h k =
    rw
      (
        varint_two (n + 1) (omega arith) (omega arith),
        varint_two (2 + n) (omega arith) (omega arith),
      )
      (ground arith)

-- The loop finds the size that counts its own varint, for any header that fits the buffer.
pub total_hdr_size_lem :
    (n : ℕ) → n ≤ 4096 → total_hdr_size n ≡ n + length (put_varint (total_hdr_size n))
total_hdr_size_lem n h = elim (dec_lt n 127) [
  | yes small ↦ rw (hdr_size_one n small, varint_one (n + 1) (omega arith))
  | no large ↦ rw (hdr_size_two n (omega arith) h, varint_two (n + 2) (omega arith) (omega arith))
]

pub total_hdr_size-le : (n : ℕ) → n ≤ 4096 → total_hdr_size n ≤ n + 2
total_hdr_size-le n h = elim (dec_lt n 127) [
  | yes small ↦ omega (arith, hdr_size_one n small)
  | no large ↦ omega (arith, hdr_size_two n (omega arith) h)
]

-- One round of the loop over the markers.
mark_read : (p : Memory) (h m : ℕ) → m < 128 → p h ≡ m → get_varint (from p h) ≡ (1, m)
mark_read p h m small e =
    let bytes = mark_bytes m small in
    rw (get_varint-put_varint m p h (omega arith) (rw bytes (e, tt)), bytes)

module _ (fuel : ℕ) (p : Memory) (stop h : ℕ) (x : Extras) (more : h < stop) where
  after_ttl :
      p h ≡ 10
      → decode_extras (suc fuel) p stop h x
        ≡ decode_extras fuel p stop (u32 (h + 1)) (record x {
          expire_at = read_le 8 (from p x.cur_body);
          cur_body = u32 (x.cur_body + 8);
        })
  unfolding decode_extras
  after_ttl e = ground (arith, mark_read p h 10)

  after_xmin :
      p h ≡ 14
      → decode_extras (suc fuel) p stop h x
        ≡ decode_extras fuel p stop
            (u32 (h + 1))
            (record x { xmin = read_le 8 (from p x.cur_body); cur_body = u32 (x.cur_body + 8) })
  unfolding decode_extras
  after_xmin e = ground (arith, mark_read p h 14)

  after_xmax :
      p h ≡ 15
      → decode_extras (suc fuel) p stop h x
        ≡ decode_extras fuel p stop
            (u32 (h + 1))
            (record x { xmax = read_le 8 (from p x.cur_body); cur_body = u32 (x.cur_body + 8) })
  unfolding decode_extras
  after_xmax e = ground (arith, mark_read p h 15)

at_stop :
    (fuel : ℕ) (p : Memory) (stop h : ℕ) (x : Extras) → stop ≤ h → decode_extras fuel p stop h x ≡ x
unfolding decode_extras
at_stop zero p stop h x k = refl
at_stop (suc fuel) p stop h x k = ground arith

word_held : (p : Memory) (b v : ℕ) → IsU64 v → Holds p b (le_bytes 8 v) → read_le 8 (from p b) ≡ v
word_held p b v h held =
    read_le-le_bytes 8 v (from p b) (omega arith)
      (Holds-from p b 0 b (le_bytes 8 v) (omega arith) held)

abbrev pub found : ℕ → ℕ → ℕ → ℕ → Extras
found e x y b = record { expire_at = e; xmin = x; xmax = y; cur_body = b }

mvcc_extras :
    (fuel : ℕ) (p : Memory) (stop h b e x y : ℕ)
    → IsU64 x
    → IsU64 y
    → Holds p h (mvcc_marks x y)
    → Holds p b (mvcc_words x y)
    → h + length (mvcc_marks x y) ≡ stop
    → length (mvcc_marks x y) ≤ fuel
    → stop < 2 ^ 32
    → b + length (mvcc_words x y) < 2 ^ 32
    → decode_extras fuel p stop h (found e 0 0 b) ≡ found e x y (b + length (mvcc_words x y))
unfolding mvcc_marks mvcc_words
mvcc_extras fuel p stop h b e x y fx fy = elim (Bool-cases (ltb 0 x || ltb 0 y)) [
  | inl set ↦ rw set (λ hm hw es ef ls lw.
      let (h0, h1) = Holds-append p b (le_bytes 8 x) (le_bytes 8 y) hw in
      let l8 = length-append (le_bytes 8 x) (le_bytes 8 y) in
      let lx = length-le_bytes 8 x in
      let ly = length-le_bytes 8 y in
      let e0 : fuel ≡ suc (suc (fuel - 2)) = omega arith in
      rw e0 (
        ground (
          arith,
          l8,
          lx,
          ly,
          word_held p b x fx h0,
          word_held p (b + 8) y fy (rw lx at h1),
          after_xmin (suc (fuel - 2)) p stop h (found e 0 0 b),
          after_xmax (fuel - 2) p stop (h + 1) (found e x 0 (b + 8)),
          at_stop (fuel - 2) p stop (h + 2) (found e x y (b + 16)),
        )))
  | inr unset ↦
      rw unset (λ hm hw es ef ls lw. ground (arith, at_stop fuel p stop h (found e 0 0 b)))
]

pub all_extras :
    (fuel : ℕ) (p : Memory) (stop h b e x y : ℕ)
    → IsU64 e
    → IsU64 x
    → IsU64 y
    → Holds p h (ttl_mark e ++ mvcc_marks x y)
    → Holds p b (ttl_word e ++ mvcc_words x y)
    → h + length (ttl_mark e ++ mvcc_marks x y) ≡ stop
    → length (ttl_mark e ++ mvcc_marks x y) ≤ fuel
    → stop < 2 ^ 32
    → b + length (ttl_word e ++ mvcc_words x y) < 2 ^ 32
    → decode_extras fuel p stop h (found 0 0 0 b)
      ≡ found e x y (b + length (ttl_word e ++ mvcc_words x y))
unfolding ttl_mark ttl_word
all_extras fuel p stop h b e x y fe fx fy = elim (Bool-cases (ltb 0 e)) [
  | inl set ↦ rw set (λ hm hw es ef ls lw.
      let (h0, h1) = Holds-append p b (le_bytes 8 e) (mvcc_words x y) hw in
      let le = length-le_bytes 8 e in
      let la = length-append (le_bytes 8 e) (mvcc_words x y) in
      let e0 : fuel ≡ suc (fuel - 1) = omega arith in
      rw e0 (
        ground (
          arith,
          le,
          la,
          word_held p b e fe h0,
          after_ttl (fuel - 1) p stop h (found 0 0 0 b),
          mvcc_extras (fuel - 1) p stop (h + 1) (b + 8) e x y fx fy hm.1 (rw le at h1),
        )))
  | inr unset ↦ rw unset (λ hm hw es ef ls lw.
      let zero_e : e ≡ 0 = ground arith in
      rw zero_e (mvcc_extras fuel p stop h b 0 x y fx fy hm hw es ef ls lw))
]
