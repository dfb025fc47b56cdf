-- ===== src/BTree/Overflow/Rounds.antt =====
-- One page of a chain of overflow pages, written and read.
use custom_db.Prelude.{
  ℕ, zero, suc, ◌+◌, ◌-◌, ◌^◌, ◌≤◌, ◌<◌, ◌≡◌, refl, sym, ap, ◌∙◌, ◌⊎◌, inl, inr, true, false, ◌&&◌,
  List, [], ◌∷◌, ◌++◌, All, length, length-append, length-take, take_past, get_or, take, drop, ltb,
  leb, ◌==◌, if◌then◌else◌, arith, Bool-cases,
}
use custom_db.Catalog.Varint.{Memory, from}
use custom_db.Catalog.Row.Encode.{le_bytes}
use custom_db.Catalog.Row.Decode.{read_le, read_bytes}
use custom_db.Pager.State.{Page, update, zero_page}
use custom_db.Pager.Cache.{store_bytes}
use custom_db.Pager.Freelist.{invalid_page_num}
use custom_db.BTree.Split.{put_u32}
use custom_db.BTree.Split.Halves.{put_u32-out}
use custom_db.BTree.Cursor.{Pages}
use custom_db.BTree.Overflow.{Unused, take_unused, link, write_loop, read_chain}

abbrev pub Outside : ℕ → List Unused → Type 0
Outside q unused = All (λ u. (q == u.page_num) ≡ false) unused

-- Page numbers that may be handed out one after the other.
abbrev pub Fresh : List Unused → Type 0
Fresh [] = Unit {0}
Fresh (u ∷ unused) =
    (1 ≤ u.page_num) × (u.page_num < invalid_page_num) × Outside u.page_num unused × Fresh unused

pub update-same : (pages : Pages) (n : ℕ) (p : Page) → update pages n p n ≡ p
unfolding update
update-same pages n p = let same : (n == n) ≡ true = ground arith in rw same refl

pub update-apart :
    (pages : Pages) (n q : ℕ) (p : Page) → (q == n) ≡ false → update pages n p q ≡ pages q
unfolding update
update-apart pages n q p e = rw e refl

module _ (pages : Pages) (n q next_free b : ℕ) (apart : (q == n) ≡ false)
    (side : ((q == 0) ≡ false) ⊎ (b < 4092)) where
  cleared : Pages
  cleared = update pages n zero_page

  head_kept : update cleared 0 (put_u32 4092 next_free (cleared 0)) q b ≡ pages q b
  unfolding cleared
  head_kept = elim (Bool-cases (q == 0)) [
    | inl e ↦
        (let at_start : q ≡ 0 = ground (arith, e) in
          let small : b < 4092 = elim side [
            | inl e' ↦ absurd (ground (arith, e, e'))
            | inr h ↦ h
          ] in
          ap (λ (k : ℕ). update cleared 0 (put_u32 4092 next_free (cleared 0)) k b) at_start
          ∙ ap (λ (p : Page). p b) (update-same cleared 0 (put_u32 4092 next_free (cleared 0)))
          ∙ put_u32-out 4092 next_free (cleared 0) b (inl small)
          ∙ ap (λ (k : ℕ). cleared k b) (sym at_start)
          ∙ ap (λ (p : Page). p b) (update-apart pages n q zero_page apart))
    | inr e ↦
        ap (λ (p : Page). p b) (update-apart cleared 0 q (put_u32 4092 next_free (cleared 0)) e)
        ∙ ap (λ (p : Page). p b) (update-apart pages n q zero_page apart)
  ]

-- Handing out a page changes it and the last four bytes of page 0.
pub take_unused-apart :
    (u : Unused) (pages : Pages) (q b : ℕ)
    → (q == u.page_num) ≡ false
    → ((q == 0) ≡ false) ⊎ (b < 4092)
    → take_unused u pages q b ≡ pages q b
unfolding take_unused cleared
take_unused-apart u pages q b apart side = elim (Bool-cases u.is_reused) [
  | inl e ↦ rw e (head_kept pages u.page_num q (read_le 4 (pages u.page_num)) b apart side)
  | inr e ↦ rw e refl
]

-- What a round writes: the new page, with the bytes behind its link.
abbrev pub round : ℕ → ℕ → List ℕ → Pages → Pages
round prev_page new_page bytes pages =
    update (link prev_page new_page (update pages new_page zero_page)) new_page (
      store_bytes 4 (take 4092 bytes)
        (link prev_page new_page (update pages new_page zero_page) new_page))

pub round-prev :
    (prev_page new_page : ℕ) (bytes : List ℕ) (pages : Pages)
    → (prev_page == 0) ≡ false
    → (prev_page == new_page) ≡ false
    → round prev_page new_page bytes pages prev_page ≡ put_u32 0 new_page (pages prev_page)
round-prev prev_page new_page bytes pages e e' = rw e (
    update-apart
      (update (update pages new_page zero_page) prev_page
        (put_u32 0 new_page (update pages new_page zero_page prev_page)))
      new_page prev_page
      (store_bytes 4 (take 4092 bytes) (
        update (update pages new_page zero_page) prev_page
          (put_u32 0 new_page (update pages new_page zero_page prev_page)) new_page))
      e'
    ∙ update-same (update pages new_page zero_page) prev_page
        (put_u32 0 new_page (update pages new_page zero_page prev_page))
    ∙ ap (put_u32 0 new_page) (update-apart pages new_page prev_page zero_page e'))

link-apart :
    (prev_page new_page q : ℕ) (pages : Pages)
    → ((prev_page == 0) ≡ true) ⊎ ((q == prev_page) ≡ false)
    → link prev_page new_page pages q ≡ pages q
link-apart prev_page new_page q pages (inl e) = rw e refl
link-apart prev_page new_page q pages (inr e) = elim (Bool-cases (prev_page == 0)) [
  | inl e' ↦ rw e' refl
  | inr e' ↦ rw e' (update-apart pages prev_page q (put_u32 0 new_page (pages prev_page)) e)
]

pub round-apart :
    (prev_page new_page q : ℕ) (bytes : List ℕ) (pages : Pages)
    → ((prev_page == 0) ≡ true) ⊎ ((q == prev_page) ≡ false)
    → (q == new_page) ≡ false
    → round prev_page new_page bytes pages q ≡ pages q
round-apart prev_page new_page q bytes pages h e =
    let linked = link prev_page new_page (update pages new_page zero_page) in
    update-apart linked new_page q (store_bytes 4 (take 4092 bytes) (linked new_page)) e
    ∙ link-apart prev_page new_page q (update pages new_page zero_page) h
    ∙ update-apart pages new_page q zero_page e

pub read_bytes-stored :
    (bytes : List ℕ) (m : Memory)
    → ((k : ℕ) → k < length bytes → m k ≡ get_or bytes k 0)
    → read_bytes (length bytes) m ≡ bytes
unfolding read_bytes
read_bytes-stored [] m h = refl
read_bytes-stored (b ∷ bytes) m h =
    let first : m 0 ≡ b = h 0 (omega arith) in
    let rest =
      read_bytes-stored bytes (from m 1)
        (λ k h'. (let one : 1 + k ≡ suc k = omega arith in rw one (h (suc k) (omega arith)))) in
    cc (first, rest)

link_read : (v : ℕ) (p : Page) → v < 2 ^ 32 → read_le 4 (put_u32 0 v p) ≡ v
unfolding put_u32 store_bytes le_bytes read_le
link_read v p h = ground (arith, h)

store_bytes-at :
    (bytes : List ℕ) (p : Page) (k : ℕ)
    → k < length bytes
    → store_bytes 4 bytes p (4 + k) ≡ get_or bytes k 0
unfolding store_bytes
store_bytes-at bytes p k h =
    let e : 4 + k - 4 ≡ k = omega arith in
    let inside : (leb 4 (4 + k) && ltb (4 + k) (4 + length bytes)) ≡ true = ground arith in
    rw (inside, e) refl

chunk_read :
    (v : ℕ) (chunk : List ℕ) (p : Page)
    → read_bytes (length chunk) (from (put_u32 0 v (store_bytes 4 chunk p)) 4) ≡ chunk
chunk_read v chunk p =
    read_bytes-stored chunk (from (put_u32 0 v (store_bytes 4 chunk p)) 4) (λ k h.
      put_u32-out 0 v (store_bytes 4 chunk p) (4 + k) (inr (omega arith))
      ∙ store_bytes-at chunk p k h)

pub take-drop : (n : ℕ) (l : List ℕ) → take n l ++ drop n l ≡ l
take-drop zero l = refl
take-drop (suc n) [] = refl
take-drop (suc n) (x ∷ l) = ap (λ r. x ∷ r) (take-drop n l)

pub length-drop : (n : ℕ) (l : List ℕ) → length (drop n l) ≡ length l - n
length-drop zero l = omega arith
length-drop (suc n) [] = omega arith
length-drop (suc n) (x ∷ l) = omega (arith, length-drop n l)

pub write_loop_run :
    (u : Unused) (us : List Unused) (first prev : ℕ) (l : List ℕ) (pages : Pages)
    → 1 ≤ length l
    → write_loop (u ∷ us) first prev l pages
      ≡ write_loop us
          (if first == 0 then u.page_num else first)
          u.page_num
          (drop 4092 l)
          (round prev u.page_num l (take_unused u pages))
unfolding write_loop
write_loop_run u us first prev [] pages h = absurd (omega (arith, h))
write_loop_run u us first prev (b ∷ bs) pages h = refl

not_above : (n m : ℕ) → ltb n m ≡ false → m ≤ n
not_above n m h = ground (arith, h)

above : (n m : ℕ) → ltb n m ≡ true → n ≤ m
above n m h = ground (arith, h)

chunk_size-take :
    (n : ℕ) (l : List ℕ) → (if ltb n (length l) then n else length l) ≡ length (take n l)
chunk_size-take n l = elim (Bool-cases (ltb n (length l))) [
  | inl e ↦ rw e (sym (length-take n l (above n (length l) e)))
  | inr e ↦ rw e (ap length (sym (take_past n l (not_above n (length l) e))))
]

-- A page of a chain, read.
pub read_chain_run :
    (pages : Pages) (fuel n v : ℕ) (l : List ℕ) (p : Page)
    → 1 ≤ n
    → n < invalid_page_num
    → 1 ≤ length l
    → v < 2 ^ 32
    → pages n ≡ put_u32 0 v (store_bytes 4 (take 4092 l) p)
    → read_chain pages (suc fuel) n (length l)
      ≡ take 4092 l ++ read_chain pages fuel v (length (drop 4092 l))
unfolding read_chain
read_chain_run pages fuel n v l p some_ valid more small e =
    let zero_ : (n == 0) ≡ false = ground (arith, some_) in
    let bad : (n == invalid_page_num) ≡ false = ground (arith, valid) in
    let empty : (length l == 0) ≡ false = ground (arith, more) in
    let size = chunk_size-take 4092 l in
    let left : length l - length (take 4092 l) ≡ length (drop 4092 l) =
      omega (arith, length-append {0} (take 4092 l) (drop 4092 l), ap length (take-drop 4092 l)) in
    let next = ap (read_le 4) e ∙ link_read v (store_bytes 4 (take 4092 l) p) small in
    let bytes =
      ap (λ q. read_bytes (length (take 4092 l)) (from q 4)) e ∙ chunk_read v (take 4092 l) p in
    rw (zero_, bad, empty, size, left, next, bytes) refl
