-- ===== src/BTree/Overflow/Chain.antt =====
-- A chain of overflow pages that is written is read back.
use custom_db.Prelude.{
  ℕ, zero, suc, ◌*◌, ◌^◌, ◌≤◌, ◌<◌, ◌≡◌, refl, sym, ap, ◌∙◌, ◌⊎◌, inl, inr, true, false, some, List,
  [], ◌∷◌, ◌++◌, length, drop_past, take, drop, leb, ◌==◌, if◌then◌else◌, arith, Bool-cases,
}
use custom_db.Pager.State.{Page, update, zero_page}
use custom_db.Pager.Cache.{store_bytes}
use custom_db.Pager.Freelist.{invalid_page_num}
use custom_db.BTree.Split.{put_u32}
use custom_db.BTree.Cursor.{Pages}
use custom_db.BTree.Overflow.{Unused, take_unused, link, write_loop, read_chain}
use custom_db.BTree.Overflow.Rounds.{
  Fresh, Outside, take_unused-apart, update-same, update-apart, round-prev, round-apart,
  write_loop_run, read_chain_run, round, take-drop, length-drop,
}
use mathlib.Core.Path.{subst, fun_ext}

-- What writing the bytes from page `n` on gives.
pub record Written (u : Unused) (us : List Unused) (first prev : ℕ) (l : List ℕ) (pages : Pages)
    (first' : ℕ) (written : Pages) : Type 0 where
  pub head : first' ≡ (if first == 0 then u.page_num else first)
  pub reads : (fuel : ℕ) → length l ≤ fuel → read_chain written fuel u.page_num (length l) ≡ l
  pub back : (prev == 0) ≡ false → written prev ≡ put_u32 0 u.page_num (pages prev)
  pub apart :
      (q b : ℕ)
      → ((prev == 0) ≡ true) ⊎ ((q == prev) ≡ false)
      → Outside q (u ∷ us)
      → ((q == 0) ≡ false) ⊎ (b < 4092)
      → written q b ≡ pages q b

read_nothing : (pages : Pages) (fuel cur : ℕ) → read_chain pages fuel cur 0 ≡ []
unfolding read_chain
read_nothing pages zero cur = refl
read_nothing pages (suc fuel) cur = ground arith

not_link : (n : ℕ) → 1 ≤ n → (n == 0) ≡ false
not_link n h = ground (arith, h)

module _ (n prev : ℕ) (l : List ℕ) (pages : Pages) (some_ : 1 ≤ n) (valid : n < invalid_page_num)
    (more : 1 ≤ length l) (behind : ((prev == 0) ≡ true) ⊎ ((prev == n) ≡ false)) where
  page : Page
  page = link prev n (update pages n zero_page) n

  round-new : round prev n l pages n ≡ store_bytes 4 (take 4092 l) page
  unfolding page
  round-new =
      update-same (link prev n (update pages n zero_page)) n
        (store_bytes 4 (take 4092 l) (link prev n (update pages n zero_page) n))

  round-back : (prev == 0) ≡ false → round prev n l pages prev ≡ put_u32 0 n (pages prev)
  round-back e = elim behind [
    | inl e' ↦ absurd (ground (arith, e, e'))
    | inr e' ↦ round-prev prev n l pages e e'
  ]

  reads_all :
      (v : ℕ) (written : Pages)
      → v < 2 ^ 32
      → written n ≡ put_u32 0 v (round prev n l pages n)
      → ((fuel : ℕ)
          → length (drop 4092 l) ≤ fuel
          → read_chain written fuel v (length (drop 4092 l)) ≡ drop 4092 l)
      → (fuel : ℕ) → length l ≤ fuel
      → read_chain written fuel n (length l) ≡ l
  reads_all v written small there reads zero h = absurd (omega (arith, more, h))
  reads_all v written small there reads (suc fuel) h =
      read_chain_run written fuel n v l page some_ valid more small
        (there ∙ ap (put_u32 0 v) round-new)
      ∙ ap (λ r. take 4092 l ++ r) (reads fuel (omega (arith, h, more, length-drop 4092 l)))
      ∙ take-drop 4092 l

module _ (u : Unused) (us : List Unused) (first prev : ℕ) (l : List ℕ) (pages : Pages)
    (some_ : 1 ≤ u.page_num) (valid : u.page_num < invalid_page_num) (more : 1 ≤ length l)
    (behind : ((prev == 0) ≡ true) ⊎ ((prev == u.page_num) ≡ false)) where
  after_round : Pages
  after_round = round prev u.page_num l (take_unused u pages)

  prev_taken : (prev == 0) ≡ false → take_unused u pages prev ≡ pages prev
  prev_taken e = elim behind [
    | inl e' ↦ absurd (ground (arith, e, e'))
    | inr e' ↦ fun_ext (λ b. take_unused-apart u pages prev b e' (inl e))
  ]

  -- From what the rest of the loop writes.
  joined :
      (v first' : ℕ) (written : Pages)
      → v < 2 ^ 32
      → first' ≡ (if first == 0 then u.page_num else first)
      → written u.page_num ≡ put_u32 0 v (after_round u.page_num)
      → ((fuel : ℕ)
          → length (drop 4092 l) ≤ fuel
          → read_chain written fuel v (length (drop 4092 l)) ≡ drop 4092 l)
      → ((q b : ℕ)
          → (q == u.page_num) ≡ false
          → Outside q us
          → ((q == 0) ≡ false) ⊎ (b < 4092)
          → written q b ≡ after_round q b)
      → ((prev == 0) ≡ false → Outside prev us)
      → Written u us first prev l pages first' written
  unfolding after_round
  joined v first' written small e there reads apart out =
      let n = u.page_num in
      let taken = take_unused u pages in
      record {
        head = e;
        reads = reads_all n prev l taken some_ valid more behind v written small there reads;
        back = λ h.
            fun_ext (λ b.
              apart prev b (elim behind [ inl h' ↦ absurd (ground (arith, h, h')) | inr h' ↦ h' ])
                (out h) (inl h))
            ∙ round-back n prev l taken some_ valid more behind h
            ∙ ap (put_u32 0 n) (prev_taken h);
        apart = λ q b h (outside, rest) side.
            apart q b outside rest side
            ∙ ap (λ (p : Page). p b) (round-apart prev n q l taken h outside)
            ∙ take_unused-apart u pages q b outside side;
      }

write_loop_done :
    (us : List Unused) (first prev : ℕ) (l : List ℕ) (pages : Pages)
    → l ≡ []
    → write_loop us first prev l pages ≡ some (first, prev, pages)
unfolding write_loop
write_loop_done us first prev [] pages e = refl
write_loop_done us first prev (b ∷ l) pages e = absurd (ground (arith, e))

head_stays :
    (first n m : ℕ)
    → 1 ≤ n
    → (if (if first == 0 then n else first) == 0 then m else (if first == 0 then n else first))
      ≡ (if first == 0 then n else first)
head_stays first n m h = ground (arith, h)

leb→le : (a b : ℕ) → leb a b ≡ true → a ≤ b
leb→le a b h = ground (arith, h)

leb→gt : (a b : ℕ) → leb a b ≡ false → b < a
leb→gt a b h = ground (arith, h)

apart_of :
    (prev : ℕ) (u : Unused) (us : List Unused)
    → ((prev == 0) ≡ true) ⊎ Outside prev (u ∷ us)
    → (((prev == 0) ≡ true) ⊎ ((prev == u.page_num) ≡ false))
      × ((prev == 0) ≡ false → Outside prev us)
apart_of prev u us (inl e) = (inl e, λ e'. absurd (ground (arith, e, e')))
apart_of prev u us (inr (e, rest)) = (inr e, λ e'. rest)

abbrev pub Result : Unused → List Unused → ℕ → ℕ → List ℕ → Pages → Type 0
Result u us first prev l pages =
    (first' : ℕ) × (last : ℕ) × (ps : Pages) × (write_loop (u ∷ us) first prev l pages
      ≡ some (first', last, ps))
    × Written u us first prev l pages first' (link last 0 ps)

-- The last page of a chain.
last_page :
    (us : List Unused) (u : Unused) (first prev : ℕ) (l : List ℕ) (pages : Pages)
    → Fresh (u ∷ us)
    → ((prev == 0) ≡ true) ⊎ Outside prev (u ∷ us)
    → 1 ≤ length l
    → length l ≤ 4092
    → Result u us first prev l pages
unfolding after_round
last_page us u first prev l pages (some_, valid, others, fresh) behind more fits =
    let (near, out) = apart_of prev u us behind in
    let n = u.page_num in
    let head = if first == 0 then n else first in
    let after = round prev n l (take_unused u pages) in
    let linkable = not_link n some_ in
    let none_ : drop 4092 l ≡ [] = drop_past 4092 l fits in
    (
      head,
      n,
      after,
      write_loop_run u us first prev l pages more
          ∙ write_loop_done us head n (drop 4092 l) after none_,
      joined u us first prev l pages some_ valid more near 0 head (link n 0 after) (omega arith)
          refl (rw linkable (update-same after n (put_u32 0 0 (after n))))
          (λ fuel h.
            subst (λ r. read_chain (link n 0 after) fuel 0 (length r) ≡ r) (sym none_)
              (read_nothing (link n 0 after) fuel 0))
          (λ q b h rest side.
            rw linkable (ap (λ (p : Page). p b) (update-apart after n q (put_u32 0 0 (after n)) h)))
          out,
    )

pub write_loop-Written :
    (us : List Unused) (u : Unused) (first prev : ℕ) (l : List ℕ) (pages : Pages)
    → Fresh (u ∷ us)
    → ((prev == 0) ≡ true) ⊎ Outside prev (u ∷ us)
    → 1 ≤ length l
    → length l ≤ 4092 * length (u ∷ us)
    → Result u us first prev l pages
unfolding after_round
write_loop-Written [] u first prev l pages fresh behind more fits =
    last_page [] u first prev l pages fresh behind more (omega (arith, fits))
write_loop-Written (m ∷ us) u first prev l pages fresh behind more fits =
    let (near, out) = apart_of prev u (m ∷ us) behind in
    let (some_, valid, others, fresh') = fresh in
    let n = u.page_num in
    let head = if first == 0 then n else first in
    let after = round prev n l (take_unused u pages) in
    elim (Bool-cases (leb (length l) 4092)) [
      | inl e ↦ last_page (m ∷ us) u first prev l pages fresh behind more (leb→le (length l) 4092 e)
      | inr e ↦
          (let above_ = leb→gt (length l) 4092 e in
            let left = length-drop 4092 l in
            let (first', last, ps, run, w) =
              write_loop-Written us m head n (drop 4092 l) after fresh' (inr others)
                (omega (arith, above_, left)) (omega (arith, fits, left)) in
            (
              first',
              last,
              ps,
              write_loop_run u (m ∷ us) first prev l pages more ∙ run,
              joined u (m ∷ us) first prev l pages some_ valid more near m.page_num first'
                  (link last 0 ps) (omega (arith, fresh'.1))
                  (w.head ∙ head_stays first n m.page_num some_) (w.back (not_link n some_)) w.reads
                  (λ q b h rest side. w.apart q b (inr h) rest side) out,
            ))
    ]
