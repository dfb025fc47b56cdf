-- ===== src/BTree/Leaf/Cells.antt =====
-- Bytes copied and words written in a page.
use custom_db.Prelude.{ℕ, ◌+◌, ◌-◌, ◌^◌, ◌≤◌, ◌<◌, ◌≡◌, refl, true, ◌&&◌, ◌⊎◌, ltb, leb, arith}
use custom_db.Catalog.Varint.{from}
use custom_db.Catalog.Row.Decode.{read_le}
use custom_db.Pager.State.{Page, update}
use custom_db.BTree.Leaf.{copy_bytes, put_u16}

pub copy_bytes-in :
    (dst src n : ℕ) (node to : Page) (k : ℕ)
    → k < n
    → copy_bytes dst src n node to (dst + k) ≡ node (src + k)
unfolding copy_bytes
copy_bytes-in dst src n node to k h =
    let e : dst + k - dst ≡ k = omega arith in
    let inside : (leb dst (dst + k) && ltb (dst + k) (dst + n)) ≡ true = ground arith in
    rw (inside, e) refl

pub copy_bytes-out :
    (dst src n : ℕ) (node to : Page) (i : ℕ)
    → (i < dst) ⊎ (dst + n ≤ i)
    → copy_bytes dst src n node to i ≡ to i
unfolding copy_bytes
copy_bytes-out dst src n node to i h = ground arith

pub put_u16-in :
    (off v : ℕ) (node : Page) → v < 2 ^ 16 → read_le 2 (from (put_u16 off v node) off) ≡ v
unfolding put_u16 update read_le
put_u16-in off v node h = ground arith

pub put_u16-out :
    (off v : ℕ) (node : Page) (i : ℕ) → (i < off) ⊎ (off + 2 ≤ i) → put_u16 off v node i ≡ node i
unfolding put_u16 update
put_u16-out off v node i h = ground arith

pub read_word :
    (p q : Page) (at : ℕ)
    → p at ≡ q at
    → p (at + 1) ≡ q (at + 1)
    → read_le 2 (from p at) ≡ read_le 2 (from q at)
unfolding read_le
read_word p q at e e' = ground (arith, e, e')
