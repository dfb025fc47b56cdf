-- ===== src/BTree/Split/Links.antt =====
-- The headers of the two leaves of a split.
use custom_db.Prelude.{
  ℕ, ◌+◌, ◌*◌, ◌^◌, ◌≤◌, ◌<◌, ◌≡◌, refl, ◌∙◌, true, false, ◌⊎◌, inl, inr, List, ◌==◌, if◌then◌else◌,
  arith, Bool-cases,
}
use custom_db.Pager.State.{Page, update}
use custom_db.BTree.Node.{leaf_node_next_leaf}
use custom_db.BTree.Leaf.Cells.{put_u16-out}
use custom_db.BTree.Split.{
  TempCell, put_u32, is_node_root, node_parent, populate, initialize_leaf_node, emptied_leaf,
  new_leaf,
}
use custom_db.BTree.Split.Filled.{taken}
use custom_db.BTree.Split.Halves.{put_u32-in, put_u32-out, read_long, populate-header}
use custom_db.BTree.Split.Places.{linked_byte}

-- The header that each of the two leaves gets.
pub record Linked (node : Page) (new_page : ℕ) (l r : Page) : Type 0 where
  pub types : (l 0 ≡ 1) × (r 0 ≡ 1)
  pub roots : (is_node_root l ≡ is_node_root node) × (is_node_root r ≡ false)
  pub parents : (node_parent l ≡ node_parent node) × (node_parent r ≡ node_parent node)
  pub next : (leaf_node_next_leaf l ≡ new_page) × (leaf_node_next_leaf r ≡ leaf_node_next_leaf node)

initialized-header :
    (node : Page)
    → (initialize_leaf_node node 0 ≡ 1)
      × (initialize_leaf_node node 1 ≡ 0)
      × ((b : ℕ) → 2 ≤ b → b < 8 → initialize_leaf_node node b ≡ node b)
unfolding initialize_leaf_node update
initialized-header node = (
  put_u16-out 16 4096 (put_u32 12 0 (put_u32 8 0 (update (update node 0 1) 1 0))) 0
        (inl (omega arith))
      ∙ put_u32-out 12 0 (put_u32 8 0 (update (update node 0 1) 1 0)) 0 (inl (omega arith))
      ∙ put_u32-out 8 0 (update (update node 0 1) 1 0) 0 (inl (omega arith)),
  put_u16-out 16 4096 (put_u32 12 0 (put_u32 8 0 (update (update node 0 1) 1 0))) 1
        (inl (omega arith))
      ∙ put_u32-out 12 0 (put_u32 8 0 (update (update node 0 1) 1 0)) 1 (inl (omega arith))
      ∙ put_u32-out 8 0 (update (update node 0 1) 1 0) 1 (inl (omega arith)),
  λ b l h.
      put_u16-out 16 4096 (put_u32 12 0 (put_u32 8 0 (update (update node 0 1) 1 0))) b
        (inl (omega arith))
      ∙ put_u32-out 12 0 (put_u32 8 0 (update (update node 0 1) 1 0)) b (inl (omega arith))
      ∙ put_u32-out 8 0 (update (update node 0 1) 1 0) b (inl (omega arith))
      ∙ ground (arith, l),
)

parent_same : (p q : Page) → ((b : ℕ) → 2 ≤ b → b < 8 → p b ≡ q b) → node_parent p ≡ node_parent q
unfolding node_parent
parent_same p q e =
    read_long p q 4 (e 4 (omega arith) (omega arith)) (e 5 (omega arith) (omega arith))
      (e 6 (omega arith) (omega arith)) (e 7 (omega arith) (omega arith))

next_same :
    (p q : Page)
    → ((b : ℕ) → 12 ≤ b → b < 16 → p b ≡ q b)
    → leaf_node_next_leaf p ≡ leaf_node_next_leaf q
unfolding leaf_node_next_leaf
next_same p q e =
    read_long p q 12 (e 12 (omega arith) (omega arith)) (e 13 (omega arith) (omega arith))
      (e 14 (omega arith) (omega arith)) (e 15 (omega arith) (omega arith))

next_stored : (v : ℕ) (p : Page) → v < 2 ^ 32 → leaf_node_next_leaf (put_u32 12 v p) ≡ v
unfolding leaf_node_next_leaf
next_stored v p h = put_u32-in 12 v p h

put_parent : (v : ℕ) (p : Page) → v < 2 ^ 32 → node_parent (put_u32 4 v p) ≡ v
unfolding node_parent
put_parent v p h = put_u32-in 4 v p h

unmarked : (p : Page) → p 1 ≡ 0 → is_node_root p ≡ false
unfolding is_node_root
unmarked p h = let zero_ : (p 1 == 0) ≡ true = ground (arith, h) in rw zero_ refl

abbrev rooted : Page → Page
rooted node =
    if is_node_root node then update (initialize_leaf_node node) 1 1 else initialize_leaf_node node

rooted-header :
    (node : Page)
    → (rooted node 0 ≡ 1)
      × (is_node_root (rooted node) ≡ is_node_root node)
      × ((b : ℕ) → 2 ≤ b → b < 8 → rooted node b ≡ node b)
unfolding is_node_root update
rooted-header node =
    let from_init = initialized-header node in
    elim (Bool-cases (node 1 == 0)) [
      | inl e ↦ rw e (
        from_init.0,
        (let zero_ : (initialize_leaf_node node 1 == 0) ≡ true = ground (arith, from_init.1) in
            rw zero_ refl),
        from_init.2,
      )
      | inr e ↦ rw e (from_init.0, refl, λ b l h. ground (arith, l, from_init.2 b l h))
    ]

-- What filling a leaf keeps of the header.
module _ (cells : ℕ → TempCell) (n next : ℕ) (node : Page)
    (fits : 20 + n * 4 + taken cells n ≤ 4096) where
  start : Page
  start = put_u32 12 next node

  kept : (b : ℕ) → (b < 8) ⊎ (12 ≤ b) → b < 16 → populate cells n start b ≡ start b
  kept b h h' = populate-header cells n start fits b h h'

  kept_low : (b : ℕ) → b < 8 → populate cells n start b ≡ node b
  unfolding start
  kept_low b h = kept b (inl h) (omega arith) ∙ put_u32-out 12 next node b (inl (omega arith))

  kept_root : is_node_root (populate cells n start) ≡ is_node_root node
  unfolding is_node_root
  kept_root = let same = kept_low 1 (omega arith) in rw same refl

  kept_parent : node_parent (populate cells n start) ≡ node_parent node
  kept_parent = parent_same (populate cells n start) node (λ b l h. kept_low b h)

  kept_next : next < 2 ^ 32 → leaf_node_next_leaf (populate cells n start) ≡ next
  unfolding start
  kept_next small =
      next_same (populate cells n start) start (λ b l h. kept b (inr l) h)
      ∙ next_stored next node small

module _ (node new_node : Page) (pos new_page : ℕ) (cell : List ℕ)
    (numbers : (new_page < 2 ^ 32)
      × (leaf_node_next_leaf node < 2 ^ 32)
      × (node_parent node < 2 ^ 32))
    (cells : ℕ → TempCell) (n m : ℕ) (left_fits : 20 + n * 4 + taken cells n ≤ 4096)
    (right_fits : 20 + m * 4 + taken (λ i. cells (n + i)) m ≤ 4096) where
  abbrev left : Page
  left = populate cells n (emptied_leaf new_page (put_u32 12 new_page node))

  abbrev right : Page
  right = populate (λ i. cells (n + i)) m (new_leaf node new_node)

  pub split-Linked : Linked node new_page left right
  unfolding emptied_leaf new_leaf is_node_root start
  split-Linked =
      let old = put_u32 12 new_page node in
      let fresh = put_u32 4 (node_parent node) (initialize_leaf_node new_node) in
      let old_header = rooted-header old in
      let new_header = initialized-header new_node in
      let low : (b : ℕ) → b < 12 → old b ≡ node b =
        λ b h. linked_byte node pos new_page cell b (inl h) in
      record {
        types = (
          kept_low cells n new_page (rooted old) left_fits 0 (omega arith) ∙ old_header.0,
          kept_low (λ i. cells (n + i)) m (leaf_node_next_leaf node) fresh right_fits 0
                (omega arith)
              ∙ put_u32-out 4 (node_parent node) (initialize_leaf_node new_node) 0
                  (inl (omega arith))
              ∙ new_header.0,
        );
        roots = (
          kept_root cells n new_page (rooted old) left_fits
              ∙ old_header.1
              ∙ (let same = low 1 (omega arith) in rw same refl),
          kept_root (λ i. cells (n + i)) m (leaf_node_next_leaf node) fresh right_fits
              ∙ unmarked fresh (
                  put_u32-out 4 (node_parent node) (initialize_leaf_node new_node) 1
                    (inl (omega arith))
                  ∙ new_header.1),
        );
        parents = (
          kept_parent cells n new_page (rooted old) left_fits
              ∙ parent_same (rooted old) node (λ b l h. old_header.2 b l h ∙ low b (omega arith)),
          kept_parent (λ i. cells (n + i)) m (leaf_node_next_leaf node) fresh right_fits
              ∙ put_parent (node_parent node) (initialize_leaf_node new_node) numbers.2,
        );
        next = (
          kept_next cells n new_page (rooted old) left_fits numbers.0,
          kept_next (λ i. cells (n + i)) m (leaf_node_next_leaf node) fresh right_fits numbers.1,
        );
      }
