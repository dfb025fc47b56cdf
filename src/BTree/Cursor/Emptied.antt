-- ===== src/BTree/Cursor/Emptied.antt =====
-- Deleting the only row of the leftmost leaf.
use custom_db.Prelude.{
  ℕ, zero, suc, ◌≤◌, ◌≡◌, ◌≢◌, refl, ap, ◌∙◌, true, false, ◌||◌, inl, inr, Option, none, some, ltb,
  leb, ◌==◌, arith, Bool-cases,
}
use custom_db.Pager.State.{Page, update}
use custom_db.BTree.Node.{leaf_node_num_cells, leaf_node_next_leaf, internal_node_child}
use custom_db.BTree.Leaf.{leaf_node_free_space}
use custom_db.BTree.Leaf.Insert.{IsLaid}
use custom_db.BTree.Cursor.{
  Pages, is_internal, descend, btree_start_out, past_cells, remove_cell, delete_row, underflows,
}
use custom_db.BTree.Cursor.Delete.{Removed, remove_cell-Removed}
use mathlib.Core.Path.{subst}

some_eq : (a b : ℕ) → some a ≡ some b → a ≡ b
some_eq a b e = ground (arith, e)

followed :
    (f : ℕ → Option ℕ) (o : Option ℕ) (p : ℕ)
    → elim o [ none ↦ none | some child ↦ f child ] ≡ some p
    → (child : ℕ) × (o ≡ some child) × (f child ≡ some p)
followed f none p e = absurd (ground (arith, e))
followed f (some child) p e = (child, refl, e)

descend-leaf :
    (pages : Pages) (pick : Page → ℕ) (fuel root p : ℕ)
    → descend pages pick fuel root ≡ some p
    → is_internal (pages p) ≡ false
unfolding descend
descend-leaf pages pick zero root p e = absurd (ground (arith, e))
descend-leaf pages pick (suc fuel) root p e = elim (Bool-cases (is_internal (pages root))) [
  | inl e' ↦
      (let (child, taken, below) =
          followed (descend pages pick fuel) (internal_node_child (pages root) (pick (pages root)))
            p (rw e' at e) in
        descend-leaf pages pick fuel child p below)
  | inr e' ↦
      (let same : root ≡ p = some_eq root p (rw e' at e) in
        subst (λ q. is_internal (pages q) ≡ false) same e')
]

update-here : (pages : Pages) (p : ℕ) (node : Page) (q : ℕ) → q ≡ p → update pages p node q ≡ node
unfolding update
update-here pages p node q e = let same : (q == p) ≡ true = ground (arith, e) in rw same refl

update-other :
    (pages : Pages) (p : ℕ) (node : Page) (q : ℕ)
    → (q == p) ≡ false
    → update pages p node q ≡ pages q
unfolding update
update-other pages p node q e = rw e refl

differ :
    (pages : Pages) (q p : ℕ)
    → is_internal (pages q) ≡ true
    → is_internal (pages p) ≡ false
    → (q == p) ≡ false
differ pages q p e e' = elim (Bool-cases (q == p)) [
  | inl h ↦
      (let same : q ≡ p = ground (arith, h) in
        absurd (ground (arith, e, e', ap (λ n. is_internal (pages n)) same)))
  | inr h ↦ h
]

-- A change of the leaf that a descent finds, if it stays a leaf, is no change of the descent.
descend-update :
    (pages : Pages) (fuel root p : ℕ) (node : Page)
    → is_internal node ≡ false
    → descend pages (λ n. 0) fuel root ≡ some p
    → descend (update pages p node) (λ n. 0) fuel root ≡ some p
unfolding descend
descend-update pages zero root p node leaf e = absurd (ground (arith, e))
descend-update pages (suc fuel) root p node leaf e = elim (Bool-cases (is_internal (pages root))) [
  | inl e' ↦
      (let other : (root == p) ≡ false =
          differ pages root p e' (descend-leaf pages (λ n. 0) (suc fuel) root p e) in
        let same : update pages p node root ≡ pages root = update-other pages p node root other in
        let (child, taken, below) =
          followed (descend pages (λ n. 0) fuel) (internal_node_child (pages root) 0) p
            (rw e' at e) in
        rw (same, e', taken) (descend-update pages fuel child p node leaf below))
  | inr e' ↦
      (let same : root ≡ p = some_eq root p (rw e' at e) in
        let here : update pages p node root ≡ node = update-here pages p node root same in
        rw (here, leaf) (ap some same))
]

-- Deleting the only row of the leftmost leaf `p`, its cell behind its free space and that behind
-- its slot, when another leaf `next` with two rows or more stands behind it: the cursor moves to
-- `next`, of which `leaf_node_handle_underflow` then makes nothing, and `btree_start_out` says
-- that the table is at its end, although the page of `next` is as it was.
pub delete_row-hides :
    (pages : Pages) (depth root p next : ℕ)
    → descend pages (λ node. 0) depth root ≡ some p
    → leaf_node_num_cells (pages p) ≡ 1
    → IsLaid (pages p)
    → 24 ≤ leaf_node_free_space (pages p)
    → leaf_node_next_leaf (pages p) ≡ next
    → next ≢ 0
    → next ≢ p
    → 2 ≤ leaf_node_num_cells (pages next)
    → let r = delete_row pages (record { page_num = p; cell_num = 0; end_of_table = false }) in
      (r.1 ≡ (record { page_num = next; cell_num = 0; end_of_table = false }))
      × (underflows (r.0 next) ≡ false)
      × (r.0 next ≡ pages next)
      × (btree_start_out r.0 depth root
          ≡ some (record { page_num = p; cell_num = 0; end_of_table = true }))
unfolding delete_row past_cells underflows btree_start_out
delete_row-hides pages depth root p next found one laid room link some_ other more =
    let node = pages p in
    let removed : Removed node 0 (remove_cell 0 node) =
      remove_cell-Removed node 0 (omega (arith, one)) laid (omega (arith, one, room)) in
    let here : update pages p (remove_cell 0 node) p ≡ remove_cell 0 node =
      update-here pages p (remove_cell 0 node) p refl in
    let there : update pages p (remove_cell 0 node) next ≡ pages next =
      update-other pages p (remove_cell 0 node) next (ground (arith, other)) in
    let guard : ((leaf_node_num_cells node == 0) || leb (leaf_node_num_cells node) 0) ≡ false =
      ground (arith, one) in
    let empty : leaf_node_num_cells (remove_cell 0 node) ≡ 0 = omega (arith, removed.count, one) in
    let link' : leaf_node_next_leaf (remove_cell 0 node) ≡ next = removed.next ∙ link in
    let next_some : (next == 0) ≡ false = ground (arith, some_) in
    let next_full : (leaf_node_num_cells (pages next) == 0) ≡ false = ground (arith, more) in
    let enough : ltb (leaf_node_num_cells (pages next)) 2 ≡ false = ground (arith, more) in
    let kind : is_internal (remove_cell 0 node) ≡ false =
      (let head : remove_cell 0 node 0 ≡ node 0 = removed.head 0 (omega arith) in
        rw head (descend-leaf pages (λ n. 0) depth root p found)) in
    let found' = descend-update pages depth root p (remove_cell 0 node) kind found in
    rw guard (
      rw (here, empty, link', next_some, there, next_full) refl,
      rw (there, enough) (ground arith),
      there,
      rw (found', here, empty) refl,
    )
