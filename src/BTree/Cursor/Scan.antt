-- ===== src/BTree/Cursor/Scan.antt =====
-- Scanning the leaves of a tree.
use custom_db.Prelude.{
  ℕ, zero, suc, ◌+◌, ◌-◌, ◌^◌, ◌≤◌, ◌<◌, ◌≡◌, ◌≢◌, refl, sym, ap, ◌∙◌, true, false, some, List, [],
  ◌∷◌, ◌++◌, length, length-append, leb, ◌==◌, arith,
}
use custom_db.Catalog.Row.Decode.{u32}
use custom_db.BTree.Node.{leaf_node_num_cells, leaf_node_next_leaf}
use custom_db.BTree.Cursor.{Cursor, Pages, descend, btree_start_out, cursor_advance, scan}
use mathlib.Core.Option as Options
use mathlib.Core.Path.{subst}

-- The pages behind the leaf `p`: leaves with cells, linked in this order, the last of them to none.
pub data IsChain (pages : Pages) : ℕ → List ℕ → Type 0 where
  last :
      {p : ℕ}
      → 1 ≤ leaf_node_num_cells (pages p)
      → leaf_node_num_cells (pages p) < 2 ^ 32
      → leaf_node_next_leaf (pages p) ≡ 0
      → IsChain pages p []
  linked :
      {p q : ℕ} {ps : List ℕ}
      → 1 ≤ leaf_node_num_cells (pages p)
      → leaf_node_num_cells (pages p) < 2 ^ 32
      → leaf_node_next_leaf (pages p) ≡ q
      → q ≢ 0
      → IsChain pages q ps
      → IsChain pages p (q ∷ ps)

-- The places of `n` cells of the leaf `p`, from cell `i` on.
abbrev pub places : ℕ → ℕ → ℕ → List (ℕ × ℕ)
places p i zero = []
places p i (suc n) = (p, i) ∷ places p (i + 1) n

-- The places of all cells of the leaves, in the leaves' order.
abbrev pub all_places : Pages → ℕ → List ℕ → List (ℕ × ℕ)
all_places pages p [] = places p 0 (leaf_node_num_cells (pages p))
all_places pages p (q ∷ ps) = places p 0 (leaf_node_num_cells (pages p)) ++ all_places pages q ps

abbrev at_cell : ℕ → ℕ → Cursor
at_cell p i = record { page_num = p; cell_num = i; end_of_table = false }

length-places : (p i n : ℕ) → length (places p i n) ≡ n
length-places p i zero = refl
length-places p i (suc n) = ap suc (length-places p (i + 1) n)

scan-end :
    (pages : Pages) (fuel : ℕ) (c : Cursor) → c.end_of_table ≡ true → scan pages fuel c ≡ some []
unfolding scan
scan-end pages zero c e = rw e refl
scan-end pages (suc fuel) c e = rw e refl

advance_inside :
    (pages : Pages) (p i : ℕ)
    → i + 1 < leaf_node_num_cells (pages p)
    → leaf_node_num_cells (pages p) < 2 ^ 32
    → cursor_advance pages (at_cell p i) ≡ at_cell p (i + 1)
unfolding cursor_advance
advance_inside pages p i h small =
    let plain : u32 (i + 1) ≡ i + 1 = omega (arith, h, small) in
    let inside : leb (leaf_node_num_cells (pages p)) (i + 1) ≡ false = ground (arith, h) in
    rw (plain, inside) refl

-- The loop over the cells of one leaf, if the rest of it is known.
scan_leaf :
    (pages : Pages) (p fuel : ℕ) (rest : List (ℕ × ℕ))
    → leaf_node_num_cells (pages p) < 2 ^ 32
    → (left i : ℕ) → i + suc left ≡ leaf_node_num_cells (pages p)
    → ((j : ℕ)
        → j + 1 ≡ leaf_node_num_cells (pages p)
        → scan pages fuel (cursor_advance pages (at_cell p j)) ≡ some rest)
    → scan pages (suc left + fuel) (at_cell p i) ≡ some (places p i (suc left) ++ rest)
unfolding scan
scan_leaf pages p fuel rest small zero i e h =
    let one : suc zero + fuel ≡ suc fuel = omega arith in
    rw one (ap (Options.map (λ l. (p, i) ∷ l)) (h i (omega (arith, e))))
scan_leaf pages p fuel rest small (suc left) i e h =
    let one : suc (suc left) + fuel ≡ suc (suc left + fuel) = omega arith in
    let ih = scan_leaf pages p fuel rest small left (i + 1) (omega (arith, e)) h in
    rw one (
      ap (Options.map (λ l. (p, i) ∷ l)) (
        ap (scan pages (suc left + fuel)) (advance_inside pages p i (omega (arith, e)) small) ∙ ih))

advance_last :
    (pages : Pages) (p j : ℕ)
    → j + 1 ≡ leaf_node_num_cells (pages p)
    → leaf_node_num_cells (pages p) < 2 ^ 32
    → leaf_node_next_leaf (pages p) ≡ 0
    → (cursor_advance pages (at_cell p j)).end_of_table ≡ true
unfolding cursor_advance
advance_last pages p j h small e =
    let plain : u32 (j + 1) ≡ j + 1 = omega (arith, h, small) in
    let past : leb (leaf_node_num_cells (pages p)) (j + 1) ≡ true = ground (arith, h) in
    rw (plain, past, e) refl

advance_next :
    (pages : Pages) (p q j : ℕ)
    → j + 1 ≡ leaf_node_num_cells (pages p)
    → leaf_node_num_cells (pages p) < 2 ^ 32
    → leaf_node_next_leaf (pages p) ≡ q
    → q ≢ 0
    → cursor_advance pages (at_cell p j) ≡ at_cell q 0
unfolding cursor_advance
advance_next pages p q j h small e some_ =
    let plain : u32 (j + 1) ≡ j + 1 = omega (arith, h, small) in
    let past : leb (leaf_node_num_cells (pages p)) (j + 1) ≡ true = ground (arith, h) in
    let more : (q == 0) ≡ false = ground (arith, some_) in rw (plain, past, e, more) refl

pred_count :
    (pages : Pages) (p : ℕ) (ps : List ℕ)
    → IsChain pages p ps
    → (n : ℕ) × (suc n ≡ leaf_node_num_cells (pages p))
pred_count pages p [] (last some_ small end) =
    (leaf_node_num_cells (pages p) - 1, omega (arith, some_))
pred_count pages p (q ∷ ps) (linked some_ small next more rest) =
    (leaf_node_num_cells (pages p) - 1, omega (arith, some_))

append_nil : (l : List (ℕ × ℕ)) → l ++ [] ≡ l
append_nil [] = refl
append_nil (x ∷ l) = ap (λ r. x ∷ r) (append_nil l)

scan_chain :
    (pages : Pages) (p : ℕ) (ps : List ℕ) (extra : ℕ)
    → IsChain pages p ps
    → (n : ℕ) → suc n ≡ leaf_node_num_cells (pages p)
    → scan pages (length (all_places pages p ps) + extra) (at_cell p 0)
      ≡ some (all_places pages p ps)
scan_chain pages p [] extra (last some_ small end) n e =
    let visited = scan_leaf pages p extra [] small n 0 (omega (arith, e)) (λ j h.
      scan-end pages extra (cursor_advance pages (at_cell p j))
        (advance_last pages p j h small end)) in
    subst (λ m. scan pages (length (places p 0 m) + extra) (at_cell p 0) ≡ some (places p 0 m)) e
      (subst (λ m. scan pages (m + extra) (at_cell p 0) ≡ some (places p 0 (suc n)))
        (sym (length-places p 0 (suc n))) (visited ∙ ap some (append_nil (places p 0 (suc n)))))
scan_chain pages p (q ∷ ps) extra (linked some_ small next more rest) n e =
    let behind = all_places pages q ps in
    let visited =
      scan_leaf pages p (length behind + extra) behind small n 0 (omega (arith, e)) (λ j h.
        ap (scan pages (length behind + extra)) (advance_next pages p q j h small next more)
        ∙ scan_chain pages q ps extra rest (pred_count pages q ps rest).0
            (pred_count pages q ps rest).1) in
    subst
      (λ m.
        scan pages (length (places p 0 m ++ behind) + extra) (at_cell p 0)
        ≡ some (places p 0 m ++ behind))
      e
      (subst (λ m. scan pages m (at_cell p 0) ≡ some (places p 0 (suc n) ++ behind))
        (omega (arith, length-places p 0 (suc n), length-append {0} (places p 0 (suc n)) behind))
        visited)

-- The scan of a tree whose leftmost leaf heads a chain of leaves, each with 1 to 2 ^ 32 - 1 cells,
-- ends: from the cursor of `btree_start_out`, as many rounds as there are cells, or more, visit
-- the cells of all leaves, each once, leaf by leaf in the order of the links.
pub scan-all_places :
    (pages : Pages) (depth root p : ℕ) (ps : List ℕ)
    → descend pages (λ node. 0) depth root ≡ some p
    → IsChain pages p ps
    → (extra : ℕ)
    → (c : Cursor) × (btree_start_out pages depth root ≡ some c)
      × (scan pages (length (all_places pages p ps) + extra) c ≡ some (all_places pages p ps))
unfolding btree_start_out
scan-all_places pages depth root p ps found chain extra =
    let (n, e) = pred_count pages p ps chain in
    let filled : (leaf_node_num_cells (pages p) == 0) ≡ false = ground (arith, e) in
    (at_cell p 0, rw (found, filled) refl, scan_chain pages p ps extra chain n e)
