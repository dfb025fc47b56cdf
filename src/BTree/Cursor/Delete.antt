-- ===== src/BTree/Cursor/Delete.antt =====
-- Deleting a row of a leaf.
use custom_db.Prelude.{
  ℕ, zero, suc, ◌+◌, ◌-◌, ◌*◌, ◌^◌, ◌≤◌, ◌<◌, ◌≡◌, refl, sym, ap, ◌∙◌, ◌⊎◌, inl, inr, ◌==◌, arith,
  Bool-cases,
}
use custom_db.Catalog.Varint.{from}
use custom_db.Catalog.Row.Decode.{u32, read_le}
use custom_db.Pager.State.{Page}
use custom_db.BTree.Node.{leaf_node_num_cells, leaf_node_next_leaf, leaf_node_slot, leaf_node_value}
use custom_db.BTree.Leaf.{copy_bytes, leaf_node_free_space}
use custom_db.BTree.Leaf.Cells.{copy_bytes-in, copy_bytes-out, read_word}
use custom_db.BTree.Leaf.Insert.{read_moved, SameCell, IsLaid}
use custom_db.BTree.Leaf.Moved.{size_of, offset_of}
use custom_db.BTree.Split.{put_u32}
use custom_db.BTree.Split.Halves.{put_u32-in, put_u32-out, read_long}
use custom_db.BTree.Cursor.{unshift_slots, remove_cell}
use mathlib.Core.Path.{subst}

unshift_slots-out :
    (left i : ℕ) (node : Page) (b : ℕ)
    → (b < 20 + i * 4) ⊎ (20 + (i + left) * 4 ≤ b)
    → unshift_slots left i node b ≡ node b
unfolding unshift_slots
unshift_slots-out zero i node b h = refl
unshift_slots-out (suc left) i node b h =
    unshift_slots-out left (i + 1) (copy_bytes (20 + i * 4) (20 + (i + 1) * 4) 4 node node) b
      (ground (arith, h))
    ∙ copy_bytes-out (20 + i * 4) (20 + (i + 1) * 4) 4 node node b (ground (arith, h))

unshift_slots-in :
    (left i : ℕ) (node : Page) (j o : ℕ)
    → i ≤ j
    → j < i + left
    → o < 4
    → unshift_slots left i node (20 + j * 4 + o) ≡ node (20 + (j + 1) * 4 + o)
unfolding unshift_slots
unshift_slots-in zero i node j o low high h = absurd (omega arith)
unshift_slots-in (suc left) i node j o low high h =
    let copied = copy_bytes (20 + i * 4) (20 + (i + 1) * 4) 4 node node in
    elim (Bool-cases (j == i)) [
      | inl e ↦
          (let same : j ≡ i = ground (arith, e) in
            unshift_slots-out left (i + 1) copied (20 + j * 4 + o) (inl (omega (arith, same)))
            ∙ ap (λ n. copied (20 + n * 4 + o)) same
            ∙ copy_bytes-in (20 + i * 4) (20 + (i + 1) * 4) 4 node node o h
            ∙ ap (λ n. node (20 + (n + 1) * 4 + o)) (sym same))
      | inr e ↦
          (let after : i + 1 ≤ j = ground (arith, e, low) in
            unshift_slots-in left (i + 1) copied j o after (omega arith) h
            ∙ copy_bytes-out (20 + i * 4) (20 + (i + 1) * 4) 4 node node (20 + (j + 1) * 4 + o)
                (inr (omega (arith, after))))
    ]

-- The cells of `p` are those of `node` without the one at place `ci`.
pub record Removed (node : Page) (ci : ℕ) (p : Page) : Type 0 where
  pub count : leaf_node_num_cells p + 1 ≡ leaf_node_num_cells node
  pub before : (j : ℕ) → j < ci → SameCell node j p j
  pub behind : (j : ℕ) → ci ≤ j → j + 1 < leaf_node_num_cells node → SameCell node (j + 1) p j
  pub free : leaf_node_free_space p ≡ leaf_node_free_space node
  pub next : leaf_node_next_leaf p ≡ leaf_node_next_leaf node
  pub head : (b : ℕ) → b < 8 → p b ≡ node b

module _ (node : Page) (ci : ℕ) (inside : ci < leaf_node_num_cells node) (laid : IsLaid node)
    (room : 20 + leaf_node_num_cells node * 4 ≤ leaf_node_free_space node) where
  shifted : Page
  shifted = unshift_slots (leaf_node_num_cells node - 1 - ci) ci node

  result : Page
  result = put_u32 8 (leaf_node_num_cells node - 1) shifted

  byte_out :
      (b : ℕ)
      → (b < 8) ⊎ (12 ≤ b)
      → (b < 20 + ci * 4) ⊎ (20 + leaf_node_num_cells node * 4 ≤ b)
      → result b ≡ node b
  unfolding result shifted
  byte_out b h h' =
      put_u32-out 8 (leaf_node_num_cells node - 1) shifted b h
      ∙ unshift_slots-out (leaf_node_num_cells node - 1 - ci) ci node b (ground (arith, h', inside))

  byte_slot :
      (j o : ℕ)
      → ci ≤ j
      → j + 1 < leaf_node_num_cells node
      → o < 4
      → result (20 + j * 4 + o) ≡ node (20 + (j + 1) * 4 + o)
  unfolding result shifted
  byte_slot j o low high h =
      put_u32-out 8 (leaf_node_num_cells node - 1) shifted (20 + j * 4 + o) (inr (omega arith))
      ∙ unshift_slots-in (leaf_node_num_cells node - 1 - ci) ci node j o low (omega (arith, inside))
          h

  removed_count : leaf_node_num_cells result ≡ leaf_node_num_cells node - 1
  unfolding leaf_node_num_cells result
  removed_count = put_u32-in 8 (leaf_node_num_cells node - 1) shifted (omega (arith, room, laid.0))

  removed_cell :
      (j i : ℕ)
      → j < leaf_node_num_cells node
      → offset_of result i ≡ offset_of node j
      → size_of result i ≡ size_of node j
      → SameCell node j result i
  unfolding leaf_node_slot leaf_node_value
  removed_cell j i h e e' = (
    e',
    λ k h'.
        ap (λ o. result (o + k)) e
        ∙ byte_out (offset_of node j + k) (inr (omega (arith, laid.1 j h, room)))
            (inr (omega (arith, laid.1 j h, room))),
  )

  moved_word :
      (j o : ℕ)
      → ci ≤ j
      → j + 1 < leaf_node_num_cells node
      → o < 3
      → read_le 2 (from result (20 + j * 4 + o)) ≡ read_le 2 (from node (20 + (j + 1) * 4 + o))
  moved_word j o low high h =
      let next : (a : ℕ) → a + o + 1 ≡ a + (o + 1) = λ a. omega arith in
      read_moved result node (20 + j * 4 + o) (20 + (j + 1) * 4 + o)
        (byte_slot j o low high (omega arith))
        (ap result (next (20 + j * 4))
          ∙ byte_slot j (o + 1) low high (omega arith)
          ∙ ap node (sym (next (20 + (j + 1) * 4))))

  kept_word :
      (at : ℕ)
      → 12 ≤ at
      → at + 2 ≤ 20 + ci * 4
      → read_le 2 (from result at) ≡ read_le 2 (from node at)
  kept_word at h h' =
      read_word result node at (byte_out at (inr h) (inl (omega arith)))
        (byte_out (at + 1) (inr (omega arith)) (inl (omega arith)))

  result-Removed : Removed node ci result
  unfolding leaf_node_free_space leaf_node_next_leaf
  result-Removed =
      let plain : (a : ℕ) → a + 0 ≡ a = λ a. omega arith in
      let head = λ (b : ℕ) (l : 12 ≤ b) (u : b < 16). byte_out b (inr l) (inl (omega arith)) in
      record {
        count = omega (arith, removed_count, inside);
        before = λ j h.
            removed_cell j j (omega (arith, inside))
              (kept_word (20 + j * 4) (omega arith) (omega arith))
              (kept_word (20 + j * 4 + 2) (omega arith) (omega arith));
        behind = λ j low high.
            removed_cell (j + 1) j high
              (ap (λ a. read_le 2 (from result a)) (sym (plain (20 + j * 4)))
                ∙ moved_word j 0 low high (omega arith)
                ∙ ap (λ a. read_le 2 (from node a)) (plain (20 + (j + 1) * 4)))
              (moved_word j 2 low high (omega arith));
        free = kept_word 16 (omega arith) (omega arith);
        next =
            read_long result node 12 (head 12 (omega arith) (omega arith))
              (head 13 (omega arith) (omega arith)) (head 14 (omega arith) (omega arith))
              (head 15 (omega arith) (omega arith));
        head = λ b h. byte_out b (inl h) (inl (omega arith));
      }

  shifted_count : leaf_node_num_cells shifted ≡ leaf_node_num_cells node
  unfolding leaf_node_num_cells shifted
  shifted_count =
      let out : (b : ℕ) → b < 20 → shifted b ≡ node b = λ b h.
        unshift_slots-out (leaf_node_num_cells node - 1 - ci) ci node b (inl (omega arith)) in
      read_long shifted node 8 (out 8 (omega arith)) (out 9 (omega arith)) (out 10 (omega arith))
        (out 11 (omega arith))

  removal : Removed node ci (remove_cell ci node)
  unfolding remove_cell shifted
  removal =
      let less : u32 (leaf_node_num_cells shifted + 2 ^ 32 - 1) ≡ leaf_node_num_cells node - 1 =
        omega (arith, shifted_count, inside, room, laid.0) in
      subst (λ n. Removed node ci (put_u32 8 n shifted)) (sym less)
        (unfold result in result-Removed)

-- Removing a cell of a leaf whose cells lie behind its free space, and that behind its slots,
-- leaves one cell fewer, the others with their bytes and in their order; the end of the free
-- space, the next leaf and the first 8 bytes of the page stay.
pub remove_cell-Removed :
    (node : Page) (ci : ℕ)
    → ci < leaf_node_num_cells node
    → IsLaid node
    → 20 + leaf_node_num_cells node * 4 ≤ leaf_node_free_space node
    → Removed node ci (remove_cell ci node)
remove_cell-Removed node ci inside laid room = removal node ci inside laid room
