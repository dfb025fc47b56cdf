-- ===== src/BTree.antt =====
-- src/btree.c: the keys of the B+ tree, its nodes, the search in a node, the slotted leaves, their split,
-- the cursors, and the overflow pages.
pub mod Keys
pub mod Node
pub mod Search
pub mod Leaf
pub mod Split
pub mod Cursor
pub mod Overflow
