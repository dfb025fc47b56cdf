-- ===== src/Lib.antt =====
-- A verification library for customDB, a small SQL database in C.
--
-- The program keeps tables in B+ trees whose cells are packed rows (src/catalog.c), in pages that
-- the pager (src/pager.c) caches and writes to a main file or to a write-ahead log; the executor
-- (src/executor.c) reads rows through snapshots, for the statements that the parser (src/parser.c)
-- reads, partly on a virtual machine (src/vdbe.c). The files here follow these parts.
--
-- Catalog: Types has ColumnType and Value of include/catalog.h; Varint has put_varint and
--   get_varint; Row/Encode and Row/Decode have serialize_row_with_mvcc and
--   deserialize_row_with_mvcc, the loops over the columns, the markers behind them and the size of
--   the header each as a function. Row/Cells, Row/Columns and Row/Extras have the lemmas on one
--   value, on the columns and on the markers, Row/Capacity the size of the body's buffer, and
--   Row/RoundTrip and Varint/RoundTrip the theorems.
-- Pager: State has the Pager of include/pager.h together with the files it works on, and
--   pager_lock and pager_unlock; Crc has calculate_crc32; Cache has get_page,
--   pager_refresh_if_modified and pager_flush; Wal has pager_checkpoint and pager_set_wal_mode;
--   Backup and Restore have pager_backup and pager_restore, with the map of buckets that the
--   latter builds; Snapshots has the registry of readers and the retired page buffers; Journal has
--   check_and_recover_journal and pager_rollback; Begin has pager_begin_transaction and
--   pager_ensure_write_lock; Shadow has pager_shadow_page_write and pager_journal_page; Commit has
--   pager_commit; Savepoints has the three operations on savepoints; Freelist has
--   get_unused_page_num and pager_free_page. Below them: Levels, Journal/Rollback, Wal/Replay,
--   Backup/RoundTrip, Restore/PageMap, Restore/Correct, Snapshots/Laws, Savepoints/Hole,
--   Cache/Rest, Cache/Growth, Freelist/Reuse, Commit/Swap and Commit/Publish. Shadow/Journaled
--   is the invariant of a transaction that has the write lock, Shadow/Kept, Touches, Copies and
--   Steps follow it through the cache, the copies and the journal, Shadow/Start through the
--   begin; Shadow/Runs has a transaction's steps as a relation, Shadow/Flushing the loop of a
--   commit, Shadow/Crash and Undo what a recovery and a rollback leave.
-- Parser: Tokens has parse_identifier and parse_value_token_alloc of src/parser.c; Where has
--   parse_where_clause, whose subqueries are in Subqueries, its words in Word and its types in
--   Conditions. Below them: Tokens/Quoted, and in Where: Shown, Limit and Kept.
-- BTree: Keys has compare_keys, compare_values, serialize_col0_key and
--   extract_col0_from_packed_record of src/btree.c; Node has the accessors of its nodes; Search
--   has leaf_node_find and internal_node_find_child; Leaf has leaf_node_defragment and the part of
--   leaf_node_insert that changes the page. Below them: Keys/Order, Keys/Extract,
--   Search/LowerBound, and in Leaf: Cells, Moved, Defragment, Shift, Place, Insert and Room.
--   Split has the two pages of leaf_node_split_and_insert, with Filled, Halves, Places, Links and
--   Shared below it. Cursor has btree_find_out, btree_start_out, cursor_advance, the loop over a
--   cursor, and what btree_delete does to the leaf and the cursor, with Scan, Delete and Emptied.
--   Overflow has the chains of overflow pages, the cell of serialize_cell_for_leaf and
--   cursor_value, with Rounds, Chain, Stub and RoundTrip.
-- Executor: Like has sql_like_match, Visibility has row_is_visible_and_active,
--   get_current_snapshot_xid and the test by which VACUUM INTO leaves rows out.
-- Vdbe: Sorter has OP_SorterRewind and OP_SorterNext of src/vdbe.c, with Rows below it.
-- Prelude has what they share, Examples runs the definitions on concrete data.
--
-- How the state corresponds. A Pager is one connection's struct and the files: the main file is a
-- function from page numbers to pages with its length in pages, the log is the list of its
-- complete frames with a flag for its magic number, a page is the function from offsets to bytes.
-- What the locks of other processes let through is the field `grants`, and the clock the field
-- `now`. A function that returns a pointer into the cache returns which buffer that is. A call of
-- exit(1) is `none`. Integers are natural numbers with the wrap-around of their C types written
-- out; an int32_t, a float and a double are bit patterns, and the machine's conversions between
-- the latter and its order of them are parameters (Floats, of which only the width of a double is
-- used, and FloatOrder).
--
-- Fuel. put_varint takes seven bits a round, so nine rounds and a last byte do for 64 bits;
-- get_varint reads ten bytes at most, as the code does; the size of a row's header settles within
-- three rounds; the loop behind the columns reads at least a byte of the header each round; the
-- capacity of the cache doubles at most 32 times; a binary search halves its interval, whose
-- length is its fuel. The descent to a leaf and the loop over a cursor have no bound in the code;
-- the loop ends once it has as many rounds as there are cells. A chain of overflow pages gives a
-- byte or more a round, so the bytes that are wanted are its fuel. The round trips show that the
-- first four are enough, and the last.
--
-- Not modelled: the log format without a magic number; failing reads, writes and allocations; a
-- main file that is replaced by another one while it is open; a last frame that is cut off; writes
-- that reach the disk in part or out of order; the in-process mutexes and the waits (the lock node
-- that the pagers of a process share is the field `node_free`); the parents and the merges of the
-- B+ tree, and what frees its overflow pages; the catalog's own pages, the other op codes of the
-- virtual machine, the rest of the SQL parser, the statement drivers, the server, and printing.
-- Where the parser's sub_where_val is longer than its 64 bytes, what it overwrites.
-- Where the program leaves an array or does not end: what a copy past the end of the body's buffer
-- overwrites in serialize_row_with_mvcc, for bodies of 2^31 - 4096 bytes and more (Catalog/Row/Capacity
-- has the buffer's size); the cache for page numbers from 2^31 on, for which get_page never returns
-- (Cache/Growth); what follows the sixteen registers of a machine. The journal's theorems are about
-- transactions that change pages by pager_journal_page and their own copies only: catalog_save and
-- get_unused_page_num, which change pages that are not journaled, are not among their steps.
pub mod BTree
pub mod Catalog
pub mod Examples
pub mod Executor
pub mod Pager
pub mod Parser
pub mod Prelude
pub mod Vdbe
