-- ===== src/Pager.antt =====
-- src/pager.c and include/pager.h: the page cache, the write-ahead log, the rollback journal, backup
-- and restore, and the snapshot registry of one connection.
pub mod State
pub mod Crc
pub mod Levels
pub mod Cache
pub mod Wal
pub mod Snapshots
pub mod Restore
pub mod Backup
pub mod Journal
pub mod Begin
pub mod Shadow
pub mod Commit
pub mod Savepoints
pub mod Freelist
