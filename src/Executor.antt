-- ===== src/Executor.antt =====
-- src/executor.c: the parts of the statement executor that are modelled.
pub mod Like
pub mod Visibility
