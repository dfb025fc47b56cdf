-- ===== src/Catalog.antt =====
-- src/catalog.c and include/catalog.h: values, the packed row format and its variable-length
-- integers.
pub mod Types
pub mod Varint
pub mod Row
