-- ===== src/Catalog/Row.antt =====
-- The packed row format of src/catalog.c: `serialize_row_with_mvcc` and `deserialize_row_with_mvcc`.
pub mod Encode
pub mod Decode
pub mod Cells
pub mod Columns
pub mod Extras
pub mod Capacity
pub mod RoundTrip
