-- ===== src/Examples.antt =====
-- Runs of the definitions on concrete data, and the theorems at concrete arguments.
mod Rows
mod Text
mod Pages
mod Readers
mod Transactions
mod Trees
mod Splits
mod Parsed
mod Long
mod Machine
