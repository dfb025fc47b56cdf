-- ===== src/Vdbe.antt =====
-- src/vdbe.c: the sorter of the virtual machine.
pub mod Sorter
