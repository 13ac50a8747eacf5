-- ===== src/Layout.antt =====
-- crates/wirespec-layout: bit widths, byte orders and bit groups for the semantic IR.
pub mod Ir
pub mod Bitgroup
pub mod Lower
