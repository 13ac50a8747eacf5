-- ===== src/Sema.antt =====
-- crates/wirespec-sema: the semantic IR and the checks that do not walk the syntax tree.
pub mod Types
pub mod Expr
pub mod Ir
pub mod Catalog
pub mod Registry
pub mod Suggest
pub mod Validate
