-- ===== src/Syntax/Ast.antt =====
-- crates/wirespec-syntax/src/ast.rs: the syntax tree that the parser builds.
pub mod Expr
pub mod Fields
pub mod Machines
pub mod Items
