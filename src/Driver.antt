-- ===== src/Driver.antt =====
-- crates/wirespec-driver: from an entry file to the modules that are compiled.
pub mod Resolve
pub mod Pipeline
