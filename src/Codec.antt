-- ===== src/Codec.antt =====
-- crates/wirespec-codec: from the layout IR to a flat plan of parsing and serializing.
pub mod Ir
pub mod Strategy
pub mod Checksum
pub mod Convert
pub mod Lower
pub mod Scopes
