-- ===== src/Backend.antt =====
-- The type maps of the Rust and C back ends, which name the runtime's methods in the code they emit.
pub mod Rust
pub mod C
pub mod Methods
pub mod Groups
pub mod RoundTrip
mod Tests
