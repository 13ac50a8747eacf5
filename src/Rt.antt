-- ===== src/Rt.antt =====
-- crates/wirespec-rt/src/lib.rs: the runtime of generated code. Here its errors, and how a method
-- with a mutable receiver is written: a function of the receiver that gives its result and the
-- receiver it leaves. A panic, by an index out of range or an overflow under Rust's checks, is a
-- third outcome.
pub mod Bytes
pub mod Cursor
pub mod Writer
pub mod RoundTrip
pub mod Checksum
mod Tests
use wirespec.Base.{ℕ, ◌+◌, ◌^◌, ltb, if◌then◌else◌, Option, none, some}

pub data Error : Type 0 where
  short_buffer invalid_tag constraint overflow invalid_state scope_underflow capacity : Error
  trailing_data noncanonical checksum asn1_decode asn1_encode : Error

pub data Run {ℓ} (S : Type 0) (A : Type ℓ) : Type ℓ where
  ok : A → S → Run S A
  err : Error → S → Run S A
  panic : Run S A

abbrev pub Act {ℓ} : Type 0 → Type ℓ → Type ℓ
Act S A = S → Run S A

infixl 5 ◌>>=◌ ◌>>◌
abbrev pub ◌>>=◌ {ℓ κ} : {S : Type 0} {A : Type ℓ} {B : Type κ} → Act S A → (A → Act S B) → Act S B
◌>>=◌ m f s = elim (m s) [ ok a s' ↦ f a s' | err e s' ↦ err e s' | panic ↦ panic ]

abbrev pub ◌>>◌ {ℓ} : {S : Type 0} {B : Type ℓ} → Act S (Unit {0}) → Act S B → Act S B
m >> k = m >>= λ _. k

-- `Result::map`.
abbrev pub map_ok {ℓ κ} : {S : Type 0} {A : Type ℓ} {B : Type κ} → (A → B) → Act S A → Act S B
map_ok f m = m >>= λ a. ok (f a)

-- The number of values of `usize`, on a target of 64 bits.
abbrev pub usize_end : ℕ
usize_end = 2 ^ 64

-- `usize::checked_add`.
abbrev pub checked_add : ℕ → ℕ → Option ℕ
checked_add a b = if ltb (a + b) usize_end then some (a + b) else none
