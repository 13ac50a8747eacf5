-- ===== src/Base/Int.antt =====
-- Signed integers over the native numbers, and the two's complement casts of Rust's `as`.
use wirespec.Base.{ℕ, ◌+◌, ◌-◌, ◌<◌, ◌≡◌, ltb, if◌then◌else◌, arith}

-- `negsuc n` is -(n + 1).
pub data ℤ : Type 0 where
  pos : ℕ → ℤ
  negsuc : ℕ → ℤ

-- `v as iN` for `v : uN` of `size = 2 ^ N` values, `half` of them from 0 on.
abbrev pub as_signed : ℕ → ℕ → ℤ
as_signed half v = if ltb v half then pos v else negsuc (half + half - 1 - v)

-- `z as uN` for `z : iN`.
abbrev pub as_unsigned : ℕ → ℤ → ℕ
as_unsigned half (pos n) = n
as_unsigned half (negsuc n) = half + half - 1 - n

-- The values of `iN`.
abbrev pub IsSigned : ℕ → ℤ → Type 0
IsSigned half (pos n) = n < half
IsSigned half (negsuc n) = n < half

pub as_unsigned-lt : (half : ℕ) (z : ℤ) → IsSigned half z → as_unsigned half z < half + half
as_unsigned-lt half (pos n) h = omega arith
as_unsigned-lt half (negsuc n) h = omega arith

pub as_signed-as_unsigned :
    (half : ℕ) (z : ℤ) → IsSigned half z → as_signed half (as_unsigned half z) ≡ z
as_signed-as_unsigned half (pos n) h = ground arith
as_signed-as_unsigned half (negsuc n) h = ground arith
