-- ===== src/Rt/Bytes.antt =====
-- The byte orders of Rust's integers: `from_be_bytes`, `to_le_bytes` and their like, at any width.
use native.Mathlib.Nat.{pow-suc, one-le-pow}
use wirespec.Base.{ℕ, zero, suc, ◌+◌, ◌*◌, ◌/◌, ◌%◌, ◌^◌, ◌<◌, ◌≡◌, refl, arith}
use wirespec.Base.{List, [], ◌∷◌, length, All, ap}
use wirespec.Base.Bits.{mod-mul}

abbrev pub IsByte : ℕ → Type 0
IsByte b = b < 256

be_value : ℕ → List ℕ → ℕ
be_value acc [] = acc
be_value acc (b ∷ bs) = be_value (acc * 256 + b) bs

unfoldable pub from_be_bytes : List ℕ → ℕ
unfolding be_value
from_be_bytes = be_value 0

unfoldable pub from_le_bytes : List ℕ → ℕ
from_le_bytes [] = 0
from_le_bytes (b ∷ bs) = b + 256 * from_le_bytes bs

-- The first argument is the width in bytes.
unfoldable pub to_be_bytes : ℕ → ℕ → List ℕ
to_be_bytes zero v = []
to_be_bytes (suc n) v = v / 256 ^ n % 256 ∷ to_be_bytes n v

unfoldable pub to_le_bytes : ℕ → ℕ → List ℕ
to_le_bytes zero v = []
to_le_bytes (suc n) v = v % 256 ∷ to_le_bytes n (v / 256)

pub length-to_be_bytes : (n v : ℕ) → length (to_be_bytes n v) ≡ n
unfolding to_be_bytes
length-to_be_bytes zero v = refl
length-to_be_bytes (suc n) v = ap suc (length-to_be_bytes n v)

pub length-to_le_bytes : (n v : ℕ) → length (to_le_bytes n v) ≡ n
unfolding to_le_bytes
length-to_le_bytes zero v = refl
length-to_le_bytes (suc n) v = ap suc (length-to_le_bytes n (v / 256))

pub to_be_bytes-IsByte : (n v : ℕ) → All IsByte (to_be_bytes n v)
unfolding to_be_bytes
to_be_bytes-IsByte zero v = tt
to_be_bytes-IsByte (suc n) v = (omega arith, to_be_bytes-IsByte n v)

pub to_le_bytes-IsByte : (n v : ℕ) → All IsByte (to_le_bytes n v)
unfolding to_le_bytes
to_le_bytes-IsByte zero v = tt
to_le_bytes-IsByte (suc n) v = (omega arith, to_le_bytes-IsByte n (v / 256))

be_value-to_be_bytes : (n v acc : ℕ) → be_value acc (to_be_bytes n v) ≡ acc * 256 ^ n + v % 256 ^ n
unfolding be_value to_be_bytes
be_value-to_be_bytes zero v acc = omega arith
be_value-to_be_bytes (suc n) v acc = omega (
  arith,
  be_value-to_be_bytes n v (acc * 256 + v / 256 ^ n % 256),
  pow-suc 256 n,
  ap (λ (t : ℕ). acc * t) (pow-suc 256 n),
  ap (λ (t : ℕ). v % t) (pow-suc 256 n),
  one-le-pow n 256,
  mod-mul v (256 ^ n) 256 (one-le-pow n 256 (omega arith)) (omega arith),
)

pub from_be_bytes-to_be_bytes : (n v : ℕ) → from_be_bytes (to_be_bytes n v) ≡ v % 256 ^ n
unfolding from_be_bytes
from_be_bytes-to_be_bytes n v = ground (arith, be_value-to_be_bytes n v 0)

pub from_le_bytes-to_le_bytes : (n v : ℕ) → from_le_bytes (to_le_bytes n v) ≡ v % 256 ^ n
unfolding from_le_bytes to_le_bytes
from_le_bytes-to_le_bytes zero v = omega arith
from_le_bytes-to_le_bytes (suc n) v = ground (
  arith,
  from_le_bytes-to_le_bytes n (v / 256),
  pow-suc 256 n,
  one-le-pow n 256,
  mod-mul v 256 (256 ^ n),
)
