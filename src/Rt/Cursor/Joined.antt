-- ===== src/Rt/Cursor/Joined.antt =====
-- The bytes that the 24-bit reads of `Cursor` join by shifts are those of `from_be_bytes` and
-- `from_le_bytes`.
use wirespec.Base.{ℕ, ◌+◌, ◌*◌, ◌≤◌, ◌<◌, refl}
use wirespec.Base.{List, [], ◌∷◌, some, length, get_elem?, take, All, ◌≡◌, arith}
use wirespec.Base.Bits.{bit_or-disjoint, bit_or_comm}
use wirespec.Rt.Bytes.{from_be_bytes, from_le_bytes, IsByte}
use wirespec.Rt.Cursor.{shl32}
use Prim.Native.Nat.{bit_or}

pub first_three :
    (r : List ℕ)
    → 3 ≤ length r
    → All IsByte r
    → (a b d : ℕ) × (get_elem? r 0 ≡ some a)
      × (get_elem? r 1 ≡ some b)
      × (get_elem? r 2 ≡ some d)
      × (take 3 r ≡ a ∷ b ∷ d ∷ [])
      × (a < 256)
      × (b < 256)
      × (d < 256)
first_three [] h o = absurd (omega arith)
first_three (a ∷ []) h o = absurd (omega arith)
first_three (a ∷ b ∷ []) h o = absurd (omega arith)
first_three (a ∷ b ∷ d ∷ r) h o = (a, b, d, refl, refl, refl, refl, o.0, o.1.0, o.1.1.0)

pub one_byte : (b : ℕ) → from_be_bytes (b ∷ []) ≡ b
unfolding from_be_bytes
one_byte b = omega arith

pub joined_be :
    (a b d : ℕ)
    → a < 256
    → b < 256
    → d < 256
    → bit_or (bit_or (shl32 a 16) (shl32 b 8)) d ≡ from_be_bytes (a ∷ b ∷ d ∷ [])
unfolding from_be_bytes
joined_be a b d la lb ld =
    rw
      (
        bit_or-disjoint 16 (shl32 a 16) a (shl32 b 8) (omega arith) (omega arith),
        bit_or-disjoint 8 (shl32 a 16 + shl32 b 8) (a * 256 + b) d (omega arith) ld,
      )
      (omega arith)

pub joined_le :
    (a b d : ℕ)
    → a < 256
    → b < 256
    → d < 256
    → bit_or (bit_or a (shl32 b 8)) (shl32 d 16) ≡ from_le_bytes (a ∷ b ∷ d ∷ [])
unfolding from_le_bytes
joined_le a b d la lb ld =
    rw
      (
        bit_or_comm a (shl32 b 8),
        bit_or-disjoint 8 (shl32 b 8) b a (omega arith) la,
        bit_or_comm (shl32 b 8 + a) (shl32 d 16),
        bit_or-disjoint 16 (shl32 d 16) d (shl32 b 8 + a) (omega arith) (omega arith),
      )
      (omega arith)
