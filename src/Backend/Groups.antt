-- ===== src/Backend/Groups.antt =====
-- The methods that the back ends name for a bit group, and what they do to a group's bits.
use wirespec.Base.{ℕ, ◌^◌, ◌≤◌, ◌<◌, ◌==◌, if◌then◌else◌, ◌++◌, some, List, [], ◌∷◌, All, In}
use wirespec.Base.{◌≡◌, ◌↔◌, arith, ◌⊎◌, inl, inr}
use wirespec.Base.Str.{Str, str, decimal, digits_of}
use wirespec.Base.Outcome.{ok}
use wirespec.Sema.Types.{Endianness}
use wirespec.Layout.Ir.{LayoutField, LayoutBitGroup}
use wirespec.Layout.Bitgroup.{detect_bitgroups}
use wirespec.Layout.Bitgroup.Runs.{bits_left}
use wirespec.Layout.Bitgroup.Tiles.{IsTiled, IsPositive, detect_bitgroups-IsTiled}
use wirespec.Backend.Rust.{
  by_width, ordered, bitgroup_read_method, bitgroup_write_method, bitgroup_rust_type,
}
use wirespec.Backend.C.{bitgroup_read_fn, bitgroup_write_fn, bitgroup_c_type}

abbrev pub widths : List ℕ
widths = 8 ∷ 16 ∷ 32 ∷ 64 ∷ []

-- `8`, or `16be` and the like.
abbrev pub group_tail : ℕ → Endianness → Str
group_tail k e = decimal k ++ (if k == 8 then str "" else ordered e (str "le") (str "be"))

-- The names that both back ends use for a group of `n` bits, with a container of `k` bits. It is as
-- wide as the group only where `n` is one of the four widths.
abbrev pub IsNamed : Endianness → ℕ → Type 0
IsNamed e n =
    (k : ℕ) × In k widths
    × (n ≤ k)
    × ((k ≡ n) ↔ In n widths)
    × (bitgroup_read_method n e ≡ some (str "read_u" ++ group_tail k e))
    × (bitgroup_write_method n e ≡ some (str "write_u" ++ group_tail k e))
    × (bitgroup_read_fn n e ≡ some (str "wirespec_cursor_read_u" ++ group_tail k e))
    × (bitgroup_write_fn n e ≡ some (str "wirespec_write_u" ++ group_tail k e))
    × (bitgroup_rust_type n ≡ str "u" ++ decimal k)
    × (bitgroup_c_type n ≡ str "uint" ++ (decimal k ++ str "_t"))

module _ {A : Type 0} (n : ℕ) (a b c d : A) where
  pub up_to_8 : 0 < n → n ≤ 8 → by_width n a b c d ≡ some a
  up_to_8 h k = ground arith

  pub up_to_16 : 8 < n → n ≤ 16 → by_width n a b c d ≡ some b
  up_to_16 h k = ground arith

  pub up_to_32 : 16 < n → n ≤ 32 → by_width n a b c d ≡ some c
  up_to_32 h k = ground arith

  pub up_to_64 : 32 < n → n ≤ 64 → by_width n a b c d ≡ some d
  up_to_64 h k = ground arith

-- The ranges.
pub range_of :
    (n : ℕ)
    → 0 < n
    → n ≤ 64
    → ((0 < n) × (n ≤ 8)) ⊎ (((8 < n) × (n ≤ 16)) ⊎ (((16 < n) × (n ≤ 32)) ⊎ ((32 < n) × (n ≤ 64))))
range_of n h k = ground arith

IsNamed-8 : (n : ℕ) (e : Endianness) → 0 < n → n ≤ 8 → IsNamed e n
unfolding decimal digits_of bitgroup_read_method bitgroup_write_method bitgroup_read_fn
    bitgroup_write_fn bitgroup_rust_type bitgroup_c_type
IsNamed-8 n Endianness.little lo hi = (
  8,
  ground arith,
  hi,
  ground arith,
  up_to_8 n _ _ _ _ lo hi,
  up_to_8 n _ _ _ _ lo hi,
  up_to_8 n _ _ _ _ lo hi,
  up_to_8 n _ _ _ _ lo hi,
  ground arith,
  ground arith,
)
IsNamed-8 n Endianness.big lo hi = (
  8,
  ground arith,
  hi,
  ground arith,
  up_to_8 n _ _ _ _ lo hi,
  up_to_8 n _ _ _ _ lo hi,
  up_to_8 n _ _ _ _ lo hi,
  up_to_8 n _ _ _ _ lo hi,
  ground arith,
  ground arith,
)

IsNamed-16 : (n : ℕ) (e : Endianness) → 8 < n → n ≤ 16 → IsNamed e n
unfolding decimal digits_of bitgroup_read_method bitgroup_write_method bitgroup_read_fn
    bitgroup_write_fn bitgroup_rust_type bitgroup_c_type
IsNamed-16 n Endianness.little lo hi = (
  16,
  ground arith,
  hi,
  ground arith,
  up_to_16 n _ _ _ _ lo hi,
  up_to_16 n _ _ _ _ lo hi,
  up_to_16 n _ _ _ _ lo hi,
  up_to_16 n _ _ _ _ lo hi,
  ground arith,
  ground arith,
)
IsNamed-16 n Endianness.big lo hi = (
  16,
  ground arith,
  hi,
  ground arith,
  up_to_16 n _ _ _ _ lo hi,
  up_to_16 n _ _ _ _ lo hi,
  up_to_16 n _ _ _ _ lo hi,
  up_to_16 n _ _ _ _ lo hi,
  ground arith,
  ground arith,
)

IsNamed-32 : (n : ℕ) (e : Endianness) → 16 < n → n ≤ 32 → IsNamed e n
unfolding decimal digits_of bitgroup_read_method bitgroup_write_method bitgroup_read_fn
    bitgroup_write_fn bitgroup_rust_type bitgroup_c_type
IsNamed-32 n Endianness.little lo hi = (
  32,
  ground arith,
  hi,
  ground arith,
  up_to_32 n _ _ _ _ lo hi,
  up_to_32 n _ _ _ _ lo hi,
  up_to_32 n _ _ _ _ lo hi,
  up_to_32 n _ _ _ _ lo hi,
  ground arith,
  ground arith,
)
IsNamed-32 n Endianness.big lo hi = (
  32,
  ground arith,
  hi,
  ground arith,
  up_to_32 n _ _ _ _ lo hi,
  up_to_32 n _ _ _ _ lo hi,
  up_to_32 n _ _ _ _ lo hi,
  up_to_32 n _ _ _ _ lo hi,
  ground arith,
  ground arith,
)

IsNamed-64 : (n : ℕ) (e : Endianness) → 32 < n → n ≤ 64 → IsNamed e n
unfolding decimal digits_of bitgroup_read_method bitgroup_write_method bitgroup_read_fn
    bitgroup_write_fn bitgroup_rust_type bitgroup_c_type
IsNamed-64 n Endianness.little lo hi = (
  64,
  ground arith,
  hi,
  ground arith,
  up_to_64 n _ _ _ _ lo hi,
  up_to_64 n _ _ _ _ lo hi,
  up_to_64 n _ _ _ _ lo hi,
  up_to_64 n _ _ _ _ lo hi,
  ground arith,
  ground arith,
)
IsNamed-64 n Endianness.big lo hi = (
  64,
  ground arith,
  hi,
  ground arith,
  up_to_64 n _ _ _ _ lo hi,
  up_to_64 n _ _ _ _ lo hi,
  up_to_64 n _ _ _ _ lo hi,
  up_to_64 n _ _ _ _ lo hi,
  ground arith,
  ground arith,
)

pub named : (n : ℕ) (e : Endianness) → 0 < n → n ≤ 64 → IsNamed e n
named n e h k = elim (range_of n h k) [
  | inl (lo, hi) ↦ IsNamed-8 n e lo hi
  | inr (inl (lo, hi)) ↦ IsNamed-16 n e lo hi
  | inr (inr (inl (lo, hi))) ↦ IsNamed-32 n e lo hi
  | inr (inr (inr (lo, hi))) ↦ IsNamed-64 n e lo hi
]

AreNamed : List LayoutBitGroup → Type 0
AreNamed = All (λ g. IsNamed g.endianness g.total_bits)

tiled_named : (groups : List LayoutBitGroup) → All IsTiled groups → AreNamed groups
unfolding AreNamed
tiled_named [] t = tt
tiled_named (g ∷ groups) t =
    let (positive, most, _, _) = t.0 in
    (named g.total_bits g.endianness positive most, tiled_named groups t.1)

-- For every group that `detect_bitgroups` makes, the back ends never reach `unreachable!`: Rust and C
-- name a read and a write of one container and of the group's byte order, and the container's type.
-- The container holds the group, and is wider than it except for groups of 8, 16, 32 or 64 bits.
-- The bit fields have at least one bit, and their widths together fit a `u16`.
pub detect_bitgroups-AreNamed :
    (fields : List LayoutField) (scope_id : Str) (endianness : Endianness)
    (groups : List LayoutBitGroup) (out : List LayoutField)
    → All IsPositive fields
    → bits_left fields < 2 ^ 16
    → detect_bitgroups fields scope_id endianness ≡ ok (groups, out)
    → All (λ g. IsNamed g.endianness g.total_bits) groups
unfolding AreNamed
detect_bitgroups-AreNamed fields scope_id endianness groups out p small h =
    tiled_named groups (detect_bitgroups-IsTiled fields scope_id endianness groups out p small h)
