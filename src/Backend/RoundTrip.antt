-- ===== src/Backend/RoundTrip.antt =====
-- What the Rust code that is emitted for a bit group's container writes, it reads back.
use native.Mathlib.Nat.{pow-le-pow_right}
use wirespec.Base.{
  ℕ, ◌^◌, ◌≤◌, ◌<◌, if◌then◌else◌, Option, none, some, List, [], ◌∷◌, All, ◌≡◌, refl, arith,
}
use wirespec.Base.{inl, inr}
use wirespec.Base.Str.{Str, str, str_eq}
use wirespec.Sema.Types.{Endianness}
use wirespec.Rt.{Act}
use wirespec.Rt.Bytes.{IsByte}
use wirespec.Rt.Cursor
use wirespec.Rt.Cursor.{Cursor}
use wirespec.Rt.Writer
use wirespec.Rt.Writer.{Writer}
use wirespec.Rt.Writer.Laws.{room}
use wirespec.Rt.Writer.Laws as WriterLaws
use wirespec.Rt.RoundTrip.{ReadsBack, unsigned_round_trip}
use wirespec.Backend.Rust.{bitgroup_read_method, bitgroup_write_method}
use wirespec.Backend.Groups.{range_of, up_to_8, up_to_16, up_to_32, up_to_64}

-- The methods of `Cursor` and `Writer` by their names.
abbrev method_of : {A : Type 0} → Option Str → List (Str × A) → Option A
method_of none methods = none
method_of (some s) [] = none
method_of (some s) ((t, method) ∷ methods) =
    if str_eq s t then some method else method_of (some s) methods

abbrev pub cursor_methods : List (Str × Act Cursor ℕ)
cursor_methods =
    (str "read_u8", Cursor.read_u8)
    ∷ (str "read_u16be", Cursor.read_u16be)
    ∷ (str "read_u16le", Cursor.read_u16le)
    ∷ (str "read_u32be", Cursor.read_u32be)
    ∷ (str "read_u32le", Cursor.read_u32le)
    ∷ (str "read_u64be", Cursor.read_u64be)
    ∷ (str "read_u64le", Cursor.read_u64le)
    ∷ []

abbrev pub writer_methods : List (Str × (ℕ → Act Writer (Unit {0})))
writer_methods =
    (str "write_u8", Writer.write_u8)
    ∷ (str "write_u16be", Writer.write_u16be)
    ∷ (str "write_u16le", Writer.write_u16le)
    ∷ (str "write_u32be", Writer.write_u32be)
    ∷ (str "write_u32le", Writer.write_u32le)
    ∷ (str "write_u64be", Writer.write_u64be)
    ∷ (str "write_u64le", Writer.write_u64le)
    ∷ []

-- The methods that are named for a group of `n` bits exist, and the second reads `v` where the
-- first has written it.
abbrev pub IsCarried : Writer → Endianness → ℕ → ℕ → Type 0
IsCarried w e n v =
    (write : ℕ → Act Writer (Unit {0})) × (read : Act Cursor ℕ) × (method_of
        (bitgroup_write_method n e) writer_methods
      ≡ some write)
    × (method_of (bitgroup_read_method n e) cursor_methods ≡ some read)
    × ReadsBack read v (write v) w

module _ (w : Writer) (valid : WriterLaws.IsValid w) (octets : All IsByte w.buf)
    (fits : 8 ≤ room w) where
  IsCarried-8 : (e : Endianness) (n v : ℕ) → 0 < n → n ≤ 8 → v < 2 ^ n → IsCarried w e n v
  unfolding bitgroup_read_method bitgroup_write_method str_eq
  IsCarried-8 Endianness.little n v lo hi bound =
      let small : v < 2 ^ 8 = omega (arith, bound, pow-le-pow_right {n = 2} (omega arith) hi) in
      let trips =
        unsigned_round_trip w valid octets v 0 0 0 0 fits small (omega arith) (omega arith)
          (omega arith) (omega arith) in
      (
        Writer.write_u8,
        Cursor.read_u8,
        rw (up_to_8 n _ _ _ _ lo hi) refl,
        rw (up_to_8 n _ _ _ _ lo hi) refl,
        trips.0,
      )
  IsCarried-8 Endianness.big n v lo hi bound =
      let small : v < 2 ^ 8 = omega (arith, bound, pow-le-pow_right {n = 2} (omega arith) hi) in
      let trips =
        unsigned_round_trip w valid octets v 0 0 0 0 fits small (omega arith) (omega arith)
          (omega arith) (omega arith) in
      (
        Writer.write_u8,
        Cursor.read_u8,
        rw (up_to_8 n _ _ _ _ lo hi) refl,
        rw (up_to_8 n _ _ _ _ lo hi) refl,
        trips.0,
      )

  IsCarried-16 : (e : Endianness) (n v : ℕ) → 8 < n → n ≤ 16 → v < 2 ^ n → IsCarried w e n v
  unfolding bitgroup_read_method bitgroup_write_method str_eq
  IsCarried-16 Endianness.little n v lo hi bound =
      let small : v < 2 ^ 16 = omega (arith, bound, pow-le-pow_right {n = 2} (omega arith) hi) in
      let trips =
        unsigned_round_trip w valid octets 0 v 0 0 0 fits (omega arith) small (omega arith)
          (omega arith) (omega arith) in
      (
        Writer.write_u16le,
        Cursor.read_u16le,
        rw (up_to_16 n _ _ _ _ lo hi) refl,
        rw (up_to_16 n _ _ _ _ lo hi) refl,
        trips.2,
      )
  IsCarried-16 Endianness.big n v lo hi bound =
      let small : v < 2 ^ 16 = omega (arith, bound, pow-le-pow_right {n = 2} (omega arith) hi) in
      let trips =
        unsigned_round_trip w valid octets 0 v 0 0 0 fits (omega arith) small (omega arith)
          (omega arith) (omega arith) in
      (
        Writer.write_u16be,
        Cursor.read_u16be,
        rw (up_to_16 n _ _ _ _ lo hi) refl,
        rw (up_to_16 n _ _ _ _ lo hi) refl,
        trips.1,
      )

  IsCarried-32 : (e : Endianness) (n v : ℕ) → 16 < n → n ≤ 32 → v < 2 ^ n → IsCarried w e n v
  unfolding bitgroup_read_method bitgroup_write_method str_eq
  IsCarried-32 Endianness.little n v lo hi bound =
      let small : v < 2 ^ 32 = omega (arith, bound, pow-le-pow_right {n = 2} (omega arith) hi) in
      let trips =
        unsigned_round_trip w valid octets 0 0 0 v 0 fits (omega arith) (omega arith) (omega arith)
          small (omega arith) in
      (
        Writer.write_u32le,
        Cursor.read_u32le,
        rw (up_to_32 n _ _ _ _ lo hi) refl,
        rw (up_to_32 n _ _ _ _ lo hi) refl,
        trips.6,
      )
  IsCarried-32 Endianness.big n v lo hi bound =
      let small : v < 2 ^ 32 = omega (arith, bound, pow-le-pow_right {n = 2} (omega arith) hi) in
      let trips =
        unsigned_round_trip w valid octets 0 0 0 v 0 fits (omega arith) (omega arith) (omega arith)
          small (omega arith) in
      (
        Writer.write_u32be,
        Cursor.read_u32be,
        rw (up_to_32 n _ _ _ _ lo hi) refl,
        rw (up_to_32 n _ _ _ _ lo hi) refl,
        trips.5,
      )

  IsCarried-64 : (e : Endianness) (n v : ℕ) → 32 < n → n ≤ 64 → v < 2 ^ n → IsCarried w e n v
  unfolding bitgroup_read_method bitgroup_write_method str_eq
  IsCarried-64 Endianness.little n v lo hi bound =
      let small : v < 2 ^ 64 = omega (arith, bound, pow-le-pow_right {n = 2} (omega arith) hi) in
      let trips =
        unsigned_round_trip w valid octets 0 0 0 0 v fits (omega arith) (omega arith) (omega arith)
          (omega arith) small in
      (
        Writer.write_u64le,
        Cursor.read_u64le,
        rw (up_to_64 n _ _ _ _ lo hi) refl,
        rw (up_to_64 n _ _ _ _ lo hi) refl,
        trips.8,
      )
  IsCarried-64 Endianness.big n v lo hi bound =
      let small : v < 2 ^ 64 = omega (arith, bound, pow-le-pow_right {n = 2} (omega arith) hi) in
      let trips =
        unsigned_round_trip w valid octets 0 0 0 0 v fits (omega arith) (omega arith) (omega arith)
          (omega arith) small in
      (
        Writer.write_u64be,
        Cursor.read_u64be,
        rw (up_to_64 n _ _ _ _ lo hi) refl,
        rw (up_to_64 n _ _ _ _ lo hi) refl,
        trips.7,
      )

-- For every width from 1 to 64 bits and either byte order, the Rust back end's write and read
-- methods are methods of `Writer` and `Cursor`, and a value of that many bits that the one writes the
-- other reads back, with both positions moved alike. The writer is valid and has 8 bytes of room,
-- and its buffer holds bytes.
pub bitgroup_round_trip :
    (w : Writer) (e : Endianness) (n v : ℕ)
    → WriterLaws.IsValid w
    → All IsByte w.buf
    → 8 ≤ room w
    → 0 < n
    → n ≤ 64
    → v < 2 ^ n
    → IsCarried w e n v
bitgroup_round_trip w e n v valid octets fits h k bound = elim (range_of n h k) [
  | inl (lo, hi) ↦ IsCarried-8 w valid octets fits e n v lo hi bound
  | inr (inl (lo, hi)) ↦ IsCarried-16 w valid octets fits e n v lo hi bound
  | inr (inr (inl (lo, hi))) ↦ IsCarried-32 w valid octets fits e n v lo hi bound
  | inr (inr (inr (lo, hi))) ↦ IsCarried-64 w valid octets fits e n v lo hi bound
]
