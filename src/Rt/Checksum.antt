-- ===== src/Rt/Checksum.antt =====
-- The checksum functions of crates/wirespec-rt/src/lib.rs. `none` is a panic: an `expect` or an
-- `assert!` that fails, or a sum past its width under Rust's overflow checks.
pub mod Internet
pub mod Field
pub mod Verify
pub mod Fletcher
use Prim.Native.Nat.{bit_and, bit_or, bit_xor, min}
use wirespec.Base.{ℕ, zero, suc, ◌+◌, ◌-◌, ◌*◌, ◌/◌, ◌%◌, ◌^◌, ltb, leb, ◌==◌, ◌&&◌, if◌then◌else◌}
use wirespec.Base.{
  List, [], ◌∷◌, ◌++◌, Option, none, some, length, take, drop, replicate, Bool, true, false,
}
use wirespec.Rt.{checked_add, usize_end}
use wirespec.Rt.Bytes.{from_be_bytes, to_be_bytes}

infixl 5 ◌>>=◌ ◌>>◌
abbrev pub ◌>>=◌ {ℓ κ} : {A : Type ℓ} {B : Type κ} → Option A → (A → Option B) → Option B
none >>= f = none
some a >>= f = f a

abbrev pub ◌>>◌ {ℓ} : {B : Type ℓ} → Option (Unit {0}) → Option B → Option B
m >> k = m >>= λ _. k

abbrev pub assert : Bool → Option (Unit {0})
assert true = some tt
assert false = none

-- `a + b` on `u32`.
add_u32 : ℕ → ℕ → Option ℕ
add_u32 a b = if ltb (a + b) (2 ^ 32) then some (a + b) else none

-- `data[offset..offset + bytes.len()]` overwritten, for a range that is in bounds.
unfoldable pub patch : List ℕ → ℕ → List ℕ → List ℕ
patch whole offset bytes = take offset whole ++ (bytes ++ drop (offset + length bytes) whole)

-- The 16-bit words from the front, a last odd byte as a high one.
sum_words : ℕ → List ℕ → Option ℕ
sum_words sum [] = some sum
sum_words sum (a ∷ []) = add_u32 sum (a * 2 ^ 8 % 2 ^ 32)
sum_words sum (a ∷ b ∷ r) = do sum' ← add_u32 sum (from_be_bytes (a ∷ b ∷ [])); sum_words sum' r

-- `while sum >> 16 != 0`, on fuel; `none` would be the fuel's end.
fold_carries : ℕ → ℕ → Option ℕ
fold_carries zero sum = none
fold_carries (suc fuel) sum =
    let again = fold_carries fuel (bit_and sum 0xffff + sum / 2 ^ 16) in
    if sum / 2 ^ 16 == 0 then some sum else again

-- Three tests of the loop are enough for a `u32`.
ones_complement_sum : List ℕ → Option ℕ
ones_complement_sum whole = do
  sum ← sum_words 0 whole
  folded ← fold_carries 3 sum
  some (2 ^ 16 - 1 - folded % 2 ^ 16)

pub internet_checksum : List ℕ → Option ℕ
internet_checksum whole = ones_complement_sum whole

-- The slice that it leaves.
pub internet_checksum_compute : List ℕ → ℕ → Option (List ℕ)
internet_checksum_compute whole offset = do
  end ← checked_add offset 2
  assert (leb end (length whole))
  let zeroed = patch whole offset (0 ∷ 0 ∷ [])
  val ← ones_complement_sum zeroed
  some (patch zeroed offset (to_be_bytes 2 val))

-- `for &byte in data`, and `for (i, &byte) in data.iter().enumerate()` with the bytes of
-- `skip_offset..skip_end` read as 0. The loop's variables are `S`.
module _ {S : Type 0} (body : S → ℕ → S) where
  unfoldable pub each_byte : S → List ℕ → S
  each_byte s [] = s
  each_byte s (byte ∷ r) = each_byte (body s byte) r

  unfoldable pub each_byte_with_skip : ℕ → ℕ → ℕ → S → List ℕ → S
  each_byte_with_skip skip_offset skip_end i s [] = s
  each_byte_with_skip skip_offset skip_end i s (byte ∷ r) =
      let b = if leb skip_offset i && ltb i skip_end then 0 else byte in
      each_byte_with_skip skip_offset skip_end (i + 1) (body s b) r

-- `usize::saturating_add`.
abbrev pub saturating_add : ℕ → ℕ → ℕ
saturating_add a b = min (a + b) (usize_end - 1)

unfoldable crc_bits : ℕ → ℕ → ℕ → ℕ
crc_bits zero poly crc = crc
crc_bits (suc n) poly crc =
    crc_bits n poly (if bit_and crc 1 == 0 then crc / 2 else bit_xor (crc / 2) poly)

unfoldable crc_byte : ℕ → ℕ → ℕ → ℕ
crc_byte poly crc byte = crc_bits 8 poly (bit_xor crc byte)

raw_crc32_with_skip : List ℕ → ℕ → ℕ → ℕ → ℕ
raw_crc32_with_skip whole poly skip_offset skip_len =
    2 ^ 32
    - 1
    - each_byte_with_skip (crc_byte poly) skip_offset (saturating_add skip_offset skip_len) 0
        0xffff_ffff whole

raw_crc32 : List ℕ → ℕ → ℕ
raw_crc32 whole poly = 2 ^ 32 - 1 - each_byte (crc_byte poly) 0xffff_ffff whole

-- `sum1` and `sum2`, of type `u16`.
abbrev pub Sums : Type 0
Sums = ℕ × ℕ

unfoldable pub fletcher_byte : Sums → ℕ → Sums
fletcher_byte (sum1, sum2) b =
    let sum1' = (sum1 + b) % 2 ^ 16 % 255 in (sum1', (sum2 + sum1') % 2 ^ 16 % 255)

-- `(sum2 << 8) | sum1`.
unfoldable pub joined : Sums → ℕ
joined (sum1, sum2) = bit_or (sum2 * 2 ^ 8 % 2 ^ 16) sum1

raw_fletcher16_with_skip : List ℕ → ℕ → ℕ → ℕ
raw_fletcher16_with_skip whole skip_offset skip_len = joined (
    each_byte_with_skip fletcher_byte skip_offset (saturating_add skip_offset skip_len) 0 (0, 0)
      whole)

pub raw_fletcher16 : List ℕ → ℕ
raw_fletcher16 whole = joined (each_byte fletcher_byte (0, 0) whole)

-- `assert!(data.get(offset..offset.checked_add(width).expect(…)).is_some())`.
assert_field : List ℕ → ℕ → ℕ → Option (Unit {0})
assert_field whole offset width = do end ← checked_add offset width; assert (leb end (length whole))

pub crc32_verify : List ℕ → ℕ → ℕ → Option ℕ
crc32_verify whole offset width = do
  assert_field whole offset width
  some (raw_crc32_with_skip whole 0xedb8_8320 offset width)

-- The slice that it leaves, and the checksum.
pub crc32_compute : List ℕ → ℕ → Option (List ℕ × ℕ)
crc32_compute whole offset = do
  assert_field whole offset 4
  let zeroed = patch whole offset (replicate 4 0)
  some (zeroed, raw_crc32 zeroed 0xedb8_8320)

pub crc32c_verify : List ℕ → ℕ → ℕ → Option ℕ
crc32c_verify whole offset width = do
  assert_field whole offset width
  some (raw_crc32_with_skip whole 0x82f6_3b78 offset width)

pub crc32c_compute : List ℕ → ℕ → Option (List ℕ × ℕ)
crc32c_compute whole offset = do
  assert_field whole offset 4
  let zeroed = patch whole offset (replicate 4 0)
  some (zeroed, raw_crc32 zeroed 0x82f6_3b78)

pub fletcher16_verify : List ℕ → ℕ → ℕ → Option ℕ
fletcher16_verify whole offset width = do
  assert_field whole offset width
  some (raw_fletcher16_with_skip whole offset width)

pub fletcher16_compute : List ℕ → ℕ → Option (List ℕ × ℕ)
fletcher16_compute whole offset = do
  assert_field whole offset 2
  let zeroed = patch whole offset (replicate 2 0)
  some (zeroed, raw_fletcher16 zeroed)
