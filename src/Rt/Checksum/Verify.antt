-- ===== src/Rt/Checksum/Verify.antt =====
-- CRC-32, CRC-32C and Fletcher-16: what is computed against what is verified.
use wirespec.Base.{ℕ, ◌+◌, ◌-◌, ◌≤◌, ◌<◌, ◌^◌, ◌≡◌, ap, arith}
use wirespec.Base.{List, length, replicate, Option, some}
use wirespec.Rt.{usize_end}
use wirespec.Rt.Checksum.{patch, each_byte, each_byte_with_skip, saturating_add, raw_crc32, joined}
use wirespec.Rt.Checksum.{raw_crc32_with_skip, raw_fletcher16, raw_fletcher16_with_skip, crc_byte}
use wirespec.Rt.Checksum.{fletcher_byte, assert_field, crc32_verify, crc32_compute, crc32c_verify}
use wirespec.Rt.Checksum.{crc32c_compute, fletcher16_verify, fletcher16_compute}
use wirespec.Rt.Checksum.Field.{patch-patch, length-patch, each_byte_with_skip-patch}

assert_field_lem :
    (bytes : List ℕ) (offset width : ℕ)
    → length bytes < usize_end
    → offset + width ≤ length bytes
    → assert_field bytes offset width ≡ some tt
unfolding assert_field
assert_field_lem bytes offset width small h = ground arith

module _ (bytes : List ℕ) (offset : ℕ) (field : List ℕ) (small : length bytes < usize_end)
    (fits : offset + length field ≤ length bytes) where
  skipped :
      {S : Type 0} (body : S → ℕ → S) (s : S)
      → each_byte_with_skip body offset
          (saturating_add offset (length field))
          0
          s
          (patch bytes offset field)
        ≡ each_byte body s (patch bytes offset (replicate (length field) 0))
  skipped body s =
      each_byte_with_skip-patch body s bytes offset (saturating_add offset (length field)) field
        fits (omega arith)

  raw_crc32_lem :
      (poly : ℕ)
      → raw_crc32_with_skip (patch bytes offset field) poly offset (length field)
        ≡ raw_crc32 (patch bytes offset (replicate (length field) 0)) poly
  unfolding raw_crc32 raw_crc32_with_skip
  raw_crc32_lem poly = ap (λ (t : ℕ). 2 ^ 32 - 1 - t) (skipped (crc_byte poly) 0xffff_ffff)

  raw_fletcher16_lem :
      raw_fletcher16_with_skip (patch bytes offset field) offset (length field)
      ≡ raw_fletcher16 (patch bytes offset (replicate (length field) 0))
  unfolding raw_fletcher16 raw_fletcher16_with_skip
  raw_fletcher16_lem = ap joined (skipped fletcher_byte (0, 0))

-- `compute` succeeds and leaves a slice of the same length; with `field` written at the offset,
-- `verify` finds the checksum that `compute` returned.
abbrev pub Verifies :
    (List ℕ → ℕ → Option (List ℕ × ℕ)) → (List ℕ → ℕ → ℕ → Option ℕ) → List ℕ → ℕ → List ℕ → Type 0
Verifies compute verify bytes offset field =
    (out : List ℕ) × (sum : ℕ) × (compute bytes offset ≡ some (out, sum))
    × (length out ≡ length bytes)
    × (verify (patch out offset field) offset (length field) ≡ some sum)

module _ (bytes : List ℕ) (offset : ℕ) (small : length bytes < usize_end) where
  -- CRC-32 and CRC-32C: if the field of 4 bytes is in bounds, the computation succeeds, and whatever
  -- is then written into the field, the verification finds the checksum that was computed.
  -- The slice has fewer than 2 ^ 64 bytes.
  pub crc32-Verifies :
      (field : List ℕ)
      → length field ≡ 4
      → offset + 4 ≤ length bytes
      → Verifies crc32_compute crc32_verify bytes offset field
        × Verifies crc32c_compute crc32c_verify bytes offset field
  unfolding crc32_compute crc32_verify crc32c_compute crc32c_verify
  crc32-Verifies field e fits =
      let zeros : List ℕ = replicate 4 0 in
      let zeroed = patch bytes offset zeros in
      let again : patch zeroed offset field ≡ patch bytes offset field =
        patch-patch bytes offset zeros field (omega (arith, fits)) e in
      let whole = length-patch bytes offset field (omega (arith, e, fits)) in
      let computes = assert_field_lem bytes offset 4 small fits in
      let verifies =
        assert_field_lem (patch bytes offset field) offset 4 (omega (arith, whole, small))
          (omega (arith, whole, fits)) in
      let raw = raw_crc32_lem bytes offset field small (omega (arith, e, fits)) in
      (
        (
          zeroed,
          raw_crc32 zeroed 0xedb8_8320,
          ground (arith, computes),
          length-patch bytes offset zeros (omega (arith, fits)),
          ground (arith, again, verifies, e, raw 0xedb8_8320),
        ),
        (
          zeroed,
          raw_crc32 zeroed 0x82f6_3b78,
          ground (arith, computes),
          length-patch bytes offset zeros (omega (arith, fits)),
          ground (arith, again, verifies, e, raw 0x82f6_3b78),
        ),
      )

  -- Fletcher-16: if the field of 2 bytes is in bounds, the computation succeeds, and whatever is then
  -- written into the field, the verification finds the checksum that was computed.
  -- The slice has fewer than 2 ^ 64 bytes.
  pub fletcher16-Verifies :
      (field : List ℕ)
      → length field ≡ 2
      → offset + 2 ≤ length bytes
      → Verifies fletcher16_compute fletcher16_verify bytes offset field
  unfolding fletcher16_compute fletcher16_verify
  fletcher16-Verifies field e fits =
      let zeros : List ℕ = replicate 2 0 in
      let zeroed = patch bytes offset zeros in
      let again : patch zeroed offset field ≡ patch bytes offset field =
        patch-patch bytes offset zeros field (omega (arith, fits)) e in
      let whole = length-patch bytes offset field (omega (arith, e, fits)) in
      let computes = assert_field_lem bytes offset 2 small fits in
      let verifies =
        assert_field_lem (patch bytes offset field) offset 2 (omega (arith, whole, small))
          (omega (arith, whole, fits)) in
      let raw = raw_fletcher16_lem bytes offset field small (omega (arith, e, fits)) in
      (
        zeroed,
        raw_fletcher16 zeroed,
        ground (arith, computes),
        length-patch bytes offset zeros (omega (arith, fits)),
        ground (arith, again, verifies, e, raw),
      )
