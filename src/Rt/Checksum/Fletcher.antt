-- ===== src/Rt/Checksum/Fletcher.antt =====
-- Fletcher-16 against its closed form.
use wirespec.Base.{ap₂, ℕ, suc, ◌+◌, ◌*◌, ◌/◌, ◌%◌, ◌^◌, ◌<◌, ◌≡◌, ap, arith, ◌∙◌}
use wirespec.Base.{List, [], ◌∷◌, length, All}
use wirespec.Base.Bits.{bit_or-disjoint}
use wirespec.Rt.Bytes.{IsByte}
use wirespec.Rt.Checksum.{each_byte, fletcher_byte, joined, raw_fletcher16}

-- The sum of the bytes, and their sum weighted by how many bytes stand from each to the end.
unfoldable pub total : List ℕ → ℕ
total [] = 0
total (b ∷ r) = b + total r

unfoldable pub weighted : List ℕ → ℕ
weighted [] = 0
weighted (b ∷ r) = (length r + 1) * b + weighted r

-- One byte moves the weighted sum by all that are left.
weighted_step :
    (n sum1 sum2 b q t w : ℕ)
    → sum1 + b ≡ 255 * q + t
    → ((sum2 + t) % 255 + n * t + w) % 255 ≡ (sum2 + suc n * sum1 + ((n + 1) * b + w)) % 255
weighted_step n sum1 sum2 b q t w e = omega (arith, e, ap (λ (x : ℕ). n * x) e)

sums_lem :
    (bytes : List ℕ) (sum1 sum2 : ℕ)
    → All IsByte bytes
    → sum1 < 255
    → sum2 < 255
    → each_byte fletcher_byte (sum1, sum2) bytes
      ≡ ((sum1 + total bytes) % 255, (sum2 + length bytes * sum1 + weighted bytes) % 255)
unfolding each_byte fletcher_byte total weighted
sums_lem [] sum1 sum2 o h k = ground arith
sums_lem (b ∷ r) sum1 sum2 o h k =
    let t : ℕ = (sum1 + b) % 255 in
    let first : (sum1 + b) % 2 ^ 16 % 255 ≡ t = omega (arith, h, o.0) in
    let second : (sum2 + t) % 2 ^ 16 % 255 ≡ (sum2 + t) % 255 = omega (arith, k) in
    let recursive = sums_lem r t ((sum2 + t) % 255) o.1 (omega arith) (omega arith) in
    ap (λ (x : ℕ). each_byte fletcher_byte (x, (sum2 + x) % 2 ^ 16 % 255) r) first
    ∙ ap (λ (x : ℕ). each_byte fletcher_byte (t, x) r) second
    ∙ recursive
    ∙ ap₂ (λ (x y : ℕ). (x, y)) (omega arith)
        (weighted_step (length r) sum1 sum2 b ((sum1 + b) / 255) t (weighted r) (omega arith))

joined_lem : (t w n : ℕ) → joined ((0 + t) % 255, (0 + n * 0 + w) % 255) ≡ w % 255 * 256 + t % 255
unfolding joined
joined_lem t w n =
    ground
      (arith, bit_or-disjoint 8 ((0 + n * 0 + w) % 255 * 2 ^ 8 % 2 ^ 16) (w % 255) ((0 + t) % 255))

-- The low byte is the sum of the bytes and the high byte their weighted sum, both modulo 255.
pub raw_fletcher16_closed :
    (bytes : List ℕ)
    → All IsByte bytes
    → raw_fletcher16 bytes ≡ weighted bytes % 255 * 256 + total bytes % 255
unfolding raw_fletcher16 joined
raw_fletcher16_closed bytes o =
    ap joined (sums_lem bytes 0 0 o (omega arith) (omega arith))
    ∙ joined_lem (total bytes) (weighted bytes) (length bytes)
