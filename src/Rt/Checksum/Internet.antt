-- ===== src/Rt/Checksum/Internet.antt =====
-- The Internet checksum against the sum of the 16-bit words in one's complement arithmetic.
use wirespec.Base.{ℕ, zero, suc, ◌+◌, ◌-◌, ◌*◌, ◌/◌, ◌%◌, ◌^◌, ◌≤◌, ◌<◌, ltb, ◌==◌, if◌then◌else◌}
use wirespec.Base.{List, [], ◌∷◌, ◌++◌, none, some, length, All, ◌≡◌, arith, refl}
use wirespec.Base.Bits.{bit_and-ones}
use wirespec.Rt.Bytes.{from_be_bytes, IsByte}
use wirespec.Base.{take, drop, length-take, ◌∙◌}
use wirespec.Rt.Bytes.{to_be_bytes, length-to_be_bytes, to_be_bytes-IsByte}
use wirespec.Rt.Checksum.{patch, internet_checksum_compute}
use wirespec.Rt.Checksum.Field.{patch-patch, length-patch, All-patch}
use wirespec.Rt.Checksum.{add_u32, sum_words, fold_carries, ones_complement_sum, internet_checksum}

-- The sum of the words, with no bound.
unfoldable pub word_sum : List ℕ → ℕ
word_sum [] = 0
word_sum (a ∷ []) = a * 256
word_sum (a ∷ b ∷ r) = a * 256 + b + word_sum r

-- The value of a sum in 16-bit one's complement: 65535 stands for every positive multiple of it.
unfoldable pub ones_complement : ℕ → ℕ
ones_complement x = if x == 0 then 0 else (x - 1) % 65535 + 1

word_be : (a b : ℕ) → from_be_bytes (a ∷ b ∷ []) ≡ a * 256 + b
unfolding from_be_bytes
word_be a b = omega arith

sum_words_lem :
    (sum : ℕ) (bytes : List ℕ)
    → All IsByte bytes
    → sum < 2 ^ 32
    → sum_words sum bytes
      ≡ (if ltb (sum + word_sum bytes) (2 ^ 32) then some (sum + word_sum bytes) else none)
unfolding sum_words word_sum add_u32
sum_words_lem sum [] o h = ground arith
sum_words_lem sum (a ∷ []) o h = ground arith
sum_words_lem sum (a ∷ b ∷ r) o h =
    ground (arith, word_be a b, sum_words_lem (sum + (a * 256 + b)) r o.1.1)

-- One round of the loop keeps the value, and a sum of 16 bits is its own value.
fold_round : (x : ℕ) → ones_complement (x % 65536 + x / 65536) ≡ ones_complement x
unfolding ones_complement
fold_round x = ground arith

ones_complement_small : (x : ℕ) → x < 65536 → ones_complement x ≡ x
unfolding ones_complement
ones_complement_small x h = ground arith

fold_carries-suc :
    (fuel x : ℕ)
    → fold_carries (suc fuel) x
      ≡ (if x / 65536 == 0 then some x else fold_carries fuel (x % 65536 + x / 65536))
unfolding fold_carries
fold_carries-suc fuel x = rw (bit_and-ones 16 x) refl

fold_carries_lem : (x : ℕ) → x < 2 ^ 32 → fold_carries 3 x ≡ some (ones_complement x)
fold_carries_lem x h =
    let y : ℕ = x % 65536 + x / 65536 in
    let z : ℕ = y % 65536 + y / 65536 in
    ground (
      arith,
      fold_carries-suc 2 x,
      fold_carries-suc 1 y,
      fold_carries-suc 0 z,
      fold_round x,
      fold_round y,
      ones_complement_small x,
      ones_complement_small y,
      ones_complement_small z,
    )

ones_complement-lt : (x : ℕ) → ones_complement x < 65536
unfolding ones_complement
ones_complement-lt x = ground arith

ones_complement_sum_lem :
    (bytes : List ℕ)
    → All IsByte bytes
    → ones_complement_sum bytes ≡ (
        if ltb (word_sum bytes) (2 ^ 32)
        then some (65535 - ones_complement (word_sum bytes))
        else none)
unfolding ones_complement_sum
ones_complement_sum_lem bytes o = ground (
  arith,
  sum_words_lem 0 bytes o,
  fold_carries_lem (word_sum bytes),
  ones_complement-lt (word_sum bytes),
)

-- The checksum of every slice of bytes: 65535 less the one's complement sum of its words, unless
-- that sum, before it is folded, passes 32 bits; then the addition overflows, and it panics.
pub internet_checksum_lem :
    (bytes : List ℕ)
    → All IsByte bytes
    → internet_checksum bytes ≡ (
        if ltb (word_sum bytes) (2 ^ 32)
        then some (65535 - ones_complement (word_sum bytes))
        else none)
unfolding internet_checksum
internet_checksum_lem bytes o = ones_complement_sum_lem bytes o

word_sum-append :
    (p t : List ℕ) (k : ℕ) → length p ≡ 2 * k → word_sum (p ++ t) ≡ word_sum p + word_sum t
unfolding word_sum
word_sum-append [] t k e = omega arith
word_sum-append (a ∷ []) t k e = absurd (omega arith)
word_sum-append (a ∷ b ∷ p) t k e = omega (arith, word_sum-append p t (k - 1) (omega arith))

pub word_sum-le :
    (bytes : List ℕ) → All IsByte bytes → 2 * word_sum bytes ≤ 65535 * (length bytes + 1)
unfolding word_sum
word_sum-le [] o = omega arith
word_sum-le (a ∷ []) o = omega arith
word_sum-le (a ∷ b ∷ r) o = omega (arith, word_sum-le r o.1.1, o.0, o.1.0)

-- Adding the complement of a sum makes it a multiple of 65535 that is not 0.
complement_added : (x : ℕ) → ones_complement (x + (65535 - ones_complement x)) ≡ 65535
unfolding ones_complement
complement_added x = ground arith

field_sum :
    (bytes : List ℕ) (k h l : ℕ)
    → 2 * k + 2 ≤ length bytes
    → word_sum (patch bytes (2 * k) (h ∷ l ∷ []))
      ≡ word_sum (take (2 * k) bytes) + (h * 256 + l + word_sum (drop (2 * k + 2) bytes))
unfolding patch
field_sum bytes k h l fits =
    word_sum-append (take (2 * k) bytes) (h ∷ l ∷ drop (2 * k + 2) bytes) k
      (omega (arith, length-take (2 * k) bytes))
    ∙ unfold word_sum in refl

field_added :
    (bytes : List ℕ) (k val : ℕ)
    → 2 * k + 2 ≤ length bytes
    → val < 65536
    → word_sum (patch bytes (2 * k) (to_be_bytes 2 val))
      ≡ word_sum (patch bytes (2 * k) (0 ∷ 0 ∷ [])) + val
unfolding to_be_bytes
field_added bytes k val fits small = omega (
  arith,
  field_sum bytes k 0 0 fits,
  field_sum bytes k (val / 256 ^ 1 % 256) (val / 256 ^ 0 % 256) fits,
)

-- What `internet_checksum_compute` writes makes `internet_checksum` zero, if the field starts at
-- an even offset and the slice is at most 131072 bytes long. Nothing but the field is changed.
pub internet_round_trip :
    (bytes : List ℕ) (k : ℕ)
    → All IsByte bytes
    → 2 * k + 2 ≤ length bytes
    → length bytes ≤ 131072
    → (field : List ℕ) × (length field ≡ 2)
      × (internet_checksum_compute bytes (2 * k) ≡ some (patch bytes (2 * k) field))
      × (internet_checksum (patch bytes (2 * k) field) ≡ some 0)
unfolding internet_checksum_compute internet_checksum
internet_round_trip bytes k o fits short =
    let zeroed = patch bytes (2 * k) (0 ∷ 0 ∷ []) in
    let zeroed_octets = All-patch IsByte bytes (2 * k) (0 ∷ 0 ∷ []) o (omega arith) in
    let size = length-patch bytes (2 * k) (0 ∷ 0 ∷ []) (omega (arith, fits)) in
    let val : ℕ = 65535 - ones_complement (word_sum zeroed) in
    let field : List ℕ = to_be_bytes 2 val in
    let out = patch bytes (2 * k) field in
    let again : patch zeroed (2 * k) field ≡ out =
      patch-patch bytes (2 * k) (0 ∷ 0 ∷ []) field (omega (arith, fits))
        (length-to_be_bytes 2 val) in
    let out_octets = All-patch IsByte bytes (2 * k) field o (to_be_bytes-IsByte 2 val) in
    let out_size =
      length-patch bytes (2 * k) field (omega (arith, fits, length-to_be_bytes 2 val)) in
    let sums : word_sum out ≡ word_sum zeroed + val = field_added bytes k val fits (omega arith) in
    (
      field,
      length-to_be_bytes 2 val,
      ground (
        arith,
        again,
        ones_complement_sum_lem zeroed zeroed_octets,
        word_sum-le zeroed zeroed_octets,
        size,
      ),
      ground (
        arith,
        ones_complement_sum_lem out out_octets,
        word_sum-le out out_octets,
        out_size,
        sums,
        complement_added (word_sum zeroed),
      ),
    )

-- `n` words of 16 ones.
unfoldable pub all_ones : ℕ → List ℕ
all_ones zero = []
all_ones (suc n) = 255 ∷ 255 ∷ all_ones n

word_sum-all_ones : (n : ℕ) → word_sum (all_ones n) ≡ 65535 * n
unfolding word_sum all_ones
word_sum-all_ones zero = refl
word_sum-all_ones (suc n) = omega (arith, word_sum-all_ones n)

all_ones-IsByte : (n : ℕ) → All IsByte (all_ones n)
unfolding all_ones
all_ones-IsByte zero = tt
all_ones-IsByte (suc n) = (omega arith, (omega arith, all_ones-IsByte n))

ones_complement_ones : (n : ℕ) → ones_complement (65535 * suc n) ≡ 65535
unfolding ones_complement
ones_complement_ones n = ground arith

-- A slice of `n + 1` words of ones has the checksum 0 as long as there are at most 65537 of them.
-- From 65538 words on `internet_checksum` overflows, and so panics under overflow checks.
pub internet_checksum_ones :
    (n : ℕ) → internet_checksum (all_ones (suc n)) ≡ (if ltb n 65537 then some 0 else none)
internet_checksum_ones n = ground (
  arith,
  internet_checksum_lem (all_ones (suc n)) (all_ones-IsByte (suc n)),
  word_sum-all_ones (suc n),
  ones_complement_ones n,
)
