-- ===== src/Rt/Writer/Splits.antt =====
-- A buffer as what stands before the writer's position and what stands behind it.
use wirespec.Base.{ℕ, zero, suc, ◌+◌, ◌≤◌, ◌<◌, refl}
use wirespec.Base.{List, [], ◌∷◌, ◌++◌, length, set, take, drop, ◌≡◌, arith, ap}
use wirespec.Base.{length-append, ◌∙◌}
use wirespec.Base.{take-append_length, drop-append_length}
use mathlib.Core.List.{append_assoc}
use wirespec.Rt.{ok}
use wirespec.Rt.Writer.{Writer, put_at}

set-append : (p r : List ℕ) (i k v : ℕ) → i ≡ length p + k → set (p ++ r) i v ≡ p ++ set r k v
set-append [] r i k v e = ap (λ (t : ℕ). set r t v) (omega arith)
set-append (x ∷ p) r zero k v e = absurd (omega arith)
set-append (x ∷ p) r (suc i) k v e = ap (◌∷◌ x) (set-append p r i k v (omega arith))

pub split_take :
    (p bytes r : List ℕ) (n : ℕ) → n ≡ length (p ++ bytes) → take n (p ++ (bytes ++ r)) ≡ p ++ bytes
split_take p bytes r n e = rw (← append_assoc p bytes r) (take-append_length (p ++ bytes) r n e)

pub split_drop :
    (p bytes r : List ℕ) (n : ℕ) → n ≡ length (p ++ bytes) → drop n (p ++ (bytes ++ r)) ≡ r
split_drop p bytes r n e = rw (← append_assoc p bytes r) (drop-append_length (p ++ bytes) r n e)

-- `self.buf[self.pos + k] = v` within the room.
pub put_at_lem :
    (p r : List ℕ) (k b : ℕ) (u : Writer)
    → u.buf ≡ p ++ r
    → u.pos ≡ length p
    → k < length r
    → put_at k b u ≡ ok tt (record u { buf = p ++ set r k b })
unfolding put_at
put_at_lem p r k b u e f h =
    let full : length u.buf ≡ length p + length r = ap length e ∙ length-append p r in
    ground (
      arith,
      full,
      ap (λ (t : List ℕ). set t (u.pos + k) b) e,
      set-append p r (u.pos + k) k b (omega arith),
    )

pub three_left :
    (r : List ℕ) → 3 ≤ length r → (x y z : ℕ) × (t : List ℕ) × (r ≡ x ∷ y ∷ z ∷ t) × (t ≡ drop 3 r)
three_left [] h = absurd (omega arith)
three_left (x ∷ []) h = absurd (omega arith)
three_left (x ∷ y ∷ []) h = absurd (omega arith)
three_left (x ∷ y ∷ z ∷ t) h = (x, y, z, t, refl, refl)
