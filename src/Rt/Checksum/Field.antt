-- ===== src/Rt/Checksum/Field.antt =====
-- The checksum field of a slice: overwriting it, and the loops that read it as zeros.
use mathlib.Core.List.{append_assoc}
use wirespec.Base.{ℕ, ◌+◌, ◌≤◌, ◌≡◌, refl, sym, ap, arith, ◌∙◌}
use wirespec.Base.{List, [], ◌∷◌, ◌++◌, length, take, drop, replicate, All, All-append, All-take}
use wirespec.Base.{All-drop, length-take, length-append, length-drop, take-append_length}
use wirespec.Base.{length-replicate, drop-append_length}
use wirespec.Rt.Checksum.{patch, each_byte, each_byte_with_skip}

module _ (bytes : List ℕ) (offset : ℕ) (field : List ℕ)
    (fits : offset + length field ≤ length bytes) where
  front : offset ≡ length (take offset bytes)
  front = omega (arith, length-take offset bytes)

  take-patch : take offset (patch bytes offset field) ≡ take offset bytes
  unfolding patch
  take-patch = take-append_length (take offset bytes) _ offset front

  drop-patch :
      drop (offset + length field) (patch bytes offset field) ≡ drop (offset + length field) bytes
  unfolding patch
  drop-patch = rw (← append_assoc (take offset bytes) field (drop (offset + length field) bytes)) (
      drop-append_length (take offset bytes ++ field) _ (offset + length field)
        (omega (arith, length-append (take offset bytes) field, front)))

  pub length-patch : length (patch bytes offset field) ≡ length bytes
  unfolding patch
  length-patch = omega (
    arith,
    length-append (take offset bytes) (field ++ drop (offset + length field) bytes),
    length-append field (drop (offset + length field) bytes),
    length-drop (offset + length field) bytes,
    front,
  )

-- A second write to the same field undoes the first.
pub patch-patch :
    (bytes : List ℕ) (offset : ℕ) (old new : List ℕ)
    → offset + length old ≤ length bytes
    → length new ≡ length old
    → patch (patch bytes offset old) offset new ≡ patch bytes offset new
unfolding patch
patch-patch bytes offset old new fits e =
    rw (e, take-patch bytes offset old fits, drop-patch bytes offset old fits) refl

pub All-patch {ℓ} :
    (P : ℕ → Type ℓ) (bytes : List ℕ) (offset : ℕ) (field : List ℕ)
    → All P bytes
    → All P field
    → All P (patch bytes offset field)
unfolding patch
All-patch P bytes offset field o f =
    All-append P (take offset bytes) _ (All-take P offset bytes o)
      (All-append P field _ f (All-drop P (offset + length field) bytes o))

-- The loop with a skipped range, over what stands before it, in it and behind it.
module _ {S : Type 0} (body : S → ℕ → S) (lo hi : ℕ) where
  skip_before :
      (i : ℕ) (s : S) (p t : List ℕ)
      → i + length p ≤ lo
      → each_byte_with_skip body lo hi i s (p ++ t)
        ≡ each_byte_with_skip body lo hi (i + length p) (each_byte body s p) t
  unfolding each_byte each_byte_with_skip
  skip_before i s [] t h = ground arith
  skip_before i s (b ∷ p) t h = ground (arith, skip_before (i + 1) (body s b) p t (omega arith))

  skip_inside :
      (i : ℕ) (s : S) (m t : List ℕ)
      → lo ≤ i
      → i + length m ≤ hi
      → each_byte_with_skip body lo hi i s (m ++ t)
        ≡ each_byte_with_skip body lo hi
            (i + length m)
            (each_byte body s (replicate (length m) 0))
            t
  unfolding each_byte each_byte_with_skip
  skip_inside i s [] t h k = ground arith
  skip_inside i s (b ∷ m) t h k =
      ground (arith, skip_inside (i + 1) (body s 0) m t (omega arith) (omega arith))

  skip_behind :
      (i : ℕ) (s : S) (r : List ℕ)
      → hi ≤ i
      → each_byte_with_skip body lo hi i s r ≡ each_byte body s r
  unfolding each_byte each_byte_with_skip
  skip_behind i s [] h = refl
  skip_behind i s (b ∷ r) h = ground (arith, skip_behind (i + 1) (body s b) r (omega arith))

module _ {S : Type 0} (body : S → ℕ → S) where
  each_byte-append :
      (s : S) (p t : List ℕ) → each_byte body s (p ++ t) ≡ each_byte body (each_byte body s p) t
  unfolding each_byte
  each_byte-append s [] t = refl
  each_byte-append s (b ∷ p) t = each_byte-append (body s b) p t

-- Skipping a field reads the slice as it was with the field zeroed, whatever the field holds.
pub each_byte_with_skip-patch :
    {S : Type 0} (body : S → ℕ → S) (s : S) (bytes : List ℕ) (offset hi : ℕ) (field : List ℕ)
    → offset + length field ≤ length bytes
    → hi ≡ offset + length field
    → each_byte_with_skip body offset hi 0 s (patch bytes offset field)
      ≡ each_byte body s (patch bytes offset (replicate (length field) 0))
unfolding patch
each_byte_with_skip-patch body s bytes offset hi field fits e =
    let p = take offset bytes in
    let r = drop (offset + length field) bytes in
    let zeros : List ℕ = replicate (length field) 0 in
    let at : offset ≡ length p = front bytes offset field fits in
    skip_before body offset hi 0 s p (field ++ r) (omega arith)
    ∙ skip_inside body offset hi (0 + length p) (each_byte body s p) field r (omega arith)
        (omega arith)
    ∙ skip_behind body offset hi _ (each_byte body (each_byte body s p) zeros) r (omega arith)
    ∙ sym (each_byte-append body (each_byte body s p) zeros r)
    ∙ sym (each_byte-append body s p (zeros ++ r))
    ∙ ap (λ (t : List ℕ). each_byte body s (p ++ (zeros ++ t)))
        (ap (λ (n : ℕ). drop (offset + n) bytes) (sym (length-replicate (length field) 0)))
