-- ===== src/Sema/Validate/Remaining.antt =====
-- A field that takes what remains of a scope is the scope's last on the wire.
use wirespec.Base.{ℕ, ◌+◌, ◌≡◌, refl, ◌↔◌, arith, true, false, ◌||◌, Bool-cases}
use wirespec.Base.{List, [], ◌∷◌, none, All, length, inl, inr}
use wirespec.Sema.Catalog.{keep}
use wirespec.Sema.Validate.{FieldDescriptor, remaining_loop, validate_remaining_is_last}

-- The field is on the wire and takes what remains.
abbrev pub IsGreedy : FieldDescriptor → Type 0
IsGreedy f = (f.is_wire ≡ true) × (f.is_remaining || f.is_fill ≡ true)

abbrev pub IsOffWire : FieldDescriptor → Type 0
IsOffWire f = f.is_wire ≡ false

-- Behind a greedy field there is no other on the wire.
abbrev pub IsLast : List FieldDescriptor → Type 0
IsLast [] = Unit
IsLast (f ∷ fields) = (IsGreedy f → All IsOffWire fields) × IsLast fields

wire : List FieldDescriptor → List FieldDescriptor
wire = keep (λ f. f.is_wire)

length-wire : (fields : List FieldDescriptor) → (length (wire fields) ≡ 0) ↔ All IsOffWire fields
unfolding wire keep
length-wire [] = (λ h. tt, λ h. refl)
length-wire (f ∷ fields) = elim (Bool-cases (f.is_wire)) [
  | inl on ↦ (λ h. absurd (ground (arith, on, h)), λ h. absurd (ground (arith, on, h)))
  | inr off ↦
      let (there, back) = length-wire fields in
      (λ h. (off, there (ground (arith, off, h))), λ h. ground (arith, off, back h.1))
]

remaining_loop_lem :
    (fields : List FieldDescriptor) (i n : ℕ)
    → n ≡ i + length (wire fields)
    → (remaining_loop i n (wire fields) ≡ none) ↔ IsLast fields
unfolding remaining_loop wire keep
remaining_loop_lem [] i n e = (λ h. tt, λ h. refl)
remaining_loop_lem (f ∷ fields) i n e = elim (Bool-cases (f.is_wire)) [
  | inr off ↦
      let (there, back) = remaining_loop_lem fields i n (ground (arith, e, off)) in
      (
        λ h. (λ g. absurd (ground (arith, g.0, off)), there (ground (arith, h, off))),
        λ h. ground (arith, off, back h.1),
      )
  | inl on ↦
      let count : n ≡ i + 1 + length (wire fields) = ground (arith, e, on) in
      let (there, back) = remaining_loop_lem fields (i + 1) n count in
      let (empty, all_off) = length-wire fields in
      (
        λ h. (λ g. empty (ground (arith, h, on, g.1, count)), there (ground (arith, h, on))),
        λ h. elim (Bool-cases (f.is_remaining || f.is_fill)) [
          | inl greedy ↦ ground (arith, on, greedy, count, all_off (h.0 (on, greedy)), back h.1)
          | inr modest ↦ ground (arith, on, modest, back h.1)
        ],
      )
]

-- The check succeeds exactly if no field on the wire stands behind a field on the wire that takes
-- what remains of the scope, whether as bytes or by filling an array.
pub validate_remaining_is_last-IsLast :
    (fields : List FieldDescriptor) → (validate_remaining_is_last fields ≡ none) ↔ IsLast fields
unfolding validate_remaining_is_last wire
validate_remaining_is_last-IsLast fields =
    remaining_loop_lem fields 0 (length (wire fields)) (omega arith)
