-- ===== src/Sema/Validate/Names.antt =====
-- The checks that look names up: references to earlier fields, and checksum algorithms.
use wirespec.Base.{◌≡◌, refl, ◌↔◌, arith, Bool-cases, inl, inr}
use wirespec.Base.{List, [], ◌∷◌, none, All, In}
use wirespec.Base.Str.{has, has-In, Str}
use wirespec.Sema.Catalog.{ComplianceProfile, allowed_checksum_algorithms}
use wirespec.Sema.Validate.{validate_no_forward_refs, validate_checksum_profile}

-- A field passes exactly if every name that it refers to is declared before it.
pub validate_no_forward_refs_lem :
    (referenced declared : List Str) (field_name : Str)
    → (validate_no_forward_refs referenced declared field_name ≡ none)
      ↔ All (λ name. In name declared) referenced
unfolding validate_no_forward_refs
validate_no_forward_refs_lem [] declared field_name = (λ h. tt, λ h. refl)
validate_no_forward_refs_lem (name ∷ referenced) declared field_name =
    let (known, back) = has-In declared name in
    let (there, again) = validate_no_forward_refs_lem referenced declared field_name in
    elim (Bool-cases (has declared name)) [
      | inl found ↦ (
        λ h. (known found, there (ground (arith, h, found))),
        λ h. ground (arith, found, again h.1),
      )
      | inr missing ↦ (
        λ h. absurd (ground (arith, h, missing)),
        λ h. absurd (ground (arith, missing, back h.0)),
      )
    ]

pub validate_checksum_profile-In :
    (algorithm : Str) (profile : ComplianceProfile)
    → (validate_checksum_profile algorithm profile ≡ none)
      ↔ In algorithm (allowed_checksum_algorithms profile)
unfolding validate_checksum_profile
validate_checksum_profile-In algorithm profile =
    let (known, back) = has-In (allowed_checksum_algorithms profile) algorithm in
    (λ h. known (ground (arith, h)), λ h. ground (arith, back h))
