-- ===== src/Sema/Validate/Tests.antt =====
-- Runs of the checks' theorems on concrete scopes.
use wirespec.Base.{◌≡◌, ◌↔◌, refl, List, [], ◌∷◌, none, true, false, All, In}
use wirespec.Base.Str.{has, str, str_eq}
use wirespec.Sema.Catalog.{
  ComplianceProfile, allowed_checksum_algorithms, algorithms_for_profile, as_str,
}
use wirespec.Sema.Catalog.{profile_includes, keep, catalog, checksum_required_type, lookup, find}
use wirespec.Sema.Validate.{FieldDescriptor, validate_remaining_is_last, validate_no_forward_refs}
use wirespec.Sema.Validate.{validate_checksum_profile, validate_checksum_field_type}
use wirespec.Sema.Validate.Remaining.{IsLast, validate_remaining_is_last-IsLast}
use wirespec.Sema.Validate.Names.{validate_no_forward_refs_lem}

-- Bytes that take what remains, before a field that is not on the wire.
abbrev payload_then_derived : List FieldDescriptor
payload_then_derived =
    record { name = str "payload"; is_remaining = true; is_fill = false; is_wire = true }
    ∷ record { name = str "size"; is_remaining = false; is_fill = false; is_wire = false }
    ∷ []

validate_remaining_is_last-IsLast_example :
    (validate_remaining_is_last payload_then_derived ≡ none) ↔ IsLast payload_then_derived
validate_remaining_is_last-IsLast_example = validate_remaining_is_last-IsLast payload_then_derived

validate_no_forward_refs_lem_example :
    (validate_no_forward_refs (str "len" ∷ []) (str "tag" ∷ str "len" ∷ []) (str "body") ≡ none)
    ↔ All (λ name. In name (str "tag" ∷ str "len" ∷ [])) (str "len" ∷ [])
validate_no_forward_refs_lem_example =
    validate_no_forward_refs_lem (str "len" ∷ []) (str "tag" ∷ str "len" ∷ []) (str "body")

pub crc32_allowed :
    validate_checksum_profile (str "crc32") ComplianceProfile.phase2_strict_v1_0 ≡ none
unfolding validate_checksum_profile has allowed_checksum_algorithms as_str algorithms_for_profile
    profile_includes keep catalog str_eq
crc32_allowed = refl

pub crc32_typed : validate_checksum_field_type (str "crc32") (str "u32") (str "sum") ≡ none
unfolding validate_checksum_field_type checksum_required_type lookup find catalog str_eq
crc32_typed = refl
