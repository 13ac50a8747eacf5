-- ===== src/Sema/Validate.antt =====
-- crates/wirespec-sema/src/validate.rs: the checks of one scope. `none` is success; an error is a
-- constructor with what its message shows. A span or a hint is passed on only, and left out.
pub mod Remaining
pub mod Names
pub mod Tests
use wirespec.Base.{ℕ, ◌+◌, ◌-◌, ltb, if◌then◌else◌, Bool, true, false, ◌&&◌, ◌||◌, not}
use wirespec.Base.{List, [], ◌∷◌, Option, none, some, length}
use wirespec.Base.Str.{has, Str, str_eq}
use wirespec.Sema.Catalog.{
  keep, ComplianceProfile, allowed_checksum_algorithms, checksum_required_type,
}

pub data SemaError : Type 0 where
  remaining_not_last : (name : Str) → SemaError
  duplicate_checksum : (scope_desc : Str) → (checksum_fields : List Str) → SemaError
  forward_reference : (field_name : Str) → (name : Str) → SemaError
  invalid_checksum_type : (algorithm req field_name field_type_name : Str) → SemaError
  checksum_profile_violation : (algorithm : Str) → ComplianceProfile → SemaError

pub record FieldDescriptor : Type 0 where
  pub name : Str
  pub is_remaining : Bool
  pub is_fill : Bool
  pub is_wire : Bool

-- The loop over the wire fields, `count` in all, from index `i` on.
remaining_loop : ℕ → ℕ → List FieldDescriptor → Option SemaError
remaining_loop i count [] = none
remaining_loop i count (field ∷ fields) =
    let rest = remaining_loop (i + 1) count fields in
    if (field.is_remaining || field.is_fill) && ltb i (count - 1)
    then some (remaining_not_last field.name)
    else rest

pub validate_remaining_is_last : List FieldDescriptor → Option SemaError
validate_remaining_is_last fields =
    let wire_fields = keep (λ f. f.is_wire) fields in
    remaining_loop 0 (length wire_fields) wire_fields

unfoldable pub validate_single_checksum : List Str → Str → Option SemaError
validate_single_checksum checksum_fields scope_desc =
    if ltb 1 (length checksum_fields)
    then some (duplicate_checksum scope_desc checksum_fields)
    else none

pub validate_no_forward_refs : List Str → List Str → Str → Option SemaError
validate_no_forward_refs [] declared field_name = none
validate_no_forward_refs (name ∷ referenced) declared field_name =
    let rest = validate_no_forward_refs referenced declared field_name in
    if not (has declared name) then some (forward_reference field_name name) else rest

unfoldable pub validate_checksum_field_type : Str → Str → Str → Option SemaError
validate_checksum_field_type algorithm field_type_name field_name =
    elim (checksum_required_type algorithm) [
      | none ↦ none
      | some req ↦
          if not (str_eq field_type_name req)
          then some (invalid_checksum_type algorithm req field_name field_type_name)
          else none
    ]

pub validate_checksum_profile : Str → ComplianceProfile → Option SemaError
validate_checksum_profile algorithm profile =
    if not (has (allowed_checksum_algorithms profile) algorithm)
    then some (checksum_profile_violation algorithm profile)
    else none
