-- ===== src/Codec/Checksum/Tests.antt =====
-- Runs of the theorems on checksum plans.
use wirespec.Base.{◌≡◌, false, refl, inl, inr, In, List, [], ◌∷◌, Option, none, some}
use wirespec.Base.Str.{Str, str}
use wirespec.Sema.Types.{Endianness}
use wirespec.Sema.Catalog.{
  ComplianceProfile, allowed_checksum_algorithms, algorithms_for_profile, as_str,
}
use wirespec.Sema.Catalog.{profile_includes, keep, catalog}
use wirespec.Base.Str.{str_eq}
use wirespec.Sema.Registry.{new}
use wirespec.Codec.Ir.{CodecField, WireType, FieldStrategy, ScopeKind}
use wirespec.Codec.Checksum.{synthesize_checksum_plan}
use wirespec.Sema.Types.{PrimitiveWireType, byte_width}
use wirespec.Sema.Registry.{resolve_primitive}
use wirespec.Sema.Validate.Tests as Validated
use wirespec.Codec.Checksum.{checksum_field_width}
use wirespec.Codec.Checksum.Widths.{checked_checksum_width}
use wirespec.Codec.Checksum.Plan.{IsFirst, synthesize_checksum_plan-IsFirst}
use wirespec.Codec.Checksum.Widths.{IsPlannable, allowed_checksum_algorithms-IsPlannable}

abbrev field_with : Str → Option Str → CodecField
field_with name algorithm = record {
  field_id = name;
  scope_id = str "p";
  field_index = 0;
  name = name;
  wire_type = WireType.u16;
  strategy = FieldStrategy.primitive;
  memory_tier = none;
  endianness = some Endianness.big;
  is_optional = false;
  inner_wire_type = none;
  condition = none;
  ref_type_name = none;
  bit_width = some 16;
  bytes_spec = none;
  array_spec = none;
  bitgroup_member = none;
  max_elements = none;
  checksum_algorithm = algorithm;
  asn1_hint = none;
  span = none;
}

abbrev two_fields : List CodecField
two_fields = field_with (str "port") none ∷ field_with (str "sum") (some (str "internet")) ∷ []

synthesize_checksum_plan-IsFirst_example :
    IsFirst ScopeKind.packet
      (str "P")
      0
      two_fields
      (synthesize_checksum_plan two_fields ScopeKind.packet (str "P"))
synthesize_checksum_plan-IsFirst_example =
    synthesize_checksum_plan-IsFirst ScopeKind.packet (str "P") two_fields

crc32_allowed : In (str "crc32") (allowed_checksum_algorithms ComplianceProfile.phase2_strict_v1_0)
unfolding allowed_checksum_algorithms as_str algorithms_for_profile profile_includes keep catalog
    str_eq
crc32_allowed = inr (inl refl)

allowed_checksum_algorithms-IsPlannable_example : IsPlannable (new Endianness.big) (str "crc32")
allowed_checksum_algorithms-IsPlannable_example =
    allowed_checksum_algorithms-IsPlannable (new Endianness.big)
      ComplianceProfile.phase2_strict_v1_0 (str "crc32") crc32_allowed

checked_checksum_width_example :
    (w : PrimitiveWireType) × (e : Option Endianness) × (resolve_primitive
        (str "u32")
        (new Endianness.big)
      ≡ some (w, e))
    × (checksum_field_width (str "crc32") ≡ byte_width w)
checked_checksum_width_example =
    checked_checksum_width (new Endianness.big) ComplianceProfile.phase2_strict_v1_0 (str "crc32")
      (str "u32") (str "sum") Validated.crc32_allowed Validated.crc32_typed
