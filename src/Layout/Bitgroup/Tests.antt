-- ===== src/Layout/Bitgroup/Tests.antt =====
-- Runs of the theorems on bit groups, on a scope of two bit fields and a byte.
use wirespec.Base.{ℕ, ◌^◌, ◌<◌, ◌≡◌, refl, arith, List, [], ◌∷◌, Option, none, some, All, Forall₂}
use wirespec.Base.Str.{Str, str}
use wirespec.Base.Outcome.{ok}
use wirespec.Sema.Types.{Endianness, SemanticType, PrimitiveWireType, FieldPresence}
use wirespec.Layout.Ir.{LayoutField, LayoutBitGroup, LayoutBitGroupMemberRef}
use wirespec.Layout.Bitgroup.{is_bit_type, is_bit_field, bit_width, bitgroup_id}
use wirespec.Layout.Bitgroup.{insert_member, sort_by_offset, offset_of, place_members}
use wirespec.Layout.Bitgroup.{finalize_group, finalize_if_any, detect_loop, detect_bitgroups}
use wirespec.Layout.Bitgroup.Runs.{bits_left, group_runs}
use wirespec.Layout.Bitgroup.Loop.{detect_bitgroups-group_runs}
use wirespec.Layout.Bitgroup.Tiles.{IsTiled, IsPositive, detect_bitgroups-IsTiled}
use wirespec.Layout.Bitgroup.Members.{IsPlaced, detect_bitgroups-IsPlaced}

abbrev field_of : Str → SemanticType → Option ℕ → Option LayoutBitGroupMemberRef → LayoutField
field_of name ty bits group = record {
  field_id = name;
  name = name;
  ty = ty;
  presence = FieldPresence.always;
  max_elements = none;
  checksum_algorithm = none;
  wire_width_bits = bits;
  endianness = none;
  bitgroup_member = group;
  asn1_hint = none;
  span = none;
}

-- `version: bits[4]`, `length: bits[12]`, `tail: u8` in a scope "p".
abbrev tail : LayoutField
tail = field_of (str "tail") (SemanticType.primitive PrimitiveWireType.u8 none) (some 8) none

abbrev pub three_fields : List LayoutField
three_fields =
    field_of (str "version") (SemanticType.bits 4) (some 4) none
    ∷ field_of (str "length") (SemanticType.bits 12) (some 12) none
    ∷ tail
    ∷ []

abbrev in_group : ℕ → ℕ → Option LayoutBitGroupMemberRef
in_group offset width =
    some
      (record { bitgroup_id = bitgroup_id (str "p") 0; offset_bits = offset; width_bits = width })

abbrev pub three_out : List LayoutField
three_out =
    field_of (str "version") (SemanticType.bits 4) (some 4) (in_group 12 4)
    ∷ field_of (str "length") (SemanticType.bits 12) (some 12) (in_group 0 12)
    ∷ tail
    ∷ []

abbrev pub one_group : List LayoutBitGroup
one_group =
    record {
      bitgroup_id = bitgroup_id (str "p") 0;
      scope_id = str "p";
      total_bits = 16;
      endianness = Endianness.big;
      members =
          record { field_id = str "length"; offset_bits = 0; width_bits = 12 }
          ∷ record { field_id = str "version"; offset_bits = 12; width_bits = 4 }
          ∷ [];
    }
    ∷ []

pub three_detected :
    detect_bitgroups three_fields (str "p") Endianness.big ≡ ok (one_group, three_out)
unfolding is_bit_type is_bit_field bit_width insert_member sort_by_offset offset_of place_members
    finalize_group finalize_if_any detect_loop detect_bitgroups
three_detected = refl

pub three_IsPositive : All IsPositive three_fields
unfolding is_bit_type is_bit_field bit_width
three_IsPositive = (omega arith, (omega arith, (tt, tt)))

pub three_small : bits_left three_fields < 2 ^ 16
unfolding bits_left is_bit_type is_bit_field bit_width
three_small = omega arith

detect_bitgroups-group_runs_example :
    detect_bitgroups three_fields (str "p") Endianness.big
    ≡ group_runs (str "p") Endianness.big 0 [] three_fields
detect_bitgroups-group_runs_example =
    detect_bitgroups-group_runs three_fields (str "p") Endianness.big three_small

detect_bitgroups-IsTiled_example : All IsTiled one_group
detect_bitgroups-IsTiled_example =
    detect_bitgroups-IsTiled three_fields (str "p") Endianness.big one_group three_out
      three_IsPositive three_small three_detected

detect_bitgroups-IsPlaced_example : Forall₂ (IsPlaced (str "p") 0 one_group) three_fields three_out
detect_bitgroups-IsPlaced_example =
    detect_bitgroups-IsPlaced (str "p") three_fields Endianness.big one_group three_out three_small
      three_detected
