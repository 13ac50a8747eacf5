-- ===== src/Layout/Lower/Tests.antt =====
-- Runs of the layout pass's theorems, and a packet whose layout is known.
use wirespec.Base.{◌≡◌, refl, [], ◌∷◌, none, some}
use wirespec.Base.Str.{Str, str, str_eq}
use wirespec.Base.Outcome.{ok}
use wirespec.Sema.Types.{Endianness, SemanticType, PrimitiveWireType, FieldPresence}
use wirespec.Sema.Ir.{SemanticField, SemanticPacket}
use wirespec.Sema.Registry.{new, get, primitives, resolve_primitive}
use wirespec.Layout.Ir.{LayoutPacket}
use wirespec.Layout.Bitgroup.Tests.{three_fields, three_out, one_group, three_detected}
use wirespec.Layout.Lower.{lower_fields, lower_field, lower_packet, compute_wire_width, wire_bits}
use wirespec.Layout.Lower.{resolve_field_endianness, resolve_type_endianness, default_endianness}
use wirespec.Layout.Lower.Primitives.{IsLaidOut, resolve_primitive-IsLaidOut}

abbrev plain_field : Str → SemanticType → SemanticField
plain_field name ty = record {
  field_id = name;
  name = name;
  ty = ty;
  presence = FieldPresence.always;
  max_elements = none;
  checksum_algorithm = none;
  asn1_hint = none;
  span = none;
}

-- `packet P { version: bits[4], length: bits[12], tail: u8 }`.
abbrev pub three_packet : SemanticPacket
three_packet = record {
  packet_id = str "p";
  name = str "P";
  derive_traits = [];
  fields =
      plain_field (str "version") (SemanticType.bits 4)
      ∷ plain_field (str "length") (SemanticType.bits 12)
      ∷ plain_field (str "tail") (SemanticType.primitive PrimitiveWireType.u8 none)
      ∷ [];
  derived = [];
  requires = [];
  items = [];
  span = none;
}

abbrev pub three_layout : LayoutPacket
three_layout = record {
  packet_id = str "p";
  name = str "P";
  derive_traits = [];
  fields = three_out;
  derived = [];
  requires = [];
  items = [];
  bitgroups = one_group;
  span = none;
}

pub three_lowered : lower_fields three_packet.fields Endianness.big ≡ three_fields
unfolding lower_fields lower_field compute_wire_width wire_bits resolve_field_endianness
    resolve_type_endianness default_endianness
three_lowered = refl

pub three_laid_out : lower_packet Endianness.big three_packet ≡ ok three_layout
unfolding lower_packet
three_laid_out = rw (three_lowered, three_detected) refl

u24_resolved :
    resolve_primitive (str "u24") (new Endianness.little)
    ≡ some (PrimitiveWireType.u24, some Endianness.little)
unfolding resolve_primitive primitives get new str_eq
u24_resolved = refl

resolve_primitive-IsLaidOut_example :
    IsLaidOut
      (new Endianness.little).module_endianness
      (PrimitiveWireType.u24, some Endianness.little)
resolve_primitive-IsLaidOut_example =
    resolve_primitive-IsLaidOut (new Endianness.little) (str "u24") PrimitiveWireType.u24
      (some Endianness.little) u24_resolved
