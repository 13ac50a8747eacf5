-- ===== src/Layout/Lower.antt =====
-- crates/wirespec-layout/src/lower.rs: from the semantic IR to the layout IR.
pub mod Primitives
pub mod Tests
use wirespec.Base.{ℕ, List, map, Option, none, some, ◌++◌}
use wirespec.Base.Str.{Str, str}
use wirespec.Base.Outcome.{Outcome, ok, ◌>>=◌, push_each, map_err}
use wirespec.Sema.Types.{Endianness, SemanticType, PrimitiveWireType}
use wirespec.Sema.Ir.{SemanticModule, SemanticPacket, SemanticFrame, SemanticCapsule}
use wirespec.Sema.Ir.{SemanticVariantScope, SemanticField}
use wirespec.Layout.Ir.{LayoutModule, LayoutPacket, LayoutFrame, LayoutCapsule, LayoutVariantScope}
use wirespec.Layout.Ir.{LayoutField}
use wirespec.Layout.Bitgroup.{BitGroupError, detect_bitgroups}

-- `LayoutError { msg: e.msg }`.
pub data LayoutError : Type 0 where
  bitgroup : BitGroupError → LayoutError

unfoldable pub wire_bits : PrimitiveWireType → Option ℕ
wire_bits PrimitiveWireType.u8 = some 8
wire_bits PrimitiveWireType.i8 = some 8
wire_bits PrimitiveWireType.u16 = some 16
wire_bits PrimitiveWireType.i16 = some 16
wire_bits PrimitiveWireType.u24 = some 24
wire_bits PrimitiveWireType.u32 = some 32
wire_bits PrimitiveWireType.i32 = some 32
wire_bits PrimitiveWireType.u64 = some 64
wire_bits PrimitiveWireType.i64 = some 64
wire_bits PrimitiveWireType.bit = some 1
wire_bits PrimitiveWireType.bool = none

unfoldable pub compute_wire_width : SemanticType → Option ℕ
compute_wire_width (SemanticType.primitive wire endianness) = wire_bits wire
compute_wire_width (SemanticType.bits width_bits) = some width_bits
compute_wire_width _ = none

-- The byte order of a primitive that names none: the module's, for more than one byte.
default_endianness : PrimitiveWireType → Endianness → Option Endianness
default_endianness PrimitiveWireType.u16 module_endianness = some module_endianness
default_endianness PrimitiveWireType.i16 module_endianness = some module_endianness
default_endianness PrimitiveWireType.u24 module_endianness = some module_endianness
default_endianness PrimitiveWireType.u32 module_endianness = some module_endianness
default_endianness PrimitiveWireType.i32 module_endianness = some module_endianness
default_endianness PrimitiveWireType.u64 module_endianness = some module_endianness
default_endianness PrimitiveWireType.i64 module_endianness = some module_endianness
default_endianness _ module_endianness = none

pub resolve_type_endianness : SemanticType → Endianness → Option Endianness
resolve_type_endianness (SemanticType.primitive wire (some e)) module_endianness = some e
resolve_type_endianness (SemanticType.primitive wire none) module_endianness =
    default_endianness wire module_endianness
resolve_type_endianness _ module_endianness = none

pub resolve_field_endianness : SemanticType → Endianness → Option Endianness
resolve_field_endianness ty module_endianness = resolve_type_endianness ty module_endianness

unfoldable pub lower_field : Endianness → SemanticField → LayoutField
lower_field module_endianness f = record {
  field_id = f.field_id;
  name = f.name;
  ty = f.ty;
  presence = f.presence;
  max_elements = f.max_elements;
  checksum_algorithm = f.checksum_algorithm;
  wire_width_bits = compute_wire_width f.ty;
  endianness = resolve_field_endianness f.ty module_endianness;
  bitgroup_member = none;
  asn1_hint = f.asn1_hint;
  span = f.span;
}

unfoldable pub lower_fields : List SemanticField → Endianness → List LayoutField
lower_fields sem_fields module_endianness = map (lower_field module_endianness) sem_fields

unfoldable pub lower_packet : Endianness → SemanticPacket → Outcome LayoutError LayoutPacket
lower_packet module_endianness p = do
  let fields = lower_fields p.fields module_endianness
  (bitgroups, fields') ← map_err bitgroup (detect_bitgroups fields p.packet_id module_endianness)
  ok (record {
    packet_id = p.packet_id;
    name = p.name;
    derive_traits = p.derive_traits;
    fields = fields';
    derived = p.derived;
    requires = p.requires;
    items = p.items;
    bitgroups = bitgroups;
    span = p.span;
  })

unfoldable pub lower_variant_scope :
    Endianness → SemanticVariantScope → Outcome LayoutError LayoutVariantScope
lower_variant_scope module_endianness v = do
  let fields = lower_fields v.fields module_endianness
  (bitgroups, fields') ← map_err bitgroup (detect_bitgroups fields v.scope_id module_endianness)
  ok (record {
    scope_id = v.scope_id;
    owner = v.owner;
    variant_name = v.variant_name;
    ordinal = v.ordinal;
    pattern = v.pattern;
    fields = fields';
    derived = v.derived;
    requires = v.requires;
    items = v.items;
    bitgroups = bitgroups;
    span = v.span;
  })

unfoldable pub lower_frame : Endianness → SemanticFrame → Outcome LayoutError LayoutFrame
lower_frame module_endianness f = do
  variants ← push_each (lower_variant_scope module_endianness) f.variants
  ok (record {
    frame_id = f.frame_id;
    name = f.name;
    derive_traits = f.derive_traits;
    tag_name = f.tag_name;
    tag_type = f.tag_type;
    tag_endianness = resolve_type_endianness f.tag_type module_endianness;
    variants = variants;
    span = f.span;
  })

-- `format!("{}#header", c.capsule_id)`.
abbrev pub header_scope_id : Str → Str
header_scope_id capsule_id = capsule_id ++ str "#header"

unfoldable pub lower_capsule : Endianness → SemanticCapsule → Outcome LayoutError LayoutCapsule
lower_capsule module_endianness c = do
  let fields = lower_fields c.header_fields module_endianness
  (header_bitgroups, header_fields) ←
      map_err bitgroup (detect_bitgroups fields (header_scope_id c.capsule_id) module_endianness)
  variants ← push_each (lower_variant_scope module_endianness) c.variants
  ok (record {
    capsule_id = c.capsule_id;
    name = c.name;
    derive_traits = c.derive_traits;
    tag_type = c.tag_type;
    tag_selector = c.tag_selector;
    within_field_id = c.within_field_id;
    within_field_name = c.within_field_name;
    header_fields = header_fields;
    header_derived = c.header_derived;
    header_requires = c.header_requires;
    header_items = c.header_items;
    header_bitgroups = header_bitgroups;
    variants = variants;
    span = c.span;
  })

unfoldable pub lower : SemanticModule → Outcome LayoutError LayoutModule
lower sem = do
  packets ← push_each (lower_packet sem.module_endianness) sem.packets
  frames ← push_each (lower_frame sem.module_endianness) sem.frames
  capsules ← push_each (lower_capsule sem.module_endianness) sem.capsules
  ok (record {
    schema_version = str "layout-ir/v1";
    compliance_profile = sem.compliance_profile;
    module_name = sem.module_name;
    module_endianness = sem.module_endianness;
    imports = sem.imports;
    varints = sem.varints;
    consts = sem.consts;
    enums = sem.enums;
    packets = packets;
    frames = frames;
    capsules = capsules;
    state_machines = sem.state_machines;
  })
