-- ===== src/Codec/Scopes.antt =====
-- crates/wirespec-codec/src/lower.rs: packets, frames, capsules and the module.
pub mod Pipeline
mod Tests
use wirespec.Base.{Option, none, some}
use wirespec.Base.Str.{Str, str}
use wirespec.Base.Outcome.{Outcome, ok, ◌>>=◌, push_each}
use wirespec.Sema.Types.{SemanticType}
use wirespec.Sema.Ir.{CapsuleTagSelector}
use wirespec.Layout.Ir.{LayoutModule, LayoutPacket, LayoutFrame, LayoutCapsule, LayoutVariantScope}
use wirespec.Layout.Lower.{header_scope_id}
use wirespec.Codec.Ir.{CodecModule, CodecPacket, CodecFrame, CodecCapsule, CodecVariantScope}
use wirespec.Codec.Ir.{CodecExpr, ScopeKind}
use wirespec.Codec.Checksum.{synthesize_checksum_plan}
use wirespec.Codec.Convert.{convert_semantic_expr, convert_pattern}
use wirespec.Codec.Lower.{
  CodecError, LowerCtx, semantic_type_to_wire_type, lower_fields, lower_items,
}

unfoldable pub tag_ref_type_name : SemanticType → Option Str
tag_ref_type_name (SemanticType.var_int_ref varint_id name) = some name
tag_ref_type_name (SemanticType.packet_ref packet_id name) = some name
tag_ref_type_name (SemanticType.enum_ref enum_id name is_flags) = some name
tag_ref_type_name _ = none

unfoldable pub lower_packet : LowerCtx → LayoutPacket → Outcome CodecError CodecPacket
lower_packet ctx p = do
  fields ← lower_fields ctx p.fields p.packet_id 0 p.bitgroups
  items ← lower_items p.items p.derived p.requires ctx
  ok (record {
    scope_id = p.packet_id;
    name = p.name;
    fields = fields;
    items = items;
    checksum_plan = synthesize_checksum_plan fields ScopeKind.packet p.name;
  })

unfoldable pub lower_variant_scope :
    LowerCtx → ScopeKind → LayoutVariantScope → Outcome CodecError CodecVariantScope
lower_variant_scope ctx scope_kind v = do
  fields ← lower_fields ctx v.fields v.scope_id 0 v.bitgroups
  items ← lower_items v.items v.derived v.requires ctx
  ok (record {
    scope_id = v.scope_id;
    owner = v.owner;
    ordinal = v.ordinal;
    name = v.variant_name;
    pattern = convert_pattern v.pattern;
    fields = fields;
    items = items;
    checksum_plan = synthesize_checksum_plan fields scope_kind v.variant_name;
  })

unfoldable pub lower_frame : LowerCtx → LayoutFrame → Outcome CodecError CodecFrame
lower_frame ctx f = do
  variants ← push_each (lower_variant_scope ctx ScopeKind.frame_variant) f.variants
  ok (record {
    frame_id = f.frame_id;
    name = f.name;
    tag = record {
      field_name = f.tag_name;
      wire_type = semantic_type_to_wire_type ctx f.tag_type;
      endianness = f.tag_endianness;
      ref_type_name = tag_ref_type_name f.tag_type;
    };
    variants = variants;
  })

unfoldable pub capsule_tag_field_name : CapsuleTagSelector → Str
capsule_tag_field_name (CapsuleTagSelector.field field_id field_name) = field_name
capsule_tag_field_name (CapsuleTagSelector.expr expr) = str "<expr>"

unfoldable pub capsule_tag_expr : CapsuleTagSelector → Option CodecExpr
capsule_tag_expr (CapsuleTagSelector.field field_id field_name) = none
capsule_tag_expr (CapsuleTagSelector.expr expr) = some (convert_semantic_expr expr)

unfoldable pub lower_capsule : LowerCtx → LayoutCapsule → Outcome CodecError CodecCapsule
lower_capsule ctx c = do
  header_fields ←
      lower_fields ctx c.header_fields (header_scope_id c.capsule_id) 0 c.header_bitgroups
  header_items ← lower_items c.header_items c.header_derived c.header_requires ctx
  variants ← push_each (lower_variant_scope ctx ScopeKind.capsule_payload_variant) c.variants
  ok (record {
    capsule_id = c.capsule_id;
    name = c.name;
    tag = record {
      field_name = capsule_tag_field_name c.tag_selector;
      wire_type = semantic_type_to_wire_type ctx c.tag_type;
      endianness = none;
      ref_type_name = tag_ref_type_name c.tag_type;
    };
    within_field = c.within_field_name;
    tag_expr = capsule_tag_expr c.tag_selector;
    header_fields = header_fields;
    header_items = header_items;
    header_checksum_plan = synthesize_checksum_plan header_fields ScopeKind.capsule_header c.name;
    variants = variants;
  })

unfoldable pub lower : LayoutModule → Outcome CodecError CodecModule
lower layout = do
  packets ← push_each (lower_packet layout.varints) layout.packets
  frames ← push_each (lower_frame layout.varints) layout.frames
  capsules ← push_each (lower_capsule layout.varints) layout.capsules
  ok (record {
    schema_version = str "codec-ir/v1";
    module_name = layout.module_name;
    module_endianness = layout.module_endianness;
    compliance_profile = layout.compliance_profile;
    imports = layout.imports;
    varints = layout.varints;
    consts = layout.consts;
    enums = layout.enums;
    state_machines = layout.state_machines;
    packets = packets;
    frames = frames;
    capsules = capsules;
  })
