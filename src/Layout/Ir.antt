-- ===== src/Layout/Ir.antt =====
-- crates/wirespec-layout/src/ir.rs: the layout IR, which adds bit widths, byte orders and bit groups.
use wirespec.Base.{ℕ, List, Option}
use wirespec.Base.Str.{Str}
use wirespec.Syntax.{Span}
use wirespec.Sema.Types.{Endianness, SemanticType, FieldPresence, DeriveTrait, Asn1Hint}
use wirespec.Sema.Ir.{
  SemanticDerived, SemanticRequire, SemanticScopeItem, SemanticVarInt, SemanticConst,
}
use wirespec.Sema.Ir.{
  SemanticEnum, SemanticStateMachine, ImportedTypeRef, VariantOwner, SemanticPattern,
}
use wirespec.Sema.Ir.{CapsuleTagSelector}

pub record LayoutBitGroupMemberRef : Type 0 where
  pub bitgroup_id : Str
  pub offset_bits : ℕ
  pub width_bits : ℕ

pub record LayoutField : Type 0 where
  pub field_id : Str
  pub name : Str
  pub ty : SemanticType
  pub presence : FieldPresence
  pub max_elements : Option ℕ
  pub checksum_algorithm : Option Str
  pub wire_width_bits : Option ℕ
  pub endianness : Option Endianness
  pub bitgroup_member : Option LayoutBitGroupMemberRef
  pub asn1_hint : Option Asn1Hint
  pub span : Option Span

pub record LayoutBitGroupMember : Type 0 where
  pub field_id : Str
  pub offset_bits : ℕ
  pub width_bits : ℕ

pub record LayoutBitGroup : Type 0 where
  pub bitgroup_id : Str
  pub scope_id : Str
  pub total_bits : ℕ
  pub endianness : Endianness
  pub members : List LayoutBitGroupMember

pub record LayoutPacket : Type 0 where
  pub packet_id : Str
  pub name : Str
  pub derive_traits : List DeriveTrait
  pub fields : List LayoutField
  pub derived : List SemanticDerived
  pub requires : List SemanticRequire
  pub items : List SemanticScopeItem
  pub bitgroups : List LayoutBitGroup
  pub span : Option Span

pub record LayoutVariantScope : Type 0 where
  pub scope_id : Str
  pub owner : VariantOwner
  pub variant_name : Str
  pub ordinal : ℕ
  pub pattern : SemanticPattern
  pub fields : List LayoutField
  pub derived : List SemanticDerived
  pub requires : List SemanticRequire
  pub items : List SemanticScopeItem
  pub bitgroups : List LayoutBitGroup
  pub span : Option Span

pub record LayoutFrame : Type 0 where
  pub frame_id : Str
  pub name : Str
  pub derive_traits : List DeriveTrait
  pub tag_name : Str
  pub tag_type : SemanticType
  pub tag_endianness : Option Endianness
  pub variants : List LayoutVariantScope
  pub span : Option Span

pub record LayoutCapsule : Type 0 where
  pub capsule_id : Str
  pub name : Str
  pub derive_traits : List DeriveTrait
  pub tag_type : SemanticType
  pub tag_selector : CapsuleTagSelector
  pub within_field_id : Str
  pub within_field_name : Str
  pub header_fields : List LayoutField
  pub header_derived : List SemanticDerived
  pub header_requires : List SemanticRequire
  pub header_items : List SemanticScopeItem
  pub header_bitgroups : List LayoutBitGroup
  pub variants : List LayoutVariantScope
  pub span : Option Span

pub record LayoutModule : Type 0 where
  pub schema_version : Str
  pub compliance_profile : Str
  pub module_name : Str
  pub module_endianness : Endianness
  pub imports : List ImportedTypeRef
  pub varints : List SemanticVarInt
  pub consts : List SemanticConst
  pub enums : List SemanticEnum
  pub packets : List LayoutPacket
  pub frames : List LayoutFrame
  pub capsules : List LayoutCapsule
  pub state_machines : List SemanticStateMachine
