-- ===== src/Sema/Ir.antt =====
-- crates/wirespec-sema/src/ir.rs: the semantic IR of a module.
use wirespec.Base.{ℕ, Bool, List, Option}
use wirespec.Base.Int.{ℤ}
use wirespec.Base.Str.{Str}
use wirespec.Syntax.{Span}
use wirespec.Sema.Expr.{SemanticExpr, SemanticLiteral}
use wirespec.Sema.Types.{
  Endianness, SemanticType, FieldPresence, DeriveTrait, Asn1Hint, Asn1ExternDecl,
}

pub data SemaWarningKind : Type 0 where
  sm_unreachable_terminal : SemaWarningKind
  sm_unreachable_from_initial : SemaWarningKind

pub record SemaWarning : Type 0 where
  pub kind : SemaWarningKind
  pub msg : Str
  pub span : Option Span

pub data ImportedDeclKind : Type 0 where
  var_int : ImportedDeclKind
  enum : ImportedDeclKind
  flags : ImportedDeclKind
  packet : ImportedDeclKind
  frame : ImportedDeclKind
  capsule : ImportedDeclKind

pub record ImportedTypeRef : Type 0 where
  pub import_id : Str
  pub name : Str
  pub source_module : Str
  pub source_prefix : Str
  pub decl_kind : ImportedDeclKind

pub record SemanticVarIntBranch : Type 0 where
  pub prefix_value : ℕ
  pub prefix_bits : ℕ
  pub value_bits : ℕ
  pub total_bytes : ℕ
  pub max_value : ℕ
  pub prefix_mask : ℕ

pub data VarIntEncoding : Type 0 where
  prefix_match : VarIntEncoding
  continuation_bit : VarIntEncoding

pub record SemanticVarInt : Type 0 where
  pub varint_id : Str
  pub name : Str
  pub encoding : VarIntEncoding
  pub prefix_bits : Option ℕ
  pub branches : List SemanticVarIntBranch
  pub value_bits_per_byte : Option ℕ
  pub max_bytes : ℕ
  pub byte_order : Endianness
  pub strict : Bool
  pub span : Option Span

pub record SemanticConst : Type 0 where
  pub const_id : Str
  pub name : Str
  pub ty : SemanticType
  pub value : SemanticLiteral
  pub span : Option Span

pub record SemanticEnumMember : Type 0 where
  pub member_id : Str
  pub name : Str
  pub value : ℤ
  pub span : Option Span

pub record SemanticEnum : Type 0 where
  pub enum_id : Str
  pub name : Str
  pub underlying_type : SemanticType
  pub is_flags : Bool
  pub derive_traits : List DeriveTrait
  pub members : List SemanticEnumMember
  pub span : Option Span

pub data SemanticScopeItem : Type 0 where
  field : (field_id : Str) → SemanticScopeItem
  derived : (derived_id : Str) → SemanticScopeItem
  require : (require_id : Str) → SemanticScopeItem

pub record SemanticField : Type 0 where
  pub field_id : Str
  pub name : Str
  pub ty : SemanticType
  pub presence : FieldPresence
  pub max_elements : Option ℕ
  pub checksum_algorithm : Option Str
  pub asn1_hint : Option Asn1Hint
  pub span : Option Span

pub record SemanticDerived : Type 0 where
  pub derived_id : Str
  pub name : Str
  pub ty : SemanticType
  pub expr : SemanticExpr
  pub span : Option Span

pub record SemanticRequire : Type 0 where
  pub require_id : Str
  pub expr : SemanticExpr
  pub span : Option Span

pub record SemanticPacket : Type 0 where
  pub packet_id : Str
  pub name : Str
  pub derive_traits : List DeriveTrait
  pub fields : List SemanticField
  pub derived : List SemanticDerived
  pub requires : List SemanticRequire
  pub items : List SemanticScopeItem
  pub span : Option Span

pub data SemanticPattern : Type 0 where
  exact : (value : ℤ) → SemanticPattern
  range_inclusive : (start : ℤ) → (end : ℤ) → SemanticPattern
  wildcard : SemanticPattern

pub data VariantOwner : Type 0 where
  frame : (frame_id : Str) → VariantOwner
  capsule_payload : (capsule_id : Str) → VariantOwner

pub record SemanticVariantScope : Type 0 where
  pub scope_id : Str
  pub owner : VariantOwner
  pub variant_name : Str
  pub ordinal : ℕ
  pub pattern : SemanticPattern
  pub fields : List SemanticField
  pub derived : List SemanticDerived
  pub requires : List SemanticRequire
  pub items : List SemanticScopeItem
  pub span : Option Span

pub record SemanticFrame : Type 0 where
  pub frame_id : Str
  pub name : Str
  pub derive_traits : List DeriveTrait
  pub tag_name : Str
  pub tag_type : SemanticType
  pub variants : List SemanticVariantScope
  pub span : Option Span

pub data CapsuleTagSelector : Type 0 where
  field : (field_id : Str) → (field_name : Str) → CapsuleTagSelector
  expr : (expr : SemanticExpr) → CapsuleTagSelector

pub record SemanticCapsule : Type 0 where
  pub capsule_id : Str
  pub name : Str
  pub derive_traits : List DeriveTrait
  pub tag_type : SemanticType
  pub tag_selector : CapsuleTagSelector
  pub within_field_id : Str
  pub within_field_name : Str
  pub header_fields : List SemanticField
  pub header_derived : List SemanticDerived
  pub header_requires : List SemanticRequire
  pub header_items : List SemanticScopeItem
  pub variants : List SemanticVariantScope
  pub span : Option Span

pub record SemanticStaticAssert : Type 0 where
  pub assert_id : Str
  pub expr : SemanticExpr
  pub span : Option Span

pub data SemanticVerifyFormula : Type 0 where
  in_state : (state_name : Str) → SemanticVerifyFormula
  not : (inner : SemanticVerifyFormula) → SemanticVerifyFormula
  and : (left : SemanticVerifyFormula) → (right : SemanticVerifyFormula) → SemanticVerifyFormula
  or : (left : SemanticVerifyFormula) → (right : SemanticVerifyFormula) → SemanticVerifyFormula
  implies : (left : SemanticVerifyFormula) → (right : SemanticVerifyFormula) → SemanticVerifyFormula
  always : (inner : SemanticVerifyFormula) → SemanticVerifyFormula
  eventually : (inner : SemanticVerifyFormula) → SemanticVerifyFormula
  leads_to :
      (left : SemanticVerifyFormula) → (right : SemanticVerifyFormula) → SemanticVerifyFormula
  field_ref : (field_name : Str) → SemanticVerifyFormula
  literal : (value : ℤ) → SemanticVerifyFormula
  bool_literal : (value : Bool) → SemanticVerifyFormula
  compare :
      (left : SemanticVerifyFormula)
      → (op : Str) → (right : SemanticVerifyFormula) → SemanticVerifyFormula

pub data SemanticVerifyDecl : Type 0 where
  no_deadlock : SemanticVerifyDecl
  all_reach_closed : SemanticVerifyDecl
  property : (name : Str) → (formula : SemanticVerifyFormula) → SemanticVerifyDecl

pub record SemanticStateField : Type 0 where
  pub field_id : Str
  pub name : Str
  pub ty : SemanticType
  pub default_value : Option SemanticLiteral
  pub child_sm_id : Option Str
  pub child_sm_name : Option Str
  pub span : Option Span

pub record SemanticState : Type 0 where
  pub state_id : Str
  pub name : Str
  pub fields : List SemanticStateField
  pub is_terminal : Bool
  pub span : Option Span

pub record SemanticEventParam : Type 0 where
  pub param_id : Str
  pub name : Str
  pub ty : SemanticType
  pub span : Option Span

pub record SemanticEvent : Type 0 where
  pub event_id : Str
  pub name : Str
  pub params : List SemanticEventParam
  pub span : Option Span

pub record SemanticAction : Type 0 where
  pub action_id : Str
  pub target : SemanticExpr
  pub op : Str
  pub value : SemanticExpr
  pub span : Option Span

pub record SemanticDelegate : Type 0 where
  pub target : SemanticExpr
  pub event_id : Str
  pub event_name : Str
  pub span : Option Span

pub record SemanticTransition : Type 0 where
  pub transition_id : Str
  pub src_state_id : Str
  pub src_state_name : Str
  pub dst_state_id : Str
  pub dst_state_name : Str
  pub event_id : Str
  pub event_name : Str
  pub guard : Option SemanticExpr
  pub actions : List SemanticAction
  pub delegate : Option SemanticDelegate
  pub span : Option Span

pub record SemanticStateMachine : Type 0 where
  pub sm_id : Str
  pub name : Str
  pub derive_traits : List DeriveTrait
  pub states : List SemanticState
  pub events : List SemanticEvent
  pub initial_state_id : Str
  pub transitions : List SemanticTransition
  pub has_child_state_changed : Bool
  pub verify_bound : Option ℕ
  pub verify_declarations : List SemanticVerifyDecl
  pub span : Option Span

pub record SemanticModule : Type 0 where
  pub schema_version : Str
  pub compliance_profile : Str
  pub module_name : Str
  pub module_endianness : Endianness
  pub imports : List ImportedTypeRef
  pub varints : List SemanticVarInt
  pub consts : List SemanticConst
  pub enums : List SemanticEnum
  pub packets : List SemanticPacket
  pub frames : List SemanticFrame
  pub capsules : List SemanticCapsule
  pub state_machines : List SemanticStateMachine
  pub static_asserts : List SemanticStaticAssert
  pub asn1_externs : List Asn1ExternDecl
  pub item_order : List Str
  pub warnings : List SemaWarning
