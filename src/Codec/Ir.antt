-- ===== src/Codec/Ir.antt =====
-- crates/wirespec-codec/src/ir.rs: the codec IR, a plan of parsing and serializing for the back ends.
use wirespec.Base.{ℕ, Bool, List, Option}
use wirespec.Base.Int.{ℤ}
use wirespec.Base.Str.{Str}
use wirespec.Syntax.{Span}
use wirespec.Sema.Expr.{StateName}
use wirespec.Sema.Types.{Endianness, Asn1Hint}
use wirespec.Sema.Ir.{SemanticVarInt, SemanticConst, SemanticEnum, SemanticStateMachine}
use wirespec.Sema.Ir.{ImportedTypeRef, VariantOwner}

pub data FieldStrategy : Type 0 where
  primitive : FieldStrategy
  var_int : FieldStrategy
  cont_var_int : FieldStrategy
  bytes_fixed : FieldStrategy
  bytes_length : FieldStrategy
  bytes_remaining : FieldStrategy
  bytes_lor : FieldStrategy
  struct : FieldStrategy
  array : FieldStrategy
  bit_group : FieldStrategy
  conditional : FieldStrategy
  checksum : FieldStrategy

pub data MemoryTier : Type 0 where
  a : MemoryTier
  b : MemoryTier
  c : MemoryTier

pub data ScopeKind : Type 0 where
  packet : ScopeKind
  frame_variant : ScopeKind
  capsule_header : ScopeKind
  capsule_payload_variant : ScopeKind

pub data WireType : Type 0 where
  u8 : WireType
  u16 : WireType
  u24 : WireType
  u32 : WireType
  u64 : WireType
  i8 : WireType
  i16 : WireType
  i32 : WireType
  i64 : WireType
  bool : WireType
  bit : WireType
  bits : ℕ → WireType
  var_int : WireType
  cont_var_int : WireType
  bytes : WireType
  struct : Str → WireType
  enum : Str → WireType
  frame : Str → WireType
  capsule : Str → WireType
  array : WireType

pub data ValueRefKind : Type 0 where
  field : ValueRefKind
  derived : ValueRefKind
  const : ValueRefKind

pub record ValueRef : Type 0 where
  pub value_id : Str
  pub kind : ValueRefKind

pub data LiteralValue : Type 0 where
  int : ℤ → LiteralValue
  bool : Bool → LiteralValue
  string : Str → LiteralValue
  null : LiteralValue

-- `CodecExprs` is the `Vec` of arguments of a state constructor.
mutual
  pub data CodecExpr : Type 0 where
    value_ref : ValueRef → CodecExpr
    literal : LiteralValue → CodecExpr
    binary : (op : Str) → CodecExpr → CodecExpr → CodecExpr
    unary : (op : Str) → CodecExpr → CodecExpr
    coalesce : CodecExpr → CodecExpr → CodecExpr
    in_state : CodecExpr → StateName → CodecExpr
    subscript : CodecExpr → CodecExpr → CodecExpr
    state_constructor : StateName → CodecExprs → CodecExpr
    fill : CodecExpr → CodecExpr → CodecExpr
    slice : CodecExpr → CodecExpr → CodecExpr → CodecExpr
    all : CodecExpr → StateName → CodecExpr

  pub data CodecExprs : Type 0 where
    nil : CodecExprs
    cons : CodecExpr → CodecExprs → CodecExprs

pub data BytesSpec : Type 0 where
  fixed : (size : ℕ) → BytesSpec
  length : (expr : CodecExpr) → BytesSpec
  remaining : BytesSpec
  length_or_remaining : (expr : CodecExpr) → BytesSpec

pub record ArraySpec : Type 0 where
  pub element_wire_type : WireType
  pub element_strategy : FieldStrategy
  pub element_ref_type_name : Option Str
  pub count_expr : Option CodecExpr
  pub within_expr : Option CodecExpr

pub record BitgroupMember : Type 0 where
  pub group_id : ℕ
  pub total_bits : ℕ
  pub member_offset_bits : ℕ
  pub member_width_bits : ℕ
  pub group_endianness : Endianness

pub record CodecTag : Type 0 where
  pub field_name : Str
  pub wire_type : WireType
  pub endianness : Option Endianness
  pub ref_type_name : Option Str

pub data VariantPattern : Type 0 where
  exact : (value : ℤ) → VariantPattern
  range_inclusive : (start : ℤ) → (end : ℤ) → VariantPattern
  wildcard : VariantPattern

pub data ChecksumVerifyMode : Type 0 where
  zero_sum : ChecksumVerifyMode
  recompute_compare : ChecksumVerifyMode

pub data ChecksumInputModel : Type 0 where
  zero_sum_whole_scope : ChecksumInputModel
  recompute_with_skipped_field : ChecksumInputModel

pub record ChecksumPlan : Type 0 where
  pub scope_kind : ScopeKind
  pub scope_name : Str
  pub field_name : Str
  pub field_index_in_scope : ℕ
  pub algorithm_id : Str
  pub verify_mode : ChecksumVerifyMode
  pub input_model : ChecksumInputModel
  pub field_width_bytes : ℕ
  pub field_endianness : Option Endianness

pub record CodecDerivedItem : Type 0 where
  pub item_id : Str
  pub name : Str
  pub wire_type : WireType
  pub expr : CodecExpr
  pub span : Option Span

pub record CodecRequireItem : Type 0 where
  pub item_id : Str
  pub expr : CodecExpr
  pub span : Option Span

pub data CodecItem : Type 0 where
  field : (field_id : Str) → CodecItem
  derived : CodecDerivedItem → CodecItem
  require : CodecRequireItem → CodecItem

pub record CodecField : Type 0 where
  pub field_id : Str
  pub scope_id : Str
  pub field_index : ℕ
  pub name : Str
  pub wire_type : WireType
  pub strategy : FieldStrategy
  pub memory_tier : Option MemoryTier
  pub endianness : Option Endianness
  pub is_optional : Bool
  pub inner_wire_type : Option WireType
  pub condition : Option CodecExpr
  pub ref_type_name : Option Str
  pub bit_width : Option ℕ
  pub bytes_spec : Option BytesSpec
  pub array_spec : Option ArraySpec
  pub bitgroup_member : Option BitgroupMember
  pub max_elements : Option ℕ
  pub checksum_algorithm : Option Str
  pub asn1_hint : Option Asn1Hint
  pub span : Option Span

pub record CodecPacket : Type 0 where
  pub scope_id : Str
  pub name : Str
  pub fields : List CodecField
  pub items : List CodecItem
  pub checksum_plan : Option ChecksumPlan

pub record CodecVariantScope : Type 0 where
  pub scope_id : Str
  pub owner : VariantOwner
  pub ordinal : ℕ
  pub name : Str
  pub pattern : VariantPattern
  pub fields : List CodecField
  pub items : List CodecItem
  pub checksum_plan : Option ChecksumPlan

pub record CodecFrame : Type 0 where
  pub frame_id : Str
  pub name : Str
  pub tag : CodecTag
  pub variants : List CodecVariantScope

pub record CodecCapsule : Type 0 where
  pub capsule_id : Str
  pub name : Str
  pub tag : CodecTag
  pub within_field : Str
  pub tag_expr : Option CodecExpr
  pub header_fields : List CodecField
  pub header_items : List CodecItem
  pub header_checksum_plan : Option ChecksumPlan
  pub variants : List CodecVariantScope

pub record CodecModule : Type 0 where
  pub schema_version : Str
  pub module_name : Str
  pub module_endianness : Endianness
  pub compliance_profile : Str
  pub imports : List ImportedTypeRef
  pub varints : List SemanticVarInt
  pub consts : List SemanticConst
  pub enums : List SemanticEnum
  pub state_machines : List SemanticStateMachine
  pub packets : List CodecPacket
  pub frames : List CodecFrame
  pub capsules : List CodecCapsule
