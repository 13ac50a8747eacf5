-- ===== src/Codec/Lower.antt =====
-- crates/wirespec-codec/src/lower.rs: from the layout IR to the codec IR, scope by scope.
pub mod Groups
pub mod Fields
pub mod Strategies
pub mod Items
mod Tests
use wirespec.Base.{
  ℕ, suc, ◌+◌, ◌%◌, ◌^◌, List, [], ◌∷◌, ◌++◌, Option, none, some, Bool, true, false,
}
use wirespec.Base.{if◌then◌else◌}
use wirespec.Base.Str.{Str, str, str_eq, decimal}
use wirespec.Base.Outcome.{Outcome, ok, err, panic, ◌>>=◌, push_each}
use wirespec.Sema.Types.{SemanticType, SemanticBytesKind, PrimitiveWireType, FieldPresence}
use wirespec.Sema.Expr.{SemanticExpr}
use wirespec.Sema.Ir.{SemanticVarInt, VarIntEncoding, SemanticDerived, SemanticRequire}
use wirespec.Sema.Ir.{SemanticScopeItem, CapsuleTagSelector}
use wirespec.Sema.Catalog.{find}
use wirespec.Layout.Ir.{LayoutModule, LayoutPacket, LayoutFrame, LayoutCapsule, LayoutVariantScope}
use wirespec.Layout.Ir.{LayoutField, LayoutBitGroup}
use wirespec.Layout.Lower.{header_scope_id}
use wirespec.Codec.Ir.{
  CodecModule, CodecPacket, CodecFrame, CodecCapsule, CodecVariantScope, CodecField,
}
use wirespec.Codec.Ir.{CodecItem, WireType, FieldStrategy, MemoryTier, BytesSpec, ArraySpec}
use wirespec.Codec.Ir.{BitgroupMember, CodecTag, CodecExpr, ScopeKind}
use wirespec.Codec.Strategy.{assign_strategy, assign_memory_tier, assign_array_memory_tier}
use wirespec.Codec.Strategy.{assign_element_strategy}
use wirespec.Codec.Checksum.{synthesize_checksum_plan}
use wirespec.Codec.Convert.{convert_semantic_expr, convert_pattern}

-- The two messages, with the identifier that they show.
pub data CodecError : Type 0 where
  derived_not_found : (derived_id : Str) → CodecError
  require_not_found : (require_id : Str) → CodecError

-- `LowerCtx` holds the module's variable-length integers.
abbrev pub LowerCtx : Type 0
LowerCtx = List SemanticVarInt

unfoldable pub varint_encoding : LowerCtx → Str → VarIntEncoding
varint_encoding [] varint_id = VarIntEncoding.prefix_match
varint_encoding (v ∷ varints) varint_id =
    if str_eq v.varint_id varint_id then v.encoding else varint_encoding varints varint_id

abbrev is_continuation : VarIntEncoding → Bool
is_continuation VarIntEncoding.continuation_bit = true
is_continuation VarIntEncoding.prefix_match = false

unfoldable pub primitive_to_wire : PrimitiveWireType → WireType
primitive_to_wire PrimitiveWireType.u8 = WireType.u8
primitive_to_wire PrimitiveWireType.u16 = WireType.u16
primitive_to_wire PrimitiveWireType.u24 = WireType.u24
primitive_to_wire PrimitiveWireType.u32 = WireType.u32
primitive_to_wire PrimitiveWireType.u64 = WireType.u64
primitive_to_wire PrimitiveWireType.i8 = WireType.i8
primitive_to_wire PrimitiveWireType.i16 = WireType.i16
primitive_to_wire PrimitiveWireType.i32 = WireType.i32
primitive_to_wire PrimitiveWireType.i64 = WireType.i64
primitive_to_wire PrimitiveWireType.bool = WireType.bool
primitive_to_wire PrimitiveWireType.bit = WireType.bit

unfoldable pub semantic_type_to_wire_type : LowerCtx → SemanticType → WireType
semantic_type_to_wire_type ctx (SemanticType.primitive wire endianness) = primitive_to_wire wire
semantic_type_to_wire_type ctx (SemanticType.bits width_bits) = WireType.bits width_bits
semantic_type_to_wire_type ctx (SemanticType.var_int_ref varint_id name) =
    if is_continuation (varint_encoding ctx varint_id)
    then WireType.cont_var_int
    else WireType.var_int
semantic_type_to_wire_type ctx (SemanticType.bytes kind fixed_size size_expr) = WireType.bytes
semantic_type_to_wire_type ctx (SemanticType.packet_ref packet_id name) = WireType.struct name
semantic_type_to_wire_type ctx (SemanticType.enum_ref enum_id name is_flags) = WireType.enum name
semantic_type_to_wire_type ctx (SemanticType.frame_ref frame_id name) = WireType.frame name
semantic_type_to_wire_type ctx (SemanticType.capsule_ref capsule_id name) = WireType.capsule name
semantic_type_to_wire_type ctx (SemanticType.array element_type count_expr within_expr) =
    WireType.array

unfoldable pub extract_ref_type_name : SemanticType → Option Str
extract_ref_type_name (SemanticType.packet_ref packet_id name) = some name
extract_ref_type_name (SemanticType.enum_ref enum_id name is_flags) = some name
extract_ref_type_name (SemanticType.frame_ref frame_id name) = some name
extract_ref_type_name (SemanticType.capsule_ref capsule_id name) = some name
extract_ref_type_name (SemanticType.var_int_ref varint_id name) = some name
extract_ref_type_name _ = none

-- `size_expr.as_ref().expect(…)`.
unfoldable pub expect_size : Option SemanticExpr → Outcome CodecError SemanticExpr
expect_size none = panic
expect_size (some e) = ok e

unfoldable pub bytes_spec_of :
    SemanticBytesKind → Option ℕ → Option SemanticExpr → Outcome CodecError BytesSpec
bytes_spec_of SemanticBytesKind.fixed fixed_size size_expr =
    ok (BytesSpec.fixed (elim fixed_size [ none ↦ 0 | some n ↦ n ]))
bytes_spec_of SemanticBytesKind.length fixed_size size_expr = do
  e ← expect_size size_expr
  ok (BytesSpec.length (convert_semantic_expr e))
bytes_spec_of SemanticBytesKind.remaining fixed_size size_expr = ok BytesSpec.remaining
bytes_spec_of SemanticBytesKind.length_or_remaining fixed_size size_expr = do
  e ← expect_size size_expr
  ok (BytesSpec.length_or_remaining (convert_semantic_expr e))

unfoldable pub extract_bytes_spec : SemanticType → Outcome CodecError (Option BytesSpec)
extract_bytes_spec (SemanticType.bytes kind fixed_size size_expr) = do
  spec ← bytes_spec_of kind fixed_size size_expr
  ok (some spec)
extract_bytes_spec _ = ok none

abbrev pub convert_option : Option SemanticExpr → Option CodecExpr
convert_option none = none
convert_option (some e) = some (convert_semantic_expr e)

unfoldable pub extract_array_spec : LowerCtx → SemanticType → Option ArraySpec
extract_array_spec ctx (SemanticType.array element_type count_expr within_expr) = some (record {
  element_wire_type = semantic_type_to_wire_type ctx element_type;
  element_strategy = assign_element_strategy element_type;
  element_ref_type_name = extract_ref_type_name element_type;
  count_expr = convert_option count_expr;
  within_expr = convert_option within_expr;
})
extract_array_spec ctx _ = none

-- `bitgroups.iter().enumerate().find(|(_, bg)| bg.bitgroup_id == id)`, from index `i` on.
unfoldable pub find_group : Str → ℕ → List LayoutBitGroup → Option (ℕ × LayoutBitGroup)
find_group id i [] = none
find_group id i (bg ∷ bitgroups) =
    if str_eq bg.bitgroup_id id then some (i, bg) else find_group id (i + 1) bitgroups

unfoldable pub extract_bitgroup_member : LayoutField → List LayoutBitGroup → Option BitgroupMember
extract_bitgroup_member f bitgroups = elim (f.bitgroup_member) [
  | none ↦ none
  | some member_ref ↦ elim (find_group (member_ref.bitgroup_id) 0 bitgroups) [
    | none ↦ none
    | some (group_index, bg) ↦ some (record {
      group_id = group_index % 2 ^ 32;
      total_bits = bg.total_bits;
      member_offset_bits = member_ref.offset_bits;
      member_width_bits = member_ref.width_bits;
      group_endianness = bg.endianness;
    })
  ]
]

abbrev pub is_some {ℓ} : {A : Type ℓ} → Option A → Bool
is_some none = false
is_some (some a) = true

abbrev pub is_conditional : FieldPresence → Bool
is_conditional FieldPresence.always = false
is_conditional (FieldPresence.conditional condition) = true

abbrev pub condition_of : FieldPresence → Option CodecExpr
condition_of FieldPresence.always = none
condition_of (FieldPresence.conditional condition) = some (convert_semantic_expr condition)

-- The strategy of a variable-length integer with continuation bits is one of its own.
unfoldable pub refine_strategy : LowerCtx → FieldStrategy → SemanticType → FieldStrategy
refine_strategy ctx FieldStrategy.var_int (SemanticType.var_int_ref varint_id name) =
    if is_continuation (varint_encoding ctx varint_id)
    then FieldStrategy.cont_var_int
    else FieldStrategy.var_int
refine_strategy ctx strategy ty = strategy

unfoldable pub memory_tier_of : FieldStrategy → SemanticType → Option MemoryTier
memory_tier_of FieldStrategy.array (SemanticType.array element_type count_expr within_expr) =
    some (assign_array_memory_tier element_type)
memory_tier_of strategy ty = assign_memory_tier strategy

-- `format!("{scope_id}.field[{field_index}]")` for a field with no identifier.
unfoldable pub field_id_of : Str → Str → ℕ → Str
field_id_of [] scope_id field_index =
    scope_id ++ (str ".field[" ++ (decimal field_index ++ str "]"))
field_id_of (c ∷ id) scope_id field_index = c ∷ id

unfoldable pub lower_field :
    LowerCtx → LayoutField → Str → ℕ → List LayoutBitGroup → Outcome CodecError CodecField
lower_field ctx f scope_id field_index bitgroups = do
  let is_optional = is_conditional f.presence
  let wire_type = semantic_type_to_wire_type ctx f.ty
  let strategy =
      refine_strategy ctx
        (assign_strategy (record {
          ty = f.ty;
          is_optional = is_optional;
          has_checksum = is_some f.checksum_algorithm;
          has_bitgroup = is_some f.bitgroup_member;
        }))
        f.ty
  bytes_spec ← extract_bytes_spec f.ty
  ok (record {
    field_id = field_id_of f.field_id scope_id field_index;
    scope_id = scope_id;
    field_index = field_index;
    name = f.name;
    wire_type = wire_type;
    strategy = strategy;
    memory_tier = memory_tier_of strategy f.ty;
    endianness = f.endianness;
    is_optional = is_optional;
    inner_wire_type = if is_optional then some wire_type else none;
    condition = condition_of f.presence;
    ref_type_name = extract_ref_type_name f.ty;
    bit_width = f.wire_width_bits;
    bytes_spec = bytes_spec;
    array_spec = extract_array_spec ctx f.ty;
    bitgroup_member = extract_bitgroup_member f bitgroups;
    max_elements = f.max_elements;
    checksum_algorithm = f.checksum_algorithm;
    asn1_hint = f.asn1_hint;
    span = f.span;
  })

-- The loop over the fields from index `i` on.
unfoldable pub lower_fields :
    LowerCtx
    → List LayoutField
    → Str
    → ℕ
    → List LayoutBitGroup
    → Outcome CodecError (List CodecField)
lower_fields ctx [] scope_id i bitgroups = ok []
lower_fields ctx (f ∷ fields) scope_id i bitgroups = do
  field ← lower_field ctx f scope_id (i % 2 ^ 32) bitgroups
  rest ← lower_fields ctx fields scope_id (i + 1) bitgroups
  ok (field ∷ rest)

unfoldable pub lower_item :
    LowerCtx
    → List SemanticDerived
    → List SemanticRequire
    → SemanticScopeItem
    → Outcome CodecError CodecItem
lower_item ctx derived_list requires_list (SemanticScopeItem.field field_id) =
    ok (CodecItem.field field_id)
lower_item ctx derived_list requires_list (SemanticScopeItem.derived derived_id) =
    elim (find (λ d. str_eq d.derived_id derived_id) derived_list) [
      | none ↦ err (derived_not_found derived_id)
      | some derived ↦ ok (
          CodecItem.derived (record {
            item_id = derived.derived_id;
            name = derived.name;
            wire_type = semantic_type_to_wire_type ctx (derived.ty);
            expr = convert_semantic_expr (derived.expr);
            span = derived.span;
          }))
    ]
lower_item ctx derived_list requires_list (SemanticScopeItem.require require_id) =
    elim (find (λ r. str_eq r.require_id require_id) requires_list) [
      | none ↦ err (require_not_found require_id)
      | some require ↦ ok (
          CodecItem.require (record {
            item_id = require.require_id;
            expr = convert_semantic_expr (require.expr);
            span = require.span;
          }))
    ]

unfoldable pub lower_items :
    List SemanticScopeItem
    → List SemanticDerived
    → List SemanticRequire
    → LowerCtx
    → Outcome CodecError (List CodecItem)
lower_items items derived_list requires_list ctx =
    push_each (lower_item ctx derived_list requires_list) items
