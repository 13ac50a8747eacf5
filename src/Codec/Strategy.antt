-- ===== src/Codec/Strategy.antt =====
-- crates/wirespec-codec/src/strategy.rs: which strategy and memory tier a field has.
use wirespec.Base.{Bool, Option, none, some, if◌then◌else◌}
use wirespec.Sema.Types.{SemanticType, SemanticBytesKind}
use wirespec.Codec.Ir.{FieldStrategy, MemoryTier}

pub record StrategyInput : Type 0 where
  pub ty : SemanticType
  pub is_optional : Bool
  pub has_checksum : Bool
  pub has_bitgroup : Bool

unfoldable pub bytes_strategy : SemanticBytesKind → FieldStrategy
bytes_strategy SemanticBytesKind.fixed = FieldStrategy.bytes_fixed
bytes_strategy SemanticBytesKind.length = FieldStrategy.bytes_length
bytes_strategy SemanticBytesKind.remaining = FieldStrategy.bytes_remaining
bytes_strategy SemanticBytesKind.length_or_remaining = FieldStrategy.bytes_lor

unfoldable pub type_based_strategy : SemanticType → FieldStrategy
type_based_strategy (SemanticType.var_int_ref varint_id name) = FieldStrategy.var_int
type_based_strategy (SemanticType.bytes kind fixed_size size_expr) = bytes_strategy kind
type_based_strategy (SemanticType.packet_ref packet_id name) = FieldStrategy.struct
type_based_strategy (SemanticType.frame_ref frame_id name) = FieldStrategy.struct
type_based_strategy (SemanticType.capsule_ref capsule_id name) = FieldStrategy.struct
type_based_strategy (SemanticType.enum_ref enum_id name is_flags) = FieldStrategy.struct
type_based_strategy (SemanticType.array element_type count_expr within_expr) = FieldStrategy.array
type_based_strategy (SemanticType.primitive wire endianness) = FieldStrategy.primitive
type_based_strategy (SemanticType.bits width_bits) = FieldStrategy.primitive

unfoldable pub assign_strategy : StrategyInput → FieldStrategy
assign_strategy input =
    if input.has_bitgroup
    then FieldStrategy.bit_group
    else if input.has_checksum
    then FieldStrategy.checksum
    else if input.is_optional
    then FieldStrategy.conditional
    else type_based_strategy input.ty

unfoldable pub assign_memory_tier : FieldStrategy → Option MemoryTier
assign_memory_tier FieldStrategy.bytes_fixed = some MemoryTier.a
assign_memory_tier FieldStrategy.bytes_length = some MemoryTier.a
assign_memory_tier FieldStrategy.bytes_remaining = some MemoryTier.a
assign_memory_tier FieldStrategy.bytes_lor = some MemoryTier.a
assign_memory_tier _ = none

unfoldable pub assign_array_memory_tier : SemanticType → MemoryTier
assign_array_memory_tier (SemanticType.packet_ref packet_id name) = MemoryTier.c
assign_array_memory_tier (SemanticType.frame_ref frame_id name) = MemoryTier.c
assign_array_memory_tier (SemanticType.capsule_ref capsule_id name) = MemoryTier.c
assign_array_memory_tier (SemanticType.enum_ref enum_id name is_flags) = MemoryTier.c
assign_array_memory_tier _ = MemoryTier.b

unfoldable pub assign_element_strategy : SemanticType → FieldStrategy
assign_element_strategy element_type = type_based_strategy element_type
