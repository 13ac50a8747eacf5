-- ===== src/Codec/Lower/Strategies.antt =====
-- Which strategy, byte size and element plan the codec pass gives a type.
use wirespec.Base.{◌≡◌, refl, ◌⊎◌, inl, inr, arith}
use wirespec.Base.{Option, none, some, Bool, true, false}
use wirespec.Base.Outcome.{ok}
use wirespec.Codec.Lower.{primitive_to_wire}
use wirespec.Sema.Types.{PrimitiveWireType, SemanticType, SemanticBytesKind}
use wirespec.Codec.Ir.{FieldStrategy, WireType, BytesSpec, ArraySpec}
use wirespec.Sema.Ir.{VarIntEncoding}
use wirespec.Codec.Strategy.{type_based_strategy, bytes_strategy}
use wirespec.Codec.Lower.{LowerCtx, extract_bytes_spec, bytes_spec_of}
use wirespec.Codec.Lower.{expect_size, extract_array_spec, refine_strategy, is_some}
use wirespec.Codec.Lower.{semantic_type_to_wire_type, varint_encoding}
use wirespec.Codec.Convert.{convert_semantic_expr}

-- A type whose bytes are counted by an expression has that expression.
abbrev pub IsSized : SemanticType → Type 0
IsSized (SemanticType.bytes SemanticBytesKind.length fixed_size none) = ⊥
IsSized (SemanticType.bytes SemanticBytesKind.length_or_remaining fixed_size none) = ⊥
IsSized ty = Unit

-- The strategy of a wire type, for bytes with the kind of their size.
abbrev pub wire_strategy : WireType → Option BytesSpec → FieldStrategy
wire_strategy WireType.bytes none = FieldStrategy.bytes_remaining
wire_strategy WireType.bytes (some (BytesSpec.fixed n)) = FieldStrategy.bytes_fixed
wire_strategy WireType.bytes (some (BytesSpec.length e)) = FieldStrategy.bytes_length
wire_strategy WireType.bytes (some BytesSpec.remaining) = FieldStrategy.bytes_remaining
wire_strategy WireType.bytes (some (BytesSpec.length_or_remaining e)) = FieldStrategy.bytes_lor
wire_strategy WireType.array spec = FieldStrategy.array
wire_strategy WireType.var_int spec = FieldStrategy.var_int
wire_strategy WireType.cont_var_int spec = FieldStrategy.cont_var_int
wire_strategy (WireType.struct name) spec = FieldStrategy.struct
wire_strategy (WireType.enum name) spec = FieldStrategy.struct
wire_strategy (WireType.frame name) spec = FieldStrategy.struct
wire_strategy (WireType.capsule name) spec = FieldStrategy.struct
wire_strategy wire spec = FieldStrategy.primitive

-- The strategy of a field of these flags, by its wire type and the size of its bytes.
abbrev pub flags_strategy : Bool → Bool → Bool → FieldStrategy → FieldStrategy
flags_strategy optional checksum true s = FieldStrategy.bit_group
flags_strategy optional true false s = FieldStrategy.checksum
flags_strategy true false false s = FieldStrategy.conditional
flags_strategy false false false s = s

-- Only bytes have a size, and all of them; only arrays have an element plan, and all of them.
abbrev pub HasSize : WireType → Option BytesSpec → Type 0
HasSize WireType.bytes spec = is_some spec ≡ true
HasSize wire spec = spec ≡ none

abbrev pub HasPlan : WireType → Option ArraySpec → Type 0
HasPlan WireType.array spec = is_some spec ≡ true
HasPlan wire spec = spec ≡ none

-- The size of bytes is the one that their type gives.
abbrev pub IsSizeOf : SemanticType → Option BytesSpec → Type 0
IsSizeOf (SemanticType.bytes SemanticBytesKind.fixed (some n) size_expr) spec =
    spec ≡ some (BytesSpec.fixed n)
IsSizeOf (SemanticType.bytes SemanticBytesKind.length fixed_size (some e)) spec =
    spec ≡ some (BytesSpec.length (convert_semantic_expr e))
IsSizeOf (SemanticType.bytes SemanticBytesKind.remaining fixed_size size_expr) spec =
    spec ≡ some BytesSpec.remaining
IsSizeOf (SemanticType.bytes SemanticBytesKind.length_or_remaining fixed_size (some e)) spec =
    spec ≡ some (BytesSpec.length_or_remaining (convert_semantic_expr e))
IsSizeOf ty spec = Unit

Encoding-cases :
    (e : VarIntEncoding) → (e ≡ VarIntEncoding.continuation_bit) ⊎ (e ≡ VarIntEncoding.prefix_match)
Encoding-cases VarIntEncoding.continuation_bit = inl refl
Encoding-cases VarIntEncoding.prefix_match = inr refl

-- The strategies that only the flags give.
abbrev pub ByType : FieldStrategy → Type 0
ByType FieldStrategy.bit_group = ⊥
ByType FieldStrategy.checksum = ⊥
ByType FieldStrategy.conditional = ⊥
ByType strategy = Unit

module _ (ctx : LowerCtx) where
  pub type_ByType : (ty : SemanticType) → ByType (refine_strategy ctx (type_based_strategy ty) ty)
  unfolding refine_strategy type_based_strategy bytes_strategy
  type_ByType (SemanticType.var_int_ref varint_id name) =
      elim (Encoding-cases (varint_encoding ctx varint_id)) [ inl e ↦ rw e tt | inr e ↦ rw e tt ]
  type_ByType (SemanticType.bytes SemanticBytesKind.fixed fixed_size size_expr) = tt
  type_ByType (SemanticType.bytes SemanticBytesKind.length fixed_size size_expr) = tt
  type_ByType (SemanticType.bytes SemanticBytesKind.remaining fixed_size size_expr) = tt
  type_ByType (SemanticType.bytes SemanticBytesKind.length_or_remaining fixed_size size_expr) = tt
  type_ByType _ = tt

  pub type_wire_strategy :
      (ty : SemanticType) (spec : Option BytesSpec)
      → extract_bytes_spec ty ≡ ok spec
      → refine_strategy ctx (type_based_strategy ty) ty
        ≡ wire_strategy (semantic_type_to_wire_type ctx ty) spec
  unfolding refine_strategy type_based_strategy bytes_strategy extract_bytes_spec bytes_spec_of
      expect_size semantic_type_to_wire_type primitive_to_wire
  type_wire_strategy (SemanticType.primitive PrimitiveWireType.u8 endianness) spec h = refl
  type_wire_strategy (SemanticType.primitive PrimitiveWireType.u16 endianness) spec h = refl
  type_wire_strategy (SemanticType.primitive PrimitiveWireType.u24 endianness) spec h = refl
  type_wire_strategy (SemanticType.primitive PrimitiveWireType.u32 endianness) spec h = refl
  type_wire_strategy (SemanticType.primitive PrimitiveWireType.u64 endianness) spec h = refl
  type_wire_strategy (SemanticType.primitive PrimitiveWireType.i8 endianness) spec h = refl
  type_wire_strategy (SemanticType.primitive PrimitiveWireType.i16 endianness) spec h = refl
  type_wire_strategy (SemanticType.primitive PrimitiveWireType.i32 endianness) spec h = refl
  type_wire_strategy (SemanticType.primitive PrimitiveWireType.i64 endianness) spec h = refl
  type_wire_strategy (SemanticType.primitive PrimitiveWireType.bool endianness) spec h = refl
  type_wire_strategy (SemanticType.primitive PrimitiveWireType.bit endianness) spec h = refl
  type_wire_strategy (SemanticType.bits width_bits) spec h = refl
  type_wire_strategy (SemanticType.packet_ref packet_id name) spec h = refl
  type_wire_strategy (SemanticType.enum_ref enum_id name is_flags) spec h = refl
  type_wire_strategy (SemanticType.frame_ref frame_id name) spec h = refl
  type_wire_strategy (SemanticType.capsule_ref capsule_id name) spec h = refl
  type_wire_strategy (SemanticType.var_int_ref varint_id name) spec h =
      elim (Encoding-cases (varint_encoding ctx varint_id)) [
        | inl e ↦ rw e refl
        | inr e ↦ rw e refl
      ]
  type_wire_strategy (SemanticType.array element_type count_expr within_expr) spec h = refl
  type_wire_strategy (SemanticType.bytes SemanticBytesKind.fixed fixed_size size_expr) spec h =
      ground (arith, h)
  type_wire_strategy (SemanticType.bytes SemanticBytesKind.length fixed_size none) spec h =
      absurd (ground (arith, h))
  type_wire_strategy (SemanticType.bytes SemanticBytesKind.length fixed_size (some e)) spec h =
      ground (arith, h)
  type_wire_strategy (SemanticType.bytes SemanticBytesKind.remaining fixed_size size_expr) spec h =
      ground (arith, h)
  type_wire_strategy (SemanticType.bytes SemanticBytesKind.length_or_remaining fixed_size none) spec
        h =
      absurd (ground (arith, h))
  type_wire_strategy (SemanticType.bytes SemanticBytesKind.length_or_remaining fixed_size (some e))
        spec h =
      ground (arith, h)

  pub type_HasSize :
      (ty : SemanticType) (spec : Option BytesSpec)
      → extract_bytes_spec ty ≡ ok spec
      → HasSize (semantic_type_to_wire_type ctx ty) spec
  unfolding extract_bytes_spec bytes_spec_of expect_size semantic_type_to_wire_type
      primitive_to_wire
  type_HasSize (SemanticType.primitive PrimitiveWireType.u8 endianness) spec h = ground (arith, h)
  type_HasSize (SemanticType.primitive PrimitiveWireType.u16 endianness) spec h = ground (arith, h)
  type_HasSize (SemanticType.primitive PrimitiveWireType.u24 endianness) spec h = ground (arith, h)
  type_HasSize (SemanticType.primitive PrimitiveWireType.u32 endianness) spec h = ground (arith, h)
  type_HasSize (SemanticType.primitive PrimitiveWireType.u64 endianness) spec h = ground (arith, h)
  type_HasSize (SemanticType.primitive PrimitiveWireType.i8 endianness) spec h = ground (arith, h)
  type_HasSize (SemanticType.primitive PrimitiveWireType.i16 endianness) spec h = ground (arith, h)
  type_HasSize (SemanticType.primitive PrimitiveWireType.i32 endianness) spec h = ground (arith, h)
  type_HasSize (SemanticType.primitive PrimitiveWireType.i64 endianness) spec h = ground (arith, h)
  type_HasSize (SemanticType.primitive PrimitiveWireType.bool endianness) spec h = ground (arith, h)
  type_HasSize (SemanticType.primitive PrimitiveWireType.bit endianness) spec h = ground (arith, h)
  type_HasSize (SemanticType.bits width_bits) spec h = ground (arith, h)
  type_HasSize (SemanticType.packet_ref packet_id name) spec h = ground (arith, h)
  type_HasSize (SemanticType.enum_ref enum_id name is_flags) spec h = ground (arith, h)
  type_HasSize (SemanticType.frame_ref frame_id name) spec h = ground (arith, h)
  type_HasSize (SemanticType.capsule_ref capsule_id name) spec h = ground (arith, h)
  type_HasSize (SemanticType.var_int_ref varint_id name) spec h =
      elim (Encoding-cases (varint_encoding ctx varint_id)) [
        | inl e ↦ rw e (ground (arith, h))
        | inr e ↦ rw e (ground (arith, h))
      ]
  type_HasSize (SemanticType.array element_type count_expr within_expr) spec h = ground (arith, h)
  type_HasSize (SemanticType.bytes SemanticBytesKind.fixed fixed_size size_expr) spec h =
      ground (arith, h)
  type_HasSize (SemanticType.bytes SemanticBytesKind.length fixed_size none) spec h =
      absurd (ground (arith, h))
  type_HasSize (SemanticType.bytes SemanticBytesKind.length fixed_size (some e)) spec h =
      ground (arith, h)
  type_HasSize (SemanticType.bytes SemanticBytesKind.remaining fixed_size size_expr) spec h =
      ground (arith, h)
  type_HasSize (SemanticType.bytes SemanticBytesKind.length_or_remaining fixed_size none) spec h =
      absurd (ground (arith, h))
  type_HasSize (SemanticType.bytes SemanticBytesKind.length_or_remaining fixed_size (some e)) spec
        h =
      ground (arith, h)

  pub type_HasPlan :
      (ty : SemanticType) → HasPlan (semantic_type_to_wire_type ctx ty) (extract_array_spec ctx ty)
  unfolding extract_array_spec semantic_type_to_wire_type primitive_to_wire
  type_HasPlan (SemanticType.primitive PrimitiveWireType.u8 endianness) = refl
  type_HasPlan (SemanticType.primitive PrimitiveWireType.u16 endianness) = refl
  type_HasPlan (SemanticType.primitive PrimitiveWireType.u24 endianness) = refl
  type_HasPlan (SemanticType.primitive PrimitiveWireType.u32 endianness) = refl
  type_HasPlan (SemanticType.primitive PrimitiveWireType.u64 endianness) = refl
  type_HasPlan (SemanticType.primitive PrimitiveWireType.i8 endianness) = refl
  type_HasPlan (SemanticType.primitive PrimitiveWireType.i16 endianness) = refl
  type_HasPlan (SemanticType.primitive PrimitiveWireType.i32 endianness) = refl
  type_HasPlan (SemanticType.primitive PrimitiveWireType.i64 endianness) = refl
  type_HasPlan (SemanticType.primitive PrimitiveWireType.bool endianness) = refl
  type_HasPlan (SemanticType.primitive PrimitiveWireType.bit endianness) = refl
  type_HasPlan (SemanticType.bits width_bits) = refl
  type_HasPlan (SemanticType.packet_ref packet_id name) = refl
  type_HasPlan (SemanticType.enum_ref enum_id name is_flags) = refl
  type_HasPlan (SemanticType.frame_ref frame_id name) = refl
  type_HasPlan (SemanticType.capsule_ref capsule_id name) = refl
  type_HasPlan (SemanticType.var_int_ref varint_id name) =
      elim (Encoding-cases (varint_encoding ctx varint_id)) [
        | inl e ↦ rw e refl
        | inr e ↦ rw e refl
      ]
  type_HasPlan (SemanticType.array element_type count_expr within_expr) = refl
  type_HasPlan (SemanticType.bytes SemanticBytesKind.fixed fixed_size size_expr) = refl
  type_HasPlan (SemanticType.bytes SemanticBytesKind.length fixed_size none) = refl
  type_HasPlan (SemanticType.bytes SemanticBytesKind.length fixed_size (some e)) = refl
  type_HasPlan (SemanticType.bytes SemanticBytesKind.remaining fixed_size size_expr) = refl
  type_HasPlan (SemanticType.bytes SemanticBytesKind.length_or_remaining fixed_size none) = refl
  type_HasPlan (SemanticType.bytes SemanticBytesKind.length_or_remaining fixed_size (some e)) = refl

  pub type_IsSizeOf :
      (ty : SemanticType) (spec : Option BytesSpec)
      → extract_bytes_spec ty ≡ ok spec
      → IsSizeOf ty spec
  unfolding extract_bytes_spec bytes_spec_of expect_size
  type_IsSizeOf (SemanticType.bytes SemanticBytesKind.fixed none size_expr) spec h = tt
  type_IsSizeOf (SemanticType.bytes SemanticBytesKind.fixed (some n) size_expr) spec h =
      ground (arith, h)
  type_IsSizeOf (SemanticType.bytes SemanticBytesKind.length fixed_size none) spec h = tt
  type_IsSizeOf (SemanticType.bytes SemanticBytesKind.length fixed_size (some e)) spec h =
      ground (arith, h)
  type_IsSizeOf (SemanticType.bytes SemanticBytesKind.remaining fixed_size size_expr) spec h =
      ground (arith, h)
  type_IsSizeOf (SemanticType.bytes SemanticBytesKind.length_or_remaining fixed_size none) spec h =
      tt
  type_IsSizeOf (SemanticType.bytes SemanticBytesKind.length_or_remaining fixed_size (some e)) spec
        h =
      ground (arith, h)
  type_IsSizeOf _ spec h = tt

  -- A sized type has its byte size.
  pub sized_bytes_spec :
      (ty : SemanticType)
      → IsSized ty
      → (spec : Option BytesSpec) × (extract_bytes_spec ty ≡ ok spec)
  unfolding extract_bytes_spec bytes_spec_of expect_size
  sized_bytes_spec (SemanticType.bytes SemanticBytesKind.fixed fixed_size size_expr) h = (_, refl)
  sized_bytes_spec (SemanticType.bytes SemanticBytesKind.length fixed_size none) h = absurd h
  sized_bytes_spec (SemanticType.bytes SemanticBytesKind.length fixed_size (some e)) h = (_, refl)
  sized_bytes_spec (SemanticType.bytes SemanticBytesKind.remaining fixed_size size_expr) h =
      (_, refl)
  sized_bytes_spec (SemanticType.bytes SemanticBytesKind.length_or_remaining fixed_size none) h =
      absurd h
  sized_bytes_spec (SemanticType.bytes SemanticBytesKind.length_or_remaining fixed_size (some e))
        h =
      (_, refl)
  sized_bytes_spec _ h = (none, refl)
