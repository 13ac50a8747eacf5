-- ===== src/Sema/Types.antt =====
-- crates/wirespec-sema/src/types.rs: wire types, and what a field carries besides its type.
use wirespec.Base.{ℕ, Bool, true, false, List, Option}
use wirespec.Base.Str.{Str}
use wirespec.Sema.Expr.{SemanticExpr}
use wirespec.Syntax.{Span}

pub data Endianness : Type 0 where
  big little : Endianness

pub data PrimitiveWireType : Type 0 where
  u8 u16 u24 u32 u64 i8 i16 i32 i64 bool bit : PrimitiveWireType

unfoldable pub byte_width : PrimitiveWireType → ℕ
byte_width PrimitiveWireType.u8 = 1
byte_width PrimitiveWireType.i8 = 1
byte_width PrimitiveWireType.u16 = 2
byte_width PrimitiveWireType.i16 = 2
byte_width PrimitiveWireType.u24 = 3
byte_width PrimitiveWireType.u32 = 4
byte_width PrimitiveWireType.i32 = 4
byte_width PrimitiveWireType.u64 = 8
byte_width PrimitiveWireType.i64 = 8
byte_width PrimitiveWireType.bool = 0
byte_width PrimitiveWireType.bit = 0

unfoldable pub is_integer_like_wire : PrimitiveWireType → Bool
is_integer_like_wire PrimitiveWireType.bool = false
is_integer_like_wire PrimitiveWireType.bit = false
is_integer_like_wire _ = true

pub data SemanticBytesKind : Type 0 where
  fixed length remaining length_or_remaining : SemanticBytesKind

pub data SemanticType : Type 0 where
  primitive : PrimitiveWireType → (endianness : Option Endianness) → SemanticType
  bits : (width_bits : ℕ) → SemanticType
  var_int_ref : (varint_id name : Str) → SemanticType
  bytes :
      SemanticBytesKind → (fixed_size : Option ℕ) → (size_expr : Option SemanticExpr) → SemanticType
  array :
      SemanticType
      → (count_expr : Option SemanticExpr) → (within_expr : Option SemanticExpr) → SemanticType
  packet_ref : (packet_id name : Str) → SemanticType
  enum_ref : (enum_id name : Str) → (is_flags : Bool) → SemanticType
  frame_ref : (frame_id name : Str) → SemanticType
  capsule_ref : (capsule_id name : Str) → SemanticType

unfoldable pub is_integer_like : SemanticType → Bool
is_integer_like (SemanticType.primitive wire endianness) = is_integer_like_wire wire
is_integer_like (SemanticType.var_int_ref varint_id name) = true
is_integer_like (SemanticType.bits width_bits) = true
is_integer_like (SemanticType.enum_ref enum_id name is_flags) = true
is_integer_like _ = false

pub data FieldPresence : Type 0 where
  always : FieldPresence
  conditional : SemanticExpr → FieldPresence

pub data DeriveTrait : Type 0 where
  debug compare : DeriveTrait

pub record Asn1ExternDecl : Type 0 where
  pub path : Str
  pub rust_module : Option Str
  pub type_names : List Str
  pub span : Option Span

pub record Asn1Hint : Type 0 where
  pub type_name : Str
  pub encoding : Str
  pub extern_path : Str
  pub rust_module : Option Str
