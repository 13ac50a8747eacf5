-- ===== src/Layout/Lower/Primitives.antt =====
-- Primitive types from the registry of names to the layout pass, and the checksum algorithms' types.
use wirespec.Base.{ℕ, ◌*◌, ltb, if◌then◌else◌, ◌≡◌, arith, List, [], ◌∷◌, Option, none, some}
use wirespec.Base.{All, subst, Bool-cases, inl, inr}
use wirespec.Base.Str.{Str, str_eq}
use wirespec.Sema.Types.{Endianness, PrimitiveWireType, SemanticType, byte_width, is_integer_like}
use wirespec.Sema.Types.{is_integer_like_wire}
use wirespec.Sema.Registry.{TypeRegistry, get, is_some, primitives, resolve_primitive}
use wirespec.Layout.Lower.{
  compute_wire_width, wire_bits, resolve_type_endianness, default_endianness,
}

-- The wire width of a type that has no whole bytes: a bit's is 1, and a Boolean has none.
abbrev narrow_bits : PrimitiveWireType → Option ℕ
narrow_bits PrimitiveWireType.bit = some 1
narrow_bits _ = none

-- The layout pass, in a module of byte order `m`, agrees with what a primitive's name means.
abbrev pub IsLaidOut : Endianness → PrimitiveWireType × Option Endianness → Type 0
IsLaidOut m (w, e) =
    (resolve_type_endianness (SemanticType.primitive w e) m ≡ e)
    × (is_some e ≡ ltb 1 (byte_width w))
    × (is_integer_like (SemanticType.primitive w e) ≡ ltb 0 (byte_width w))
    × (compute_wire_width (SemanticType.primitive w e)
        ≡ (if ltb 0 (byte_width w) then some (8 * byte_width w) else narrow_bits w))

get-All :
    {V : Type 0} (P : V → Type 0) (k : Str) (v : V) (m : List (Str × V))
    → All (λ (d : Str × V). P d.1) m
    → get k m ≡ some v
    → P v
unfolding get
get-All P k v [] a h = absurd cc
get-All P k v ((j, u) ∷ m) a h = elim (Bool-cases (str_eq j k)) [
  | inl same ↦ subst P (let e : u ≡ v = ground (arith, h, same) in e) a.0
  | inr other ↦ get-All P k v m a.1 (ground (arith, h, other))
]

primitives-IsLaidOut :
    (m : Endianness)
    → All (λ (d : Str × (PrimitiveWireType × Option Endianness)). IsLaidOut m d.1) (primitives m)
unfolding primitives resolve_type_endianness default_endianness compute_wire_width wire_bits
    byte_width is_integer_like is_integer_like_wire
primitives-IsLaidOut m = ground arith

-- For every name of a primitive type, the layout pass keeps the byte order that the registry gives
-- it; there is one exactly if the type has more than one byte; the type is integer-like exactly if it
-- has a byte; and its width on the wire is 8 bits for each of its bytes, 1 for a bit, and none for a
-- Boolean.
pub resolve_primitive-IsLaidOut :
    (r : TypeRegistry) (name : Str) (w : PrimitiveWireType) (e : Option Endianness)
    → resolve_primitive name r ≡ some (w, e)
    → IsLaidOut r.module_endianness (w, e)
unfolding resolve_primitive
resolve_primitive-IsLaidOut r name w e h =
    get-All (IsLaidOut r.module_endianness) name (w, e) (primitives r.module_endianness)
      (primitives-IsLaidOut r.module_endianness) h
