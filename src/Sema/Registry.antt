-- ===== src/Sema/Registry.antt =====
-- crates/wirespec-sema/src/resolve.rs: the registry of a module's type names. A `HashMap` is an
-- association list whose newest binding of a key counts; `keys` may list a key twice.
pub mod Resolution
pub mod Declared
mod Tests
use wirespec.Base.{
  ℕ, zero, suc, List, [], ◌∷◌, ◌++◌, Option, none, some, Bool, true, false, ◌||◌, map,
}
use wirespec.Base.{if◌then◌else◌}
use wirespec.Base.Int.{ℤ}
use wirespec.Base.Str.{Str, str, str_eq}
use wirespec.Sema.Types.{Endianness, PrimitiveWireType}

pub data DeclKind : Type 0 where
  var_int packet frame capsule enum flags state_machine const : DeclKind

pub data ResolvedType : Type 0 where
  primitive : PrimitiveWireType → Option Endianness → ResolvedType
  user_defined : Str → DeclKind → ResolvedType

-- The message "duplicate definition: '{name}'".
pub data RegistryError : Type 0 where
  duplicate_definition : (name : Str) → RegistryError

unfoldable pub get {ℓ} : {V : Type ℓ} → Str → List (Str × V) → Option V
get k [] = none
get k ((j, v) ∷ m) = if str_eq j k then some v else get k m

abbrev pub is_some {ℓ} : {V : Type ℓ} → Option V → Bool
is_some none = false
is_some (some v) = true

abbrev pub contains_key {ℓ} : {V : Type ℓ} → Str → List (Str × V) → Bool
contains_key k m = is_some (get k m)

pub record TypeRegistry : Type 0 where
  pub module_endianness : Endianness
  pub declarations : List (Str × DeclKind)
  pub aliases : List (Str × Str)
  pub const_values : List (Str × ℤ)

unfoldable pub new : Endianness → TypeRegistry
new module_endianness = record {
  module_endianness = module_endianness;
  declarations = [];
  aliases = [];
  const_values = [];
}

unfoldable pub register_external : Str → DeclKind → TypeRegistry → TypeRegistry
register_external name kind r = record r { declarations = (name, kind) ∷ r.declarations }

-- `none` is success; the registry is unchanged by an error.
unfoldable pub register : Str → DeclKind → TypeRegistry → TypeRegistry × Option RegistryError
register name kind r =
    if contains_key name r.declarations
    then (r, some (duplicate_definition name))
    else if contains_key name r.aliases
    then (r, some (duplicate_definition name))
    else (record r { declarations = (name, kind) ∷ r.declarations }, none)

unfoldable pub register_alias : Str → Str → TypeRegistry → TypeRegistry × Option RegistryError
register_alias alias target r =
    if contains_key alias r.declarations
    then (r, some (duplicate_definition alias))
    else if contains_key alias r.aliases
    then (r, some (duplicate_definition alias))
    else (record r { aliases = (alias, target) ∷ r.aliases }, none)

unfoldable pub register_const : Str → ℤ → TypeRegistry → TypeRegistry
register_const name value r = record r { const_values = (name, value) ∷ r.const_values }

unfoldable pub get_const_value : Str → TypeRegistry → Option ℤ
get_const_value name r = get name r.const_values

unfoldable pub get_decl_kind : Str → TypeRegistry → Option DeclKind
get_decl_kind name r = get name r.declarations

-- The arms of the match, in order; the byte order is for a module of byte order `e`.
unfoldable pub primitives : Endianness → List (Str × (PrimitiveWireType × Option Endianness))
primitives e =
    (str "u8", (PrimitiveWireType.u8, none))
    ∷ (str "u16", (PrimitiveWireType.u16, some e))
    ∷ (str "u24", (PrimitiveWireType.u24, some e))
    ∷ (str "u32", (PrimitiveWireType.u32, some e))
    ∷ (str "u64", (PrimitiveWireType.u64, some e))
    ∷ (str "i8", (PrimitiveWireType.i8, none))
    ∷ (str "i16", (PrimitiveWireType.i16, some e))
    ∷ (str "i32", (PrimitiveWireType.i32, some e))
    ∷ (str "i64", (PrimitiveWireType.i64, some e))
    ∷ (str "u16be", (PrimitiveWireType.u16, some Endianness.big))
    ∷ (str "u16le", (PrimitiveWireType.u16, some Endianness.little))
    ∷ (str "u24be", (PrimitiveWireType.u24, some Endianness.big))
    ∷ (str "u24le", (PrimitiveWireType.u24, some Endianness.little))
    ∷ (str "u32be", (PrimitiveWireType.u32, some Endianness.big))
    ∷ (str "u32le", (PrimitiveWireType.u32, some Endianness.little))
    ∷ (str "u64be", (PrimitiveWireType.u64, some Endianness.big))
    ∷ (str "u64le", (PrimitiveWireType.u64, some Endianness.little))
    ∷ (str "i16be", (PrimitiveWireType.i16, some Endianness.big))
    ∷ (str "i16le", (PrimitiveWireType.i16, some Endianness.little))
    ∷ (str "i32be", (PrimitiveWireType.i32, some Endianness.big))
    ∷ (str "i32le", (PrimitiveWireType.i32, some Endianness.little))
    ∷ (str "i64be", (PrimitiveWireType.i64, some Endianness.big))
    ∷ (str "i64le", (PrimitiveWireType.i64, some Endianness.little))
    ∷ (str "bool", (PrimitiveWireType.bool, none))
    ∷ (str "bit", (PrimitiveWireType.bit, none))
    ∷ []

unfoldable pub resolve_primitive :
    Str → TypeRegistry → Option (PrimitiveWireType × Option Endianness)
resolve_primitive name r = get name (primitives r.module_endianness)

unfoldable pub contains : Str → TypeRegistry → Bool
contains name r =
    contains_key name r.declarations
    || (contains_key name r.aliases || is_some (resolve_primitive name r))

-- What a name that is no alias means.
unfoldable pub resolve_direct : Str → TypeRegistry → Option ResolvedType
resolve_direct name r = elim (resolve_primitive name r) [
  | some (prim, endian) ↦ some (ResolvedType.primitive prim endian)
  | none ↦ elim (get name r.declarations) [
    | some kind ↦ some (ResolvedType.user_defined name kind)
    | none ↦ none
  ]
]

-- The depth counts up to 32 in the source; here `left` counts the aliases that may still follow.
unfoldable pub resolve_type_name_inner : ℕ → Str → TypeRegistry → Option ResolvedType
resolve_type_name_inner zero name r = none
resolve_type_name_inner (suc left) name r = elim (get name r.aliases) [
  | some target ↦ resolve_type_name_inner left target r
  | none ↦ resolve_direct name r
]

-- The depths 0 to 32 are looked at.
unfoldable pub resolve_type_name : Str → TypeRegistry → Option ResolvedType
resolve_type_name name r = resolve_type_name_inner 33 name r

-- The names at the end of the list.
unfoldable pub primitive_names : List Str
primitive_names =
    str "u8"
    ∷ str "u16"
    ∷ str "u32"
    ∷ str "u64"
    ∷ str "i8"
    ∷ str "i16"
    ∷ str "i32"
    ∷ str "i64"
    ∷ str "u16be"
    ∷ str "u16le"
    ∷ str "u24"
    ∷ str "u24be"
    ∷ str "u24le"
    ∷ str "u32be"
    ∷ str "u32le"
    ∷ str "u64be"
    ∷ str "u64le"
    ∷ str "i16be"
    ∷ str "i16le"
    ∷ str "i32be"
    ∷ str "i32le"
    ∷ str "i64be"
    ∷ str "i64le"
    ∷ str "bool"
    ∷ str "bit"
    ∷ []

unfoldable pub all_names : TypeRegistry → List Str
all_names r =
    map (λ (d : Str × DeclKind). d.0) r.declarations
    ++ (map (λ (a : Str × Str). a.0) r.aliases ++ primitive_names)
