-- ===== src/Codec/Checksum/Widths.antt =====
-- The checksum algorithms that a profile allows: the field types that they need, and the widths
-- that the codec pass plans with.
use wirespec.Base.{◌≡◌, refl, subst, sym, inl, inr, In, Option, some}
use wirespec.Base.Str.{Str, str, str_eq}
use wirespec.Sema.Types.{Endianness, PrimitiveWireType, byte_width}
use wirespec.Sema.Catalog as Catalog
use wirespec.Sema.Catalog.{ComplianceProfile, allowed_checksum_algorithms, checksum_required_type}
use wirespec.Sema.Catalog.{
  as_str, algorithms_for_profile, profile_includes, keep, catalog, lookup, find,
}
use wirespec.Sema.Registry.{TypeRegistry, resolve_primitive, primitives, get}
use wirespec.Base.{arith, true, none}
use wirespec.Base.Str.{str_eq→eq}
use wirespec.Sema.Validate.{validate_checksum_profile, validate_checksum_field_type}
use wirespec.Sema.Validate.Names.{validate_checksum_profile-In}
use wirespec.Codec.Checksum.{checksum_field_width}

-- The algorithm needs a field of a primitive type, whose bytes are as many as the catalog and the
-- plan of the codec pass say.
abbrev pub IsPlannable : TypeRegistry → Str → Type 0
IsPlannable r algorithm =
    (t : Str) × (w : PrimitiveWireType) × (e : Option Endianness) × (checksum_required_type
        algorithm
      ≡ some t)
    × (resolve_primitive t r ≡ some (w, e))
    × (Catalog.checksum_field_width algorithm ≡ some (byte_width w))
    × (checksum_field_width algorithm ≡ byte_width w)

module _ (r : TypeRegistry) where
  wide :
      IsPlannable r (str "internet")
      × IsPlannable r (str "crc32")
      × IsPlannable r (str "crc32c")
      × IsPlannable r (str "fletcher16")
  unfolding checksum_required_type lookup find catalog str_eq resolve_primitive primitives get
      Catalog.checksum_field_width checksum_field_width byte_width
  wide = (
    (str "u16", PrimitiveWireType.u16, some r.module_endianness, refl, refl, refl, refl),
    (str "u32", PrimitiveWireType.u32, some r.module_endianness, refl, refl, refl, refl),
    (str "u32", PrimitiveWireType.u32, some r.module_endianness, refl, refl, refl, refl),
    (str "u16", PrimitiveWireType.u16, some r.module_endianness, refl, refl, refl, refl),
  )

  -- Every checksum algorithm that a profile allows can be planned: its field type is the name of a
  -- primitive, in every module, and the width that the codec pass plans with is that type's.
  pub allowed_checksum_algorithms-IsPlannable :
      (profile : ComplianceProfile) (algorithm : Str)
      → In algorithm (allowed_checksum_algorithms profile)
      → IsPlannable r algorithm
  unfolding allowed_checksum_algorithms as_str algorithms_for_profile profile_includes keep catalog
      str_eq
  allowed_checksum_algorithms-IsPlannable ComplianceProfile.phase2_strict_v1_0 algorithm h =
      elim h [
        | inl e ↦ subst (IsPlannable r) (sym e) wide.0
        | inr (inl e) ↦ subst (IsPlannable r) (sym e) wide.1
        | inr (inr (inl e)) ↦ subst (IsPlannable r) (sym e) wide.2
        | inr (inr (inr h')) ↦ absurd h'
      ]
  allowed_checksum_algorithms-IsPlannable ComplianceProfile.phase2_extended_current algorithm h =
      elim h [
        | inl e ↦ subst (IsPlannable r) (sym e) wide.0
        | inr (inl e) ↦ subst (IsPlannable r) (sym e) wide.1
        | inr (inr (inl e)) ↦ subst (IsPlannable r) (sym e) wide.2
        | inr (inr (inr (inl e))) ↦ subst (IsPlannable r) (sym e) wide.3
        | inr (inr (inr (inr h'))) ↦ absurd h'
      ]

  -- A checksum field that passes the checks of its algorithm against the profile and of its type
  -- against the algorithm has the name of a primitive type, in every module, and the codec pass plans
  -- with the byte width of that type.
  pub checked_checksum_width :
      (profile : ComplianceProfile) (algorithm field_type_name field_name : Str)
      → validate_checksum_profile algorithm profile ≡ none
      → validate_checksum_field_type algorithm field_type_name field_name ≡ none
      → (w : PrimitiveWireType) × (e : Option Endianness) × (resolve_primitive field_type_name r
          ≡ some (w, e))
        × (checksum_field_width algorithm ≡ byte_width w)
  unfolding validate_checksum_field_type
  checked_checksum_width profile algorithm field_type_name field_name allowed typed =
      let (t, w, e, required, resolved, _, width) =
        allowed_checksum_algorithms-IsPlannable profile algorithm
          ((validate_checksum_profile-In algorithm profile).0 allowed) in
      let same : str_eq field_type_name t ≡ true = ground (arith, typed, required) in
      (w, e, rw (str_eq→eq field_type_name t same) resolved, width)
