-- ===== src/Driver/Pipeline/Known.antt =====
-- Which types `collect_external_types` of crates/wirespec-driver/src/pipeline.rs makes known.
use wirespec.Base.{List, [], ◌∷◌, ◌++◌, Option, some, map, if◌then◌else◌}
use wirespec.Base.{◌≡◌, refl}
use wirespec.Base.Str.{Str, str_eq}
use wirespec.Sema.Registry.{get}
use wirespec.Codec.Ir.{CodecModule}
use wirespec.Driver.Pipeline.{ExternalType, ExternalTypeKind, ExternalTypes, register_all}
use wirespec.Driver.Pipeline.{collect_external_types}

-- The names that a compiled module declares, with their kinds.
abbrev pub declared : CodecModule → List (Str × ExternalTypeKind)
declared codec =
    map (λ v. (v.name, ExternalTypeKind.var_int)) codec.varints
    ++ (map (λ k. (k.name, ExternalTypeKind.packet)) codec.packets
        ++ (map (λ f. (f.name, ExternalTypeKind.frame)) codec.frames
            ++ (map (λ c. (c.name, ExternalTypeKind.capsule)) codec.capsules
                ++ (map
                      (λ e. (
                        e.name,
                        if e.is_flags then ExternalTypeKind.flags else ExternalTypeKind.enum,
                      ))
                      codec.enums
                    ++ map (λ s. (s.name, ExternalTypeKind.state_machine)) codec.state_machines))))

-- What `name` means by the declarations of a module, of which the last counts, or else before them.
unfoldable pub meant_by :
    Str → Str → Str → List (Str × ExternalTypeKind) → Option ExternalType → Option ExternalType
meant_by m p name [] before = before
meant_by m p name ((n, k) ∷ decls) before = meant_by m p name decls (
    if str_eq n name
    then some (record { from_module = m; name = n; source_prefix = p; kind = k })
    else before)

meant_by-append :
    (m p name : Str) (xs ys : List (Str × ExternalTypeKind)) (before : Option ExternalType)
    → meant_by m p name (xs ++ ys) before ≡ meant_by m p name ys (meant_by m p name xs before)
unfolding meant_by
meant_by-append m p name [] ys before = refl
meant_by-append m p name ((n, k) ∷ xs) ys before = meant_by-append m p name xs ys _

get-register_all :
    {A : Type 0} (name_of : A → Str) (kind_of : A → ExternalTypeKind) (m p name : Str)
    (items : List A) (types : ExternalTypes)
    → get name (register_all name_of kind_of m p items types)
      ≡ meant_by m p name (map (λ a. (name_of a, kind_of a)) items) (get name types)
unfolding register_all meant_by get
get-register_all name_of kind_of m p name [] types = refl
get-register_all name_of kind_of m p name (a ∷ items) types =
    get-register_all name_of kind_of m p name items _

-- The registry after a module's types are collected knows each name by the module's last declaration
-- of it, or else as before.
pub get-collect_external_types :
    (codec : CodecModule) (m p name : Str) (types : ExternalTypes)
    → get name (collect_external_types codec m p types)
      ≡ meant_by m p name (declared codec) (get name types)
unfolding collect_external_types
get-collect_external_types codec m p name types = simp (get-register_all, meant_by-append)
