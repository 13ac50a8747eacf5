-- ===== src/Driver/Pipeline.antt =====
-- crates/wirespec-driver/src/pipeline.rs and driver.rs: a module through the passes, with the types of
-- the modules compiled before it, and all modules of a program. The parser and the analyzer are
-- parameters; an error message is a constructor without their texts.
pub mod Known
pub mod Program
mod Tests
use wirespec.Base.{
  ℕ, List, [], ◌∷◌, ◌++◌, Option, none, some, Bool, true, false, map, if◌then◌else◌,
}
use wirespec.Base.Str.{Str, str}
use wirespec.Base.Outcome.{Outcome, ok, err, panic, ◌>>=◌, map_err}
use wirespec.Sema.Registry.{DeclKind, get}
use wirespec.Sema.Catalog.{ComplianceProfile}
use wirespec.Sema.Ir.{SemanticModule, ImportedDeclKind, ImportedTypeRef}
use wirespec.Layout.Lower.{LayoutError}
use wirespec.Layout.Lower as Layout
use wirespec.Codec.Lower.{CodecError}
use wirespec.Codec.Scopes as Codec
use wirespec.Codec.Ir.{CodecModule}
use wirespec.Syntax.Ast.Items.{AstModule, AstImport, AstTopItem, AstExternAsn1}
use wirespec.Driver.Resolve.{Files, ResolvedModule, ResolveError, resolve}

pub record Asn1ModuleInfo : Type 0 where
  pub module_name : Str
  pub source : Str

abbrev pub Asn1ModuleMap : Type 0
Asn1ModuleMap = List (Str × Asn1ModuleInfo)

pub data PipelineError : Type 0 where
  parse_error : PipelineError
  semantic_error : PipelineError
  layout_error : LayoutError → PipelineError
  codec_error : CodecError → PipelineError

pub data ExternalTypeKind : Type 0 where
  var_int packet frame capsule enum flags state_machine : ExternalTypeKind

pub record ExternalType : Type 0 where
  pub from_module : Str
  pub name : Str
  pub source_prefix : Str
  pub kind : ExternalTypeKind

abbrev pub ExternalTypes : Type 0
ExternalTypes = List (Str × ExternalType)

abbrev pub register : Str → ExternalType → ExternalTypes → ExternalTypes
register name ext types = (name, ext) ∷ types

-- The paths of the ASN.1 modules that are compiled.
abbrev pub inject_path : Asn1ModuleMap → AstExternAsn1 → AstExternAsn1
inject_path modules ext = elim (ext.rust_module) [
  | some path ↦ ext
  | none ↦ elim (get ext.path modules) [
    | none ↦ ext
    | some info ↦ record ext { rust_module = some (str "crate::" ++ info.module_name) }
  ]
]

unfoldable pub inject_item : Asn1ModuleMap → AstTopItem → AstTopItem
inject_item modules (AstTopItem.extern_asn1 ext) = AstTopItem.extern_asn1 (inject_path modules ext)
inject_item modules item = item

abbrev pub decl_kind : ExternalTypeKind → DeclKind
decl_kind ExternalTypeKind.var_int = DeclKind.var_int
decl_kind ExternalTypeKind.packet = DeclKind.packet
decl_kind ExternalTypeKind.frame = DeclKind.frame
decl_kind ExternalTypeKind.capsule = DeclKind.capsule
decl_kind ExternalTypeKind.enum = DeclKind.enum
decl_kind ExternalTypeKind.flags = DeclKind.flags
decl_kind ExternalTypeKind.state_machine = DeclKind.state_machine

abbrev pub imported_kind : ExternalTypeKind → ImportedDeclKind
imported_kind ExternalTypeKind.var_int = ImportedDeclKind.var_int
imported_kind ExternalTypeKind.packet = ImportedDeclKind.packet
imported_kind ExternalTypeKind.frame = ImportedDeclKind.frame
imported_kind ExternalTypeKind.capsule = ImportedDeclKind.capsule
imported_kind ExternalTypeKind.enum = ImportedDeclKind.enum
imported_kind ExternalTypeKind.flags = ImportedDeclKind.flags
imported_kind ExternalTypeKind.state_machine = ImportedDeclKind.packet

-- `ext_map`.
unfoldable pub ext_map : ExternalTypes → List (Str × DeclKind)
ext_map types = map (λ t. (t.0, decl_kind t.1.kind)) types

-- The loop over the imports.
unfoldable pub populate_imports : ExternalTypes → List AstImport → List ImportedTypeRef
populate_imports types [] = []
populate_imports types (i ∷ imports) =
    let more = populate_imports types imports in
    elim (i.name) [
      | none ↦ more
      | some item_name ↦ elim (get item_name types) [
        | none ↦ more
        | some ext ↦
            record {
              import_id = str "import:" ++ item_name;
              name = item_name;
              source_module = ext.from_module;
              source_prefix = ext.source_prefix;
              decl_kind = imported_kind ext.kind;
            }
            ∷ more
      ]
    ]

-- One `for` loop of `collect_external_types`.
unfoldable pub register_all :
    {A : Type 0}
    → (A → Str)
    → (A → ExternalTypeKind)
    → Str
    → Str
    → List A
    → ExternalTypes
    → ExternalTypes
register_all name_of kind_of module_name source_prefix [] types = types
register_all name_of kind_of module_name source_prefix (a ∷ items) types =
    register_all name_of kind_of module_name source_prefix items (
      register (name_of a)
        (record {
          from_module = module_name;
          name = name_of a;
          source_prefix = source_prefix;
          kind = kind_of a;
        })
        types)

unfoldable pub collect_external_types : CodecModule → Str → Str → ExternalTypes → ExternalTypes
collect_external_types codec m p t0 =
    let t1 = register_all (λ v. v.name) (λ v. ExternalTypeKind.var_int) m p codec.varints t0 in
    let t2 = register_all (λ k. k.name) (λ k. ExternalTypeKind.packet) m p codec.packets t1 in
    let t3 = register_all (λ f. f.name) (λ f. ExternalTypeKind.frame) m p codec.frames t2 in
    let t4 = register_all (λ c. c.name) (λ c. ExternalTypeKind.capsule) m p codec.capsules t3 in
    let t5 =
      register_all (λ e. e.name)
        (λ e. if e.is_flags then ExternalTypeKind.flags else ExternalTypeKind.enum) m p codec.enums
        t4 in
    register_all (λ s. s.name) (λ s. ExternalTypeKind.state_machine) m p codec.state_machines t5

abbrev pub or_else : {A : Type 0} → PipelineError → Option A → Outcome PipelineError A
or_else e none = err e
or_else e (some a) = ok a

pub record CompiledModule : Type 0 where
  pub module_name : Str
  pub source_prefix : Str
  pub codec : CodecModule

pub data DriverError : Type 0 where
  resolve_error : ResolveError → DriverError
  pipeline_error : PipelineError → DriverError

module _ (parse : Str → Option AstModule)
    (analyze : AstModule → ComplianceProfile → List (Str × DeclKind) → Option SemanticModule)
    (profile : ComplianceProfile) (asn1_modules : Asn1ModuleMap) where
  unfoldable pub compile_module : Str → ExternalTypes → Outcome PipelineError CodecModule
  compile_module source types = do
    ast ← or_else PipelineError.parse_error (parse source)
    sem ← or_else semantic_error (
        analyze (record ast { items = map (inject_item asn1_modules) ast.items }) profile
          (ext_map types))
    layout ←
        map_err layout_error (
          Layout.lower (record sem { imports = sem.imports ++ populate_imports types ast.imports }))
    map_err codec_error (Codec.lower layout)

  -- The loop of `compile`.
  unfoldable pub compile_loop :
      List ResolvedModule → ExternalTypes → Outcome PipelineError (List CompiledModule)
  compile_loop [] types = ok []
  compile_loop (m ∷ ms) types = do
    codec ← compile_module m.source types
    compiled ← compile_loop ms (collect_external_types codec m.module_name m.source_prefix types)
    ok (
        record { module_name = m.module_name; source_prefix = m.source_prefix; codec = codec }
        ∷ compiled)

  unfoldable pub compile : Files → ℕ → Str → List Str → Outcome DriverError (List CompiledModule)
  compile fs fuel entry include_paths = do
    resolved ← map_err resolve_error (resolve fs fuel entry include_paths)
    map_err pipeline_error (compile_loop resolved [])
