-- ===== src/Driver/Pipeline/Tests.antt =====
-- A run of the driver on two files, with its theorem there. The analyzer finds one enum in each file.
use wirespec.Base.{List, [], ◌∷◌, Option, none, some, false, ◌≡◌, refl}
use wirespec.Base.Str.{Str, str, str_eq}
use wirespec.Base.Outcome.{ok, push_each}
use wirespec.Sema.Types.{Endianness, SemanticType, PrimitiveWireType}
use wirespec.Sema.Registry.{DeclKind, get}
use wirespec.Sema.Catalog.{ComplianceProfile}
use wirespec.Sema.Ir.{SemanticModule, SemanticEnum, ImportedTypeRef, ImportedDeclKind}
use wirespec.Layout.Lower as Layout
use wirespec.Codec.Scopes as Codec
use wirespec.Codec.Ir.{CodecModule}
use wirespec.Syntax.Ast.Items.{AstModule}
use wirespec.Driver.Resolve.{Files, ResolvedModule, resolve, replace_dots}
use wirespec.Driver.Resolve.Tests.{two_files, both_resolved}
use wirespec.Driver.Pipeline.{
  CompiledModule, compile, compile_loop, compile_module, inject_item, ext_map,
}
use wirespec.Driver.Pipeline.{populate_imports, collect_external_types, register_all}
use wirespec.Driver.Pipeline.Program.{IsProgram, compile-IsProgram}

abbrev files : Files
files = two_files []

abbrev enum_max : SemanticEnum
enum_max = record {
  enum_id = str "enum:MAX_LEN";
  name = str "MAX_LEN";
  underlying_type = SemanticType.primitive PrimitiveWireType.u8 none;
  is_flags = false;
  derive_traits = [];
  members = [];
  span = none;
}

abbrev analyze_enum : AstModule → ComplianceProfile → List (Str × DeclKind) → Option SemanticModule
analyze_enum ast profile types = some (record {
  schema_version = str "1";
  compliance_profile = str "p";
  module_name = str "m";
  module_endianness = Endianness.big;
  imports = [];
  varints = [];
  consts = [];
  enums = enum_max ∷ [];
  packets = [];
  frames = [];
  capsules = [];
  state_machines = [];
  static_asserts = [];
  asn1_externs = [];
  item_order = [];
  warnings = [];
})

abbrev codec_with : List ImportedTypeRef → CodecModule
codec_with imports = record {
  schema_version = str "codec-ir/v1";
  module_name = str "m";
  module_endianness = Endianness.big;
  compliance_profile = str "p";
  imports = imports;
  varints = [];
  consts = [];
  enums = enum_max ∷ [];
  state_machines = [];
  packets = [];
  frames = [];
  capsules = [];
}

abbrev two_compiled : List CompiledModule
two_compiled =
    record { module_name = str "d/b.wspec"; source_prefix = str "d/b_wspec"; codec = codec_with [] }
    ∷ record {
      module_name = str "d/a.wspec";
      source_prefix = str "d/a_wspec";
      codec = codec_with (
          record {
            import_id = str "import:MAX_LEN";
            name = str "MAX_LEN";
            source_module = str "d/b.wspec";
            source_prefix = str "d/b_wspec";
            decl_kind = ImportedDeclKind.enum;
          }
          ∷ []);
    }
    ∷ []

compiled_both :
    compile files.parse analyze_enum ComplianceProfile.phase2_extended_current [] files 3
      (str "d/a.wspec")
      []
    ≡ ok two_compiled
unfolding compile compile_loop compile_module inject_item ext_map populate_imports
    collect_external_types register_all Layout.lower Codec.lower push_each get str_eq replace_dots
compiled_both = rw both_resolved refl

compile-IsProgram_example :
    (ms : List ResolvedModule) × (resolve files 3 (str "d/a.wspec") [] ≡ ok ms)
    × IsProgram
        (compile_module files.parse analyze_enum ComplianceProfile.phase2_extended_current [])
        []
        ms
        two_compiled
compile-IsProgram_example =
    compile-IsProgram files.parse analyze_enum ComplianceProfile.phase2_extended_current [] files 3
      (str "d/a.wspec") [] two_compiled compiled_both
