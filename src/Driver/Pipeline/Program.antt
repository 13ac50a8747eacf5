-- ===== src/Driver/Pipeline/Program.antt =====
-- What `compile` of crates/wirespec-driver/src/driver.rs does with the modules of a program.
use wirespec.Base.{ℕ, List, [], ◌∷◌, Option, none}
use wirespec.Base.{◌≡◌, refl, ap, ◌∙◌, subst}
use wirespec.Base.Str.{Str}
use wirespec.Base.Outcome.{Outcome, ok, err, panic, bind_inv, map_err}
use wirespec.Sema.Registry.{DeclKind, get}
use wirespec.Sema.Catalog.{ComplianceProfile}
use wirespec.Sema.Ir.{SemanticModule}
use wirespec.Syntax.Ast.Items.{AstModule}
use wirespec.Driver.Resolve.{Files, ResolvedModule, resolve}
use wirespec.Driver.Pipeline.{
  ExternalType, ExternalTypes, Asn1ModuleMap, CompiledModule, PipelineError,
}
use wirespec.Codec.Ir.{CodecModule}
use wirespec.Driver.Pipeline.{compile_module, compile_loop, compile, collect_external_types}
use wirespec.Driver.Pipeline.{resolve_error, pipeline_error}
use wirespec.Driver.Pipeline.Known.{declared, meant_by, get-collect_external_types}

-- What a name means by the modules that are compiled, the latest first.
abbrev pub known : Str → List CompiledModule → Option ExternalType
known name [] = none
known name (c ∷ earlier) =
    meant_by c.module_name c.source_prefix name (declared c.codec) (known name earlier)

-- Each module is compiled from its source, with a registry that knows what the modules before it
-- declare and nothing else.
abbrev pub IsProgram :
    (Str → ExternalTypes → Outcome PipelineError CodecModule)
    → List CompiledModule
    → List ResolvedModule
    → List CompiledModule
    → Type 0
IsProgram compile_one earlier [] [] = Unit
IsProgram compile_one earlier [] (c ∷ cs) = ⊥
IsProgram compile_one earlier (m ∷ ms) [] = ⊥
IsProgram compile_one earlier (m ∷ ms) (c ∷ cs) =
    (c.module_name ≡ m.module_name)
    × (c.source_prefix ≡ m.source_prefix)
    × ((types : ExternalTypes) × ((name : Str) → get name types ≡ known name earlier)
        × (compile_one m.source types ≡ ok c.codec))
    × IsProgram compile_one (c ∷ earlier) ms cs

map_err_ok : {E F A : Type 0} (f : E → F) (m : Outcome E A) (a : A) → map_err f m ≡ ok a → m ≡ ok a
map_err_ok f (ok x) a h = cc
map_err_ok f (err e) a h = absurd cc
map_err_ok f panic a h = absurd cc

module _ {E A : Type 0} {a b : A} where
  ok_injective : (m n : Outcome E A) → m ≡ ok a → n ≡ ok b → m ≡ n → a ≡ b
  ok_injective m n e f h = cc

module _ (parse : Str → Option AstModule)
    (analyze : AstModule → ComplianceProfile → List (Str × DeclKind) → Option SemanticModule)
    (profile : ComplianceProfile) (asn1_modules : Asn1ModuleMap) where
  compile_loop-IsProgram :
      (ms : List ResolvedModule) (types : ExternalTypes) (earlier cs : List CompiledModule)
      → ((name : Str) → get name types ≡ known name earlier)
      → compile_loop parse analyze profile asn1_modules ms types ≡ ok cs
      → IsProgram (compile_module parse analyze profile asn1_modules) earlier ms cs
  unfolding compile_loop
  compile_loop-IsProgram [] types earlier [] e h = tt
  compile_loop-IsProgram [] types earlier (c ∷ cs) e h = absurd cc
  compile_loop-IsProgram (m ∷ ms) types earlier cs e h =
      let (codec, h1, compiled) =
        bind_inv _ cs (compile_module parse analyze profile asn1_modules m.source types) h in
      let next = collect_external_types codec m.module_name m.source_prefix types in
      let (rest, h2, looped) =
        bind_inv _ cs (compile_loop parse analyze profile asn1_modules ms next) h1 in
      let one : CompiledModule = record {
        module_name = m.module_name;
        source_prefix = m.source_prefix;
        codec = codec;
      } in
      let whole : one ∷ rest ≡ cs = ok_injective _ _ refl refl h2 in
      let newer : (name : Str) → get name next ≡ known name (one ∷ earlier) = λ name.
        get-collect_external_types codec m.module_name m.source_prefix name types
        ∙ ap (meant_by m.module_name m.source_prefix name (declared codec)) (e name) in
      subst (IsProgram (compile_module parse analyze profile asn1_modules) earlier (m ∷ ms)) whole (
        refl,
        refl,
        (types, e, compiled),
        compile_loop-IsProgram ms next (one ∷ earlier) rest newer looped,
      )

  -- Where `compile` succeeds, the search gave an order of the modules, and the result has one compiled
  -- module for each of them, in that order and under its name and prefix. Each is `compile_module` of
  -- its source, with a registry in which a name means what the last declaration of it in the latest
  -- earlier module says, exported or not, and is unknown if no earlier module declares it.
  pub compile-IsProgram :
      (fs : Files) (fuel : ℕ) (entry : Str) (include_paths : List Str) (cs : List CompiledModule)
      → compile parse analyze profile asn1_modules fs fuel entry include_paths ≡ ok cs
      → (ms : List ResolvedModule) × (resolve fs fuel entry include_paths ≡ ok ms)
        × IsProgram (compile_module parse analyze profile asn1_modules) [] ms cs
  unfolding compile
  compile-IsProgram fs fuel entry include_paths cs h =
      let (ms, h1, found) =
        bind_inv _ cs (map_err resolve_error (resolve fs fuel entry include_paths)) h in
      (
        ms,
        map_err_ok resolve_error (resolve fs fuel entry include_paths) ms found,
        compile_loop-IsProgram ms [] [] cs (λ name. unfold get in refl)
            (map_err_ok pipeline_error (compile_loop parse analyze profile asn1_modules ms []) cs
              h1),
      )
