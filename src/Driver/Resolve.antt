-- ===== src/Driver/Resolve.antt =====
-- crates/wirespec-driver/src/resolve.rs: the depth-first search through the imports of an entry file.
-- A `HashMap` and a `HashSet` are lists whose newest entry counts; a path is its text.
pub mod Order
pub mod Modules
pub mod Ends
pub mod Cycle
pub mod Tests
use wirespec.Base.{ℕ, zero, suc, List, [], ◌∷◌, ◌++◌, Option, none, some, Bool, true, false, map}
use wirespec.Base.{if◌then◌else◌, ◌==◌, not}
use wirespec.Base.Str.{Str, str, str_eq, has}
use wirespec.Base.Outcome.{Outcome, ok, err, panic, ◌>>=◌}
use wirespec.Sema.Registry.{get, contains_key}
use wirespec.Syntax.Ast.Items.{AstModule, AstImport, AstTopItem}

pub record ResolvedModule : Type 0 where
  pub path : Str
  pub module_name : Str
  pub source_prefix : Str
  pub source : Str
  pub ast : AstModule

-- The messages, with what they show; the operating system's own texts are left out.
pub data ResolveError : Type 0 where
  cannot_resolve : (path : Str) → ResolveError
  circular_import : (path : Str) → ResolveError
  cannot_read : (path : Str) → ResolveError
  parse_error : (path : Str) → ResolveError
  does_not_export : (module_name item_name : Str) → ResolveError
  not_found : (module_name : Str) → (searched : List Str) → ResolveError

-- What the standard library and the file system answer, and the parser.
pub record Files : Type 0 where
  pub canonicalize : Str → Option Str
  pub read_to_string : Str → Option Str
  pub exists : Str → Bool
  pub join : Str → Str → Str
  pub parent : Str → Option Str
  pub file_stem : Str → Str
  pub parse : Str → Option AstModule

-- The name of an item and whether it is exported; none for an item that has no name.
unfoldable pub item_name : AstTopItem → Option (Str × Bool)
item_name (AstTopItem.const c) = some (c.name, c.exported)
item_name (AstTopItem.enum e) = some (e.name, e.exported)
item_name (AstTopItem.flags f) = some (f.name, f.exported)
item_name (AstTopItem.type t) = some (t.name, t.exported)
item_name (AstTopItem.packet p) = some (p.name, p.exported)
item_name (AstTopItem.frame f) = some (f.name, f.exported)
item_name (AstTopItem.capsule c) = some (c.name, c.exported)
item_name (AstTopItem.continuation_var_int v) = some (v.name, v.exported)
item_name (AstTopItem.state_machine s) = some (s.name, s.exported)
item_name (AstTopItem.static_assert a) = none
item_name (AstTopItem.extern_asn1 e) = none

-- `all_names` and `exported_names`; `has_exports` is that the second is not empty.
unfoldable pub collect_names : List AstTopItem → List Str × List Str
collect_names [] = ([], [])
collect_names (item ∷ items) =
    let (all_names, exported_names) = collect_names items in
    elim (item_name item) [
      | none ↦ (all_names, exported_names)
      | some (name, exported) ↦
          (name ∷ all_names, if exported then name ∷ exported_names else exported_names)
    ]

unfoldable pub exported_or_all : List Str × List Str → List Str
exported_or_all (all_names, []) = all_names
exported_or_all (all_names, name ∷ exported_names) = name ∷ exported_names

unfoldable pub get_exportable_names : AstModule → List Str
get_exportable_names ast = exported_or_all (collect_names ast.items)

-- `replace('.', to)` for a text of one character.
unfoldable pub replace_dots : ℕ → Str → Str
replace_dots to [] = []
replace_dots to (c ∷ s) = (if c == b'.' then to else c) ∷ replace_dots to s

unfoldable pub has_dot : Str → Bool
has_dot [] = false
has_dot (c ∷ s) = if c == b'.' then true else has_dot s

-- `for base in search_paths { if base.join(rel_path).exists() { return … } }`.
unfoldable pub find_in : Files → Str → List Str → Option Str
find_in fs rel_path [] = none
find_in fs rel_path (base ∷ bases) =
    let candidate = fs.join base rel_path in
    if fs.exists candidate then some candidate else find_in fs rel_path bases

unfoldable pub not_found_in : Str → List Str → Option Str → Outcome ResolveError Str
not_found_in module_name search_paths (some path) = ok path
not_found_in module_name search_paths none = err (not_found module_name search_paths)

unfoldable pub find_module : Files → Str → List Str → Outcome ResolveError Str
find_module fs module_name search_paths =
    elim (find_in fs (replace_dots b'/' module_name ++ str ".wspec") search_paths) [
      | some path ↦ ok path
      | none ↦ not_found_in module_name search_paths (
          if not (has_dot module_name)
          then find_in fs (module_name ++ (str "/" ++ (module_name ++ str ".wspec"))) search_paths
          else none)
    ]

-- The three collections that `visit` changes.
pub record Visited : Type 0 where
  pub resolved : List (Str × ResolvedModule)
  pub in_progress : List Str
  pub order : List Str

-- `ok_or_else(…)?`.
abbrev pub or_err {ℓ} : {A : Type ℓ} → ResolveError → Option A → Outcome ResolveError A
or_err e none = err e
or_err e (some a) = ok a

-- `in_progress.remove(&path)`.
unfoldable pub remove : Str → List Str → List Str
remove path [] = []
remove path (p ∷ ps) = if str_eq p path then remove path ps else p ∷ remove path ps

unfoldable pub module_name_of : Files → Str → AstModule → Str
module_name_of fs abs ast = elim (ast.module_decl) [
  | some decl ↦ decl.name
  | none ↦ fs.file_stem abs
]

-- What stands behind the loop over the imports.
unfoldable pub finish : Files → Str → Str → AstModule → Visited → Visited
finish fs abs source ast st = record {
  resolved =
      (
        abs,
        record {
          path = abs;
          module_name = module_name_of fs abs ast;
          source_prefix = replace_dots b'_' (module_name_of fs abs ast);
          source = source;
          ast = ast;
        },
      )
      ∷ st.resolved;
  in_progress = remove abs st.in_progress;
  order = st.order ++ (abs ∷ []);
}

module _ (fs : Files) (search_paths : List Str) where
  unfoldable pub check_module : Str → Option ResolvedModule → Visited → Outcome ResolveError Visited
  check_module item_name none st = ok st
  check_module item_name (some m) st =
      if has (get_exportable_names m.ast) item_name
      then ok st
      else err (does_not_export m.module_name item_name)

  -- The check that an imported name is exported.
  unfoldable pub check_export : Option Str → Str → Visited → Outcome ResolveError Visited
  check_export none dep_path st = ok st
  check_export (some item_name) dep_path st = do
    dep_abs ← or_err (cannot_resolve dep_path) (fs.canonicalize dep_path)
    check_module item_name (get dep_abs st.resolved) st

  -- The loop over the imports; `visit_dep` is the recursive call.
  unfoldable pub import_loop :
      (Str → Visited → Outcome ResolveError Visited)
      → List AstImport
      → Visited
      → Outcome ResolveError Visited
  import_loop visit_dep [] st = ok st
  import_loop visit_dep (i ∷ imports) st = do
    dep_path ← find_module fs i.from_module search_paths
    st' ← visit_dep dep_path st
    st'' ← check_export i.name dep_path st'
    import_loop visit_dep imports st''

  -- The part behind the test for a cycle.
  unfoldable pub visit_new :
      (Str → Visited → Outcome ResolveError Visited) → Str → Visited → Outcome ResolveError Visited
  visit_new visit_dep abs st = do
    source ← or_err (cannot_read abs) (fs.read_to_string abs)
    ast ← or_err (parse_error abs) (fs.parse source)
    st' ← import_loop visit_dep ast.imports (record st { in_progress = abs ∷ st.in_progress })
    ok (finish fs abs source ast st')

  -- Recursion on fuel; it panics where the fuel ends.
  unfoldable pub visit : ℕ → Str → Visited → Outcome ResolveError Visited
  visit zero path st = panic
  visit (suc fuel) path st = do
    abs ← or_err (cannot_resolve path) (fs.canonicalize path)
    elim (contains_key abs st.resolved) [
      | true ↦ ok st
      | false ↦ elim (has st.in_progress abs) [
        | true ↦ err (circular_import abs)
        | false ↦ visit_new (visit fuel) abs st
      ]
    ]

-- `resolved.remove(&p).expect(…)` for each path of the order.
unfoldable pub remove_key : Str → List (Str × ResolvedModule) → List (Str × ResolvedModule)
remove_key path [] = []
remove_key path ((p, m) ∷ r) =
    if str_eq p path then remove_key path r else (p, m) ∷ remove_key path r

unfoldable pub take_modules :
    List Str → List (Str × ResolvedModule) → Outcome ResolveError (List ResolvedModule)
take_modules [] r = ok []
take_modules (p ∷ order) r = elim (get p r) [
  | none ↦ panic
  | some m ↦ do ms ← take_modules order (remove_key p r); ok (m ∷ ms)
]

-- The entry's directory is searched last, unless it is listed.
unfoldable pub effective_paths : Files → Str → List Str → List Str
effective_paths fs entry include_paths = elim (fs.parent entry) [
  | none ↦ include_paths
  | some parent ↦ if has include_paths parent then include_paths else include_paths ++ (parent ∷ [])
]

abbrev pub nothing_visited : Visited
nothing_visited = record { resolved = []; in_progress = []; order = [] }

unfoldable pub resolve : Files → ℕ → Str → List Str → Outcome ResolveError (List ResolvedModule)
resolve fs fuel entry include_paths = do
  abs ← or_err (cannot_resolve entry) (fs.canonicalize entry)
  st ← visit fs (effective_paths fs abs include_paths) fuel abs nothing_visited
  take_modules st.order st.resolved
