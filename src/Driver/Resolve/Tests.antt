-- ===== src/Driver/Resolve/Tests.antt =====
-- Runs of the search's theorems on two files, with and without an import back.
use mathlib.Core.List.{reverse}
use wirespec.Base.{
  ◌≡◌, ◌≢◌, refl, arith, List, [], ◌∷◌, ◌++◌, Option, none, some, Bool, true, false, In,
}
use wirespec.Base.{if◌then◌else◌}
use wirespec.Base.Str.{Str, str, str_eq, has}
use wirespec.Base.Outcome.{ok, err, panic}
use wirespec.Sema.Registry.{get}
use wirespec.Syntax.Ast.Expr.{AstLiteralValue}
use wirespec.Syntax.Ast.Items.{AstModule, AstImport, AstTopItem}
use wirespec.Driver.Resolve.{
  Files, ResolvedModule, resolve, effective_paths, visit, visit_new, import_loop,
}
use wirespec.Driver.Resolve.{
  check_export, check_module, finish, remove, module_name_of, find_module, find_in,
}
use wirespec.Driver.Resolve.{
  not_found_in, replace_dots, has_dot, get_exportable_names, exported_or_all,
}
use wirespec.Driver.Resolve.{collect_names, item_name, take_modules, remove_key, circular_import}
use wirespec.Driver.Resolve.Modules.{AreOrdered, resolve-AreOrdered}
use wirespec.Driver.Resolve.Ends.{resolve-ne-panic}
use wirespec.Driver.Resolve.Cycle.{Reaches, resolve-Reaches}

abbrev module_with : List AstImport → List AstTopItem → AstModule
module_with imports items = record {
  module_decl = none;
  imports = imports;
  annotations = [];
  items = items;
  span = none;
}

abbrev import_of : Str → Option Str → AstImport
import_of from_module name = record { from_module = from_module; name = name; span = none }

abbrev max_len : AstTopItem
max_len = AstTopItem.const (record {
  name = str "MAX_LEN";
  type_name = str "u8";
  value = AstLiteralValue.null;
  annotations = [];
  exported = true;
  span = none;
})

-- `d/a.wspec` imports `b.MAX_LEN`, and `d/b.wspec` has the imports `back`.
abbrev read_file : Str → Option Str
read_file p =
    if str_eq (str "d/a.wspec") p
    then some (str "A")
    else if str_eq (str "d/b.wspec") p
    then some (str "B")
    else none

abbrev parse_file : List AstImport → Str → Option AstModule
parse_file back source =
    if str_eq (str "A") source
    then some (module_with (import_of (str "b") (some (str "MAX_LEN")) ∷ []) [])
    else some (module_with back (max_len ∷ []))

abbrev exists_file : Option Str → Bool
exists_file none = false
exists_file (some source) = true

abbrev pub two_files : List AstImport → Files
two_files back = record {
  canonicalize = λ p. some p;
  read_to_string = read_file;
  exists = λ p. exists_file (read_file p);
  join = λ base rel. base ++ (str "/" ++ rel);
  parent = λ p. some (str "d");
  file_stem = λ p. p;
  parse = parse_file back;
}

abbrev file_module : Str → Str → AstModule → ResolvedModule
file_module path source ast = record {
  path = path;
  module_name = path;
  source_prefix = replace_dots b'_' path;
  source = source;
  ast = ast;
}

abbrev pub both : List ResolvedModule
both =
    file_module (str "d/b.wspec") (str "B") (module_with [] (max_len ∷ []))
    ∷ file_module (str "d/a.wspec") (str "A")
        (module_with (import_of (str "b") (some (str "MAX_LEN")) ∷ []) [])
    ∷ []

pub both_resolved : resolve (two_files []) 3 (str "d/a.wspec") [] ≡ ok both
unfolding resolve effective_paths visit visit_new import_loop check_export check_module finish
    remove module_name_of find_module find_in not_found_in replace_dots has_dot get_exportable_names
    exported_or_all collect_names item_name take_modules remove_key get has str_eq
both_resolved = refl

circle_found :
    resolve (two_files (import_of (str "a") none ∷ [])) 3 (str "d/a.wspec") []
    ≡ err (circular_import (str "d/a.wspec"))
unfolding resolve effective_paths visit visit_new import_loop check_export check_module finish
    remove module_name_of find_module find_in not_found_in replace_dots has_dot get_exportable_names
    exported_or_all collect_names item_name take_modules remove_key get has str_eq
circle_found = refl

abbrev both_files : List Str
both_files = str "d/a.wspec" ∷ str "d/b.wspec" ∷ []

both_listed :
    (p d source : Str) → some p ≡ some d → read_file d ≡ some source → has both_files d ≡ true
unfolding has
both_listed p d source e h = ground (arith, h)

resolve-AreOrdered_example :
    (abs : Str) × (own : ResolvedModule) × (newest_first : List ResolvedModule) × (some
        (str "d/a.wspec")
      ≡ some abs)
    × (some abs ≡ some own.path)
    × In own newest_first
    × (both ≡ reverse newest_first)
    × AreOrdered (two_files []) (effective_paths (two_files []) abs []) newest_first
resolve-AreOrdered_example =
    resolve-AreOrdered (two_files []) 3 (str "d/a.wspec") [] both both_resolved

resolve-ne-panic_example :
    resolve (two_files (import_of (str "a") none ∷ [])) 3 (str "d/a.wspec") [] ≢ panic
resolve-ne-panic_example =
    resolve-ne-panic (two_files (import_of (str "a") none ∷ [])) both_files 3 (str "d/a.wspec") []
      both_listed (omega arith)

resolve-Reaches_example :
    (abs : Str) × (some (str "d/a.wspec") ≡ some abs)
    × Reaches
        (two_files (import_of (str "a") none ∷ []))
        (effective_paths (two_files (import_of (str "a") none ∷ [])) abs [])
        (str "d/a.wspec")
        (str "d/a.wspec")
resolve-Reaches_example =
    resolve-Reaches (two_files (import_of (str "a") none ∷ [])) 3 (str "d/a.wspec") []
      (str "d/a.wspec") circle_found
