-- ===== src/Driver/Resolve/Ends.antt =====
-- The search ends: with fuel for every file there is, it never runs out.
use wirespec.Base.{ℕ, zero, suc, ◌+◌, ◌≤◌, ◌<◌, ◌≡◌, ◌≢◌, refl, sym, subst, arith, List, [], ◌∷◌}
use wirespec.Base.{Option, none, some, true, false, length, inl, inr, Bool-cases, Option-cases}
use wirespec.Base.{if◌then◌else◌}
use wirespec.Base.Str.{Str, str_eq, str_eq→eq, str_eq_refl, has}
use wirespec.Base.Outcome.{Outcome, ok, panic, bind_panic}
use wirespec.Sema.Registry.{get}
use wirespec.Syntax.Ast.Items.{AstImport}
use wirespec.Driver.Resolve.{Files, ResolveError, Visited, or_err, find_module, not_found_in}
use wirespec.Driver.Resolve.{check_module, check_export, import_loop, visit_new, visit}
use wirespec.Driver.Resolve.{
  effective_paths, nothing_visited, resolve, cannot_resolve, cannot_read, parse_error,
}
use wirespec.Driver.Resolve.Order.{IsValid, IsVisited, visit_lem, or_err-eq-ok}
use wirespec.Driver.Resolve.Modules.{take_visited}

-- How many of `files` are not in progress.
waiting : List Str → List Str → ℕ
waiting [] ip = 0
waiting (f ∷ files) ip = (if has ip f then 0 else 1) + waiting files ip

waiting-le : (files ip : List Str) (p : Str) → waiting files (p ∷ ip) ≤ waiting files ip
unfolding waiting has
waiting-le [] ip p = omega arith
waiting-le (f ∷ files) ip p = ground (arith, waiting-le files ip p)

waiting-lt :
    (files ip : List Str) (p : Str)
    → has files p ≡ true
    → has ip p ≡ false
    → waiting files (p ∷ ip) < waiting files ip
unfolding waiting has
waiting-lt [] ip p h idle = absurd cc
waiting-lt (f ∷ files) ip p h idle = elim (Bool-cases (str_eq f p)) [
  | inl hit ↦
      let same = str_eq→eq f p hit in
      rw same (ground (arith, idle, str_eq_refl p, waiting-le files ip p))
  | inr other ↦ ground (arith, h, other, waiting-lt files ip p)
]

waiting-le-length : (files ip : List Str) → waiting files ip ≤ length files
unfolding waiting
waiting-le-length [] ip = omega arith
waiting-le-length (f ∷ files) ip = ground (arith, waiting-le-length files ip)

or_err-ne-panic {ℓ} : {A : Type ℓ} (e : ResolveError) (o : Option A) → or_err e o ≢ panic
or_err-ne-panic e none h = cc
or_err-ne-panic e (some a) h = cc

find_module-ne-panic :
    (fs : Files) (name : Str) (paths : List Str) → find_module fs name paths ≢ panic
unfolding find_module not_found_in
find_module-ne-panic fs name paths h = ground (arith, h)

pub check_export_same :
    (fs : Files) (search_paths : List Str) (name : Option Str) (dep_path : Str) (st st' : Visited)
    → check_export fs search_paths name dep_path st ≡ ok st'
    → st ≡ st'
unfolding check_export check_module
check_export_same fs search_paths none dep_path st st' h = ground (arith, h)
check_export_same fs search_paths (some n) dep_path st st' h = ground (arith, h)

module _ (fs : Files) (search_paths files : List Str)
    (all_files : (p d source : Str)
      → fs.canonicalize p ≡ some d
      → fs.read_to_string d ≡ some source
      → has files d ≡ true) where
  check_export-ne-panic :
      (name : Option Str) (dep_path : Str) (st : Visited)
      → check_export fs search_paths name dep_path st ≢ panic
  unfolding check_export check_module
  check_export-ne-panic none dep_path st h = cc
  check_export-ne-panic (some n) dep_path st h = ground (arith, h)

  module _ (fuel : ℕ) (visit_dep : Str → Visited → Outcome ResolveError Visited)
      (step : (path : Str) (st st' : Visited)
        → IsValid fs search_paths st
        → visit_dep path st ≡ ok st'
        → IsVisited fs search_paths path st st')
      (ends : (path : Str) (st : Visited)
        → IsValid fs search_paths st
        → waiting files st.in_progress < fuel
        → visit_dep path st ≢ panic) where
    import_loop_ends :
        (imports : List AstImport) (st : Visited)
        → IsValid fs search_paths st
        → waiting files st.in_progress < fuel
        → import_loop fs search_paths visit_dep imports st ≢ panic
    unfolding import_loop
    import_loop_ends [] st v enough h = cc
    import_loop_ends (i ∷ imports) st v enough h =
        elim (bind_panic _ (find_module fs i.from_module search_paths) h) [
          | inl p ↦ find_module-ne-panic fs i.from_module search_paths p
          | inr (dep_path, h1, _) ↦ elim (bind_panic _ (visit_dep dep_path st) h1) [
            | inl p ↦ ends dep_path st v enough p
            | inr (st1, h2, visited) ↦
                elim (bind_panic _ (check_export fs search_paths i.name dep_path st1) h2) [
                  | inl p ↦ check_export-ne-panic i.name dep_path st1 p
                  | inr (st2, h3, checked) ↦
                      let after = step dep_path st st1 v visited in
                      let same =
                        check_export_same fs search_paths i.name dep_path st1 st2 checked in
                      import_loop_ends imports st1 after.valid (rw (after.grown.same) enough) (
                        subst
                          (λ (t : Visited). import_loop fs search_paths visit_dep imports t ≡ panic)
                          (sym same) h3)
                ]
          ]
        ]

    visit_new_ends :
        (path abs : Str) (st : Visited)
        → fs.canonicalize path ≡ some abs
        → IsValid fs search_paths st
        → has st.in_progress abs ≡ false
        → waiting files st.in_progress < suc fuel
        → visit_new fs search_paths visit_dep abs st ≢ panic
    unfolding visit_new
    visit_new_ends path abs st c v idle enough h =
        elim (bind_panic _ (or_err (cannot_read abs) (fs.read_to_string abs)) h) [
          | inl p ↦ or_err-ne-panic (cannot_read abs) (fs.read_to_string abs) p
          | inr (source, h1, read) ↦
              elim (bind_panic _ (or_err (parse_error abs) (fs.parse source)) h1) [
                | inl p ↦ or_err-ne-panic (parse_error abs) (fs.parse source) p
                | inr (ast, h2, parsed) ↦
                    let st1 : Visited = record st { in_progress = abs ∷ st.in_progress } in
                    let file = or_err-eq-ok (cannot_read abs) (fs.read_to_string abs) source read in
                    let fewer =
                      waiting-lt files st.in_progress abs (all_files path abs source c file) idle in
                    elim (bind_panic _ (import_loop fs search_paths visit_dep ast.imports st1) h2) [
                      | inl p ↦
                          import_loop_ends ast.imports st1
                            (record { ordered = v.ordered; listed = v.listed })
                            (omega (arith, fewer, enough)) p
                      | inr (st2, h3, looped) ↦ absurd cc
                    ]
              ]
        ]

  visit_ends :
      (fuel : ℕ) (path : Str) (st : Visited)
      → IsValid fs search_paths st
      → waiting files st.in_progress < fuel
      → visit fs search_paths fuel path st ≢ panic
  unfolding visit
  visit_ends zero path st v enough h = absurd (omega (arith, enough))
  visit_ends (suc fuel) path st v enough h =
      elim (bind_panic _ (or_err (cannot_resolve path) (fs.canonicalize path)) h) [
        | inl p ↦ or_err-ne-panic (cannot_resolve path) (fs.canonicalize path) p
        | inr (abs, h1, located) ↦ elim (Option-cases (get abs st.resolved)) [
          | inr (m, found) ↦ ground (arith, h1, found)
          | inl absent ↦ elim (Bool-cases (has st.in_progress abs)) [
            | inl busy ↦ ground (arith, h1, absent, busy)
            | inr idle ↦
                visit_new_ends fuel (visit fs search_paths fuel) (visit_lem fs search_paths fuel)
                  (visit_ends fuel) path abs st
                  (or_err-eq-ok (cannot_resolve path) (fs.canonicalize path) abs located) v idle
                  enough (ground (arith, h1, absent, idle))
          ]
        ]
      ]

-- The search ends whatever the imports, also where they form a cycle: if `files` has every file
-- that a path leads to and that can be read, with fuel above their number the search returns
-- modules or an error, and every path of its order is found.
pub resolve-ne-panic :
    (fs : Files) (files : List Str) (fuel : ℕ) (entry : Str) (include_paths : List Str)
    → ((p d source : Str)
        → fs.canonicalize p ≡ some d
        → fs.read_to_string d ≡ some source
        → has files d ≡ true)
    → length files < fuel
    → resolve fs fuel entry include_paths ≢ panic
unfolding resolve
resolve-ne-panic fs files fuel entry include_paths all_files enough h =
    elim (bind_panic _ (or_err (cannot_resolve entry) (fs.canonicalize entry)) h) [
      | inl p ↦ or_err-ne-panic (cannot_resolve entry) (fs.canonicalize entry) p
      | inr (abs, h1, _) ↦
          let paths = effective_paths fs abs include_paths in
          let empty : IsValid fs paths nothing_visited = record { ordered = tt; listed = refl } in
          elim (bind_panic _ (visit fs paths fuel abs nothing_visited) h1) [
            | inl p ↦
                visit_ends fs paths files all_files fuel abs nothing_visited empty
                  (omega (arith, waiting-le-length files [], enough)) p
            | inr (st, h2, visited) ↦
                let done = visit_lem fs paths fuel abs nothing_visited st empty visited in
                absurd (ground (arith, h2, take_visited fs paths st done.valid))
          ]
    ]
