-- ===== src/Driver/Resolve/Cycle.antt =====
-- A circular import is reported only where there is one.
use wirespec.Base.{
  ℕ, zero, suc, ◌≡◌, refl, sym, ◌∙◌, subst, arith, List, [], ◌∷◌, Option, none, some,
}
use wirespec.Base.{true, All, In, inl, inr, Bool-cases, Option-cases}
use wirespec.Base.Str.{Str, str_eq, str_eq→eq, has}
use wirespec.Base.Outcome.{Outcome, ok, err, bind_err}
use wirespec.Sema.Registry.{get}
use wirespec.Syntax.Ast.Items.{AstModule, AstImport}
use wirespec.Driver.Resolve.{Files, ResolveError, Visited, or_err, find_module, not_found_in}
use wirespec.Driver.Resolve.{check_module, check_export, import_loop, visit_new, visit}
use wirespec.Driver.Resolve.{effective_paths, nothing_visited, resolve, cannot_resolve, cannot_read}
use wirespec.Driver.Resolve.{parse_error, circular_import}
use wirespec.Driver.Resolve.Order.{IsValid, IsVisited, Located, visit_lem, or_err-eq-ok}
use wirespec.Driver.Resolve.Modules.{take_visited}
use wirespec.Driver.Resolve.Ends.{check_export_same}

All-weaken :
    {A : Type 0} (x : A) (ys xs : List A) → All (λ y. In y ys) xs → All (λ y. In y (x ∷ ys)) xs
All-weaken x ys [] h = tt
All-weaken x ys (y ∷ xs) h = (inr h.0, All-weaken x ys xs h.1)

All-In : {A : Type 0} (xs : List A) → All (λ x. In x xs) xs
All-In [] = tt
All-In (x ∷ xs) = (inl refl, All-weaken x xs xs (All-In xs))

module _ (fs : Files) (search_paths : List Str) where
  -- The file `p` can be read and parsed, and one of its imports is of the file `q`.
  abbrev pub Imports : Str → Str → Type 0
  Imports p q =
      (source : Str) × (ast : AstModule) × (i : AstImport) × (fs.read_to_string p ≡ some source)
      × (fs.parse source ≡ some ast)
      × In i ast.imports
      × Located fs search_paths i q

  -- `q` is reached from `p` by one import or more.
  pub data Reaches : Str → Str → Type 0 where
    direct : {p q : Str} → Imports p q → Reaches p q
    through : {p q r : Str} → Reaches p q → Imports q r → Reaches p r

  -- Of the files in progress, each is imported by the one behind it in the list, and `top` by the
  -- first.
  abbrev IsStack : List Str → Str → Type 0
  IsStack [] top = Unit
  IsStack (p ∷ ip) top = Imports p top × IsStack ip p

  stack-Reaches : (ip : List Str) (top p : Str) → IsStack ip top → has ip p ≡ true → Reaches p top
  unfolding has
  stack-Reaches [] top p s h = absurd cc
  stack-Reaches (q ∷ ip) top p s h = elim (Bool-cases (str_eq q p)) [
    | inl hit ↦ subst (λ (t : Str). Reaches t top) (str_eq→eq q p hit) (direct s.0)
    | inr other ↦ through (stack-Reaches ip q p s.1 (ground (arith, h, other))) s.0
  ]

  find_module-ne-circular :
      (name c : Str) → find_module fs name search_paths ≡ err (circular_import c) → ⊥
  unfolding find_module not_found_in
  find_module-ne-circular name c h = ground (arith, h)

  or_err-ne-circular {ℓ} :
      {A : Type ℓ} (e : ResolveError) (o : Option A) (c : Str)
      → (e ≡ circular_import c → ⊥)
      → or_err e o ≡ err (circular_import c)
      → ⊥
  or_err-ne-circular e none c no_match h = no_match (ground (arith, h))
  or_err-ne-circular e (some a) c no_match h = cc

  check_export-ne-circular :
      (name : Option Str) (dep_path c : Str) (st : Visited)
      → check_export fs search_paths name dep_path st ≡ err (circular_import c)
      → ⊥
  unfolding check_export check_module
  check_export-ne-circular none dep_path c st h = cc
  check_export-ne-circular (some n) dep_path c st h = ground (arith, h)

  module _ (c : Str) (visit_dep : Str → Visited → Outcome ResolveError Visited)
      (step : (path : Str) (st st' : Visited)
        → IsValid fs search_paths st
        → visit_dep path st ≡ ok st'
        → IsVisited fs search_paths path st st')
      (cycles : (path : Str) (st : Visited)
        → IsValid fs search_paths st
        → ((d : Str) → fs.canonicalize path ≡ some d → IsStack st.in_progress d)
        → visit_dep path st ≡ err (circular_import c)
        → Reaches c c) where
    import_loop_cycle :
        (abs source : Str) (ast : AstModule) (ip : List Str)
        → fs.read_to_string abs ≡ some source
        → fs.parse source ≡ some ast
        → IsStack ip abs
        → (imports : List AstImport) (st : Visited) → All (λ i. In i ast.imports) imports
        → IsValid fs search_paths st
        → st.in_progress ≡ abs ∷ ip
        → import_loop fs search_paths visit_dep imports st ≡ err (circular_import c)
        → Reaches c c
    unfolding import_loop
    import_loop_cycle abs source ast ip read parsed stack [] st among v busy h = absurd cc
    import_loop_cycle abs source ast ip read parsed stack (i ∷ imports) st among v busy h =
        elim (bind_err _ (circular_import c) (find_module fs i.from_module search_paths) h) [
          | inl e ↦ absurd (find_module-ne-circular i.from_module c e)
          | inr (dep_path, h1, found) ↦
              elim (bind_err _ (circular_import c) (visit_dep dep_path st) h1) [
                | inl e ↦
                    cycles dep_path st v
                      (λ d located.
                        subst (λ (t : List Str). IsStack t d) (sym busy)
                          (
                            (source, ast, i, read, parsed, among.0, (dep_path, found, located)),
                            stack,
                          ))
                      e
                | inr (st1, h2, visited) ↦
                    elim (bind_err _ (circular_import c)
                      (check_export fs search_paths i.name dep_path st1) h2) [
                        | inl e ↦ absurd (check_export-ne-circular i.name dep_path c st1 e)
                        | inr (st2, h3, checked) ↦
                            let after = step dep_path st st1 v visited in
                            let same =
                              check_export_same fs search_paths i.name dep_path st1 st2 checked in
                            import_loop_cycle abs source ast ip read parsed stack imports st1
                              among.1 after.valid (after.grown.same ∙ busy)
                              (subst
                                (λ (t : Visited).
                                  import_loop fs search_paths visit_dep imports t
                                  ≡ err (circular_import c))
                                (sym same) h3)
                      ]
              ]
        ]

    visit_new_cycle :
        (abs : Str) (st : Visited)
        → IsValid fs search_paths st
        → IsStack st.in_progress abs
        → visit_new fs search_paths visit_dep abs st ≡ err (circular_import c)
        → Reaches c c
    unfolding visit_new
    visit_new_cycle abs st v stack h =
        elim (bind_err _ (circular_import c) (or_err (cannot_read abs) (fs.read_to_string abs)) h) [
          | inl e ↦
              absurd (or_err-ne-circular (cannot_read abs) (fs.read_to_string abs) c (λ k. cc) e)
          | inr (source, h1, read) ↦
              elim (bind_err _ (circular_import c) (or_err (parse_error abs) (fs.parse source))
                h1) [
                  | inl e ↦
                      absurd (or_err-ne-circular (parse_error abs) (fs.parse source) c (λ k. cc) e)
                  | inr (ast, h2, parsed) ↦
                      let st1 : Visited = record st { in_progress = abs ∷ st.in_progress } in
                      elim (bind_err _ (circular_import c)
                        (import_loop fs search_paths visit_dep ast.imports st1) h2) [
                          | inl e ↦
                              import_loop_cycle abs source ast st.in_progress
                                (or_err-eq-ok (cannot_read abs) (fs.read_to_string abs) source read)
                                (or_err-eq-ok (parse_error abs) (fs.parse source) ast parsed) stack
                                ast.imports st1 (All-In ast.imports)
                                (record { ordered = v.ordered; listed = v.listed }) refl e
                          | inr (st2, h3, looped) ↦ absurd cc
                        ]
                ]
        ]

  visit_cycle :
      (c : Str) (fuel : ℕ) (path : Str) (st : Visited)
      → IsValid fs search_paths st
      → ((d : Str) → fs.canonicalize path ≡ some d → IsStack st.in_progress d)
      → visit fs search_paths fuel path st ≡ err (circular_import c)
      → Reaches c c
  unfolding visit
  visit_cycle c zero path st v stack h = absurd cc
  visit_cycle c (suc fuel) path st v stack h =
      elim (bind_err _ (circular_import c) (or_err (cannot_resolve path) (fs.canonicalize path))
        h) [
          | inl e ↦
              absurd (or_err-ne-circular (cannot_resolve path) (fs.canonicalize path) c (λ k. cc) e)
          | inr (abs, h1, located) ↦
              let here = or_err-eq-ok (cannot_resolve path) (fs.canonicalize path) abs located in
              elim (Option-cases (get abs st.resolved)) [
                | inr (m, found) ↦ absurd (ground (arith, h1, found))
                | inl absent ↦ elim (Bool-cases (has st.in_progress abs)) [
                  | inl busy ↦
                      let same : abs ≡ c = ground (arith, h1, absent, busy) in
                      subst (λ (t : Str). Reaches t t) same
                        (stack-Reaches st.in_progress abs abs (stack abs here) busy)
                  | inr idle ↦
                      visit_new_cycle c (visit fs search_paths fuel)
                        (visit_lem fs search_paths fuel) (visit_cycle c fuel) abs st v
                        (stack abs here) (ground (arith, h1, absent, idle))
                ]
              ]
        ]

-- A circular import is reported only of a file that imports itself, in one step or through others
-- that can be read and parsed, the imports being located in the search paths and the entry's
-- directory.
pub resolve-Reaches :
    (fs : Files) (fuel : ℕ) (entry : Str) (include_paths : List Str) (c : Str)
    → resolve fs fuel entry include_paths ≡ err (circular_import c)
    → (abs : Str) × (fs.canonicalize entry ≡ some abs)
      × Reaches fs (effective_paths fs abs include_paths) c c
unfolding resolve
resolve-Reaches fs fuel entry include_paths c h =
    elim (bind_err _ (circular_import c) (or_err (cannot_resolve entry) (fs.canonicalize entry))
      h) [
        | inl e ↦
            absurd (
              or_err-ne-circular fs [] (cannot_resolve entry) (fs.canonicalize entry) c (λ k. cc) e)
        | inr (abs, h1, located) ↦
            let paths = effective_paths fs abs include_paths in
            let empty : IsValid fs paths nothing_visited = record { ordered = tt; listed = refl } in
            let here = or_err-eq-ok (cannot_resolve entry) (fs.canonicalize entry) abs located in
            elim (bind_err _ (circular_import c) (visit fs paths fuel abs nothing_visited) h1) [
              | inl e ↦
                  (abs, here, visit_cycle fs paths c fuel abs nothing_visited empty (λ d k. tt) e)
              | inr (st, h2, visited) ↦
                  let done = visit_lem fs paths fuel abs nothing_visited st empty visited in
                  absurd (ground (arith, h2, take_visited fs paths st done.valid))
            ]
      ]
