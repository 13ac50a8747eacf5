-- ===== src/Driver/Resolve/Order.antt =====
-- The order of the resolved modules: each stands behind the modules that it imports.
use mathlib.Core.List.{reverse, reverse-cons}
use wirespec.Base.{
  ℕ, zero, suc, ◌≡◌, refl, sym, ap, ◌∙◌, subst, arith, List, [], ◌∷◌, ◌++◌, Option, none, some,
}
use wirespec.Base.{true, false, All, In, map, inl, inr, Bool-cases, Option-cases}
use wirespec.Base.Str.{Str, str_eq, str_eq_iff, str_eq_refl, has, has-In}
use wirespec.Base.Outcome.{Outcome, ok, bind_inv}
use wirespec.Sema.Registry.{get}
use wirespec.Syntax.Ast.Items.{AstModule, AstImport}
use wirespec.Driver.Resolve.{
  Files, ResolvedModule, ResolveError, Visited, get_exportable_names, find_module,
}
use wirespec.Driver.Resolve.{
  cannot_resolve, or_err, remove, finish, check_module, check_export, import_loop, visit_new, visit,
}

pub or_err-eq-ok {ℓ} :
    {A : Type ℓ} (e : ResolveError) (o : Option A) (a : A) → or_err e o ≡ ok a → o ≡ some a
or_err-eq-ok e none a h = absurd cc
or_err-eq-ok e (some x) a h = ground (arith, h)

remove_absent : (p : Str) (ps : List Str) → has ps p ≡ false → remove p ps ≡ ps
unfolding remove has
remove_absent p [] h = refl
remove_absent p (q ∷ ps) h = ground (arith, h, remove_absent p ps)

pub get-cons_other {ℓ} :
    {V : Type ℓ} (k d : Str) (v w : V) (r : List (Str × V))
    → get k r ≡ none
    → get d r ≡ some w
    → get d ((k, v) ∷ r) ≡ some w
unfolding get
get-cons_other k d v w r absent h = ground (arith, absent, h, str_eq_iff k d)

pub get-cons_self {ℓ} :
    {V : Type ℓ} (k : Str) (v : V) (r : List (Str × V)) → get k ((k, v) ∷ r) ≡ some v
unfolding get
get-cons_self k v r = ground (arith, str_eq_refl k)

abbrev pub IsKept : List (Str × ResolvedModule) → List (Str × ResolvedModule) → Type 0
IsKept r r' = (d : Str) (m : ResolvedModule) → get d r ≡ some m → get d r' ≡ some m

-- What a visit leaves of the state before it: nothing resolved is lost, nothing in progress is
-- resolved, and what is in progress is as before.
pub record Grown (st st' : Visited) : Type 0 where
  pub kept : IsKept st.resolved st'.resolved
  pub fresh :
      (k : Str) → has st.in_progress k ≡ true → get k st.resolved ≡ none → get k st'.resolved ≡ none
  pub same : st'.in_progress ≡ st.in_progress

Grown-trans : (a b c : Visited) → Grown a b → Grown b c → Grown a c
Grown-trans a b c g h = record {
  kept = λ d m e. h.kept d m (g.kept d m e);
  fresh =
      λ k p e. h.fresh k (subst (λ (t : List Str). has t k ≡ true) (sym g.same) p) (g.fresh k p e);
  same = h.same ∙ g.same;
}

-- The item that is imported can be.
abbrev pub IsVisible : Option Str → ResolvedModule → Type 0
IsVisible none m = Unit
IsVisible (some item_name) m = In item_name (get_exportable_names m.ast)

-- The first ones of the list are the last ones that were resolved.
abbrev pub keys : List (Str × ResolvedModule) → List Str
keys r = map (λ (d : Str × ResolvedModule). d.0) r

module _ (fs : Files) (search_paths : List Str) where
  -- The import is of the file `d`.
  abbrev pub Located : AstImport → Str → Type 0
  Located i d =
      (dep_path : Str) × (find_module fs i.from_module search_paths ≡ ok dep_path)
      × (fs.canonicalize dep_path ≡ some d)

  abbrev pub IsMet : List (Str × ResolvedModule) → AstImport → Type 0
  IsMet r i =
      (d : Str) × (m : ResolvedModule) × Located i d × (get d r ≡ some m) × IsVisible i.name m

  -- The module is what its file reads as.
  abbrev pub IsFile : ResolvedModule → Type 0
  IsFile m = (fs.read_to_string m.path ≡ some m.source) × (fs.parse m.source ≡ some m.ast)

  abbrev pub IsOrdered : List (Str × ResolvedModule) → Type 0
  IsOrdered [] = Unit
  IsOrdered ((p, m) ∷ r) =
      (get p r ≡ none) × (m.path ≡ p) × IsFile m × All (IsMet r) m.ast.imports × IsOrdered r

  pub record IsValid (st : Visited) : Type 0 where
    pub ordered : IsOrdered st.resolved
    pub listed : st.order ≡ reverse (keys st.resolved)

  -- What a successful visit of a path has done.
  pub record IsVisited (path : Str) (st st' : Visited) : Type 0 where
    pub valid : IsValid st'
    pub grown : Grown st st'
    pub there :
        (d : Str) × (m : ResolvedModule) × (fs.canonicalize path ≡ some d)
        × (get d st'.resolved ≡ some m)

  IsMet-kept :
      (r r' : List (Str × ResolvedModule)) (imports : List AstImport)
      → IsKept r r'
      → All (IsMet r) imports
      → All (IsMet r') imports
  IsMet-kept r r' [] k h = tt
  IsMet-kept r r' (i ∷ imports) k ((d, m, l, e, v), h) =
      ((d, m, l, k d m e, v), IsMet-kept r r' imports k h)

  check_export_lem :
      (name : Option Str) (dep_path d : Str) (m : ResolvedModule) (st st' : Visited)
      → fs.canonicalize dep_path ≡ some d
      → get d st.resolved ≡ some m
      → check_export fs search_paths name dep_path st ≡ ok st'
      → (st' ≡ st) × IsVisible name m
  unfolding check_export check_module
  check_export_lem none dep_path d m st st' c g h = (ground (arith, h), tt)
  check_export_lem (some n) dep_path d m st st' c g h =
      elim (Bool-cases (has (get_exportable_names m.ast) n)) [
        | inl found ↦ (ground (arith, h, c, g, found), (has-In _ n).0 found)
        | inr missing ↦ absurd (ground (arith, h, c, g, missing))
      ]

  finish_lem :
      (abs source : Str) (ast : AstModule) (st st2 : Visited)
      → fs.read_to_string abs ≡ some source
      → fs.parse source ≡ some ast
      → IsValid st2
      → Grown (record st { in_progress = abs ∷ st.in_progress }) st2
      → All (IsMet st2.resolved) ast.imports
      → get abs st.resolved ≡ none
      → has st.in_progress abs ≡ false
      → IsValid (finish fs abs source ast st2)
        × Grown st (finish fs abs source ast st2)
        × ((m : ResolvedModule) × (get abs (finish fs abs source ast st2).resolved ≡ some m))
  unfolding finish get has remove
  finish_lem abs source ast st st2 read parsed v grown met absent idle =
      let self = str_eq_refl abs in
      let still : get abs st2.resolved ≡ none = grown.fresh abs (ground (arith, self)) absent in
      let back : remove abs (abs ∷ st.in_progress) ≡ st.in_progress =
        rw self (remove_absent abs st.in_progress idle) in
      (
        record {
          ordered = (still, refl, (read, parsed), met, v.ordered);
          listed =
              ap (λ (t : List Str). t ++ (abs ∷ [])) v.listed
              ∙ sym (reverse-cons abs (keys st2.resolved));
        },
        record {
          kept = λ d m e. get-cons_other abs d _ m st2.resolved still (grown.kept d m e);
          fresh = λ k p e. elim (Bool-cases (str_eq abs k)) [
            | inl hit ↦ absurd (ground (arith, p, idle, str_eq_iff abs k, hit))
            | inr other ↦ ground (arith, other, grown.fresh k (ground (arith, other, p)) e)
          ];
          same = ap (remove abs) grown.same ∙ back;
        },
        (_, get-cons_self abs _ st2.resolved),
      )

  module _ (visit_dep : Str → Visited → Outcome ResolveError Visited)
      (step : (path : Str) (st st' : Visited)
        → IsValid st
        → visit_dep path st ≡ ok st'
        → IsVisited path st st') where
    import_loop_lem :
        (imports : List AstImport) (st st' : Visited)
        → IsValid st
        → import_loop fs search_paths visit_dep imports st ≡ ok st'
        → IsValid st' × Grown st st' × All (IsMet st'.resolved) imports
    unfolding import_loop
    import_loop_lem [] st st' v h =
        let same : st' ≡ st = ground (arith, h) in
        rw same (v, record { kept = λ d m e. e; fresh = λ k p e. e; same = refl }, tt)
    import_loop_lem (i ∷ imports) st st' v h =
        let (dep_path, h1, found) = bind_inv _ st' (find_module fs i.from_module search_paths) h in
        let (st1, h2, visited) = bind_inv _ st' (visit_dep dep_path st) h1 in
        let (st2, h3, checked) =
          bind_inv _ st' (check_export fs search_paths i.name dep_path st1) h2 in
        let after = step dep_path st st1 v visited in
        let (d, m, c, g) = after.there in
        let (same, visible) = check_export_lem i.name dep_path d m st1 st2 c g checked in
        let (v', grown, met) = import_loop_lem imports st1 st' after.valid (
          subst (λ (t : Visited). import_loop fs search_paths visit_dep imports t ≡ ok st') same
            h3) in
        (
          v',
          Grown-trans st st1 st' after.grown grown,
          ((d, m, (dep_path, found, c), grown.kept d m g, visible), met),
        )

    visit_new_lem :
        (abs : Str) (st st' : Visited)
        → IsValid st
        → get abs st.resolved ≡ none
        → has st.in_progress abs ≡ false
        → visit_new fs search_paths visit_dep abs st ≡ ok st'
        → IsValid st' × Grown st st' × ((m : ResolvedModule) × (get abs st'.resolved ≡ some m))
    unfolding visit_new
    visit_new_lem abs st st' v absent idle h =
        let (source, h1, read) = bind_inv _ st' (or_err _ (fs.read_to_string abs)) h in
        let (ast, h2, parsed) = bind_inv _ st' (or_err _ (fs.parse source)) h1 in
        let st1 : Visited = record st { in_progress = abs ∷ st.in_progress } in
        let (st2, h3, looped) =
          bind_inv _ st' (import_loop fs search_paths visit_dep ast.imports st1) h2 in
        let (v', grown, met) =
          import_loop_lem ast.imports st1 st2 (record { ordered = v.ordered; listed = v.listed })
            looped in
        let (valid, grown', there) =
          finish_lem abs source ast st st2 (or_err-eq-ok _ _ source read)
            (or_err-eq-ok _ _ ast parsed) v' grown met absent idle in
        subst
          (λ (t : Visited).
            IsValid t × Grown st t × ((m : ResolvedModule) × (get abs t.resolved ≡ some m)))
          {x = finish fs abs source ast st2} (ground (arith, h3)) (valid, grown', there)

  pub visit_lem :
      (fuel : ℕ) (path : Str) (st st' : Visited)
      → IsValid st
      → visit fs search_paths fuel path st ≡ ok st'
      → IsVisited path st st'
  unfolding visit
  visit_lem zero path st st' v h = absurd cc
  visit_lem (suc fuel) path st st' v h =
      let (abs, h1, located) = bind_inv _ st' (or_err _ (fs.canonicalize path)) h in
      let c : fs.canonicalize path ≡ some abs = or_err-eq-ok (cannot_resolve path) _ abs located in
      elim (Option-cases (get abs st.resolved)) [
        | inr (m, found) ↦
            let same : st ≡ st' = ground (arith, h1, found) in
            rw (← same) (record {
              valid = v;
              grown = record { kept = λ d n e. e; fresh = λ k p e. e; same = refl };
              there = (abs, m, c, found);
            })
        | inl absent ↦ elim (Bool-cases (has st.in_progress abs)) [
          | inl busy ↦ absurd (ground (arith, h1, absent, busy))
          | inr idle ↦
              let (valid, grown, (m, there)) =
                visit_new_lem (visit fs search_paths fuel) (visit_lem fuel) abs st st' v absent idle
                  (ground (arith, h1, absent, idle)) in
              record { valid = valid; grown = grown; there = (abs, m, c, there) }
        ]
      ]
