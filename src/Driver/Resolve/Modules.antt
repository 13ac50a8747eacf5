-- ===== src/Driver/Resolve/Modules.antt =====
-- The list that `resolve` returns.
use mathlib.Core.List.{reverse, reverse-cons, map-append}
use wirespec.Base.{ℕ, ◌≡◌, ◌≢◌, refl, sym, ap, ◌∙◌, subst, arith, List, [], ◌∷◌, ◌++◌, none, some}
use wirespec.Base.{false, All, All-append, In, map, inl, inr, Bool-cases}
use wirespec.Base.Str.{Str, str_eq, str_eq_iff, str_eq→eq}
use wirespec.Base.Outcome.{ok, bind_inv}
use wirespec.Sema.Registry.{get}
use wirespec.Syntax.Ast.Items.{AstImport}
use wirespec.Driver.Resolve.{Files, ResolvedModule, Visited, or_err, visit}
use wirespec.Driver.Resolve.{remove_key, take_modules, effective_paths, nothing_visited, resolve}
use wirespec.Driver.Resolve.Order.{Located, IsVisible, IsMet, IsFile, IsOrdered, IsValid, visit_lem}
use wirespec.Driver.Resolve.Order.{get-cons_self, get-cons_other, or_err-eq-ok, keys}

abbrev Entry : Type 0
Entry = Str × ResolvedModule

-- The entries are found in `r`, and no two have a path.
abbrev IsFound : List Entry → Entry → Type 0
IsFound r (p, m) = get p r ≡ some m

abbrev IsOther : Str → Entry → Type 0
IsOther p (q, m) = str_eq p q ≡ false

abbrev AreDistinct : List Entry → Type 0
AreDistinct [] = Unit
AreDistinct ((p, m) ∷ xs) = All (IsOther p) xs × AreDistinct xs

abbrev modules_of : List Entry → List ResolvedModule
modules_of r = map (λ (d : Entry). d.1) r

get-remove_key :
    (p q : Str) (r : List Entry) → str_eq p q ≡ false → get q (remove_key p r) ≡ get q r
unfolding get remove_key
get-remove_key p q [] h = refl
get-remove_key p q ((k, m) ∷ r) h =
    ground (arith, get-remove_key p q r h, str_eq_iff k p, str_eq_iff k q, str_eq_iff p q, h)

remove_key-IsFound :
    (p : Str) (r xs : List Entry)
    → All (IsOther p) xs
    → All (IsFound r) xs
    → All (IsFound (remove_key p r)) xs
remove_key-IsFound p r [] o f = tt
remove_key-IsFound p r ((q, m) ∷ xs) o f =
    (get-remove_key p q r o.0 ∙ f.0, remove_key-IsFound p r xs o.1 f.1)

take_modules_lem :
    (xs r : List Entry)
    → AreDistinct xs
    → All (IsFound r) xs
    → take_modules (keys xs) r ≡ ok (modules_of xs)
unfolding take_modules
take_modules_lem [] r d f = refl
take_modules_lem ((p, m) ∷ xs) r d f =
    ground
      (arith, f.0, take_modules_lem xs (remove_key p r) d.1 (remove_key-IsFound p r xs d.0 f.1))

AreDistinct-snoc :
    (xs : List Entry) (p : Str) (m : ResolvedModule)
    → AreDistinct xs
    → All (λ (d : Entry). str_eq d.0 p ≡ false) xs
    → AreDistinct (xs ++ ((p, m) ∷ []))
AreDistinct-snoc [] p m d o = (tt, tt)
AreDistinct-snoc ((q, n) ∷ xs) p m d o =
    (All-append (IsOther q) xs ((p, m) ∷ []) d.0 (o.0, tt), AreDistinct-snoc xs p m d.1 o.1)

All-reverse : (P : Entry → Type 0) (xs : List Entry) → All P xs → All P (reverse xs)
All-reverse P [] h = tt
All-reverse P (x ∷ xs) h =
    subst (All P) (sym (reverse-cons x xs))
      (All-append P (reverse xs) (x ∷ []) (All-reverse P xs h.1) (h.0, tt))

absent-All :
    (p : Str) (r : List Entry) → get p r ≡ none → All (λ (d : Entry). str_eq d.0 p ≡ false) r
unfolding get
absent-All p [] h = tt
absent-All p ((q, m) ∷ r) h = elim (Bool-cases (str_eq q p)) [
  | inl hit ↦ absurd (ground (arith, h, hit))
  | inr other ↦ (other, absent-All p r (ground (arith, h, other)))
]

module _ (fs : Files) (search_paths : List Str) where
  -- The import is of a module among `older`, which lets its item be imported.
  abbrev pub IsMetBy : List ResolvedModule → AstImport → Type 0
  IsMetBy older i =
      (m : ResolvedModule) × In m older × Located fs search_paths i m.path × IsVisible i.name m

  -- Of modules with the newest first: no two are of one file, each is what its file reads as, and
  -- all that it imports is older.
  abbrev pub AreOrdered : List ResolvedModule → Type 0
  AreOrdered [] = Unit
  AreOrdered (m ∷ older) =
      All (λ (o : ResolvedModule). o.path ≢ m.path) older
      × IsFile fs search_paths m
      × All (IsMetBy older) m.ast.imports
      × AreOrdered older

  get-In :
      (d : Str) (m : ResolvedModule) (r : List Entry)
      → IsOrdered fs search_paths r
      → get d r ≡ some m
      → In m (modules_of r) × (m.path ≡ d)
  unfolding get
  get-In d m [] o h = absurd cc
  get-In d m ((q, n) ∷ r) o h = elim (Bool-cases (str_eq q d)) [
    | inl hit ↦
        let same : n ≡ m = ground (arith, h, hit) in
        (inl (sym same), ap (λ (t : ResolvedModule). t.path) (sym same) ∙ o.1 ∙ str_eq→eq q d hit)
    | inr other ↦
        let (there, path) = get-In d m r o.4 (ground (arith, h, other)) in (inr there, path)
  ]

  distinct_reverse : (r : List Entry) → IsOrdered fs search_paths r → AreDistinct (reverse r)
  distinct_reverse [] o = tt
  distinct_reverse ((p, m) ∷ r) o = subst AreDistinct (sym (reverse-cons (p, m) r)) (
      AreDistinct-snoc (reverse r) p m (distinct_reverse r o.4)
        (All-reverse (λ (d : Entry). str_eq d.0 p ≡ false) r (absent-All p r o.0)))

  IsFound-cons :
      (p : Str) (m : ResolvedModule) (r xs : List Entry)
      → get p r ≡ none
      → All (IsFound r) xs
      → All (IsFound ((p, m) ∷ r)) xs
  IsFound-cons p m r [] a f = tt
  IsFound-cons p m r ((q, n) ∷ xs) a f =
      (get-cons_other p q m n r a f.0, IsFound-cons p m r xs a f.1)

  IsFound-self : (r : List Entry) → IsOrdered fs search_paths r → All (IsFound r) r
  IsFound-self [] o = tt
  IsFound-self ((p, m) ∷ r) o = (get-cons_self p m r, IsFound-cons p m r r o.0 (IsFound-self r o.4))

  IsMet-IsMetBy :
      (r : List Entry) (imports : List AstImport)
      → IsOrdered fs search_paths r
      → All (IsMet fs search_paths r) imports
      → All (IsMetBy (modules_of r)) imports
  IsMet-IsMetBy r [] o h = tt
  IsMet-IsMetBy r (i ∷ imports) o ((d, m, l, g, v), h) =
      let (there, path) = get-In d m r o g in
      ((m, there, subst (Located fs search_paths i) (sym path) l, v), IsMet-IsMetBy r imports o h)

  paths_differ :
      (p : Str) (m : ResolvedModule) (r : List Entry)
      → m.path ≡ p
      → IsOrdered fs search_paths r
      → All (λ (d : Entry). str_eq d.0 p ≡ false) r
      → All (λ (o : ResolvedModule). o.path ≢ m.path) (modules_of r)
  paths_differ p m [] e o h = tt
  paths_differ p m ((q, n) ∷ r) e o h = (
    λ same. absurd (ground (arith, h.0, str_eq_iff q p, o.1, same, e)),
    paths_differ p m r e o.4 h.1,
  )

  modules-AreOrdered : (r : List Entry) → IsOrdered fs search_paths r → AreOrdered (modules_of r)
  modules-AreOrdered [] o = tt
  modules-AreOrdered ((p, m) ∷ r) o = (
    paths_differ p m r o.1 o.4 (absent-All p r o.0),
    o.2,
    IsMet-IsMetBy r m.ast.imports o.4 o.3,
    modules-AreOrdered r o.4,
  )

map-reverse {ℓ κ} :
    {A : Type ℓ} {B : Type κ} (f : A → B) (xs : List A) → map f (reverse xs) ≡ reverse (map f xs)
map-reverse f [] = refl
map-reverse f (x ∷ xs) = simp (reverse-cons, map-append, map-reverse f xs)

-- Every path of the order is found.
pub take_visited :
    (fs : Files) (search_paths : List Str) (st : Visited)
    → IsValid fs search_paths st
    → take_modules st.order st.resolved ≡ ok (reverse (modules_of st.resolved))
take_visited fs search_paths st v =
    ap (λ (t : List Str). take_modules t st.resolved)
      (v.listed ∙ sym (map-reverse (λ (e : Entry). e.0) st.resolved))
    ∙ take_modules_lem (reverse st.resolved) st.resolved
        (distinct_reverse fs search_paths st.resolved v.ordered)
        (All-reverse (IsFound st.resolved) st.resolved
          (IsFound-self fs search_paths st.resolved v.ordered))
    ∙ ap ok (map-reverse (λ (e : Entry). e.1) st.resolved)

-- Where the search for a file's imports succeeds, it returns modules of which each is what its file
-- reads as, no two are of one file, and each stands behind all that it imports: an import is found
-- in the search paths, with the entry's directory, as the file of an earlier module, which lets the
-- imported item be seen. The entry's own module is among them.
pub resolve-AreOrdered :
    (fs : Files) (fuel : ℕ) (entry : Str) (include_paths : List Str) (modules : List ResolvedModule)
    → resolve fs fuel entry include_paths ≡ ok modules
    → (abs : Str) × (own : ResolvedModule) × (newest_first : List ResolvedModule) × (fs.canonicalize
          entry
        ≡ some abs)
      × (fs.canonicalize abs ≡ some own.path)
      × In own newest_first
      × (modules ≡ reverse newest_first)
      × AreOrdered fs (effective_paths fs abs include_paths) newest_first
unfolding resolve
resolve-AreOrdered fs fuel entry include_paths modules h =
    let (abs, h1, located) = bind_inv _ modules (or_err _ (fs.canonicalize entry)) h in
    let paths = effective_paths fs abs include_paths in
    let (st, h2, visited) = bind_inv _ modules (visit fs paths fuel abs nothing_visited) h1 in
    let done =
      visit_lem fs paths fuel abs nothing_visited st (record { ordered = tt; listed = refl })
        visited in
    let (d, own, again, found) = done.there in
    let ordered = done.valid.ordered in
    let (there, path) = get-In fs paths d own st.resolved ordered found in
    let taken = take_visited fs paths st done.valid in
    (
      abs,
      own,
      modules_of st.resolved,
      or_err-eq-ok _ _ abs located,
      subst (λ (t : Str). fs.canonicalize abs ≡ some t) (sym path) again,
      there,
      ground (arith, h2, taken),
      modules-AreOrdered fs paths st.resolved ordered,
    )
