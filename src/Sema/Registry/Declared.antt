-- ===== src/Sema/Registry/Declared.antt =====
-- Registering names: a name is declared once, as a type or as an alias; and the names that
-- `all_names` lists are the names that `contains` knows.
use wirespec.Base.{◌≡◌, refl, sym, arith, List, [], ◌∷◌, ◌++◌, none, some, map, In, ◌↔◌, ◌⊎◌}
use wirespec.Base.{Bool, true, false, ◌&&◌, ◌||◌, if◌then◌else◌, Bool-cases, inl, inr}
use wirespec.Base.Str.{Str, str_eq, str_eq_iff, str_eq→eq, str_eq_refl}
use wirespec.Sema.Types.{Endianness}
use wirespec.Sema.Registry.{TypeRegistry, DeclKind, duplicate_definition, get, is_some}
use wirespec.Sema.Registry.{
  contains_key, register, register_alias, get_decl_kind, contains, all_names,
}
use wirespec.Sema.Registry.{primitives, primitive_names, resolve_primitive}

-- No name is both a declaration and an alias.
abbrev pub IsSeparate : TypeRegistry → Type 0
IsSeparate r =
    (name : Str) → contains_key name r.declarations && contains_key name r.aliases ≡ false

-- Registering a declaration or an alias keeps declarations and aliases separate, whatever the names.
pub register-IsSeparate :
    (r : TypeRegistry) (name target : Str) (kind : DeclKind)
    → IsSeparate r
    → IsSeparate (register name kind r).0 × IsSeparate (register_alias name target r).0
unfolding register register_alias get
register-IsSeparate r name target kind h =
    (λ j. ground (arith, h j, str_eq_iff name j), λ j. ground (arith, h j, str_eq_iff name j))

-- `register` either adds the name with its kind, to a registry that knew it neither as a
-- declaration nor as an alias, and every other name keeps its kind; or it reports the duplicate and
-- changes nothing. A second `register` or `register_alias` of the name always reports it.
register_once :
    (r : TypeRegistry) (name target other : Str) (kind kind' : DeclKind)
    → let (r', e) = register name kind r in
      ((e ≡ none)
          × (get_decl_kind name r ≡ none)
          × (get name r.aliases ≡ none)
          × (get_decl_kind other r'
              ≡ (if str_eq name other then some kind else get_decl_kind other r))
          × (r'.aliases ≡ r.aliases)
        ⊎ ((e ≡ some (duplicate_definition name)) × (r' ≡ r)))
      × (register name kind' r' ≡ (r', some (duplicate_definition name)))
      × (register_alias name target r' ≡ (r', some (duplicate_definition name)))
unfolding register register_alias get_decl_kind get
register_once r name target other kind kind' = ground (arith, str_eq_refl name)

-- The keys of an association list are the names that it knows.
keys {ℓ} : {V : Type ℓ} → List (Str × V) → List Str
keys m = map (λ d. d.0) m

contains_key-In {ℓ} :
    {V : Type ℓ} (k : Str) (m : List (Str × V)) → contains_key k m ≡ true → In k (keys m)
unfolding get keys
contains_key-In k [] h = cc
contains_key-In k ((j, v) ∷ m) h = elim (Bool-cases (str_eq j k)) [
  | inl same ↦ inl (sym (str_eq→eq j k same))
  | inr other ↦ inr (contains_key-In k m (ground (arith, h, other)))
]

In-contains_key {ℓ} :
    {V : Type ℓ} (k : Str) (m : List (Str × V)) → In k (keys m) → contains_key k m ≡ true
unfolding get keys
In-contains_key k [] h = absurd h
In-contains_key k ((j, v) ∷ m) (inl e) = ground (arith, str_eq_iff j k, e)
In-contains_key k ((j, v) ∷ m) (inr h) = ground (arith, In-contains_key k m h)

In-append : (k : Str) (xs ys : List Str) → In k (xs ++ ys) ↔ (In k xs ⊎ In k ys)
In-append k [] ys = (λ h. inr h, elim [ inl h ↦ absurd h | inr h ↦ h ])
In-append k (x ∷ xs) ys = (
  elim [
    | inl e ↦ inl (inl e)
    | inr h ↦ elim ((In-append k xs ys).0 h) [ inl a ↦ inl (inr a) | inr b ↦ inr b ]
  ],
  elim [
    | inl (inl e) ↦ inl e
    | inl (inr a) ↦ inr ((In-append k xs ys).1 (inl a))
    | inr b ↦ inr ((In-append k xs ys).1 (inr b))
  ],
)

-- Two concrete lists of names, compared by evaluation.
has_name : List Str → Str → Bool
has_name [] k = false
has_name (x ∷ xs) k = str_eq k x || has_name xs k

all_in : List Str → List Str → Bool
all_in [] ys = true
all_in (x ∷ xs) ys = has_name ys x && all_in xs ys

has_name-In : (xs : List Str) (k : Str) → has_name xs k ≡ true → In k xs
unfolding has_name
has_name-In [] k h = cc
has_name-In (x ∷ xs) k h = elim (Bool-cases (str_eq k x)) [
  | inl same ↦ inl (str_eq→eq k x same)
  | inr other ↦ inr (has_name-In xs k (ground (arith, h, other)))
]

all_in-In : (xs ys : List Str) (k : Str) → all_in xs ys ≡ true → In k xs → In k ys
unfolding all_in
all_in-In [] ys k h m = absurd m
all_in-In (x ∷ xs) ys k h (inl e) = rw e (has_name-In ys x (ground (arith, h)))
all_in-In (x ∷ xs) ys k h (inr m) = all_in-In xs ys k (ground (arith, h)) m

primitives_listed :
    (e : Endianness)
    → (all_in (keys (primitives e)) primitive_names ≡ true)
      × (all_in primitive_names (keys (primitives e)) ≡ true)
unfolding all_in has_name keys primitives primitive_names str_eq
primitives_listed e = (refl, refl)

or_true : (a b : Bool) → (a || b ≡ true) ↔ ((a ≡ true) ⊎ (b ≡ true))
or_true true b = (λ h. inl refl, λ h. refl)
or_true false b = (λ h. inr h, elim [ inl h ↦ absurd (let e : false ≡ true = h in cc) | inr h ↦ h ])

module _ (r : TypeRegistry) (name : Str) where
  primitive_In : (is_some (resolve_primitive name r) ≡ true) ↔ In name primitive_names
  unfolding resolve_primitive
  primitive_In =
      let (there, back) = primitives_listed r.module_endianness in
      let prims = primitives r.module_endianness in
      (
        λ h. all_in-In (keys prims) primitive_names name there (contains_key-In name prims h),
        λ m. In-contains_key name prims (all_in-In primitive_names (keys prims) name back m),
      )

  -- `all_names` lists exactly the names that `contains` knows: the declarations, the aliases and
  -- the primitive types.
  pub contains-all_names : (contains name r ≡ true) ↔ In name (all_names r)
  unfolding contains all_names keys
  contains-all_names =
      let ds = keys r.declarations in
      let as' = keys r.aliases in
      (
        λ h. elim ((or_true (contains_key name r.declarations) _).0 h) [
          | inl d ↦
              (In-append name ds (as' ++ primitive_names)).1
                (inl (contains_key-In name r.declarations d))
          | inr h' ↦ (In-append name ds (as' ++ primitive_names)).1 (
              inr (elim ((or_true (contains_key name r.aliases) _).0 h') [
                | inl a ↦
                    (In-append name as' primitive_names).1 (inl (contains_key-In name r.aliases a))
                | inr p ↦ (In-append name as' primitive_names).1 (inr (primitive_In.0 p))
              ]))
        ],
        λ m.
            (or_true (contains_key name r.declarations) _).1
              (elim ((In-append name ds (as' ++ primitive_names)).0 m) [
                | inl d ↦ inl (In-contains_key name r.declarations d)
                | inr m' ↦ inr (
                    (or_true (contains_key name r.aliases) _).1
                      (elim ((In-append name as' primitive_names).0 m') [
                        | inl a ↦ inl (In-contains_key name r.aliases a)
                        | inr p ↦ inr (primitive_In.1 p)
                      ]))
              ]),
      )
