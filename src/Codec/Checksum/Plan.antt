-- ===== src/Codec/Checksum/Plan.antt =====
-- The checksum plan of a scope is that of the scope's first field with a checksum.
use wirespec.Base.{
  ℕ, ◌+◌, ◌%◌, ◌^◌, ◌≡◌, refl, ◌⊎◌, inl, inr, arith, List, [], ◌∷◌, ◌++◌, Option, none, some,
}
use wirespec.Base.{length, All, ap, ◌∙◌, Option-cases}
use wirespec.Base.{In, false}
use wirespec.Sema.Catalog.Find.{find-some, find-none}
use wirespec.Base.Str.{Str, str_eq, str_eq→eq}
use wirespec.Sema.Catalog as Catalog
use wirespec.Sema.Catalog.{ChecksumAlgorithmSpec, catalog, find, lookup}
use wirespec.Codec.Ir.{CodecField, ScopeKind, ChecksumPlan, ChecksumVerifyMode, ChecksumInputModel}
use wirespec.Codec.Checksum.{
  plan_from, synthesize_checksum_plan, checksum_modes, checksum_field_width, verify_mode_of,
  input_model_of,
}

abbrev pub HasNoChecksum : CodecField → Type 0
HasNoChecksum f = f.checksum_algorithm ≡ none

-- A mode of the catalog and the mode of that name in the plan.
abbrev pub IsMode : Catalog.ChecksumVerifyMode → ChecksumVerifyMode → Type 0
IsMode Catalog.ChecksumVerifyMode.zero_sum v = v ≡ ChecksumVerifyMode.zero_sum
IsMode Catalog.ChecksumVerifyMode.recompute_compare v = v ≡ ChecksumVerifyMode.recompute_compare

abbrev pub IsModel : Catalog.ChecksumInputModel → ChecksumInputModel → Type 0
IsModel Catalog.ChecksumInputModel.zero_sum_whole_scope m =
    m ≡ ChecksumInputModel.zero_sum_whole_scope
IsModel Catalog.ChecksumInputModel.recompute_with_skipped_field m =
    m ≡ ChecksumInputModel.recompute_with_skipped_field

-- The modes and the width of an algorithm: those of an entry of the catalog with its name, or, for a
-- name that the catalog has not, to recompute with the field skipped and width 0.
abbrev pub IsCatalogued : Str → ChecksumVerifyMode → ChecksumInputModel → ℕ → Type 0
IsCatalogued algorithm v m n =
    ((spec : ChecksumAlgorithmSpec) × In spec catalog
      × (spec.id ≡ algorithm)
      × IsMode spec.verify_mode v
      × IsModel spec.input_model m
      × (n ≡ spec.field_width_bytes))
    ⊎ (All (λ spec. str_eq spec.id algorithm ≡ false) catalog
        × (v ≡ ChecksumVerifyMode.recompute_compare)
        × (m ≡ ChecksumInputModel.recompute_with_skipped_field)
        × (n ≡ 0))

verify_mode_of-IsMode : (v : Catalog.ChecksumVerifyMode) → IsMode v (verify_mode_of v)
unfolding verify_mode_of
verify_mode_of-IsMode Catalog.ChecksumVerifyMode.zero_sum = refl
verify_mode_of-IsMode Catalog.ChecksumVerifyMode.recompute_compare = refl

input_model_of-IsModel : (m : Catalog.ChecksumInputModel) → IsModel m (input_model_of m)
unfolding input_model_of
input_model_of-IsModel Catalog.ChecksumInputModel.zero_sum_whole_scope = refl
input_model_of-IsModel Catalog.ChecksumInputModel.recompute_with_skipped_field = refl

algorithm-IsCatalogued :
    (algorithm : Str)
    → IsCatalogued algorithm
        (checksum_modes algorithm).0
        (checksum_modes algorithm).1
        (checksum_field_width algorithm)
unfolding checksum_modes checksum_field_width lookup catalog find str_eq
algorithm-IsCatalogued algorithm = elim (Option-cases (find (λ s. str_eq s.id algorithm) catalog)) [
  | inl unknown ↦
      rw unknown (inr (find-none (λ s. str_eq s.id algorithm) catalog unknown, refl, refl, refl))
  | inr (spec, known) ↦
      let (there, hit) = find-some (λ s. str_eq s.id algorithm) spec catalog known in
      rw known (
        inl (
          spec,
          there,
          str_eq→eq spec.id algorithm hit,
          verify_mode_of-IsMode spec.verify_mode,
          input_model_of-IsModel spec.input_model,
          refl,
        ))
]

module _ (scope_kind : ScopeKind) (scope_name : Str) where
  -- The plan of field `f`, at position `i` of its scope, for `algorithm`.
  abbrev pub plan_of :
      CodecField → ℕ → Str → ChecksumVerifyMode → ChecksumInputModel → ℕ → ChecksumPlan
  plan_of f i algorithm v m n = record {
    scope_kind = scope_kind;
    scope_name = scope_name;
    field_name = f.name;
    field_index_in_scope = i % 2 ^ 32;
    algorithm_id = algorithm;
    verify_mode = v;
    input_model = m;
    field_width_bytes = n;
    field_endianness = f.endianness;
  }

  -- `plan` is that of the first field with a checksum, the fields being counted from `i` on.
  abbrev pub IsFirst : ℕ → List CodecField → Option ChecksumPlan → Type 0
  IsFirst i fields plan =
      (All HasNoChecksum fields × (plan ≡ none))
      ⊎ ((before : List CodecField) × (f : CodecField) × (after : List CodecField)
          × (algorithm : Str) × (fields ≡ before ++ (f ∷ after))
          × All HasNoChecksum before
          × (f.checksum_algorithm ≡ some algorithm)
          × ((v : ChecksumVerifyMode) × (m : ChecksumInputModel) × (n : ℕ) × IsCatalogued algorithm
                v m n
              × (plan ≡ some (plan_of f (i + length before) algorithm v m n))))

  plan_from-IsFirst :
      (fields : List CodecField) (i : ℕ)
      → IsFirst i fields (plan_from scope_kind scope_name i fields)
  unfolding plan_from
  plan_from-IsFirst [] i = inl (tt, refl)
  plan_from-IsFirst (f ∷ fields) i = elim (Option-cases (f.checksum_algorithm)) [
    | inl none_here ↦ elim (plan_from-IsFirst fields (i + 1)) [
      | inl (no_more, e) ↦ inl ((none_here, no_more), rw none_here e)
      | inr (before, g, after, algorithm, split, skipped, has, (v, m, n, modes, e)) ↦ inr (
        f ∷ before,
        g,
        after,
        algorithm,
        ap (λ (t : List CodecField). f ∷ t) split,
        (none_here, skipped),
        has,
        (
          v,
          m,
          n,
          modes,
          rw none_here (e ∙ ap (λ (t : ℕ). some (plan_of g t algorithm v m n)) (omega arith)),
        ),
      )
    ]
    | inr (algorithm, has) ↦ inr (
      [],
      f,
      fields,
      algorithm,
      refl,
      tt,
      has,
      (
        _,
        _,
        _,
        algorithm-IsCatalogued algorithm,
        rw has (
            ap
              (λ (t : ℕ). some (
                plan_of f t algorithm (checksum_modes algorithm).0 (checksum_modes algorithm).1
                  (checksum_field_width algorithm)))
              (omega arith)),
      ),
    )
  ]

  -- A scope has no checksum plan if none of its fields has a checksum. Else its plan is that of the
  -- first field that has one, with the field's position among all fields, which the conversion to
  -- 32 bits keeps below 2 ^ 32, its name and byte order, and the modes and width of the catalog's entry
  -- with the algorithm's name, or, where the catalog has none, recomputation with the field skipped and
  -- width 0.
  pub synthesize_checksum_plan-IsFirst :
      (fields : List CodecField)
      → IsFirst 0 fields (synthesize_checksum_plan fields scope_kind scope_name)
  unfolding synthesize_checksum_plan
  synthesize_checksum_plan-IsFirst fields = plan_from-IsFirst fields 0
