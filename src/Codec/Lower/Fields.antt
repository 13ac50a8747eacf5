-- ===== src/Codec/Lower/Fields.antt =====
-- What holds of every field that the codec pass plans.
use wirespec.Base.{ℕ, ◌≡◌, refl, ◌↔◌, if◌then◌else◌, subst}
use wirespec.Base.{List, none, some, Bool, true, false}
use wirespec.Base.Str.{Str}
use wirespec.Base.Outcome.{ok, >>=-ok}
use wirespec.Base.{ap, ◌∙◌}
use wirespec.Sema.Types.{SemanticType, FieldPresence}
use wirespec.Layout.Ir.{LayoutField, LayoutBitGroup}
use wirespec.Codec.Ir.{CodecField, FieldStrategy}
use wirespec.Codec.Strategy.{assign_strategy, type_based_strategy}
use wirespec.Codec.Lower.{LowerCtx, lower_field}
use wirespec.Codec.Lower.{refine_strategy, is_some, is_conditional, condition_of}
use wirespec.Codec.Lower.Strategies.{
  IsSized, wire_strategy, flags_strategy, HasSize, HasPlan, IsSizeOf, ByType, type_ByType,
  type_wire_strategy, type_HasSize, type_HasPlan, type_IsSizeOf, sized_bytes_spec,
}

-- How the parts of a planned field go together, which the back ends rely on.
pub record IsConsistent (ctx : LowerCtx) (f : LayoutField) (out : CodecField) : Type 0 where
  -- Grouping, a checksum and a condition decide the strategy in this order; else the type does.
  pub grouped : (out.strategy ≡ FieldStrategy.bit_group) ↔ (is_some f.bitgroup_member ≡ true)
  pub summed :
      (out.strategy ≡ FieldStrategy.checksum)
      ↔ ((is_some f.bitgroup_member ≡ false) × (is_some f.checksum_algorithm ≡ true))
  pub conditioned : (out.strategy ≡ FieldStrategy.conditional) ↔ (
      (is_some f.bitgroup_member ≡ false)
      × (is_some f.checksum_algorithm ≡ false)
      × (out.is_optional ≡ true))
  -- The whole choice: in each case where no flag decides, the wire type and the size of bytes do.
  pub decided :
      out.strategy
      ≡ flags_strategy out.is_optional
          (is_some f.checksum_algorithm)
          (is_some f.bitgroup_member)
          (wire_strategy out.wire_type out.bytes_spec)
  -- An optional field has a condition and an inner type, and no other has.
  pub optional_condition : is_some out.condition ≡ out.is_optional
  pub optional_inner : out.inner_wire_type ≡ (if out.is_optional then some out.wire_type else none)
  -- The size of bytes is there and is that of the type, and the element plan of an array is there.
  pub has_size : HasSize out.wire_type out.bytes_spec
  pub has_plan : HasPlan out.wire_type out.array_spec
  pub size_is : IsSizeOf f.ty out.bytes_spec

-- The strategy that `lower_field` gives, by the three flags and the type.
abbrev strategy_of : LowerCtx → SemanticType → Bool → Bool → Bool → FieldStrategy
strategy_of ctx ty optional checksum group =
    refine_strategy ctx
      (assign_strategy
        (record { ty = ty; is_optional = optional; has_checksum = checksum; has_bitgroup = group }))
      ty

module _ (ctx : LowerCtx) where
  -- The flags decide before the type does.
  pub group_flag :
      (ty : SemanticType) (o c g : Bool)
      → (strategy_of ctx ty o c g ≡ FieldStrategy.bit_group) ↔ (g ≡ true)
  unfolding assign_strategy refine_strategy
  group_flag ty o c true = (λ h. refl, λ h. refl)
  group_flag ty o true false = (λ h. absurd cc, λ h. absurd cc)
  group_flag ty true false false = (λ h. absurd cc, λ h. absurd cc)
  group_flag ty false false false =
      (λ h. absurd (subst ByType h (type_ByType ctx ty)), λ h. absurd cc)

  checksum_flag :
      (ty : SemanticType) (o c g : Bool)
      → (strategy_of ctx ty o c g ≡ FieldStrategy.checksum) ↔ ((g ≡ false) × (c ≡ true))
  unfolding assign_strategy refine_strategy
  checksum_flag ty o c true = (λ h. absurd cc, λ (h, _). absurd cc)
  checksum_flag ty o true false = (λ h. (refl, refl), λ h. refl)
  checksum_flag ty true false false = (λ h. absurd cc, λ (_, h). absurd cc)
  checksum_flag ty false false false =
      (λ h. absurd (subst ByType h (type_ByType ctx ty)), λ (_, h). absurd cc)

  optional_flag :
      (ty : SemanticType) (o c g : Bool)
      → (strategy_of ctx ty o c g ≡ FieldStrategy.conditional)
        ↔ ((g ≡ false) × (c ≡ false) × (o ≡ true))
  unfolding assign_strategy refine_strategy
  optional_flag ty o c true = (λ h. absurd cc, λ (h, _, _). absurd cc)
  optional_flag ty o true false = (λ h. absurd cc, λ (_, h, _). absurd cc)
  optional_flag ty true false false = (λ h. (refl, refl, refl), λ h. refl)
  optional_flag ty false false false =
      (λ h. absurd (subst ByType h (type_ByType ctx ty)), λ (_, _, h). absurd cc)

  flags_decide :
      (ty : SemanticType) (o c g : Bool)
      → strategy_of ctx ty o c g
        ≡ flags_strategy o c g (refine_strategy ctx (type_based_strategy ty) ty)
  unfolding assign_strategy refine_strategy
  flags_decide ty o c true = refl
  flags_decide ty o true false = refl
  flags_decide ty true false false = refl
  flags_decide ty false false false = refl

  some_condition : (p : FieldPresence) → is_some (condition_of p) ≡ is_conditional p
  some_condition FieldPresence.always = refl
  some_condition (FieldPresence.conditional condition) = refl

  -- A field whose type is sized, so that an expression counts its bytes where the kind asks for
  -- one, is planned with no panic, and the parts of the plan go together as `IsConsistent` says.
  pub lower_field-IsConsistent :
      (f : LayoutField) (scope_id : Str) (i : ℕ) (groups : List LayoutBitGroup)
      → IsSized f.ty
      → (out : CodecField) × (lower_field ctx f scope_id i groups ≡ ok out) × IsConsistent ctx f out
  unfolding lower_field
  lower_field-IsConsistent f scope_id i groups h =
      let (spec, e) = sized_bytes_spec ctx f.ty h in
      let o = is_conditional f.presence in
      let c = is_some f.checksum_algorithm in
      let g = is_some f.bitgroup_member in
      (
        _,
        >>=-ok _ e,
        record {
          grouped = group_flag f.ty o c g;
          summed = checksum_flag f.ty o c g;
          conditioned = optional_flag f.ty o c g;
          decided =
              flags_decide f.ty o c g
              ∙ ap (flags_strategy o c g) (type_wire_strategy ctx f.ty spec e);
          optional_condition = some_condition f.presence;
          optional_inner = refl;
          has_size = type_HasSize ctx f.ty spec e;
          has_plan = type_HasPlan ctx f.ty;
          size_is = type_IsSizeOf ctx f.ty spec e;
        },
      )
