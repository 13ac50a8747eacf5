-- ===== src/Codec/Lower/Items.antt =====
-- The items of a scope: each names a field, a derived value or a requirement that the scope declares.
use wirespec.Base.{◌≡◌, refl, ◌⊎◌, inl, inr, arith, List, [], ◌∷◌, ◌++◌}
use wirespec.Base.{false, ap, All, In, Forall₂, Option-cases}
use wirespec.Base.Str.{str_eq, str_eq→eq}
use wirespec.Base.Outcome.{ok, err, push_each}
use wirespec.Sema.Ir.{SemanticDerived, SemanticRequire, SemanticScopeItem}
use wirespec.Sema.Catalog.{find}
use wirespec.Sema.Catalog.Find.{find-some, find-none}
use wirespec.Codec.Ir.{CodecItem}
use wirespec.Codec.Convert.{convert_semantic_expr}
use wirespec.Codec.Lower.{LowerCtx, CodecError, derived_not_found, require_not_found, lower_item}
use wirespec.Codec.Lower.{lower_items, semantic_type_to_wire_type}

module _ (ctx : LowerCtx) (derived_list : List SemanticDerived)
    (requires_list : List SemanticRequire) where
  -- The item for an item, out of a declaration of its name.
  abbrev pub IsItem : SemanticScopeItem → CodecItem → Type 0
  IsItem (SemanticScopeItem.field field_id) out = out ≡ CodecItem.field field_id
  IsItem (SemanticScopeItem.derived derived_id) out =
      (d : SemanticDerived) × In d derived_list
      × (d.derived_id ≡ derived_id)
      × (out
          ≡ CodecItem.derived (record {
            item_id = derived_id;
            name = d.name;
            wire_type = semantic_type_to_wire_type ctx d.ty;
            expr = convert_semantic_expr d.expr;
            span = d.span;
          }))
  IsItem (SemanticScopeItem.require require_id) out =
      (r : SemanticRequire) × In r requires_list
      × (r.require_id ≡ require_id)
      × (out
          ≡ CodecItem.require
              (record { item_id = require_id; expr = convert_semantic_expr r.expr; span = r.span }))

  -- The error for an item whose name no declaration has.
  abbrev pub IsMissing : SemanticScopeItem → CodecError → Type 0
  IsMissing (SemanticScopeItem.field field_id) e = ⊥
  IsMissing (SemanticScopeItem.derived derived_id) e =
      All (λ d. str_eq d.derived_id derived_id ≡ false) derived_list
      × (e ≡ derived_not_found derived_id)
  IsMissing (SemanticScopeItem.require require_id) e =
      All (λ r. str_eq r.require_id require_id ≡ false) requires_list
      × (e ≡ require_not_found require_id)

  IsItem-cases :
      (item : SemanticScopeItem)
      → ((out : CodecItem) × (lower_item ctx derived_list requires_list item ≡ ok out)
          × IsItem item out)
        ⊎ ((e : CodecError) × (lower_item ctx derived_list requires_list item ≡ err e)
            × IsMissing item e)
  unfolding lower_item
  IsItem-cases (SemanticScopeItem.field field_id) = inl (_, refl, refl)
  IsItem-cases (SemanticScopeItem.derived derived_id) =
      elim (Option-cases (find (λ d. str_eq d.derived_id derived_id) derived_list)) [
        | inl missing ↦ inr (
          derived_not_found derived_id,
          rw (lower_item, missing) refl,
          (find-none _ derived_list missing, refl),
        )
        | inr (d, found) ↦
            let (m, same) = find-some (λ d. str_eq d.derived_id derived_id) d derived_list found in
            let id = str_eq→eq d.derived_id derived_id same in
            let out : CodecItem = CodecItem.derived (record {
              item_id = d.derived_id;
              name = d.name;
              wire_type = semantic_type_to_wire_type ctx d.ty;
              expr = convert_semantic_expr d.expr;
              span = d.span;
            }) in
            inl (out, rw (lower_item, found) refl, (d, m, id, rw id refl))
      ]
  IsItem-cases (SemanticScopeItem.require require_id) =
      elim (Option-cases (find (λ r. str_eq r.require_id require_id) requires_list)) [
        | inl missing ↦ inr (
          require_not_found require_id,
          rw (lower_item, missing) refl,
          (find-none _ requires_list missing, refl),
        )
        | inr (r, found) ↦
            let (m, same) = find-some (λ r. str_eq r.require_id require_id) r requires_list found in
            let id = str_eq→eq r.require_id require_id same in
            let out : CodecItem = CodecItem.require (record {
              item_id = r.require_id;
              expr = convert_semantic_expr r.expr;
              span = r.span;
            }) in
            inl (out, rw (lower_item, found) refl, (r, m, id, rw id refl))
      ]

  -- Either every item is the item of a declaration of its name, in order; or the error is that of the
  -- first item whose name no declaration has, all items before it being found. There is no panic.
  pub lower_items-IsItem :
      (items : List SemanticScopeItem)
      → ((out : List CodecItem) × (lower_items items derived_list requires_list ctx ≡ ok out)
          × Forall₂ IsItem items out)
        ⊎ ((before : List SemanticScopeItem) × (item : SemanticScopeItem) × (after : List
              SemanticScopeItem)
            × (found : List CodecItem) × (e : CodecError) × (items ≡ before ++ (item ∷ after))
            × Forall₂ IsItem before found
            × IsMissing item e
            × (lower_items items derived_list requires_list ctx ≡ err e))
  unfolding lower_items push_each
  lower_items-IsItem [] = inl ([], refl, tt)
  lower_items-IsItem (item ∷ items) = elim (IsItem-cases item) [
    | inr (e, refused, missing) ↦
        inr ([], item, items, [], e, refl, tt, missing, ground (arith, refused))
    | inl (c, lowered, is_item) ↦ elim (lower_items-IsItem items) [
      | inl (cs, rest, are_items) ↦
          inl (c ∷ cs, ground (arith, lowered, rest), (is_item, are_items))
      | inr (before, bad, after, cs, e, split, are_items, missing, rest) ↦ inr (
        item ∷ before,
        bad,
        after,
        c ∷ cs,
        e,
        ap (λ (t : List SemanticScopeItem). item ∷ t) split,
        (is_item, are_items),
        missing,
        ground (arith, lowered, rest),
      )
    ]
  ]
