-- ===== src/Codec/Lower/Tests.antt =====
-- Runs of the codec pass's theorems on the fields of one scope.
use wirespec.Base.{List, [], ◌∷◌, ◌⊎◌, ◌++◌, ◌≡◌, [], none, some, Forall₂}
use wirespec.Base.Str.{str}
use wirespec.Base.Outcome.{ok, err}
use wirespec.Sema.Expr.{SemanticExpr, ValueRefKind}
use wirespec.Sema.Types.{Endianness, SemanticType, SemanticBytesKind, FieldPresence}
use wirespec.Layout.Ir.{LayoutField}
use wirespec.Layout.Bitgroup.Tests.{three_fields, three_out, one_group, three_detected, three_small}
use wirespec.Layout.Bitgroup.Tests.{three_IsPositive}
use wirespec.Codec.Ir.{CodecField}
use wirespec.Sema.Ir.{SemanticScopeItem}
use wirespec.Codec.Ir.{CodecItem}
use wirespec.Codec.Lower.{lower_field, lower_items, CodecError}
use wirespec.Codec.Lower.Items.{IsItem, IsMissing, lower_items-IsItem}
use wirespec.Codec.Lower.Groups.{IsExtracted, bit_fields-IsExtracted}
use wirespec.Codec.Lower.Fields.{IsConsistent, lower_field-IsConsistent}

-- `body: bytes[length: …]`.
abbrev body : LayoutField
body = record {
  field_id = str "body";
  name = str "body";
  ty =
      SemanticType.bytes SemanticBytesKind.length none (
        some
          (SemanticExpr.value_ref (record { value_id = str "size"; kind = ValueRefKind.field })));
  presence = FieldPresence.always;
  max_elements = none;
  checksum_algorithm = none;
  wire_width_bits = none;
  endianness = none;
  bitgroup_member = none;
  asn1_hint = none;
  span = none;
}

bit_fields-IsExtracted_example : Forall₂ (IsExtracted one_group) three_fields three_out
bit_fields-IsExtracted_example =
    bit_fields-IsExtracted three_fields (str "p") Endianness.big one_group three_out
      three_IsPositive three_small three_detected

lower_field-IsConsistent_example :
    (out : CodecField) × (lower_field [] body (str "p") 0 one_group ≡ ok out)
    × IsConsistent [] body out
lower_field-IsConsistent_example = lower_field-IsConsistent [] body (str "p") 0 one_group tt

-- A field and then a derived value that the scope does not declare.
abbrev two_items : List SemanticScopeItem
two_items = SemanticScopeItem.field (str "body") ∷ SemanticScopeItem.derived (str "total") ∷ []

lower_items-IsItem_example :
    ((out : List CodecItem) × (lower_items two_items [] [] [] ≡ ok out)
      × Forall₂ (IsItem [] [] []) two_items out)
    ⊎ ((before : List SemanticScopeItem) × (item : SemanticScopeItem) × (after : List
          SemanticScopeItem)
        × (found : List CodecItem) × (e : CodecError) × (two_items ≡ before ++ (item ∷ after))
        × Forall₂ (IsItem [] [] []) before found
        × IsMissing [] [] [] item e
        × (lower_items two_items [] [] [] ≡ err e))
lower_items-IsItem_example = lower_items-IsItem [] [] [] two_items
