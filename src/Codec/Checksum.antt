-- ===== src/Codec/Checksum.antt =====
-- crates/wirespec-codec/src/checksum.rs: the checksum plan of a scope.
pub mod Plan
pub mod Widths
mod Tests
use wirespec.Base.{ℕ, ◌+◌, ◌%◌, ◌^◌, List, [], ◌∷◌, Option, none, some}
use wirespec.Base.Str.{Str}
use wirespec.Sema.Catalog as Catalog
use wirespec.Codec.Ir.{CodecField, ScopeKind, ChecksumPlan, ChecksumVerifyMode, ChecksumInputModel}

unfoldable pub verify_mode_of : Catalog.ChecksumVerifyMode → ChecksumVerifyMode
verify_mode_of Catalog.ChecksumVerifyMode.zero_sum = ChecksumVerifyMode.zero_sum
verify_mode_of Catalog.ChecksumVerifyMode.recompute_compare = ChecksumVerifyMode.recompute_compare

unfoldable pub input_model_of : Catalog.ChecksumInputModel → ChecksumInputModel
input_model_of Catalog.ChecksumInputModel.zero_sum_whole_scope =
    ChecksumInputModel.zero_sum_whole_scope
input_model_of Catalog.ChecksumInputModel.recompute_with_skipped_field =
    ChecksumInputModel.recompute_with_skipped_field

unfoldable pub checksum_modes : Str → ChecksumVerifyMode × ChecksumInputModel
checksum_modes algorithm = elim (Catalog.lookup algorithm) [
  | some spec ↦ (verify_mode_of (spec.verify_mode), input_model_of (spec.input_model))
  | none ↦ (ChecksumVerifyMode.recompute_compare, ChecksumInputModel.recompute_with_skipped_field)
]

unfoldable pub checksum_field_width : Str → ℕ
checksum_field_width algorithm = elim (Catalog.lookup algorithm) [
  | some spec ↦ spec.field_width_bytes
  | none ↦ 0
]

-- The loop over the fields from index `i` on.
unfoldable pub plan_from : ScopeKind → Str → ℕ → List CodecField → Option ChecksumPlan
plan_from scope_kind scope_name i [] = none
plan_from scope_kind scope_name i (field ∷ fields) = elim (field.checksum_algorithm) [
  | some algorithm ↦ some (record {
    scope_kind = scope_kind;
    scope_name = scope_name;
    field_name = field.name;
    field_index_in_scope = i % 2 ^ 32;
    algorithm_id = algorithm;
    verify_mode = (checksum_modes algorithm).0;
    input_model = (checksum_modes algorithm).1;
    field_width_bytes = checksum_field_width algorithm;
    field_endianness = field.endianness;
  })
  | none ↦ plan_from scope_kind scope_name (i + 1) fields
]

unfoldable pub synthesize_checksum_plan : List CodecField → ScopeKind → Str → Option ChecksumPlan
synthesize_checksum_plan fields scope_kind scope_name = plan_from scope_kind scope_name 0 fields
