-- ===== src/Sema/Catalog.antt =====
-- crates/wirespec-sema/src/checksum_catalog.rs and profile.rs: the checksum algorithms and the
-- profiles that allow them.
pub mod Find
use wirespec.Base.{
  ℕ, List, [], ◌∷◌, Option, none, some, Bool, true, false, if◌then◌else◌, ◌&&◌, ◌||◌, map,
}
use wirespec.Base.Str.{Str, str, str_eq}

pub data ChecksumVerifyMode : Type 0 where
  zero_sum recompute_compare : ChecksumVerifyMode

pub data ChecksumInputModel : Type 0 where
  zero_sum_whole_scope recompute_with_skipped_field : ChecksumInputModel

pub record ChecksumAlgorithmSpec : Type 0 where
  pub id : Str
  pub required_field_type : Str
  pub field_width_bytes : ℕ
  pub verify_mode : ChecksumVerifyMode
  pub input_model : ChecksumInputModel
  pub min_profile : Str

unfoldable pub catalog : List ChecksumAlgorithmSpec
catalog =
    record {
      id = str "internet";
      required_field_type = str "u16";
      field_width_bytes = 2;
      verify_mode = ChecksumVerifyMode.zero_sum;
      input_model = ChecksumInputModel.zero_sum_whole_scope;
      min_profile = str "phase2_strict_v1_0";
    }
    ∷ record {
      id = str "crc32";
      required_field_type = str "u32";
      field_width_bytes = 4;
      verify_mode = ChecksumVerifyMode.recompute_compare;
      input_model = ChecksumInputModel.recompute_with_skipped_field;
      min_profile = str "phase2_strict_v1_0";
    }
    ∷ record {
      id = str "crc32c";
      required_field_type = str "u32";
      field_width_bytes = 4;
      verify_mode = ChecksumVerifyMode.recompute_compare;
      input_model = ChecksumInputModel.recompute_with_skipped_field;
      min_profile = str "phase2_strict_v1_0";
    }
    ∷ record {
      id = str "fletcher16";
      required_field_type = str "u16";
      field_width_bytes = 2;
      verify_mode = ChecksumVerifyMode.recompute_compare;
      input_model = ChecksumInputModel.recompute_with_skipped_field;
      min_profile = str "phase2_extended_current";
    }
    ∷ []

-- `iter().find(…)` and `iter().filter(…)`.
unfoldable pub find {ℓ} : {A : Type ℓ} → (A → Bool) → List A → Option A
find p [] = none
find p (x ∷ xs) = if p x then some x else find p xs

unfoldable pub keep {ℓ} : {A : Type ℓ} → (A → Bool) → List A → List A
keep p [] = []
keep p (x ∷ xs) = let rest = keep p xs in if p x then x ∷ rest else rest

unfoldable pub lookup : Str → Option ChecksumAlgorithmSpec
lookup algorithm = find (λ s. str_eq s.id algorithm) catalog

unfoldable pub profile_includes : Str → Str → Bool
profile_includes active required =
    str_eq required (str "phase2_strict_v1_0")
    || (str_eq active (str "phase2_extended_current")
        && str_eq required (str "phase2_extended_current"))

unfoldable pub algorithms_for_profile : Str → List Str
algorithms_for_profile profile =
    map (λ s. s.id) (keep (λ s. profile_includes profile s.min_profile) catalog)

pub data ComplianceProfile : Type 0 where
  phase2_strict_v1_0 phase2_extended_current : ComplianceProfile

unfoldable pub as_str : ComplianceProfile → Str
as_str ComplianceProfile.phase2_strict_v1_0 = str "phase2_strict_v1_0"
as_str ComplianceProfile.phase2_extended_current = str "phase2_extended_current"

unfoldable pub allowed_checksum_algorithms : ComplianceProfile → List Str
allowed_checksum_algorithms profile = algorithms_for_profile (as_str profile)

unfoldable pub allows_capsule_checksum : ComplianceProfile → Bool
allows_capsule_checksum ComplianceProfile.phase2_strict_v1_0 = false
allows_capsule_checksum ComplianceProfile.phase2_extended_current = true

unfoldable pub checksum_required_type : Str → Option Str
checksum_required_type algorithm = elim (lookup algorithm) [
  | none ↦ none
  | some s ↦ some (s.required_field_type)
]

unfoldable pub checksum_field_width : Str → Option ℕ
checksum_field_width algorithm = elim (lookup algorithm) [
  | none ↦ none
  | some s ↦ some (s.field_width_bytes)
]
