-- ===== src/Layout/Bitgroup/Runs.antt =====
-- The bit groups of a scope as a recursion on its runs of bit fields, with no index and no mutation.
use wirespec.Base.{ℕ, ◌+◌, ◌-◌, ◌%◌, ltb, ◌==◌, if◌then◌else◌, not, ◌≡◌}
use wirespec.Base.{List, [], ◌∷◌, ◌++◌, none, some, length, All, arith}
use wirespec.Base.{inl, inr}
use wirespec.Base.Str.{Str}
use wirespec.Base.Outcome.{Outcome-cases, Outcome, ok, err, ◌>>=◌}
use wirespec.Sema.Types.{Endianness}
use wirespec.Layout.Ir.{LayoutField, LayoutBitGroup, LayoutBitGroupMember}
use wirespec.Layout.Bitgroup.{BitGroupError, exceeds_64, not_multiple_of_8, bit_width, bitgroup_id}
use wirespec.Layout.Bitgroup.{sort_by_offset, member, with_member, Grouped}

-- The widths of all bit fields together.
unfoldable pub bits_left : List LayoutField → ℕ
bits_left [] = 0
bits_left (f ∷ fields) = elim (bit_width f) [ none ↦ 0 | some w ↦ w ] + bits_left fields

-- The width of a field, 0 if it has none.
unfoldable pub width : LayoutField → ℕ
width f = elim (f.wire_width_bits) [ none ↦ 0 | some w ↦ w ]

unfoldable pub run_bits : List LayoutField → ℕ
run_bits [] = 0
run_bits (f ∷ run) = width f + run_bits run

abbrev pub IsRun : List LayoutField → Type 0
IsRun run = All (λ f. bit_width f ≡ some (width f)) run

-- Where a member of `w` bits behind `before` bits stands.
unfoldable pub offset : Endianness → ℕ → ℕ → ℕ → ℕ
offset Endianness.big total before w = total - before - w
offset Endianness.little total before w = before

module _ (total : ℕ) (endianness : Endianness) (id : Str) where
  unfoldable pub run_members : ℕ → List LayoutField → List LayoutBitGroupMember
  run_members before [] = []
  run_members before (f ∷ run) =
      member total endianness id f (offset endianness total before (width f)) (width f)
      ∷ run_members (before + width f) run

  unfoldable pub run_fields : ℕ → List LayoutField → List LayoutField
  run_fields before [] = []
  run_fields before (f ∷ run) =
      with_member total endianness id f (offset endianness total before (width f)) (width f)
      ∷ run_fields (before + width f) run

module _ (scope_id : Str) (endianness : Endianness) where
  abbrev pub run_group : ℕ → List LayoutField → LayoutBitGroup
  run_group k run = record {
    bitgroup_id = bitgroup_id scope_id k;
    scope_id = scope_id;
    total_bits = run_bits run;
    endianness = endianness;
    members = sort_by_offset (run_members (run_bits run) endianness (bitgroup_id scope_id k) 0 run);
  }

  -- The group of a run that is not empty, as the `k`-th of its scope.
  unfoldable pub close_run : ℕ → List LayoutField → Outcome BitGroupError Grouped
  close_run k [] = ok ([], [])
  close_run k (f ∷ run) =
      if ltb 64 (run_bits (f ∷ run))
      then err (exceeds_64 (run_bits (f ∷ run)))
      else if not (run_bits (f ∷ run) % 8 == 0)
      then err (not_multiple_of_8 (run_bits (f ∷ run)))
      else ok (
        run_group k (f ∷ run) ∷ [],
        run_fields (run_bits (f ∷ run)) endianness (bitgroup_id scope_id k) 0 (f ∷ run),
      )

  -- The groups and fields of `run ++ fields`, where the run before `fields` is still open.
  unfoldable pub group_runs :
      ℕ → List LayoutField → List LayoutField → Outcome BitGroupError Grouped
  group_runs k run [] = close_run k run
  group_runs k run (f ∷ fields) = elim (bit_width f) [
    | some w ↦ group_runs k (run ++ (f ∷ [])) fields
    | none ↦ do
      (groups, done) ← close_run k run
      (groups', rest) ← group_runs (k + length groups) [] fields
      ok (groups ++ groups', done ++ (f ∷ rest))
  ]

pub bit_width-wire : (f : LayoutField) (w : ℕ) → bit_width f ≡ some w → f.wire_width_bits ≡ some w
unfolding bit_width
bit_width-wire f w h = ground arith

pub width_of_wire : (f : LayoutField) (w : ℕ) → f.wire_width_bits ≡ some w → width f ≡ w
unfolding width
width_of_wire f w e = ground arith

pub group_runs-open :
    (scope_id : Str) (endianness : Endianness) (k : ℕ) (run : List LayoutField) (f : LayoutField)
    (fields : List LayoutField) (w : ℕ)
    → bit_width f ≡ some w
    → group_runs scope_id endianness k run (f ∷ fields)
      ≡ group_runs scope_id endianness k (run ++ (f ∷ [])) fields
unfolding group_runs
group_runs-open scope_id endianness k run f fields w bit = rw (bit, group_runs)

-- What a closed run and the fields behind it give, where all succeed.
pub group_runs-closed :
    (scope_id : Str) (endianness : Endianness) (k : ℕ) (run : List LayoutField) (f : LayoutField)
    (fields : List LayoutField) (groups : List LayoutBitGroup) (out : List LayoutField)
    → bit_width f ≡ none
    → group_runs scope_id endianness k run (f ∷ fields) ≡ ok (groups, out)
    → (gs : List LayoutBitGroup) × (rs : List LayoutField) × (gs' : List LayoutBitGroup)
      × (rs' : List LayoutField) × (close_run scope_id endianness k run ≡ ok (gs, rs))
      × (group_runs scope_id endianness (k + length gs) [] fields ≡ ok (gs', rs'))
      × (groups ≡ gs ++ gs')
      × (out ≡ rs ++ (f ∷ rs'))
unfolding group_runs
group_runs-closed scope_id endianness k run f fields groups out plain h =
    elim (Outcome-cases (close_run scope_id endianness k run)) [
      | inl ((gs, rs), closed) ↦
          elim (Outcome-cases (group_runs scope_id endianness (k + length gs) [] fields)) [
            | inl ((gs', rs'), later) ↦
                (gs, rs, gs', rs', closed, later, ground (arith, later), ground (arith, later))
            | inr (inl (x, later)) ↦ absurd (ground (arith, later))
            | inr (inr later) ↦ absurd (ground (arith, later))
          ]
      | inr (inl (x, closed)) ↦ absurd (ground (arith, closed))
      | inr (inr closed) ↦ absurd (ground (arith, closed))
    ]
