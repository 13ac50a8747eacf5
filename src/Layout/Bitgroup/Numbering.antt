-- ===== src/Layout/Bitgroup/Numbering.antt =====
-- The names of a scope's bit groups are its groups' indices, and no two are equal.
use wirespec.Base.{ℕ, ◌+◌, ◌^◌, ◌<◌, ◌≡◌, refl, inl, inr, subst}
use wirespec.Base.{List, [], ◌∷◌, ◌++◌, length, arith, sym, ◌∙◌}
use wirespec.Base.{Option-cases}
use wirespec.Base.Str.{Str, str, decimal, decimal_injective, cancel_prefix, cancel_last}
use wirespec.Base.Outcome.{ok}
use wirespec.Sema.Types.{Endianness}
use wirespec.Layout.Ir.{LayoutField, LayoutBitGroup}
use wirespec.Layout.Bitgroup.{bit_width, bitgroup_id, detect_bitgroups}
use wirespec.Layout.Bitgroup.Runs.{close_run, group_runs, bits_left}
use wirespec.Layout.Bitgroup.Loop.{detect_bitgroups-group_runs}
use wirespec.Layout.Bitgroup.Runs.{group_runs-closed, group_runs-open, run_group}

pub bitgroup_id_injective :
    (scope_id : Str) (i j : ℕ) → bitgroup_id scope_id i ≡ bitgroup_id scope_id j → i ≡ j
unfolding bitgroup_id
bitgroup_id_injective scope_id i j e = decimal_injective i j (
    cancel_last (decimal i) (decimal j) b']'
      (cancel_prefix (str ".bitgroup[") _ _ (cancel_prefix scope_id _ _ e)))

module _ (scope_id : Str) where
  abbrev pub IsNumbered : ℕ → List LayoutBitGroup → Type 0
  IsNumbered k [] = Unit
  IsNumbered k (g ∷ gs) = (g.bitgroup_id ≡ bitgroup_id scope_id k) × IsNumbered (k + 1) gs

  IsNumbered-append :
      (k : ℕ) (gs gs' : List LayoutBitGroup)
      → IsNumbered k gs
      → IsNumbered (k + length gs) gs'
      → IsNumbered k (gs ++ gs')
  IsNumbered-append k [] gs' h h' = subst (λ (n : ℕ). IsNumbered n gs') (omega arith) h'
  IsNumbered-append k (g ∷ gs) gs' h h' = (
    h.0,
    IsNumbered-append (k + 1) gs gs' h.1 (subst (λ (n : ℕ). IsNumbered n gs') (omega arith) h'),
  )

  module _ (endianness : Endianness) where
    close_run-IsNumbered :
        (k : ℕ) (run : List LayoutField) (gs : List LayoutBitGroup) (rs : List LayoutField)
        → close_run scope_id endianness k run ≡ ok (gs, rs)
        → IsNumbered k gs
    unfolding close_run
    close_run-IsNumbered k [] gs rs h = subst (IsNumbered k) {x = []} (ground (arith, h)) tt
    close_run-IsNumbered k (f ∷ run) gs rs h =
        subst (IsNumbered k) {x = run_group scope_id endianness k (f ∷ run) ∷ []}
          (ground (arith, h)) (refl, tt)

    group_runs-IsNumbered :
        (fields : List LayoutField) (k : ℕ) (run : List LayoutField) (groups : List LayoutBitGroup)
        (out : List LayoutField)
        → group_runs scope_id endianness k run fields ≡ ok (groups, out)
        → IsNumbered k groups
    unfolding group_runs
    group_runs-IsNumbered [] k run groups out h = close_run-IsNumbered k run groups out h
    group_runs-IsNumbered (f ∷ fields) k run groups out h = elim (Option-cases (bit_width f)) [
      | inl plain ↦
          let (gs, rs, gs', rs', closed, later, e, e') =
            group_runs-closed scope_id endianness k run f fields groups out plain h in
          subst (IsNumbered k) (sym e) (
            IsNumbered-append k gs gs' (close_run-IsNumbered k run gs rs closed)
              (group_runs-IsNumbered fields (k + length gs) [] gs' rs' later))
      | inr (b, bit) ↦
          group_runs-IsNumbered fields k (run ++ (f ∷ [])) groups out
            (sym (group_runs-open scope_id endianness k run f fields b bit) ∙ h)
    ]

    pub detect_bitgroups-IsNumbered :
        (fields : List LayoutField) (groups : List LayoutBitGroup) (out : List LayoutField)
        → bits_left fields < 2 ^ 16
        → detect_bitgroups fields scope_id endianness ≡ ok (groups, out)
        → IsNumbered 0 groups
    detect_bitgroups-IsNumbered fields groups out small h =
        group_runs-IsNumbered fields 0 [] groups out
          (sym (detect_bitgroups-group_runs fields scope_id endianness small) ∙ h)
