-- ===== src/Layout/Bitgroup/Members.antt =====
-- Which field belongs to which group: the references that `detect_bitgroups` leaves in the fields.
use mathlib.Core.List.{append_assoc, append-nil}
use wirespec.Base.{ℕ, ◌+◌, ◌^◌, ◌<◌, leb, ◌≡◌, refl, ◌⊎◌, inl, inr, subst}
use wirespec.Base.{
  List, [], ◌∷◌, ◌++◌, none, some, length, get_elem?, In, Forall₂, arith, ap, sym, ◌∙◌,
}
use wirespec.Base.{Forall₂-map, Forall₂-append, get_elem?-append_left, get_elem?-append_right}
use wirespec.Base.{Bool-cases, Option-cases}
use wirespec.Base.Str.{Str}
use wirespec.Base.Outcome.{ok}
use wirespec.Sema.Types.{Endianness}
use wirespec.Layout.Ir.{LayoutField, LayoutBitGroup, LayoutBitGroupMember}
use wirespec.Layout.Bitgroup.{insert_member, sort_by_offset, bit_width, bitgroup_id, member}
use wirespec.Layout.Bitgroup.{detect_bitgroups}
use wirespec.Base.{All-append}
use wirespec.Layout.Bitgroup.Runs.{IsRun, bit_width-wire, width_of_wire}
use wirespec.Layout.Bitgroup.Runs.{width, run_bits, offset, run_members, run_fields, close_run}
use wirespec.Layout.Bitgroup.Runs.{group_runs, bits_left, run_group}
use wirespec.Layout.Bitgroup.Loop.{detect_bitgroups-group_runs}
use wirespec.Layout.Bitgroup.Runs.{group_runs-closed, group_runs-open}

In-insert :
    (m x : LayoutBitGroupMember) (ms : List LayoutBitGroupMember)
    → (x ≡ m) ⊎ In x ms
    → In x (insert_member m ms)
unfolding insert_member
In-insert m x [] h = h
In-insert m x (n ∷ ns) h = elim (Bool-cases (leb m.offset_bits n.offset_bits)) [
  | inl e ↦ rw e h
  | inr e ↦ rw e (elim h [
    | inl same ↦ inr (In-insert m x ns (inl same))
    | inr (inl first) ↦ inl first
    | inr (inr later) ↦ inr (In-insert m x ns (inr later))
  ])
]

In-sort :
    (x : LayoutBitGroupMember) (ms : List LayoutBitGroupMember) → In x ms → In x (sort_by_offset ms)
unfolding sort_by_offset
In-sort x [] h = h
In-sort x (m ∷ ms) (inl e) = In-insert m x (sort_by_offset ms) (inl e)
In-sort x (m ∷ ms) (inr h) = In-insert m x (sort_by_offset ms) (inr (In-sort x ms h))

module _ (total : ℕ) (endianness : Endianness) (id : Str) where
  abbrev IsMember : List LayoutBitGroupMember → LayoutField → LayoutField → Type 0
  IsMember members f f' =
      (o : ℕ) × (bit_width f ≡ some (width f))
      × In (record { field_id = f.field_id; offset_bits = o; width_bits = width f }) members
      × (f' ≡ record f {
        bitgroup_member = some (record { bitgroup_id = id; offset_bits = o; width_bits = width f });
      })

  run_fields-IsMember :
      (run : List LayoutField) (before : ℕ)
      → IsRun run
      → Forall₂
          (IsMember (run_members total endianness id before run))
          run
          (run_fields total endianness id before run)
  unfolding run_members run_fields
  run_fields-IsMember [] before bits = tt
  run_fields-IsMember (f ∷ run) before bits = (
    (offset endianness total before (width f), bits.0, inl refl, refl),
    Forall₂-map (IsMember (run_members total endianness id (before + width f) run))
        (IsMember (
          member total endianness id f (offset endianness total before (width f)) (width f)
          ∷ run_members total endianness id (before + width f) run))
        run (run_fields total endianness id (before + width f) run)
        (λ x y (o, w, h, e). (o, w, inr h, e)) (run_fields-IsMember run (before + width f) bits.1),
  )

module _ (scope_id : Str) where
  -- What became of a field: a field that is no bit field is as it was; a bit field refers to the
  -- group of its index, which lists it with the offset of the reference and its own width, and all
  -- else of it is as it was.
  abbrev pub IsPlaced : ℕ → List LayoutBitGroup → LayoutField → LayoutField → Type 0
  IsPlaced k groups f f' =
      ((bit_width f ≡ none) × (f' ≡ f))
      ⊎ ((j : ℕ) × (o : ℕ) × (g : LayoutBitGroup) × (get_elem? groups j ≡ some g)
          × (g.bitgroup_id ≡ bitgroup_id scope_id (k + j))
          × (bit_width f ≡ some (width f))
          × In (record { field_id = f.field_id; offset_bits = o; width_bits = width f }) g.members
          × (f' ≡ record f {
            bitgroup_member =
                some
                  (record { bitgroup_id = g.bitgroup_id; offset_bits = o; width_bits = width f });
          }))

  IsPlaced-left :
      (k : ℕ) (gs gs' : List LayoutBitGroup) (f f' : LayoutField)
      → IsPlaced k gs f f'
      → IsPlaced k (gs ++ gs') f f'
  IsPlaced-left k gs gs' f f' (inl h) = inl h
  IsPlaced-left k gs gs' f f' (inr (j, o, g, e, i, w, m, s)) =
      inr (j, o, g, get_elem?-append_left gs gs' j g e, i, w, m, s)

  IsPlaced-right :
      (k : ℕ) (gs gs' : List LayoutBitGroup) (f f' : LayoutField)
      → IsPlaced (k + length gs) gs' f f'
      → IsPlaced k (gs ++ gs') f f'
  IsPlaced-right k gs gs' f f' (inl h) = inl h
  IsPlaced-right k gs gs' f f' (inr (j, o, g, e, i, w, m, s)) = inr (
    length gs + j,
    o,
    g,
    get_elem?-append_right gs gs' j (length gs + j) refl ∙ e,
    i ∙ ap (bitgroup_id scope_id) (omega arith),
    w,
    m,
    s,
  )

  module _ (endianness : Endianness) where
    -- Each field of a closed run belongs to the run's group.
    run_fields-IsPlaced :
        (k : ℕ) (run : List LayoutField)
        → IsRun run
        → Forall₂
            (IsPlaced k (run_group scope_id endianness k run ∷ []))
            run
            (run_fields (run_bits run) endianness (bitgroup_id scope_id k) 0 run)
    run_fields-IsPlaced k run bits =
        let total = run_bits run in
        let id = bitgroup_id scope_id k in
        Forall₂-map (IsMember total endianness id (run_members total endianness id 0 run))
          (IsPlaced k (run_group scope_id endianness k run ∷ [])) run
          (run_fields total endianness id 0 run)
          (λ f f' (o, w, m, e). inr (
            0,
            o,
            run_group scope_id endianness k run,
            refl,
            ap (bitgroup_id scope_id) (omega arith),
            w,
            In-sort _ _ m,
            e,
          ))
          (run_fields-IsMember total endianness id run 0 bits)

    close_run-IsPlaced :
        (k : ℕ) (run : List LayoutField) (gs : List LayoutBitGroup) (rs : List LayoutField)
        → IsRun run
        → close_run scope_id endianness k run ≡ ok (gs, rs)
        → Forall₂ (IsPlaced k gs) run rs
    unfolding close_run
    close_run-IsPlaced k [] gs rs bits h =
        subst (λ (t : List LayoutField). Forall₂ (IsPlaced k gs) [] t) {x = []} (ground (arith, h))
          tt
    close_run-IsPlaced k (f ∷ run) gs rs bits h =
        let same : (gs ≡ run_group scope_id endianness k (f ∷ run) ∷ [])
            × (rs
                ≡ run_fields (run_bits (f ∷ run)) endianness (bitgroup_id scope_id k) 0 (f ∷ run)) =
          ground (arith, h) in
        rw (same.0, same.1) (run_fields-IsPlaced k (f ∷ run) bits)

    group_runs-IsPlaced :
        (fields : List LayoutField) (k : ℕ) (run : List LayoutField) (groups : List LayoutBitGroup)
        (out : List LayoutField)
        → IsRun run
        → group_runs scope_id endianness k run fields ≡ ok (groups, out)
        → Forall₂ (IsPlaced k groups) (run ++ fields) out
    unfolding group_runs
    group_runs-IsPlaced [] k run groups out bits h =
        rw append-nil (close_run-IsPlaced k run groups out bits h)
    group_runs-IsPlaced (f ∷ fields) k run groups out bits h = elim (Option-cases (bit_width f)) [
      | inl plain ↦
          let (gs, rs, gs', rs', closed, later, e, e') =
            group_runs-closed scope_id endianness k run f fields groups out plain h in
          rw (e, e')
            (Forall₂-append (IsPlaced k (gs ++ gs')) run (f ∷ fields) rs (f ∷ rs')
              (Forall₂-map (IsPlaced k gs) (IsPlaced k (gs ++ gs')) run rs (IsPlaced-left k gs gs')
                (close_run-IsPlaced k run gs rs bits closed))
              (
                inl (plain, refl),
                Forall₂-map (IsPlaced (k + length gs) gs') (IsPlaced k (gs ++ gs')) fields rs'
                    (IsPlaced-right k gs gs')
                    (group_runs-IsPlaced fields (k + length gs) [] gs' rs' tt later),
              ))
      | inr (b, bit) ↦
          subst (λ (t : List LayoutField). Forall₂ (IsPlaced k groups) t out)
            (append_assoc run (f ∷ []) fields)
            (group_runs-IsPlaced fields k (run ++ (f ∷ [])) groups out
              (All-append (λ g. bit_width g ≡ some (width g)) run (f ∷ []) bits
                (let same = width_of_wire f b (bit_width-wire f b bit) in (rw same bit, tt)))
              (sym (group_runs-open scope_id endianness k run f fields b bit) ∙ h))
    ]

  -- Where `detect_bitgroups` succeeds, it keeps the fields in order and changes nothing but the
  -- group references of bit fields: each refers to the group with its index in its name, and that
  -- group lists the field with the offset of the reference and the field's own width.
  -- The widths of the bit fields together fit a `u16`.
  pub detect_bitgroups-IsPlaced :
      (fields : List LayoutField) (endianness : Endianness) (groups : List LayoutBitGroup)
      (out : List LayoutField)
      → bits_left fields < 2 ^ 16
      → detect_bitgroups fields scope_id endianness ≡ ok (groups, out)
      → Forall₂ (IsPlaced 0 groups) fields out
  detect_bitgroups-IsPlaced fields endianness groups out small h =
      group_runs-IsPlaced endianness fields 0 [] groups out tt
        (sym (detect_bitgroups-group_runs fields scope_id endianness small) ∙ h)
