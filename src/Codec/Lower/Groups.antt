-- ===== src/Codec/Lower/Groups.antt =====
-- Bit groups from the layout pass to the codec pass: every bit field of a scope gets the place in
-- its group that the back ends extract it from.
use wirespec.Base.{ℕ, zero, suc, ◌+◌, ◌%◌, ◌^◌, ◌≤◌, ◌<◌, ◌≡◌, refl, inl, inr, subst}
use wirespec.Base.{List, [], ◌∷◌, none, some, get_elem?, arith, sym, ◌∙◌, In, All, Forall₂}
use wirespec.Base.{All-get_elem?, Forall₂-map, Bool-cases, ◌⊎◌}
use wirespec.Base.Str.{Str, str_eq, str_eq→eq, str_eq_refl}
use wirespec.Base.{true}
use wirespec.Base.Outcome.{ok}
use wirespec.Sema.Types.{Endianness}
use wirespec.Layout.Ir.{LayoutField, LayoutBitGroup, LayoutBitGroupMember}
use wirespec.Layout.Bitgroup.{bit_width, bitgroup_id, detect_bitgroups}
use wirespec.Layout.Bitgroup.Runs.{bits_left, width}
use wirespec.Layout.Bitgroup.Tiles.{Tiles-le, Tiles, IsTiled, IsPositive, detect_bitgroups-IsTiled}
use wirespec.Layout.Bitgroup.Members.{IsPlaced, detect_bitgroups-IsPlaced}
use wirespec.Layout.Bitgroup.Numbering.{
  IsNumbered, bitgroup_id_injective, detect_bitgroups-IsNumbered,
}
use wirespec.Codec.Lower.{find_group, extract_bitgroup_member}

-- The group of index `j` is found under its own name.
find_group_lem :
    (scope_id : Str) (groups : List LayoutBitGroup) (k i j n : ℕ) (g : LayoutBitGroup)
    → IsNumbered scope_id k groups
    → get_elem? groups j ≡ some g
    → n ≡ k + j
    → find_group (bitgroup_id scope_id n) i groups ≡ some (i + j, g)
unfolding find_group
find_group_lem scope_id [] k i j n g h e en = cc
find_group_lem scope_id (b ∷ groups) k i zero n g h e en =
    let same : str_eq b.bitgroup_id (bitgroup_id scope_id n) ≡ true =
      rw (h.0, en)
        (subst (λ (t : ℕ). str_eq (bitgroup_id scope_id k) (bitgroup_id scope_id t) ≡ true) {x = k}
          (omega arith) (str_eq_refl (bitgroup_id scope_id k))) in
    ground (arith, same, e)
find_group_lem scope_id (b ∷ groups) k i (suc j) n g h e en =
    elim (Bool-cases (str_eq b.bitgroup_id (bitgroup_id scope_id n))) [
      | inl same ↦
          let equal : k ≡ n = bitgroup_id_injective scope_id k n (sym h.0 ∙ str_eq→eq _ _ same) in
          absurd (omega (arith, equal, en))
      | inr other ↦
          ground
            (arith, other, find_group_lem scope_id groups (k + 1) (i + 1) j n g h.1 e (omega arith))
    ]

Tiles-In :
    (ms : List LayoutBitGroupMember) (m : LayoutBitGroupMember) (from to : ℕ)
    → Tiles from ms to
    → In m ms
    → m.offset_bits + m.width_bits ≤ to
Tiles-In [] m from to t h = absurd h
Tiles-In (x ∷ ms) m from to t (inl e) =
    rw e (omega (arith, t.0, Tiles-le (from + x.width_bits) to ms t.1))
Tiles-In (x ∷ ms) m from to t (inr h) = Tiles-In ms m (from + x.width_bits) to t.1 h

module _ (groups : List LayoutBitGroup) where
  -- What the codec pass reads out of a field after grouping, next to the field before it: nothing
  -- of a field that is no bit field, and of a bit field the place of the member that its group lists
  -- for it.
  abbrev pub IsExtracted : LayoutField → LayoutField → Type 0
  IsExtracted f f' =
      ((bit_width f ≡ none) × (f' ≡ f))
      ⊎ ((j : ℕ) × (o : ℕ) × (g : LayoutBitGroup) × (get_elem? groups j ≡ some g)
          × (bit_width f ≡ some (width f))
          × In (record { field_id = f.field_id; offset_bits = o; width_bits = width f }) g.members
          × (f' ≡ record f {
            bitgroup_member =
                some
                  (record { bitgroup_id = g.bitgroup_id; offset_bits = o; width_bits = width f });
          })
          × (extract_bitgroup_member f' groups
              ≡ some (record {
                group_id = j % 2 ^ 32;
                total_bits = g.total_bits;
                member_offset_bits = o;
                member_width_bits = width f;
                group_endianness = g.endianness;
              }))
          × (o + width f ≤ g.total_bits)
          × (g.total_bits ≤ 64))

extracted :
    (scope_id : Str) (groups : List LayoutBitGroup) (f f' : LayoutField)
    → IsNumbered scope_id 0 groups
    → All IsTiled groups
    → IsPlaced scope_id 0 groups f f'
    → IsExtracted groups f f'
unfolding extract_bitgroup_member
extracted scope_id groups f f' numbered tiled (inl same) = inl same
extracted scope_id groups f f' numbered tiled (inr (j, o, g, e, id, w, m, s)) =
    let (_, most, _, tiles) = All-get_elem? IsTiled groups j g tiled e in
    let found : find_group g.bitgroup_id 0 groups ≡ some (0 + j, g) =
      subst (λ (t : Str). find_group t 0 groups ≡ some (0 + j, g)) (sym id)
        (find_group_lem scope_id groups 0 0 j (0 + j) g numbered e refl) in
    inr (
      j,
      o,
      g,
      e,
      w,
      m,
      s,
      rw s (ground (arith, found)),
      Tiles-In g.members _ 0 g.total_bits tiles m,
      most,
    )

-- After the layout pass has grouped a scope, the codec pass finds the group of every bit field: the
-- index, byte order and width of its group, the field's own width, and the field's own offset, which
-- is that of its reference and of the member that the group lists for it, and at which the field
-- lies within the group's at most 64 bits. Other fields are as they were.
-- The bit fields have at least one bit, and their widths together fit a `u16`.
pub bit_fields-IsExtracted :
    (fields : List LayoutField) (scope_id : Str) (endianness : Endianness)
    (groups : List LayoutBitGroup) (out : List LayoutField)
    → All IsPositive fields
    → bits_left fields < 2 ^ 16
    → detect_bitgroups fields scope_id endianness ≡ ok (groups, out)
    → Forall₂ (IsExtracted groups) fields out
bit_fields-IsExtracted fields scope_id endianness groups out p small h =
    let numbered = detect_bitgroups-IsNumbered scope_id endianness fields groups out small h in
    let tiled = detect_bitgroups-IsTiled fields scope_id endianness groups out p small h in
    Forall₂-map (IsPlaced scope_id 0 groups) (IsExtracted groups) fields out
      (λ f f' placed. extracted scope_id groups f f' numbered tiled placed)
      (detect_bitgroups-IsPlaced scope_id fields endianness groups out small h)
