-- ===== src/Layout/Bitgroup/Tiles.antt =====
-- The members of a bit group cover its bits: no gap and no overlap.
use wirespec.Base.{ℕ, ◌+◌, ◌-◌, ◌%◌, ◌^◌, ◌≤◌, ◌<◌, leb, ◌≡◌, refl}
use wirespec.Base.{
  List, [], ◌∷◌, ◌++◌, Option, none, some, length, All, All-append, arith, sym, ◌∙◌,
}
use wirespec.Base.{subst, gt→leb, Bool-cases, Option-cases, inl, inr}
use wirespec.Base.Str.{Str}
use wirespec.Base.Outcome.{ok}
use wirespec.Sema.Types.{Endianness}
use wirespec.Layout.Ir.{LayoutField, LayoutBitGroup, LayoutBitGroupMember}
use wirespec.Layout.Bitgroup.{
  insert_member, sort_by_offset, bit_width, bitgroup_id, member, detect_bitgroups,
}
use wirespec.Layout.Bitgroup.Runs.{width, run_bits, offset, run_members, close_run, group_runs}
use wirespec.Layout.Bitgroup.Runs.{
  bits_left, run_group, group_runs-closed, group_runs-open, width_of_wire, bit_width-wire,
}
use wirespec.Layout.Bitgroup.Loop.{detect_bitgroups-group_runs}

-- The members take the bits from `from` up to `to`, one behind the other.
abbrev pub Tiles : ℕ → List LayoutBitGroupMember → ℕ → Type 0
Tiles from [] to = from ≡ to
Tiles from (m ∷ ms) to = (m.offset_bits ≡ from) × Tiles (from + m.width_bits) ms to

abbrev IsWide : LayoutBitGroupMember → Type 0
IsWide m = 0 < m.width_bits

pub Tiles-le : (from to : ℕ) (ms : List LayoutBitGroupMember) → Tiles from ms to → from ≤ to
Tiles-le from to [] t = omega arith
Tiles-le from to (m ∷ ms) t = omega (arith, Tiles-le (from + m.width_bits) to ms t.1)

insert_first :
    (m : LayoutBitGroupMember) (ms : List LayoutBitGroupMember) (to : ℕ)
    → Tiles (m.offset_bits + m.width_bits) ms to
    → Tiles m.offset_bits (insert_member m ms) to
unfolding insert_member
insert_first m [] to t = (refl, t)
insert_first m (n ∷ ns) to t = ground (arith, t)

insert_last :
    (m : LayoutBitGroupMember) (ms : List LayoutBitGroupMember) (from : ℕ)
    → All IsWide ms
    → Tiles from ms m.offset_bits
    → Tiles from (insert_member m ms) (m.offset_bits + m.width_bits)
unfolding insert_member
insert_last m [] from w t = omega (arith, t)
insert_last m (n ∷ ns) from w t =
    let later = insert_last m ns (from + n.width_bits) w.1 t.1 in
    let above = Tiles-le (from + n.width_bits) m.offset_bits ns t.1 in
    rw (gt→leb m.offset_bits n.offset_bits (omega (arith, above, t.0, w.0))) (t.0, later)

insert-IsWide :
    (m : LayoutBitGroupMember) (ms : List LayoutBitGroupMember)
    → IsWide m
    → All IsWide ms
    → All IsWide (insert_member m ms)
unfolding insert_member
insert-IsWide m [] h w = (h, tt)
insert-IsWide m (n ∷ ns) h w = elim (Bool-cases (leb m.offset_bits n.offset_bits)) [
  | inl e ↦ rw e (h, w)
  | inr e ↦ rw e (w.0, insert-IsWide m ns h w.1)
]

module _ (total : ℕ) (id : Str) where
  abbrev placed : Endianness → ℕ → List LayoutField → List LayoutBitGroupMember
  placed endianness before run = sort_by_offset (run_members total endianness id before run)

  placed-IsWide :
      (endianness : Endianness) (before : ℕ) (run : List LayoutField)
      → All (λ f. 0 < width f) run
      → All IsWide (placed endianness before run)
  unfolding sort_by_offset run_members
  placed-IsWide endianness before [] w = tt
  placed-IsWide endianness before (f ∷ run) w =
      insert-IsWide _ _ w.0 (placed-IsWide endianness (before + width f) run w.1)

  placed_little :
      (before : ℕ) (run : List LayoutField)
      → before + run_bits run ≡ total
      → Tiles before (placed Endianness.little before run) total
  unfolding sort_by_offset run_members run_bits offset
  placed_little before [] e = omega arith
  placed_little before (f ∷ run) e =
      insert_first (member total Endianness.little id f before (width f))
        (placed Endianness.little (before + width f) run) total
        (placed_little (before + width f) run (omega (arith, e)))

  placed_big :
      (before : ℕ) (run : List LayoutField)
      → All (λ f. 0 < width f) run
      → before + run_bits run ≡ total
      → Tiles 0 (placed Endianness.big before run) (total - before)
  unfolding sort_by_offset run_members run_bits offset
  placed_big before [] w e = omega arith
  placed_big before (f ∷ run) w e =
      let m = member total Endianness.big id f (total - before - width f) (width f) in
      let later = placed_big (before + width f) run w.1 (omega (arith, e)) in
      let end : total - (before + width f) ≡ total - before - width f = omega arith in
      let whole : total - before - width f + width f ≡ total - before = omega (arith, e) in
      rw whole at (
        insert_last m (placed Endianness.big (before + width f) run) 0
          (placed-IsWide Endianness.big (before + width f) run w.1) (rw end at later))

  placed-Tiles :
      (endianness : Endianness) (run : List LayoutField)
      → All (λ f. 0 < width f) run
      → run_bits run ≡ total
      → Tiles 0 (placed endianness 0 run) total
  placed-Tiles Endianness.little run w e = placed_little 0 run (omega arith)
  placed-Tiles Endianness.big run w e =
      let whole : total - 0 ≡ total = omega arith in
      rw whole at (placed_big 0 run w (omega (arith, e)))

-- Between 1 and 64 bits, whole bytes, and members that cover them in order.
abbrev pub IsTiled : LayoutBitGroup → Type 0
IsTiled g =
    (0 < g.total_bits)
    × (g.total_bits ≤ 64)
    × (g.total_bits % 8 ≡ 0)
    × Tiles 0 g.members g.total_bits

-- A bit field has at least one bit.
abbrev pub IsPositive : LayoutField → Type 0
IsPositive f = elim (bit_width f) [ none ↦ Unit | some w ↦ 0 < w ]

module _ (scope_id : Str) (endianness : Endianness) where
  close_run-IsTiled :
      (k : ℕ) (run : List LayoutField) (gs : List LayoutBitGroup) (rs : List LayoutField)
      → All (λ f. 0 < width f) run
      → close_run scope_id endianness k run ≡ ok (gs, rs)
      → All IsTiled gs
  unfolding close_run
  close_run-IsTiled k [] gs rs w h = subst (All IsTiled) {x = []} (ground (arith, h)) tt
  close_run-IsTiled k (f ∷ run) gs rs w h =
      let tiles =
        placed-Tiles (run_bits (f ∷ run)) (bitgroup_id scope_id k) endianness (f ∷ run) w refl in
      let is_tiled : (gs ≡ run_group scope_id endianness k (f ∷ run) ∷ [])
          × (run_bits (f ∷ run) ≤ 64)
          × (run_bits (f ∷ run) % 8 ≡ 0) =
        ground (arith, h) in
      let positive : 0 < run_bits (f ∷ run) = unfold run_bits in omega (arith, w.0) in
      subst (All IsTiled) (sym is_tiled.0) ((positive, is_tiled.1, is_tiled.2, tiles), tt)

  group_runs-IsTiled :
      (fields : List LayoutField) (k : ℕ) (run : List LayoutField) (groups : List LayoutBitGroup)
      (out : List LayoutField)
      → All (λ f. 0 < width f) run
      → All IsPositive fields
      → group_runs scope_id endianness k run fields ≡ ok (groups, out)
      → All IsTiled groups
  unfolding group_runs
  group_runs-IsTiled [] k run groups out w p h = close_run-IsTiled k run groups out w h
  group_runs-IsTiled (f ∷ fields) k run groups out w p h = elim (Option-cases (bit_width f)) [
    | inl plain ↦
        let (gs, rs, gs', rs', closed, later, e, _) =
          group_runs-closed scope_id endianness k run f fields groups out plain h in
        subst (All IsTiled) (sym e) (
          All-append IsTiled gs gs' (close_run-IsTiled k run gs rs w closed)
            (group_runs-IsTiled fields (k + length gs) [] gs' rs' tt p.1 later))
    | inr (b, bit) ↦
        let positive : 0 < b =
          subst (λ (o : Option ℕ). elim o [ none ↦ Unit {0} | some w ↦ 0 < w ]) bit p.0 in
        group_runs-IsTiled fields k (run ++ (f ∷ [])) groups out
          (All-append (λ g. 0 < width g) run (f ∷ []) w
            (omega (arith, width_of_wire f b (bit_width-wire f b bit), positive), tt))
          p.1 (sym (group_runs-open scope_id endianness k run f fields b bit) ∙ h)
  ]

-- Where `detect_bitgroups` succeeds, every group has 1 to 64 bits in whole bytes, and its
-- members, ordered by offset, cover the bits from 0 to the group's width with no gap and no
-- overlap. The bit fields have at least one bit, and their widths together fit a `u16`.
pub detect_bitgroups-IsTiled :
    (fields : List LayoutField) (scope_id : Str) (endianness : Endianness)
    (groups : List LayoutBitGroup) (out : List LayoutField)
    → All IsPositive fields
    → bits_left fields < 2 ^ 16
    → detect_bitgroups fields scope_id endianness ≡ ok (groups, out)
    → All IsTiled groups
detect_bitgroups-IsTiled fields scope_id endianness groups out p small h =
    group_runs-IsTiled scope_id endianness fields 0 [] groups out tt p
      (sym (detect_bitgroups-group_runs fields scope_id endianness small) ∙ h)
