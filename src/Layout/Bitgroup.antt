-- ===== src/Layout/Bitgroup.antt =====
-- crates/wirespec-layout/src/bitgroup.rs: runs of adjacent bit fields become bit groups.
pub mod Runs
pub mod Loop
pub mod Tiles
pub mod Members
pub mod Numbering
pub mod Tests
use wirespec.Base.{
  ℕ, zero, suc, ◌+◌, ◌-◌, ◌%◌, ◌^◌, ltb, leb, ◌==◌, if◌then◌else◌, Bool, true, false, not,
}
use wirespec.Base.{List, [], ◌∷◌, ◌++◌, Option, none, some, length, get_elem?, set}
use wirespec.Base.Str.{Str, str, decimal}
use wirespec.Base.Outcome.{Outcome, ok, err, panic, ◌>>=◌}
use wirespec.Sema.Types.{Endianness, SemanticType, PrimitiveWireType}
use wirespec.Layout.Ir.{LayoutField, LayoutBitGroup, LayoutBitGroupMember, LayoutBitGroupMemberRef}

-- The two messages, with the sum that they show.
pub data BitGroupError : Type 0 where
  exceeds_64 : (total_bits : ℕ) → BitGroupError
  not_multiple_of_8 : (total_bits : ℕ) → BitGroupError

-- `a + b` and `a - b` on `u16`, under overflow checks.
abbrev pub add_u16 : ℕ → ℕ → Outcome BitGroupError ℕ
add_u16 a b = if ltb (a + b) (2 ^ 16) then ok (a + b) else panic

abbrev pub sub_u16 : ℕ → ℕ → Outcome BitGroupError ℕ
sub_u16 a b = if leb b a then ok (a - b) else panic

unfoldable pub is_bit_type : SemanticType → Bool
is_bit_type (SemanticType.bits width_bits) = true
is_bit_type (SemanticType.primitive PrimitiveWireType.bit endianness) = true
is_bit_type _ = false

unfoldable pub is_bit_field : LayoutField → Bool
is_bit_field field = is_bit_type field.ty

-- The two conditions of the `if let` chain: the width, for a bit field that has one.
unfoldable pub bit_width : LayoutField → Option ℕ
bit_width field = if is_bit_field field then field.wire_width_bits else none

-- `format!("{scope_id}.bitgroup[{group_index}]")`.
unfoldable pub bitgroup_id : Str → ℕ → Str
bitgroup_id scope_id group_index =
    scope_id ++ (str ".bitgroup[" ++ (decimal group_index ++ str "]"))

-- `members.sort_by_key(|m| m.offset_bits)`, which is stable.
unfoldable pub insert_member :
    LayoutBitGroupMember → List LayoutBitGroupMember → List LayoutBitGroupMember
insert_member m [] = m ∷ []
insert_member m (n ∷ ns) =
    if leb m.offset_bits n.offset_bits then m ∷ n ∷ ns else n ∷ insert_member m ns

unfoldable pub sort_by_offset : List LayoutBitGroupMember → List LayoutBitGroupMember
sort_by_offset [] = []
sort_by_offset (m ∷ ms) = insert_member m (sort_by_offset ms)

pub offset_of : Endianness → ℕ → ℕ → ℕ → Outcome BitGroupError ℕ
offset_of Endianness.big total_bits cumulative width = do
  above ← sub_u16 total_bits cumulative
  sub_u16 above width
offset_of Endianness.little total_bits cumulative width = ok cumulative

module _ (total_bits : ℕ) (endianness : Endianness) (group_id : Str) where
  abbrev pub member : LayoutField → ℕ → ℕ → LayoutBitGroupMember
  member f offset width = record { field_id = f.field_id; offset_bits = offset; width_bits = width }

  abbrev pub with_member : LayoutField → ℕ → ℕ → LayoutField
  with_member f offset width = record f {
    bitgroup_member =
        some (record { bitgroup_id = group_id; offset_bits = offset; width_bits = width });
  }

  -- The loop over the indices of the group's fields.
  pub place_members :
      List ℕ
      → ℕ
      → List LayoutBitGroupMember
      → List LayoutField
      → Outcome BitGroupError (List LayoutBitGroupMember × List LayoutField)
  place_members [] cumulative members fields = ok (members, fields)
  place_members (idx ∷ indices) cumulative members fields = elim (get_elem? fields idx) [
    | none ↦ panic
    | some f ↦ elim (f.wire_width_bits) [
      | none ↦ panic
      | some width ↦ do
        offset ← offset_of endianness total_bits cumulative width
        cumulative' ← add_u16 cumulative width
        place_members indices cumulative' (members ++ (member f offset width ∷ []))
            (set fields idx (with_member f offset width))
    ]
  ]

-- The groups so far, and the fields with their references set.
abbrev pub Grouped : Type 0
Grouped = List LayoutBitGroup × List LayoutField

pub finalize_group :
    List ℕ
    → ℕ
    → Str
    → ℕ
    → Endianness
    → List LayoutBitGroup
    → List LayoutField
    → Outcome BitGroupError Grouped
finalize_group indices total_bits scope_id group_index endianness groups fields =
    if ltb 64 total_bits
    then err (exceeds_64 total_bits)
    else if not (total_bits % 8 == 0)
    then err (not_multiple_of_8 total_bits)
    else do
      (members, fields') ←
          place_members total_bits endianness (bitgroup_id scope_id group_index) indices 0 [] fields
      ok (
        groups
            ++ (record {
              bitgroup_id = bitgroup_id scope_id group_index;
              scope_id = scope_id;
              total_bits = total_bits;
              endianness = endianness;
              members = sort_by_offset members;
            }
                ∷ []),
        fields',
      )

-- `if !current_indices.is_empty() { finalize_group(…)?; … }`.
unfoldable pub finalize_if_any :
    List ℕ
    → ℕ
    → Str
    → Endianness
    → List LayoutBitGroup
    → List LayoutField
    → Outcome BitGroupError Grouped
finalize_if_any [] bits scope_id endianness groups fields = ok (groups, fields)
finalize_if_any (i ∷ indices) bits scope_id endianness groups fields =
    finalize_group (i ∷ indices) bits scope_id (length groups) endianness groups fields

module _ (scope_id : Str) (endianness : Endianness) where
  -- `for (i, field) in fields.iter().enumerate()`, and the trailing group.
  pub detect_loop :
      List LayoutField
      → ℕ
      → List ℕ
      → ℕ
      → List LayoutBitGroup
      → List LayoutField
      → Outcome BitGroupError Grouped
  detect_loop [] i indices bits groups updated =
      finalize_if_any indices bits scope_id endianness groups updated
  detect_loop (field ∷ fields) i indices bits groups updated = elim (bit_width field) [
    | some width ↦ do
      bits' ← add_u16 bits width
      detect_loop fields (i + 1) (indices ++ (i ∷ [])) bits' groups updated
    | none ↦ do
      (groups', updated') ← finalize_if_any indices bits scope_id endianness groups updated
      detect_loop fields (i + 1) [] 0 groups' updated'
  ]

unfoldable pub detect_bitgroups :
    List LayoutField → Str → Endianness → Outcome BitGroupError Grouped
unfolding detect_loop
detect_bitgroups fields scope_id endianness =
    detect_loop scope_id endianness fields 0 [] 0 [] fields
