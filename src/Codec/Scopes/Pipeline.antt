-- ===== src/Codec/Scopes/Pipeline.antt =====
-- The layout pass and the codec pass, one behind the other, on the fields of a packet.
use wirespec.Base.{
  ℕ, ◌+◌, ◌%◌, ◌^◌, ◌≤◌, ◌<◌, ◌≡◌, refl, ◌⊎◌, inl, inr, ap, subst, sym, ◌∙◌, arith, if◌then◌else◌,
}
use wirespec.Base.{List, [], ◌∷◌, Option, none, some, All, In, get_elem?, Forall₂}
use wirespec.Base.Str.{Str}
use wirespec.Base.Outcome.{ok, ◌>>=◌, Outcome-cases, >>=-ok}
use wirespec.Sema.Types.{Endianness, SemanticType, PrimitiveWireType}
use wirespec.Sema.Ir.{SemanticPacket, SemanticField}
use wirespec.Layout.Ir.{LayoutField, LayoutPacket, LayoutBitGroup, LayoutBitGroupMemberRef}
use wirespec.Layout.Bitgroup.{bit_width, is_bit_field, is_bit_type, detect_bitgroups}
use wirespec.Layout.Bitgroup.Runs.{bits_left, width}
use wirespec.Layout.Bitgroup.Tiles.{IsPositive}
use wirespec.Layout.Lower as Layout
use wirespec.Codec.Ir.{CodecField, FieldStrategy, ScopeKind}
use wirespec.Codec.Checksum.{synthesize_checksum_plan}
use wirespec.Codec.Lower.{LowerCtx, lower_field, lower_fields, lower_items, extract_ref_type_name}
use wirespec.Codec.Lower.{
  semantic_type_to_wire_type, is_conditional, condition_of, is_some, extract_bitgroup_member,
}
use wirespec.Codec.Lower.Fields.{group_flag}
use wirespec.Codec.Lower.Strategies.{IsSized, sized_bytes_spec}
use wirespec.Codec.Lower.Groups.{IsExtracted, bit_fields-IsExtracted}
use wirespec.Codec.Scopes.{lower_packet}

-- The bits of a bit field's type.
abbrev pub bits_of : SemanticType → Option ℕ
bits_of (SemanticType.bits n) = some n
bits_of (SemanticType.primitive PrimitiveWireType.bit endianness) = some 1
bits_of ty = none

-- The bit field of `bits` bits and that identifier is planned at its own place in its group, which
-- lists it there, and which a back end can read as one integer.
abbrev pub IsInGroup : List LayoutBitGroup → Str → ℕ → CodecField → Type 0
IsInGroup groups id bits c =
    (c.strategy ≡ FieldStrategy.bit_group)
    × ((j : ℕ) × (o : ℕ) × (g : LayoutBitGroup) × (get_elem? groups j ≡ some g)
        × In (record { field_id = id; offset_bits = o; width_bits = bits }) g.members
        × (c.bitgroup_member
            ≡ some (record {
              group_id = j % 2 ^ 32;
              total_bits = g.total_bits;
              member_offset_bits = o;
              member_width_bits = bits;
              group_endianness = g.endianness;
            }))
        × (o + bits ≤ g.total_bits)
        × (g.total_bits ≤ 64))

type_bits :
    (ty : SemanticType)
    → (if is_bit_type ty then Layout.compute_wire_width ty else none) ≡ bits_of ty
unfolding is_bit_type Layout.compute_wire_width Layout.wire_bits
type_bits (SemanticType.primitive PrimitiveWireType.u8 endianness) = refl
type_bits (SemanticType.primitive PrimitiveWireType.u16 endianness) = refl
type_bits (SemanticType.primitive PrimitiveWireType.u24 endianness) = refl
type_bits (SemanticType.primitive PrimitiveWireType.u32 endianness) = refl
type_bits (SemanticType.primitive PrimitiveWireType.u64 endianness) = refl
type_bits (SemanticType.primitive PrimitiveWireType.i8 endianness) = refl
type_bits (SemanticType.primitive PrimitiveWireType.i16 endianness) = refl
type_bits (SemanticType.primitive PrimitiveWireType.i32 endianness) = refl
type_bits (SemanticType.primitive PrimitiveWireType.i64 endianness) = refl
type_bits (SemanticType.primitive PrimitiveWireType.bool endianness) = refl
type_bits (SemanticType.primitive PrimitiveWireType.bit endianness) = refl
type_bits (SemanticType.bits width_bits) = refl
type_bits (SemanticType.var_int_ref varint_id name) = refl
type_bits (SemanticType.bytes kind fixed_size size_expr) = refl
type_bits (SemanticType.array element_type count_expr within_expr) = refl
type_bits (SemanticType.packet_ref packet_id name) = refl
type_bits (SemanticType.enum_ref enum_id name is_flags) = refl
type_bits (SemanticType.frame_ref frame_id name) = refl
type_bits (SemanticType.capsule_ref capsule_id name) = refl

bit_width-lower_field :
    (m : Endianness) (f : SemanticField) → bit_width (Layout.lower_field m f) ≡ bits_of f.ty
unfolding bit_width is_bit_field Layout.lower_field
bit_width-lower_field m f = type_bits f.ty

module _ (ctx : LowerCtx) (m : Endianness) (groups : List LayoutBitGroup) where
  -- What a packet's field at position `i` has become after both passes.
  abbrev pub IsPlanned : ℕ → SemanticField → CodecField → Type 0
  IsPlanned i f c =
      (c.name ≡ f.name)
      × (c.field_index ≡ i % 2 ^ 32)
      × (c.wire_type ≡ semantic_type_to_wire_type ctx f.ty)
      × (c.bit_width ≡ Layout.compute_wire_width f.ty)
      × (c.endianness ≡ Layout.resolve_field_endianness f.ty m)
      × (c.is_optional ≡ is_conditional f.presence)
      × (c.condition ≡ condition_of f.presence)
      × (c.ref_type_name ≡ extract_ref_type_name f.ty)
      × (c.max_elements ≡ f.max_elements)
      × (c.checksum_algorithm ≡ f.checksum_algorithm)
      × (c.asn1_hint ≡ f.asn1_hint)
      × (c.span ≡ f.span)
      × (((bits_of f.ty ≡ none) × (c.bitgroup_member ≡ none))
          ⊎ ((bits : ℕ) × (bits_of f.ty ≡ some bits) × IsInGroup groups f.field_id bits c))

  abbrev pub ArePlanned : ℕ → List SemanticField → List CodecField → Type 0
  ArePlanned i [] [] = Unit
  ArePlanned i [] (c ∷ cs) = ⊥
  ArePlanned i (f ∷ fs) [] = ⊥
  ArePlanned i (f ∷ fs) (c ∷ cs) = IsPlanned i f c × ArePlanned (i + 1) fs cs

  -- Grouping changes the reference of a field only.
  kept :
      (f f' : LayoutField)
      → IsExtracted groups f f'
      → f' ≡ record f { bitgroup_member = f'.bitgroup_member }
  kept f f' (inl (_, e)) = rw e refl
  kept f f' (inr (j, o, g, e, w, i, s, _, _, _)) = rw s refl

  unplaced : (f : LayoutField) → f.bitgroup_member ≡ none → extract_bitgroup_member f groups ≡ none
  unfolding extract_bitgroup_member
  unplaced f h = rw h refl

  plan_field :
      (f : SemanticField) (b : Option LayoutBitGroupMemberRef) (scope_id : Str) (i : ℕ)
      → IsSized f.ty
      → IsExtracted groups
          (Layout.lower_field m f)
          (record (Layout.lower_field m f) { bitgroup_member = b })
      → (c : CodecField) × (lower_field ctx
            (record (Layout.lower_field m f) { bitgroup_member = b })
            scope_id
            (i % 2 ^ 32)
            groups
          ≡ ok c)
        × IsPlanned i f c
  unfolding lower_field Layout.lower_field
  plan_field f b scope_id i h x =
      let (spec, e) = sized_bytes_spec ctx f.ty h in
      (
        _,
        >>=-ok _ e,
        (
          refl,
          refl,
          refl,
          refl,
          refl,
          refl,
          refl,
          refl,
          refl,
          refl,
          refl,
          refl,
          elim x [
            | inl (plain, same) ↦ inl (
              sym (bit_width-lower_field m f) ∙ plain,
              unplaced _ (ap (λ (t : LayoutField). t.bitgroup_member) same),
            )
            | inr (j, o, g, there, bits, listed, s, member, inside, most) ↦ inr (
              width (Layout.lower_field m f),
              sym (bit_width-lower_field m f) ∙ bits,
              (
                (group_flag ctx f.ty (is_conditional f.presence) (is_some f.checksum_algorithm)
                      (is_some b)).1
                    (ap (λ (t : LayoutField). is_some t.bitgroup_member) s),
                (j, o, g, there, listed, member, inside, most),
              ),
            )
          ],
        ),
      )

  plan_fields :
      (scope_id : Str) (fields : List SemanticField) (out : List LayoutField) (i : ℕ)
      → All (λ f. IsSized f.ty) fields
      → Forall₂ (IsExtracted groups) (Layout.lower_fields fields m) out
      → (cs : List CodecField) × (lower_fields ctx out scope_id i groups ≡ ok cs)
        × ArePlanned i fields cs
  unfolding lower_fields Layout.lower_fields
  plan_fields scope_id [] [] i s x = ([], refl, tt)
  plan_fields scope_id [] (f' ∷ out) i s x = absurd x
  plan_fields scope_id (f ∷ fields) [] i s x = absurd x
  plan_fields scope_id (f ∷ fields) (f' ∷ out) i s x =
      let same = kept (Layout.lower_field m f) f' x.0 in
      let (c, e, planned) =
        plan_field f f'.bitgroup_member scope_id i s.0
          (subst (IsExtracted groups (Layout.lower_field m f)) same x.0) in
      let (cs, es, rest) = plan_fields scope_id fields out (i + 1) s.1 x.1 in
      let here : lower_field ctx f' scope_id (i % 2 ^ 32) groups ≡ ok c =
        ap (λ (t : LayoutField). lower_field ctx t scope_id (i % 2 ^ 32) groups) same ∙ e in
      (c ∷ cs, rw (here, es) refl, (planned, rest))

module _ (ctx : LowerCtx) where
  -- A packet that the layout pass accepts is planned by the codec pass unless one of its items names
  -- a missing definition: all the packet's fields are kept in order and numbered by position, each with
  -- its name, wire type, width, byte order, presence, condition, checksum, limit, hint and span; each
  -- bit field is planned at the offset at which one of the packet's groups, of at most 64 bits, lists
  -- it, with its own width and inside the group; and no other field is in a group.
  -- The types of its fields are sized, its bit fields have at least one bit, and the widths of all of
  -- them together fit a `u16`.
  pub lower_packet-ArePlanned :
      (p : SemanticPacket) (m : Endianness) (q : LayoutPacket)
      → All (λ f. IsSized f.ty) p.fields
      → All IsPositive (Layout.lower_fields p.fields m)
      → bits_left (Layout.lower_fields p.fields m) < 2 ^ 16
      → Layout.lower_packet m p ≡ ok q
      → (cs : List CodecField) × ArePlanned ctx m q.bitgroups 0 p.fields cs
        × (lower_packet ctx q ≡ (
            lower_items p.items p.derived p.requires ctx >>= λ items. ok (record {
              scope_id = p.packet_id;
              name = p.name;
              fields = cs;
              items = items;
              checksum_plan = synthesize_checksum_plan cs ScopeKind.packet p.name;
            })))
  unfolding Layout.lower_packet lower_packet
  lower_packet-ArePlanned p m q sized positive small h =
      let fields = Layout.lower_fields p.fields m in
      elim (Outcome-cases (detect_bitgroups fields p.packet_id m)) [
        | inl ((groups, out), detected) ↦
            let (cs, e, planned) =
              plan_fields ctx m groups p.packet_id p.fields out 0 sized
                (bit_fields-IsExtracted fields p.packet_id m groups out positive small detected) in
            let whole : q ≡ record {
              packet_id = p.packet_id;
              name = p.name;
              derive_traits = p.derive_traits;
              fields = out;
              derived = p.derived;
              requires = p.requires;
              items = p.items;
              bitgroups = groups;
              span = p.span;
            } =
              ground (arith, h, detected) in
            (cs, rw whole planned, rw (whole, e) refl)
        | inr (inl (x, refused)) ↦ absurd (ground (arith, h, refused))
        | inr (inr refused) ↦ absurd (ground (arith, h, refused))
      ]
