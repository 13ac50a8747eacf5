-- ===== src/Backend/Tests.antt =====
-- Runs of the type maps' theorems on the groups of a scope, a wire type, and a writer.
use wirespec.Base.{ℕ, ◌≡◌, refl, arith, List, [], ◌∷◌, some, All}
use wirespec.Base.Str.{str}
use wirespec.Sema.Types.{Endianness}
use wirespec.Codec.Ir.{WireType}
use wirespec.Layout.Bitgroup.Tests.{three_fields, three_out, one_group, three_detected}
use wirespec.Layout.Bitgroup.Tests.{three_IsPositive, three_small}
use wirespec.Rt.Bytes.{IsByte}
use wirespec.Rt.Writer.{Writer}
use wirespec.Rt.Writer.Laws as WriterLaws
use wirespec.Backend.Rust.{bitgroup_read_method, wire_type_byte_width}
use wirespec.Backend.C as C
use wirespec.Backend.Methods.{IsServed, methods-IsServed}
use wirespec.Backend.Groups.{IsNamed, detect_bitgroups-AreNamed}
use wirespec.Backend.RoundTrip.{IsCarried, bitgroup_round_trip}

-- A group of three bytes is read with a method of four.
three_bytes : bitgroup_read_method 24 Endianness.big ≡ some (str "read_u32be")
unfolding bitgroup_read_method
three_bytes = refl

methods-IsServed_example :
    (C.wire_type_byte_width WireType.u24 ≡ wire_type_byte_width WireType.u24)
    × IsServed WireType.u24 (some Endianness.little)
methods-IsServed_example = methods-IsServed WireType.u24 (some Endianness.little)

detect_bitgroups-AreNamed_example : All (λ g. IsNamed g.endianness g.total_bits) one_group
detect_bitgroups-AreNamed_example =
    detect_bitgroups-AreNamed three_fields (str "p") Endianness.big one_group three_out
      three_IsPositive three_small three_detected

abbrev buffer : List ℕ
buffer = 0 ∷ 1 ∷ 2 ∷ 3 ∷ 4 ∷ 5 ∷ 6 ∷ 7 ∷ 8 ∷ 9 ∷ []

abbrev writer : Writer
writer = record { buf = buffer; pos = 2 }

buffer-IsByte : All IsByte buffer
buffer-IsByte = ground arith

writer-IsValid : WriterLaws.IsValid writer
writer-IsValid = record { inside = omega arith; small = omega arith }

bitgroup_round_trip_example : IsCarried writer Endianness.little 24 0xabcdef
bitgroup_round_trip_example =
    bitgroup_round_trip writer Endianness.little 24 0xabcdef writer-IsValid buffer-IsByte
      (omega arith) (omega arith) (omega arith) (omega arith)
