-- ===== src/Backend/Rust.antt =====
-- crates/wirespec-backend-rust/src/type_map.rs: the Rust types of wire types, and the methods of
-- `Cursor` and `Writer` that read and write them. `none` is `unreachable!`. The types of named
-- definitions are `names.rs`'s and left out.
use wirespec.Base.{ℕ, leb, ◌&&◌, if◌then◌else◌, Bool, true, false, Option, none, some}
use wirespec.Base.Str.{Str, str}
use wirespec.Sema.Types.{Endianness}
use wirespec.Codec.Ir.{WireType}

unfoldable pub wire_type_to_rust : WireType → Str
wire_type_to_rust WireType.u8 = str "u8"
wire_type_to_rust WireType.u16 = str "u16"
wire_type_to_rust WireType.u24 = str "u32"
wire_type_to_rust WireType.u32 = str "u32"
wire_type_to_rust WireType.u64 = str "u64"
wire_type_to_rust WireType.i8 = str "i8"
wire_type_to_rust WireType.i16 = str "i16"
wire_type_to_rust WireType.i32 = str "i32"
wire_type_to_rust WireType.i64 = str "i64"
wire_type_to_rust WireType.bool = str "bool"
wire_type_to_rust WireType.bit = str "u8"
wire_type_to_rust (WireType.bits n) =
    if leb n 8
    then str "u8"
    else if leb n 16
    then str "u16"
    else if leb n 32
    then str "u32"
    else str "u64"
wire_type_to_rust WireType.var_int = str "u64"
wire_type_to_rust WireType.cont_var_int = str "u64"
wire_type_to_rust WireType.bytes = str "BYTES"
wire_type_to_rust WireType.array = str "ARRAY"
wire_type_to_rust _ = str "UNKNOWN"

unfoldable pub wire_type_needs_lifetime : WireType → Bool
wire_type_needs_lifetime WireType.bytes = true
wire_type_needs_lifetime _ = false

unfoldable pub wire_type_is_named : WireType → Bool
wire_type_is_named (WireType.struct name) = true
wire_type_is_named (WireType.frame name) = true
wire_type_is_named (WireType.capsule name) = true
wire_type_is_named _ = false

abbrev pub cursor_read_method : WireType → Option Endianness → Option Str
cursor_read_method WireType.u8 e = some (str "read_u8")
cursor_read_method WireType.bool e = some (str "read_u8")
cursor_read_method WireType.bit e = some (str "read_u8")
cursor_read_method WireType.i8 e = some (str "read_i8")
cursor_read_method WireType.u16 (some Endianness.little) = some (str "read_u16le")
cursor_read_method WireType.u16 e = some (str "read_u16be")
cursor_read_method WireType.i16 (some Endianness.little) = some (str "read_i16le")
cursor_read_method WireType.i16 e = some (str "read_i16be")
cursor_read_method WireType.u24 (some Endianness.little) = some (str "read_u24le")
cursor_read_method WireType.u24 e = some (str "read_u24be")
cursor_read_method WireType.u32 (some Endianness.little) = some (str "read_u32le")
cursor_read_method WireType.u32 e = some (str "read_u32be")
cursor_read_method WireType.i32 (some Endianness.little) = some (str "read_i32le")
cursor_read_method WireType.i32 e = some (str "read_i32be")
cursor_read_method WireType.u64 (some Endianness.little) = some (str "read_u64le")
cursor_read_method WireType.u64 e = some (str "read_u64be")
cursor_read_method WireType.i64 (some Endianness.little) = some (str "read_i64le")
cursor_read_method WireType.i64 e = some (str "read_i64be")
cursor_read_method _ e = none

abbrev pub writer_write_method : WireType → Option Endianness → Option Str
writer_write_method WireType.u8 e = some (str "write_u8")
writer_write_method WireType.bool e = some (str "write_u8")
writer_write_method WireType.bit e = some (str "write_u8")
writer_write_method WireType.i8 e = some (str "write_i8")
writer_write_method WireType.u16 (some Endianness.little) = some (str "write_u16le")
writer_write_method WireType.u16 e = some (str "write_u16be")
writer_write_method WireType.i16 (some Endianness.little) = some (str "write_i16le")
writer_write_method WireType.i16 e = some (str "write_i16be")
writer_write_method WireType.u24 (some Endianness.little) = some (str "write_u24le")
writer_write_method WireType.u24 e = some (str "write_u24be")
writer_write_method WireType.u32 (some Endianness.little) = some (str "write_u32le")
writer_write_method WireType.u32 e = some (str "write_u32be")
writer_write_method WireType.i32 (some Endianness.little) = some (str "write_i32le")
writer_write_method WireType.i32 e = some (str "write_i32be")
writer_write_method WireType.u64 (some Endianness.little) = some (str "write_u64le")
writer_write_method WireType.u64 e = some (str "write_u64be")
writer_write_method WireType.i64 (some Endianness.little) = some (str "write_i64le")
writer_write_method WireType.i64 e = some (str "write_i64be")
writer_write_method _ e = none

-- The ranges of a group's width; a width that is in none is `unreachable!` for a method.
abbrev pub by_width {ℓ} : {A : Type ℓ} → ℕ → A → A → A → A → Option A
by_width n a b c d =
    if leb 1 n && leb n 8
    then some a
    else if leb 9 n && leb n 16
    then some b
    else if leb 17 n && leb n 32
    then some c
    else if leb 33 n && leb n 64
    then some d
    else none

abbrev pub ordered : Endianness → Str → Str → Str
ordered Endianness.little le be = le
ordered Endianness.big le be = be

unfoldable pub bitgroup_read_method : ℕ → Endianness → Option Str
bitgroup_read_method total_bits e =
    by_width total_bits (str "read_u8") (ordered e (str "read_u16le") (str "read_u16be"))
      (ordered e (str "read_u32le") (str "read_u32be"))
      (ordered e (str "read_u64le") (str "read_u64be"))

unfoldable pub bitgroup_write_method : ℕ → Endianness → Option Str
bitgroup_write_method total_bits e =
    by_width total_bits (str "write_u8") (ordered e (str "write_u16le") (str "write_u16be"))
      (ordered e (str "write_u32le") (str "write_u32be"))
      (ordered e (str "write_u64le") (str "write_u64be"))

unfoldable pub bitgroup_rust_type : ℕ → Str
bitgroup_rust_type total_bits =
    if leb 1 total_bits && leb total_bits 8
    then str "u8"
    else if leb 9 total_bits && leb total_bits 16
    then str "u16"
    else if leb 17 total_bits && leb total_bits 32
    then str "u32"
    else str "u64"

abbrev pub wire_type_byte_width : WireType → Option ℕ
wire_type_byte_width WireType.u8 = some 1
wire_type_byte_width WireType.i8 = some 1
wire_type_byte_width WireType.bool = some 1
wire_type_byte_width WireType.bit = some 1
wire_type_byte_width WireType.u16 = some 2
wire_type_byte_width WireType.i16 = some 2
wire_type_byte_width WireType.u24 = some 3
wire_type_byte_width WireType.u32 = some 4
wire_type_byte_width WireType.i32 = some 4
wire_type_byte_width WireType.u64 = some 8
wire_type_byte_width WireType.i64 = some 8
wire_type_byte_width _ = none
