-- ===== src/Backend/C.antt =====
-- crates/wirespec-backend-c/src/type_map.rs: the functions of the C runtime that read and write wire
-- types and bit groups. `none` is `unreachable!`. The types of named definitions are left out.
use wirespec.Base.{ℕ, leb, ◌&&◌, if◌then◌else◌, Option, none, some}
use wirespec.Base.Str.{Str, str}
use wirespec.Sema.Types.{Endianness}
use wirespec.Codec.Ir.{WireType}
use wirespec.Backend.Rust.{by_width, ordered}

abbrev pub cursor_read_fn : WireType → Option Endianness → Option Str
cursor_read_fn WireType.u8 e = some (str "wirespec_cursor_read_u8")
cursor_read_fn WireType.bool e = some (str "wirespec_cursor_read_u8")
cursor_read_fn WireType.bit e = some (str "wirespec_cursor_read_u8")
cursor_read_fn WireType.u16 (some Endianness.little) = some (str "wirespec_cursor_read_u16le")
cursor_read_fn WireType.u16 e = some (str "wirespec_cursor_read_u16be")
cursor_read_fn WireType.u24 (some Endianness.little) = some (str "wirespec_cursor_read_u24le")
cursor_read_fn WireType.u24 e = some (str "wirespec_cursor_read_u24be")
cursor_read_fn WireType.u32 (some Endianness.little) = some (str "wirespec_cursor_read_u32le")
cursor_read_fn WireType.u32 e = some (str "wirespec_cursor_read_u32be")
cursor_read_fn WireType.u64 (some Endianness.little) = some (str "wirespec_cursor_read_u64le")
cursor_read_fn WireType.u64 e = some (str "wirespec_cursor_read_u64be")
cursor_read_fn WireType.i8 e = some (str "wirespec_cursor_read_u8")
cursor_read_fn WireType.i16 (some Endianness.little) = some (str "wirespec_cursor_read_u16le")
cursor_read_fn WireType.i16 e = some (str "wirespec_cursor_read_u16be")
cursor_read_fn WireType.i32 (some Endianness.little) = some (str "wirespec_cursor_read_u32le")
cursor_read_fn WireType.i32 e = some (str "wirespec_cursor_read_u32be")
cursor_read_fn WireType.i64 (some Endianness.little) = some (str "wirespec_cursor_read_u64le")
cursor_read_fn WireType.i64 e = some (str "wirespec_cursor_read_u64be")
cursor_read_fn _ e = none

abbrev pub write_fn : WireType → Option Endianness → Option Str
write_fn WireType.u8 e = some (str "wirespec_write_u8")
write_fn WireType.bool e = some (str "wirespec_write_u8")
write_fn WireType.bit e = some (str "wirespec_write_u8")
write_fn WireType.u16 (some Endianness.little) = some (str "wirespec_write_u16le")
write_fn WireType.u16 e = some (str "wirespec_write_u16be")
write_fn WireType.u24 (some Endianness.little) = some (str "wirespec_write_u24le")
write_fn WireType.u24 e = some (str "wirespec_write_u24be")
write_fn WireType.u32 (some Endianness.little) = some (str "wirespec_write_u32le")
write_fn WireType.u32 e = some (str "wirespec_write_u32be")
write_fn WireType.u64 (some Endianness.little) = some (str "wirespec_write_u64le")
write_fn WireType.u64 e = some (str "wirespec_write_u64be")
write_fn WireType.i8 e = some (str "wirespec_write_u8")
write_fn WireType.i16 (some Endianness.little) = some (str "wirespec_write_u16le")
write_fn WireType.i16 e = some (str "wirespec_write_u16be")
write_fn WireType.i32 (some Endianness.little) = some (str "wirespec_write_u32le")
write_fn WireType.i32 e = some (str "wirespec_write_u32be")
write_fn WireType.i64 (some Endianness.little) = some (str "wirespec_write_u64le")
write_fn WireType.i64 e = some (str "wirespec_write_u64be")
write_fn _ e = none

unfoldable pub bitgroup_read_fn : ℕ → Endianness → Option Str
bitgroup_read_fn total_bits e =
    by_width total_bits (str "wirespec_cursor_read_u8")
      (ordered e (str "wirespec_cursor_read_u16le") (str "wirespec_cursor_read_u16be"))
      (ordered e (str "wirespec_cursor_read_u32le") (str "wirespec_cursor_read_u32be"))
      (ordered e (str "wirespec_cursor_read_u64le") (str "wirespec_cursor_read_u64be"))

unfoldable pub bitgroup_write_fn : ℕ → Endianness → Option Str
bitgroup_write_fn total_bits e =
    by_width total_bits (str "wirespec_write_u8")
      (ordered e (str "wirespec_write_u16le") (str "wirespec_write_u16be"))
      (ordered e (str "wirespec_write_u32le") (str "wirespec_write_u32be"))
      (ordered e (str "wirespec_write_u64le") (str "wirespec_write_u64be"))

unfoldable pub bitgroup_c_type : ℕ → Str
bitgroup_c_type total_bits =
    if leb 1 total_bits && leb total_bits 8
    then str "uint8_t"
    else if leb 9 total_bits && leb total_bits 16
    then str "uint16_t"
    else if leb 17 total_bits && leb total_bits 32
    then str "uint32_t"
    else str "uint64_t"

abbrev pub wire_type_byte_width : WireType → Option ℕ
wire_type_byte_width WireType.u8 = some 1
wire_type_byte_width WireType.i8 = some 1
wire_type_byte_width WireType.bool = some 1
wire_type_byte_width WireType.bit = some 1
wire_type_byte_width WireType.u16 = some 2
wire_type_byte_width WireType.i16 = some 2
wire_type_byte_width WireType.u24 = some 3
wire_type_byte_width WireType.u32 = some 4
wire_type_byte_width WireType.i32 = some 4
wire_type_byte_width WireType.u64 = some 8
wire_type_byte_width WireType.i64 = some 8
wire_type_byte_width _ = none
