-- ===== src/Rt/Tests.antt =====
-- Runs of the runtime's theorems at concrete cursors, writers and slices.
use wirespec.Base.{ℕ, ◌+◌, ◌-◌, ◌*◌, ◌%◌, ◌^◌, ltb, if◌then◌else◌, ◌≡◌, refl, arith}
use wirespec.Base.{List, [], ◌∷◌, none, some, length, drop, All}
use wirespec.Base.Int.{pos, negsuc, as_signed}
use wirespec.Base.{take, ◌⊎◌, ◌≤◌, ◌<◌}
use wirespec.Rt.{Error, ok, err, map_ok}
use wirespec.Rt.Bytes.{from_be_bytes, from_le_bytes, to_be_bytes, to_le_bytes, IsByte}
use wirespec.Rt.Cursor
use wirespec.Rt.Cursor.{Cursor}
use wirespec.Rt.Cursor.Laws as CursorLaws
use wirespec.Rt.Cursor.Laws.{fixed_reads, read_bytes_lem, sub_cursor_lem, rest, skip}
use wirespec.Rt.Writer
use wirespec.Rt.Writer.{Writer}
use wirespec.Rt.Writer.Laws as WriterLaws
use wirespec.Rt.Writer.Laws.{fixed_writes, write_bytes-IsWritten}
use wirespec.Rt.RoundTrip.{ReadsBack, unsigned_round_trip, signed_round_trip}
use wirespec.Rt.Checksum.{patch, internet_checksum, internet_checksum_compute, raw_fletcher16}
use wirespec.Rt.Checksum.{crc32_verify, crc32_compute, crc32c_verify, crc32c_compute}
use wirespec.Rt.Checksum.{fletcher16_verify, fletcher16_compute}
use wirespec.Rt.Checksum.Internet.{word_sum, ones_complement, all_ones, internet_checksum_lem}
use wirespec.Rt.Checksum.Internet.{internet_round_trip, internet_checksum_ones}
use wirespec.Rt.Checksum.Verify.{Verifies, crc32-Verifies, fletcher16-Verifies}
use wirespec.Rt.Checksum.Fletcher.{weighted, total, raw_fletcher16_closed}

abbrev twelve : List ℕ
twelve = 0 ∷ 1 ∷ 2 ∷ 3 ∷ 4 ∷ 5 ∷ 6 ∷ 7 ∷ 8 ∷ 9 ∷ 10 ∷ 255 ∷ []

twelve-IsByte : All IsByte twelve
twelve-IsByte = ground arith

-- A cursor after two of twelve bytes, and a writer there.
abbrev reader : Cursor
reader = record { input = twelve; pos = 2 }

reader-IsValid : CursorLaws.IsValid reader
reader-IsValid = record { inside = omega arith; small = omega arith; octets = twelve-IsByte }

abbrev writer : Writer
writer = record { buf = twelve; pos = 2 }

writer-IsValid : WriterLaws.IsValid writer
writer-IsValid = record { inside = omega arith; small = omega arith }

fixed_reads_example :
    ((n : ℕ)
      → Cursor.read_bytes n reader ≡ (
          if ltb (length (rest reader)) n
          then err Error.short_buffer reader
          else ok (take n (rest reader)) (skip n reader)))
    × (Cursor.read_u8 reader ≡ map_ok from_be_bytes (Cursor.read_bytes 1) reader)
    × (Cursor.read_u16be reader ≡ map_ok from_be_bytes (Cursor.read_bytes 2) reader)
    × (Cursor.read_u16le reader ≡ map_ok from_le_bytes (Cursor.read_bytes 2) reader)
    × (Cursor.read_u24be reader ≡ map_ok from_be_bytes (Cursor.read_bytes 3) reader)
    × (Cursor.read_u24le reader ≡ map_ok from_le_bytes (Cursor.read_bytes 3) reader)
    × (Cursor.read_u32be reader ≡ map_ok from_be_bytes (Cursor.read_bytes 4) reader)
    × (Cursor.read_u32le reader ≡ map_ok from_le_bytes (Cursor.read_bytes 4) reader)
    × (Cursor.read_u64be reader ≡ map_ok from_be_bytes (Cursor.read_bytes 8) reader)
    × (Cursor.read_u64le reader ≡ map_ok from_le_bytes (Cursor.read_bytes 8) reader)
    × (Cursor.read_i8 reader
        ≡ map_ok (λ bs. as_signed (2 ^ 7) (from_be_bytes bs)) (Cursor.read_bytes 1) reader)
    × (Cursor.read_i16be reader
        ≡ map_ok (λ bs. as_signed (2 ^ 15) (from_be_bytes bs)) (Cursor.read_bytes 2) reader)
    × (Cursor.read_i16le reader
        ≡ map_ok (λ bs. as_signed (2 ^ 15) (from_le_bytes bs)) (Cursor.read_bytes 2) reader)
    × (Cursor.read_i32be reader
        ≡ map_ok (λ bs. as_signed (2 ^ 31) (from_be_bytes bs)) (Cursor.read_bytes 4) reader)
    × (Cursor.read_i32le reader
        ≡ map_ok (λ bs. as_signed (2 ^ 31) (from_le_bytes bs)) (Cursor.read_bytes 4) reader)
    × (Cursor.read_i64be reader
        ≡ map_ok (λ bs. as_signed (2 ^ 63) (from_be_bytes bs)) (Cursor.read_bytes 8) reader)
    × (Cursor.read_i64le reader
        ≡ map_ok (λ bs. as_signed (2 ^ 63) (from_le_bytes bs)) (Cursor.read_bytes 8) reader)
fixed_reads_example = fixed_reads reader reader-IsValid

sub_cursor_lem_example :
    (Cursor.sub_cursor 2 reader ≡ ok (Cursor.new (2 ∷ 3 ∷ [])) (record { input = twelve; pos = 4 }))
    × (CursorLaws.IsValid (Cursor.new (2 ∷ 3 ∷ [])))
    × (Cursor.read_remaining (Cursor.new (2 ∷ 3 ∷ []))
        ≡ ok (2 ∷ 3 ∷ []) (record { input = 2 ∷ 3 ∷ []; pos = 2 }))
sub_cursor_lem_example = sub_cursor_lem reader reader-IsValid 2

fixed_writes_example :
    (Writer.write_u8 (258 % 256) writer ≡ Writer.write_bytes (to_be_bytes 1 258) writer)
    × (Writer.write_u16be 258 writer ≡ Writer.write_bytes (to_be_bytes 2 258) writer)
    × (Writer.write_u16le 258 writer ≡ Writer.write_bytes (to_le_bytes 2 258) writer)
    × (Writer.write_u24be 258 writer ≡ Writer.write_bytes (to_be_bytes 3 258) writer)
    × (Writer.write_u24le 258 writer ≡ Writer.write_bytes (to_le_bytes 3 258) writer)
    × (Writer.write_u32be 258 writer ≡ Writer.write_bytes (to_be_bytes 4 258) writer)
    × (Writer.write_u32le 258 writer ≡ Writer.write_bytes (to_le_bytes 4 258) writer)
    × (Writer.write_u64be 258 writer ≡ Writer.write_bytes (to_be_bytes 8 258) writer)
    × (Writer.write_u64le 258 writer ≡ Writer.write_bytes (to_le_bytes 8 258) writer)
    × (Writer.write_i8 (negsuc 1) writer ≡ Writer.write_bytes (to_be_bytes 1 254) writer)
    × (Writer.write_i16be (negsuc 1) writer
        ≡ Writer.write_bytes (to_be_bytes 2 (2 ^ 16 - 2)) writer)
    × (Writer.write_i16le (negsuc 1) writer
        ≡ Writer.write_bytes (to_le_bytes 2 (2 ^ 16 - 2)) writer)
    × (Writer.write_i32be (negsuc 1) writer
        ≡ Writer.write_bytes (to_be_bytes 4 (2 ^ 32 - 2)) writer)
    × (Writer.write_i32le (negsuc 1) writer
        ≡ Writer.write_bytes (to_le_bytes 4 (2 ^ 32 - 2)) writer)
    × (Writer.write_i64be (negsuc 1) writer
        ≡ Writer.write_bytes (to_be_bytes 8 (2 ^ 64 - 2)) writer)
    × (Writer.write_i64le (negsuc 1) writer
        ≡ Writer.write_bytes (to_le_bytes 8 (2 ^ 64 - 2)) writer)
fixed_writes_example = fixed_writes writer writer-IsValid 258 (negsuc 1) (negsuc 1) (omega arith)

write_bytes-IsWritten_example :
    ((10 < 2) × (Writer.write_bytes (7 ∷ 7 ∷ []) writer ≡ err Error.short_buffer writer))
    ⊎ ((2 ≤ 10)
        × ((w : Writer) × (Writer.write_bytes (7 ∷ 7 ∷ []) writer ≡ ok tt w)
            × WriterLaws.IsValid w
            × (w.pos ≡ 4)
            × (length w.buf ≡ 12)
            × (Writer.as_written_mut w ≡ some (0 ∷ 1 ∷ 7 ∷ 7 ∷ []))
            × (drop w.pos w.buf ≡ drop 4 twelve)))
write_bytes-IsWritten_example = write_bytes-IsWritten writer writer-IsValid (7 ∷ 7 ∷ [])

unsigned_round_trip_example :
    ReadsBack Cursor.read_u8 0xab (Writer.write_u8 0xab) writer
    × ReadsBack Cursor.read_u16be 0xabcd (Writer.write_u16be 0xabcd) writer
    × ReadsBack Cursor.read_u16le 0xabcd (Writer.write_u16le 0xabcd) writer
    × ReadsBack Cursor.read_u24be 0xabcdef (Writer.write_u24be 0xabcdef) writer
    × ReadsBack Cursor.read_u24le 0xabcdef (Writer.write_u24le 0xabcdef) writer
    × ReadsBack Cursor.read_u32be 0xabcdef01 (Writer.write_u32be 0xabcdef01) writer
    × ReadsBack Cursor.read_u32le 0xabcdef01 (Writer.write_u32le 0xabcdef01) writer
    × ReadsBack Cursor.read_u64be 0x0123456789abcdef (Writer.write_u64be 0x0123456789abcdef) writer
    × ReadsBack Cursor.read_u64le 0x0123456789abcdef (Writer.write_u64le 0x0123456789abcdef) writer
unsigned_round_trip_example =
    unsigned_round_trip writer writer-IsValid twelve-IsByte 0xab 0xabcd 0xabcdef 0xabcdef01
      0x0123456789abcdef (omega arith) (omega arith) (omega arith) (omega arith) (omega arith)
      (omega arith)

signed_round_trip_example :
    ReadsBack Cursor.read_i8 (negsuc 0) (Writer.write_i8 (negsuc 0)) writer
    × ReadsBack Cursor.read_i16be (pos 300) (Writer.write_i16be (pos 300)) writer
    × ReadsBack Cursor.read_i16le (pos 300) (Writer.write_i16le (pos 300)) writer
    × ReadsBack Cursor.read_i32be (negsuc 299) (Writer.write_i32be (negsuc 299)) writer
    × ReadsBack Cursor.read_i32le (negsuc 299) (Writer.write_i32le (negsuc 299)) writer
    × ReadsBack Cursor.read_i64be (negsuc 4) (Writer.write_i64be (negsuc 4)) writer
    × ReadsBack Cursor.read_i64le (negsuc 4) (Writer.write_i64le (negsuc 4)) writer
signed_round_trip_example =
    signed_round_trip writer writer-IsValid twelve-IsByte (negsuc 0) (pos 300) (negsuc 299)
      (negsuc 4) (omega arith) (omega arith) (omega arith) (omega arith) (omega arith)

internet_checksum_lem_example : internet_checksum twelve ≡ (
    if ltb (word_sum twelve) (2 ^ 32)
    then some (65535 - ones_complement (word_sum twelve))
    else none)
internet_checksum_lem_example = internet_checksum_lem twelve twelve-IsByte

internet_round_trip_example :
    (field : List ℕ) × (length field ≡ 2)
    × (internet_checksum_compute twelve 4 ≡ some (patch twelve 4 field))
    × (internet_checksum (patch twelve 4 field) ≡ some 0)
internet_round_trip_example = internet_round_trip twelve 2 twelve-IsByte (omega arith) (omega arith)

internet_checksum_ones_example : internet_checksum (all_ones 65538) ≡ none
internet_checksum_ones_example = internet_checksum_ones 65537

crc32-Verifies_example :
    Verifies crc32_compute crc32_verify twelve 8 (1 ∷ 2 ∷ 3 ∷ 4 ∷ [])
    × Verifies crc32c_compute crc32c_verify twelve 8 (1 ∷ 2 ∷ 3 ∷ 4 ∷ [])
crc32-Verifies_example =
    crc32-Verifies twelve 8 (omega arith) (1 ∷ 2 ∷ 3 ∷ 4 ∷ []) refl (omega arith)

fletcher16-Verifies_example : Verifies fletcher16_compute fletcher16_verify twelve 3 (9 ∷ 9 ∷ [])
fletcher16-Verifies_example =
    fletcher16-Verifies twelve 3 (omega arith) (9 ∷ 9 ∷ []) refl (omega arith)

raw_fletcher16_closed_example :
    raw_fletcher16 twelve ≡ weighted twelve % 255 * 256 + total twelve % 255
raw_fletcher16_closed_example = raw_fletcher16_closed twelve twelve-IsByte
