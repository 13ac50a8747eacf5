-- ===== src/Rt/RoundTrip.antt =====
-- What a `Writer` writes a `Cursor` reads back, at every width and in both byte orders.
use native.Mathlib.Nat.{mod-eq_of_lt}
use wirespec.Base.{ℕ, ◌+◌, ◌^◌, ◌≤◌, ◌<◌, refl, sym, ◌∙◌}
use wirespec.Base.{
  List, ◌++◌, length, take, drop, All, ◌≡◌, arith, All-append, All-take, All-drop, ap,
}
use wirespec.Base.{length-take, length-append, take-append_length, drop-append_length}
use wirespec.Base.Int.{ℤ, IsSigned, as_signed, as_unsigned, as_unsigned-lt, as_signed-as_unsigned}
use wirespec.Rt.{Act, ok, ◌>>=◌, map_ok}
use wirespec.Rt.Bytes.{from_be_bytes, from_le_bytes, to_be_bytes, to_le_bytes, IsByte}
use wirespec.Rt.Bytes.{
  length-to_be_bytes, length-to_le_bytes, to_be_bytes-IsByte, to_le_bytes-IsByte,
}
use wirespec.Rt.Bytes.{from_be_bytes-to_be_bytes, from_le_bytes-to_le_bytes}
use wirespec.Rt.Cursor
use wirespec.Rt.Cursor.{Cursor}
use wirespec.Rt.Cursor.Laws.{read_bytes_lem, unsigned_reads}
use wirespec.Rt.Cursor.Laws as CursorLaws
use wirespec.Rt.Writer
use wirespec.Rt.Writer.{Writer}
use wirespec.Rt.Writer.Laws.{room, after, after_lem, write_bytes_lem, unsigned_writes}
use wirespec.Rt.Writer.Laws as WriterLaws

-- After a successful `write`, a cursor over the buffer that starts where the writer stood reads
-- `v` and ends where the writer ends.
abbrev pub ReadsBack {ℓ} : {A : Type ℓ} → Act Cursor A → A → Act Writer (Unit {0}) → Writer → Type ℓ
ReadsBack read v write w =
    (w' : Writer) × (write w ≡ ok tt w')
    × (read (record { input = w'.buf; pos = w.pos })
        ≡ ok v (record { input = w'.buf; pos = w'.pos }))

module _ (w : Writer) (valid : WriterLaws.IsValid w) (octets : All IsByte w.buf) where
  module _ (bytes : List ℕ) (bytes_octets : All IsByte bytes) (fits : length bytes ≤ room w) where
    start : Cursor
    start = record { input = (after w bytes).buf; pos = w.pos }

    start-IsValid : CursorLaws.IsValid start
    unfolding start
    start-IsValid =
        let (is_valid, total, _, _) = after_lem w valid bytes fits in
        record {
          inside = omega (arith, is_valid.inside);
          small = is_valid.small;
          octets = All-append IsByte (take w.pos w.buf) _ (All-take IsByte w.pos w.buf octets) (
              All-append IsByte bytes _ bytes_octets
                (All-drop IsByte (w.pos + length bytes) w.buf octets));
        }

    front : w.pos ≡ length (take w.pos w.buf)
    front = omega (arith, length-take w.pos w.buf, valid.inside)

    rest-start : CursorLaws.rest start ≡ bytes ++ drop (w.pos + length bytes) w.buf
    unfolding start
    rest-start = drop-append_length (take w.pos w.buf) _ w.pos front

    read_bytes-start :
        Cursor.read_bytes (length bytes) start ≡ ok bytes (CursorLaws.skip (length bytes) start)
    read_bytes-start = ground (
      arith,
      read_bytes_lem start start-IsValid (length bytes),
      ap length rest-start,
      length-append bytes (drop (w.pos + length bytes) w.buf),
      ap (take (length bytes)) rest-start,
      take-append_length bytes (drop (w.pos + length bytes) w.buf) (length bytes) refl,
    )

  reads_back :
      (n : ℕ) (bytes : List ℕ) (v : ℕ) (f : List ℕ → ℕ) (read : Act Cursor ℕ)
      (write : Act Writer (Unit {0}))
      → length bytes ≡ n
      → All IsByte bytes
      → n ≤ room w
      → f bytes ≡ v
      → write w ≡ Writer.write_bytes bytes w
      → ((c : Cursor) → CursorLaws.IsValid c → read c ≡ map_ok f (Cursor.read_bytes n) c)
      → ReadsBack read v write w
  unfolding start
  reads_back n bytes v f read write e o fits value writes reads =
      let fits' : length bytes ≤ room w = omega (arith, e, fits) in
      (
        after w bytes,
        ground (arith, writes, write_bytes_lem w valid bytes),
        ground (
          arith,
          reads (start bytes o fits') (start-IsValid bytes o fits'),
          read_bytes-start bytes o fits',
          e,
          value,
        ),
      )

  be :
      (n v : ℕ) (read : Act Cursor ℕ) (write : Act Writer (Unit {0}))
      → n ≤ room w
      → v < 256 ^ n
      → write w ≡ Writer.write_bytes (to_be_bytes n v) w
      → ((c : Cursor)
          → CursorLaws.IsValid c
          → read c ≡ map_ok from_be_bytes (Cursor.read_bytes n) c)
      → ReadsBack read v write w
  be n v read write fits h =
      reads_back n (to_be_bytes n v) v from_be_bytes read write (length-to_be_bytes n v)
        (to_be_bytes-IsByte n v) fits (from_be_bytes-to_be_bytes n v ∙ mod-eq_of_lt h)

  le :
      (n v : ℕ) (read : Act Cursor ℕ) (write : Act Writer (Unit {0}))
      → n ≤ room w
      → v < 256 ^ n
      → write w ≡ Writer.write_bytes (to_le_bytes n v) w
      → ((c : Cursor)
          → CursorLaws.IsValid c
          → read c ≡ map_ok from_le_bytes (Cursor.read_bytes n) c)
      → ReadsBack read v write w
  le n v read write fits h =
      reads_back n (to_le_bytes n v) v from_le_bytes read write (length-to_le_bytes n v)
        (to_le_bytes-IsByte n v) fits (from_le_bytes-to_le_bytes n v ∙ mod-eq_of_lt h)

  -- What is written at an unsigned width is read back, for every value of that width, with the
  -- writer's and the cursor's positions moved alike.
  -- The writer is valid and has 8 bytes of room, and its buffer holds bytes.
  pub unsigned_round_trip :
      (a b d e f : ℕ)
      → 8 ≤ room w
      → a < 2 ^ 8
      → b < 2 ^ 16
      → d < 2 ^ 24
      → e < 2 ^ 32
      → f < 2 ^ 64
      → ReadsBack Cursor.read_u8 a (Writer.write_u8 a) w
        × ReadsBack Cursor.read_u16be b (Writer.write_u16be b) w
        × ReadsBack Cursor.read_u16le b (Writer.write_u16le b) w
        × ReadsBack Cursor.read_u24be d (Writer.write_u24be d) w
        × ReadsBack Cursor.read_u24le d (Writer.write_u24le d) w
        × ReadsBack Cursor.read_u32be e (Writer.write_u32be e) w
        × ReadsBack Cursor.read_u32le e (Writer.write_u32le e) w
        × ReadsBack Cursor.read_u64be f (Writer.write_u64be f) w
        × ReadsBack Cursor.read_u64le f (Writer.write_u64le f) w
  unsigned_round_trip a b d e f fits ha hb hd he hf = (
    be 1 a (Cursor.read_u8) (Writer.write_u8 a) (omega arith) (omega arith)
        (ap (λ (t : ℕ). Writer.write_u8 t w) (sym (mod-eq_of_lt ha))
          ∙ (unsigned_writes w valid a).0)
        (λ c v. (unsigned_reads c v).0),
    be 2 b (Cursor.read_u16be) (Writer.write_u16be b) (omega arith) (omega arith)
        (unsigned_writes w valid b).1 (λ c v. (unsigned_reads c v).1),
    le 2 b (Cursor.read_u16le) (Writer.write_u16le b) (omega arith) (omega arith)
        (unsigned_writes w valid b).2 (λ c v. (unsigned_reads c v).2),
    be 3 d (Cursor.read_u24be) (Writer.write_u24be d) (omega arith) (omega arith)
        (unsigned_writes w valid d).3 (λ c v. (unsigned_reads c v).3),
    le 3 d (Cursor.read_u24le) (Writer.write_u24le d) (omega arith) (omega arith)
        (unsigned_writes w valid d).4 (λ c v. (unsigned_reads c v).4),
    be 4 e (Cursor.read_u32be) (Writer.write_u32be e) (omega arith) (omega arith)
        (unsigned_writes w valid e).5 (λ c v. (unsigned_reads c v).5),
    le 4 e (Cursor.read_u32le) (Writer.write_u32le e) (omega arith) (omega arith)
        (unsigned_writes w valid e).6 (λ c v. (unsigned_reads c v).6),
    be 8 f (Cursor.read_u64be) (Writer.write_u64be f) (omega arith) (omega arith)
        (unsigned_writes w valid f).7 (λ c v. (unsigned_reads c v).7),
    le 8 f (Cursor.read_u64le) (Writer.write_u64le f) (omega arith) (omega arith)
        (unsigned_writes w valid f).8 (λ c v. (unsigned_reads c v).8),
  )

  signed :
      (half : ℕ) (z : ℤ) (read : Act Cursor ℕ) (write : ℕ → Act Writer (Unit {0}))
      → IsSigned half z
      → ReadsBack read (as_unsigned half z) (write (as_unsigned half z)) w
      → ReadsBack (map_ok (as_signed half) read) z (write (as_unsigned half z)) w
  signed half z read write h (w', writes, reads) =
      (w', writes, rw (reads, map_ok, ◌>>=◌, as_signed-as_unsigned half z h) refl)

  -- The same for the signed widths, whose casts are two's complement.
  -- The writer is valid and has 8 bytes of room, and its buffer holds bytes.
  pub signed_round_trip :
      (a b d e : ℤ)
      → 8 ≤ room w
      → IsSigned (2 ^ 7) a
      → IsSigned (2 ^ 15) b
      → IsSigned (2 ^ 31) d
      → IsSigned (2 ^ 63) e
      → ReadsBack Cursor.read_i8 a (Writer.write_i8 a) w
        × ReadsBack Cursor.read_i16be b (Writer.write_i16be b) w
        × ReadsBack Cursor.read_i16le b (Writer.write_i16le b) w
        × ReadsBack Cursor.read_i32be d (Writer.write_i32be d) w
        × ReadsBack Cursor.read_i32le d (Writer.write_i32le d) w
        × ReadsBack Cursor.read_i64be e (Writer.write_i64be e) w
        × ReadsBack Cursor.read_i64le e (Writer.write_i64le e) w
  unfolding Cursor.read_i8 Cursor.read_i16be Cursor.read_i16le Cursor.read_i32be Cursor.read_i32le
      Cursor.read_i64be Cursor.read_i64le Writer.write_i8 Writer.write_i16be Writer.write_i16le
      Writer.write_i32be Writer.write_i32le Writer.write_i64be Writer.write_i64le
  signed_round_trip a b d e fits ha hb hd he =
      let u =
        unsigned_round_trip (as_unsigned (2 ^ 7) a) (as_unsigned (2 ^ 15) b) 0
          (as_unsigned (2 ^ 31) d) (as_unsigned (2 ^ 63) e) fits (as_unsigned-lt (2 ^ 7) a ha)
          (as_unsigned-lt (2 ^ 15) b hb) (omega arith) (as_unsigned-lt (2 ^ 31) d hd)
          (as_unsigned-lt (2 ^ 63) e he) in
      (
        signed (2 ^ 7) a (Cursor.read_u8) Writer.write_u8 ha u.0,
        signed (2 ^ 15) b (Cursor.read_u16be) Writer.write_u16be hb u.1,
        signed (2 ^ 15) b (Cursor.read_u16le) Writer.write_u16le hb u.2,
        signed (2 ^ 31) d (Cursor.read_u32be) Writer.write_u32be hd u.5,
        signed (2 ^ 31) d (Cursor.read_u32le) Writer.write_u32le hd u.6,
        signed (2 ^ 63) e (Cursor.read_u64be) Writer.write_u64be he u.7,
        signed (2 ^ 63) e (Cursor.read_u64le) Writer.write_u64le he u.8,
      )
