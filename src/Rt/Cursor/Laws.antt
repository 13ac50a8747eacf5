-- ===== src/Rt/Cursor/Laws.antt =====
-- The reads of `Cursor` on every branch, against the bytes that are left.
use wirespec.Base.{ℕ, zero, suc, ◌+◌, ◌≤◌, ◌<◌, ltb, if◌then◌else◌, refl}
use wirespec.Base.{List, [], ◌∷◌, some, length, get_elem?, take, drop, All, ◌≡◌, arith}
use wirespec.Base.{drop_split, get_elem?-drop, length-drop, length-take}
use wirespec.Base.{Bool-cases, inl, inr, ltb→le, All-drop}
use wirespec.Base.{◌^◌}
use wirespec.Base.Int.{as_signed}
use wirespec.Rt.Cursor.{
  read_i8, read_i16be, read_i16le, read_i32be, read_i32le, read_i64be, read_i64le,
}
use wirespec.Rt.{Error, Act, ok, err, ◌>>=◌, ◌>>◌, map_ok, usize_end}
use wirespec.Rt.Bytes.{from_be_bytes, from_le_bytes, IsByte}
use wirespec.Rt.Cursor.{Cursor, require, byte_at, bytes_at, slice, advance, read_bytes}
use wirespec.Rt.Cursor.{read_u8, read_u16be, read_u16le, read_u24be, read_u24le, read_u32be}
use wirespec.Rt.Cursor.{read_u32le, read_u64be, read_u64le, read_remaining, sub_cursor, new}
use wirespec.Base.{All-take}
use wirespec.Rt.Cursor.Joined.{first_three, one_byte, joined_be, joined_le}

pub record IsValid (c : Cursor) : Type 0 where
  pub inside : c.pos ≤ length c.input
  pub small : length c.input < usize_end
  pub octets : All IsByte c.input

-- What is left to read, and the cursor that has read `n` bytes of it.
abbrev pub rest : Cursor → List ℕ
rest c = drop c.pos c.input

abbrev pub skip : ℕ → Cursor → Cursor
skip n c = record c { pos = c.pos + n }

module _ (c : Cursor) (v : IsValid c) where
  require_lem :
      (n : ℕ)
      → require n c ≡ (if ltb (length (rest c)) n then err Error.short_buffer c else ok tt c)
  unfolding require
  require_lem n = ground (arith, length-drop c.pos c.input, v.inside, v.small)

  length-rest : (n : ℕ) → n ≤ length (rest c) → c.pos + n ≤ length c.input
  length-rest n h = omega (arith, length-drop c.pos c.input, v.inside)

  advance_lem : (n : ℕ) → n ≤ length (rest c) → advance n c ≡ ok tt (skip n c)
  unfolding advance
  advance_lem n h = ground (arith, length-rest n h, v.small)

  slice_lem : (n : ℕ) → n ≤ length (rest c) → slice n c ≡ ok (take n (rest c)) c
  unfolding slice
  slice_lem n h = ground (arith, length-rest n h)

  byte_at_lem : (k b : ℕ) → get_elem? (rest c) k ≡ some b → byte_at k c ≡ ok b c
  unfolding byte_at
  byte_at_lem k b e = ground (arith, get_elem?-drop c.input c.pos k, e)

  bytes_at_lem :
      (n k : ℕ) → k + n ≤ length (rest c) → bytes_at n k c ≡ ok (take n (drop k (rest c))) c
  unfolding bytes_at
  bytes_at_lem zero k h = refl
  bytes_at_lem (suc n) k h =
      let (b, e, f) = drop_split (rest c) k (omega arith) in
      ground (arith, byte_at_lem k b e, bytes_at_lem n (k + 1) (omega arith), f)

  -- Both branches of the reads that fetch `n` bytes.
  -- The cursor is valid.
  pub read_bytes_lem :
      (n : ℕ)
      → read_bytes n c ≡ (
          if ltb (length (rest c)) n
          then err Error.short_buffer c
          else ok (take n (rest c)) (skip n c))
  unfolding read_bytes
  read_bytes_lem n = ground (arith, require_lem n, slice_lem n, advance_lem n)

  -- A read that takes its bytes one by one is one that slices them.
  fixed_read :
      (n : ℕ) (f : List ℕ → ℕ)
      → (do require n; bs ← bytes_at n 0; advance n; ok (f bs)) c ≡ map_ok f (read_bytes n) c
  fixed_read n f = ground (arith, read_bytes_lem n, require_lem n, bytes_at_lem n 0, advance_lem n)

  -- The three bytes that a 24-bit read joins by shifts.
  read_u24_bytes :
      3 ≤ length (rest c)
      → (a b d : ℕ) × (byte_at 0 c ≡ ok a c)
        × (byte_at 1 c ≡ ok b c)
        × (byte_at 2 c ≡ ok d c)
        × (take 3 (rest c) ≡ a ∷ b ∷ d ∷ [])
        × (a < 256)
        × (b < 256)
        × (d < 256)
  read_u24_bytes h =
      let (a, b, d, ea, eb, ed, es, la, lb, ld) =
        first_three (rest c) h (All-drop IsByte c.pos c.input v.octets) in
      (a, b, d, byte_at_lem 0 a ea, byte_at_lem 1 b eb, byte_at_lem 2 d ed, es, la, lb, ld)

  read_u24be_lem : read_u24be c ≡ map_ok from_be_bytes (read_bytes 3) c
  unfolding read_u24be
  read_u24be_lem = elim (Bool-cases (ltb (length (rest c)) 3)) [
    | inl short ↦ ground (arith, read_bytes_lem 3, require_lem 3, short)
    | inr enough ↦
        let (a, b, d, ea, eb, ed, es, la, lb, ld) = read_u24_bytes (ltb→le _ _ enough) in
        ground (
          arith,
          read_bytes_lem 3,
          require_lem 3,
          enough,
          advance_lem 3,
          ea,
          eb,
          ed,
          es,
          joined_be a b d la lb ld,
        )
  ]

  read_u24le_lem : read_u24le c ≡ map_ok from_le_bytes (read_bytes 3) c
  unfolding read_u24le
  read_u24le_lem = elim (Bool-cases (ltb (length (rest c)) 3)) [
    | inl short ↦ ground (arith, read_bytes_lem 3, require_lem 3, short)
    | inr enough ↦
        let (a, b, d, ea, eb, ed, es, la, lb, ld) = read_u24_bytes (ltb→le _ _ enough) in
        ground (
          arith,
          read_bytes_lem 3,
          require_lem 3,
          enough,
          advance_lem 3,
          ea,
          eb,
          ed,
          es,
          joined_le a b d la lb ld,
        )
  ]

  sliced_read :
      (n : ℕ) (f : List ℕ → ℕ)
      → (do require n; bs ← slice n; advance n; ok (f bs)) c ≡ map_ok f (read_bytes n) c
  sliced_read n f = ground (arith, read_bytes_lem n, require_lem n, slice_lem n, advance_lem n)

  read_u8_lem : read_u8 c ≡ map_ok from_be_bytes (read_bytes 1) c
  unfolding read_u8
  read_u8_lem = elim (Bool-cases (ltb (length (rest c)) 1)) [
    | inl short ↦ ground (arith, read_bytes_lem 1, require_lem 1, short)
    | inr enough ↦
        let (b, e, f) = drop_split (rest c) 0 (ltb→le _ _ enough) in
        ground (
          arith,
          read_bytes_lem 1,
          require_lem 1,
          enough,
          advance_lem 1,
          byte_at_lem 0 b e,
          f,
          one_byte b,
        )
  ]

  -- The unsigned reads, as slices.
  pub unsigned_reads :
      (read_u8 c ≡ map_ok from_be_bytes (read_bytes 1) c)
      × (read_u16be c ≡ map_ok from_be_bytes (read_bytes 2) c)
      × (read_u16le c ≡ map_ok from_le_bytes (read_bytes 2) c)
      × (read_u24be c ≡ map_ok from_be_bytes (read_bytes 3) c)
      × (read_u24le c ≡ map_ok from_le_bytes (read_bytes 3) c)
      × (read_u32be c ≡ map_ok from_be_bytes (read_bytes 4) c)
      × (read_u32le c ≡ map_ok from_le_bytes (read_bytes 4) c)
      × (read_u64be c ≡ map_ok from_be_bytes (read_bytes 8) c)
      × (read_u64le c ≡ map_ok from_le_bytes (read_bytes 8) c)
  unfolding read_u16be read_u16le read_u32be read_u32le read_u64be read_u64le
  unsigned_reads = (
    read_u8_lem,
    fixed_read 2 from_be_bytes,
    fixed_read 2 from_le_bytes,
    read_u24be_lem,
    read_u24le_lem,
    fixed_read 4 from_be_bytes,
    fixed_read 4 from_le_bytes,
    sliced_read 8 from_be_bytes,
    sliced_read 8 from_le_bytes,
  )

  signed_read :
      (half n : ℕ) (f : List ℕ → ℕ) (read : Act Cursor ℕ)
      → read c ≡ map_ok f (read_bytes n) c
      → map_ok (as_signed half) read c ≡ map_ok (λ bs. as_signed half (f bs)) (read_bytes n) c
  signed_read half n f read h = ground (arith, h, read_bytes_lem n)

  -- `read_bytes n` gives the next `n` bytes and moves the cursor over them, or fails and leaves the
  -- cursor where fewer are left. Every fixed-width read, unsigned or signed, on both branches, is the
  -- slice of its width read in its byte order, for a signed one as two's complement: it fails as
  -- `read_bytes` fails, and it moves the cursor as far.
  -- The cursor is valid.
  pub fixed_reads :
      ((n : ℕ)
        → read_bytes n c ≡ (
            if ltb (length (rest c)) n
            then err Error.short_buffer c
            else ok (take n (rest c)) (skip n c)))
      × (read_u8 c ≡ map_ok from_be_bytes (read_bytes 1) c)
      × (read_u16be c ≡ map_ok from_be_bytes (read_bytes 2) c)
      × (read_u16le c ≡ map_ok from_le_bytes (read_bytes 2) c)
      × (read_u24be c ≡ map_ok from_be_bytes (read_bytes 3) c)
      × (read_u24le c ≡ map_ok from_le_bytes (read_bytes 3) c)
      × (read_u32be c ≡ map_ok from_be_bytes (read_bytes 4) c)
      × (read_u32le c ≡ map_ok from_le_bytes (read_bytes 4) c)
      × (read_u64be c ≡ map_ok from_be_bytes (read_bytes 8) c)
      × (read_u64le c ≡ map_ok from_le_bytes (read_bytes 8) c)
      × (read_i8 c ≡ map_ok (λ bs. as_signed (2 ^ 7) (from_be_bytes bs)) (read_bytes 1) c)
      × (read_i16be c ≡ map_ok (λ bs. as_signed (2 ^ 15) (from_be_bytes bs)) (read_bytes 2) c)
      × (read_i16le c ≡ map_ok (λ bs. as_signed (2 ^ 15) (from_le_bytes bs)) (read_bytes 2) c)
      × (read_i32be c ≡ map_ok (λ bs. as_signed (2 ^ 31) (from_be_bytes bs)) (read_bytes 4) c)
      × (read_i32le c ≡ map_ok (λ bs. as_signed (2 ^ 31) (from_le_bytes bs)) (read_bytes 4) c)
      × (read_i64be c ≡ map_ok (λ bs. as_signed (2 ^ 63) (from_be_bytes bs)) (read_bytes 8) c)
      × (read_i64le c ≡ map_ok (λ bs. as_signed (2 ^ 63) (from_le_bytes bs)) (read_bytes 8) c)
  unfolding read_i8 read_i16be read_i16le read_i32be read_i32le read_i64be read_i64le
  fixed_reads =
      let u = unsigned_reads in
      (
        read_bytes_lem,
        u.0,
        u.1,
        u.2,
        u.3,
        u.4,
        u.5,
        u.6,
        u.7,
        u.8,
        signed_read (2 ^ 7) 1 from_be_bytes read_u8 u.0,
        signed_read (2 ^ 15) 2 from_be_bytes read_u16be u.1,
        signed_read (2 ^ 15) 2 from_le_bytes read_u16le u.2,
        signed_read (2 ^ 31) 4 from_be_bytes read_u32be u.5,
        signed_read (2 ^ 31) 4 from_le_bytes read_u32le u.6,
        signed_read (2 ^ 63) 8 from_be_bytes read_u64be u.7,
        signed_read (2 ^ 63) 8 from_le_bytes read_u64le u.8,
      )

  -- A cursor that has read within its slice is well formed.
  pub skip-IsValid : (n : ℕ) → n ≤ length (rest c) → IsValid (skip n c)
  skip-IsValid n h = record { inside = length-rest n h; small = v.small; octets = v.octets }

  -- `sub_cursor` hands out exactly the next `n` bytes as a slice of their own, at position 0, or
  -- fails and leaves the cursor. A read of the sub-cursor cannot reach beyond them, and what
  -- `read_remaining` makes of it is what `read_bytes n` makes of the cursor.
  -- The cursor is valid.
  pub sub_cursor_lem :
      (n : ℕ)
      → (sub_cursor n c ≡ (
          if ltb (length (rest c)) n
          then err Error.short_buffer c
          else ok (new (take n (rest c))) (skip n c)))
        × (IsValid (new (take n (rest c))))
        × (read_remaining (new (take n (rest c)))
            ≡ ok
                (take n (rest c))
                (record { input = take n (rest c); pos = length (take n (rest c)) }))
  unfolding sub_cursor new read_remaining
  sub_cursor_lem n = (
    ground (arith, require_lem n, slice_lem n, advance_lem n),
    record {
      inside = omega arith;
      small = omega (arith, length-take n (rest c), length-drop c.pos c.input, v.small);
      octets = All-take IsByte n (rest c) (All-drop IsByte c.pos c.input v.octets);
    },
    ground arith,
  )
