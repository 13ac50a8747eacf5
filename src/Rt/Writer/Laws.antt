-- ===== src/Rt/Writer/Laws.antt =====
-- The writes of `Writer` on every branch, against the bytes that they put into the buffer.
use wirespec.Base.{ℕ, ◌+◌, ◌-◌, ◌/◌, ◌%◌, ◌^◌, ◌≤◌, ◌<◌, ltb, if◌then◌else◌, refl}
use wirespec.Base.{List, [], ◌∷◌, ◌++◌, some, length, take, drop, ◌≡◌, arith, ap}
use wirespec.Base.{length-drop, length-take, length-append, Bool-cases, inl, inr, ltb→le, sym, ◌∙◌}
use wirespec.Base.{drop_split, le→leb, lt→ltb, ==_refl, take-append-drop, drop-drop}
use native.Mathlib.Nat.{mod-eq_of_lt}
use wirespec.Base.{◌⊎◌, ltb→lt}
use wirespec.Base.Int.{ℤ, IsSigned, as_unsigned, as_unsigned-lt}
use wirespec.Rt.Writer.{
  write_i8, write_i16be, write_i16le, write_i32be, write_i32le, write_i64be, write_i64le,
}
use wirespec.Rt.{Error, ok, err, ◌>>◌, usize_end}
use wirespec.Rt.Bytes.{to_be_bytes, to_le_bytes, length-to_be_bytes, length-to_le_bytes}
use wirespec.Rt.Writer.{Writer, require, put_at, copy_at, advance, write_bytes, write_u8}
use wirespec.Rt.Writer.{
  write_u16be, write_u16le, write_u24be, write_u24le, write_u32be, write_u32le,
}
use wirespec.Rt.Writer.{write_u64be, write_u64le, as_written_mut}
use wirespec.Rt.Writer.Splits.{split_take, split_drop, put_at_lem, three_left}

pub record IsValid (w : Writer) : Type 0 where
  pub inside : w.pos ≤ length w.buf
  pub small : length w.buf < usize_end

-- The bytes of the buffer behind the position.
abbrev pub room : Writer → ℕ
room w = length w.buf - w.pos

-- The writer that has written `bytes`: they stand at its old position, the rest is as it was.
abbrev pub after : Writer → List ℕ → Writer
after w bytes = record {
  buf = take w.pos w.buf ++ (bytes ++ drop (w.pos + length bytes) w.buf);
  pos = w.pos + length bytes;
}

module _ (w : Writer) (v : IsValid w) where
  require_lem :
      (n : ℕ) → require n w ≡ (if ltb (room w) n then err Error.short_buffer w else ok tt w)
  unfolding require
  require_lem n = ground (arith, v.inside, v.small)

  copy_at_lem :
      (bytes : List ℕ)
      → length bytes ≤ room w
      → copy_at (length bytes) bytes w
        ≡ ok tt
            (record w { buf = take w.pos w.buf ++ (bytes ++ drop (w.pos + length bytes) w.buf) })
  unfolding copy_at
  copy_at_lem bytes h = rw (
    le→leb (w.pos + length bytes) (length w.buf) (omega (arith, v.inside)),
    ==_refl (length bytes),
  )

  advance_lem :
      (n : ℕ) (buf : List ℕ)
      → n ≤ room w
      → advance n (record w { buf = buf }) ≡ ok tt (record { buf = buf; pos = w.pos + n })
  unfolding advance
  advance_lem n buf h = rw (lt→ltb (w.pos + n) usize_end (omega (arith, v.inside, v.small)))

  -- Both branches of `write_bytes`; the fixed-width writes are cases of it.
  -- The writer is valid.
  pub write_bytes_lem :
      (bytes : List ℕ)
      → write_bytes bytes w
        ≡ (if ltb (room w) (length bytes) then err Error.short_buffer w else ok tt (after w bytes))
  unfolding write_bytes
  write_bytes_lem bytes = ground (
    arith,
    require_lem (length bytes),
    copy_at_lem bytes,
    advance_lem (length bytes) (take w.pos w.buf ++ (bytes ++ drop (w.pos + length bytes) w.buf)),
  )

  copied_write :
      (n : ℕ) (bytes : List ℕ)
      → length bytes ≡ n
      → (do require n; copy_at n bytes; advance n) w ≡ write_bytes bytes w
  unfolding write_bytes
  copied_write n bytes e = rw (← e) refl

  -- What the writer behind the new bytes shows.
  pub after_lem :
      (bytes : List ℕ)
      → length bytes ≤ room w
      → IsValid (after w bytes)
        × (length (after w bytes).buf ≡ length w.buf)
        × (as_written_mut (after w bytes) ≡ some (take w.pos w.buf ++ bytes))
        × (drop (after w bytes).pos (after w bytes).buf ≡ drop (w.pos + length bytes) w.buf)
  unfolding as_written_mut
  after_lem bytes h =
      let front : length (take w.pos w.buf) ≡ w.pos =
        omega (arith, length-take w.pos w.buf, v.inside) in
      let total : length (after w bytes).buf ≡ length w.buf = omega (
        arith,
        length-append (take w.pos w.buf) (bytes ++ drop (w.pos + length bytes) w.buf),
        length-append bytes (drop (w.pos + length bytes) w.buf),
        length-drop (w.pos + length bytes) w.buf,
        front,
        v.inside,
      ) in
      let joined : (after w bytes).pos ≡ length (take w.pos w.buf ++ bytes) =
        omega (arith, length-append (take w.pos w.buf) bytes, front) in
      (
        record { inside = omega (arith, total, v.inside); small = omega (arith, total, v.small) },
        total,
        rw
            (le→leb (after w bytes).pos (length (after w bytes).buf)
              (omega (arith, total, h, v.inside)))
            (ap some (split_take (take w.pos w.buf) bytes _ _ joined)),
        split_drop (take w.pos w.buf) bytes _ _ joined,
      )

  -- Both branches of `write_bytes`. Where the room is too small for the bytes, it fails and leaves
  -- the writer as it was. Else the writer stays valid, its position moves by the number of bytes,
  -- the buffer keeps its length, what is written so far is what was written before and then the
  -- bytes, and all of the buffer behind them is as it was.
  -- The writer is valid.
  pub write_bytes-IsWritten :
      (bytes : List ℕ)
      → ((room w < length bytes) × (write_bytes bytes w ≡ err Error.short_buffer w))
        ⊎ ((length bytes ≤ room w)
            × ((w' : Writer) × (write_bytes bytes w ≡ ok tt w')
                × IsValid w'
                × (w'.pos ≡ w.pos + length bytes)
                × (length w'.buf ≡ length w.buf)
                × (as_written_mut w' ≡ some (take w.pos w.buf ++ bytes))
                × (drop w'.pos w'.buf ≡ drop (w.pos + length bytes) w.buf)))
  write_bytes-IsWritten bytes = elim (Bool-cases (ltb (room w) (length bytes))) [
    | inl short ↦ inl (ltb→lt _ _ short, write_bytes_lem bytes ∙ rw short refl)
    | inr enough ↦
        let fits : length bytes ≤ room w = ltb→le _ _ enough in
        let (is_valid, total, shown, behind) = after_lem bytes fits in
        inr (
          fits,
          (
            after w bytes,
            write_bytes_lem bytes ∙ rw enough refl,
            is_valid,
            refl,
            total,
            shown,
            behind,
          ),
        )
  ]

  -- Three single writes that fit are one write of three bytes.
  three_puts :
      (a b d : ℕ)
      → 3 ≤ room w
      → (do put_at 0 a; put_at 1 b; put_at 2 d; advance 3) w ≡ ok tt (after w (a ∷ b ∷ d ∷ []))
  three_puts a b d h =
      let front : length (take w.pos w.buf) ≡ w.pos =
        omega (arith, length-take w.pos w.buf, v.inside) in
      let (x, y, z, r, e, f) =
        three_left (drop w.pos w.buf) (omega (arith, length-drop w.pos w.buf)) in
      let whole : w.buf ≡ take w.pos w.buf ++ (x ∷ y ∷ z ∷ r) =
        rw (← e) (sym (take-append-drop w.pos w.buf)) in
      let tail : r ≡ drop (w.pos + 3) w.buf = f ∙ drop-drop w.buf w.pos 3 in
      let first =
        put_at_lem (take w.pos w.buf) (x ∷ y ∷ z ∷ r) 0 a w whole (sym front) (omega arith) in
      let second =
        put_at_lem (take w.pos w.buf) (a ∷ y ∷ z ∷ r) 1 b
          (record w { buf = take w.pos w.buf ++ (a ∷ y ∷ z ∷ r) }) refl (sym front) (omega arith) in
      let third =
        put_at_lem (take w.pos w.buf) (a ∷ b ∷ z ∷ r) 2 d
          (record w { buf = take w.pos w.buf ++ (a ∷ b ∷ z ∷ r) }) refl (sym front) (omega arith) in
      ground
        (arith, first, second, third, tail, advance_lem 3 (take w.pos w.buf ++ (a ∷ b ∷ d ∷ r)) h)

  put_write_u24 :
      (a b d : ℕ)
      → (do require 3; put_at 0 a; put_at 1 b; put_at 2 d; advance 3) w
        ≡ write_bytes (a ∷ b ∷ d ∷ []) w
  put_write_u24 a b d =
      ground (arith, require_lem 3, write_bytes_lem (a ∷ b ∷ d ∷ []), three_puts a b d)

  write_u24be_lem : (n : ℕ) → write_u24be n w ≡ write_bytes (to_be_bytes 3 n) w
  unfolding write_u24be to_be_bytes
  write_u24be_lem n =
      put_write_u24 (n / 2 ^ 16 % 256) (n / 2 ^ 8 % 256) (n % 256)
      ∙ ap (λ (t : ℕ). write_bytes (n / 2 ^ 16 % 256 ∷ n / 2 ^ 8 % 256 ∷ t % 256 ∷ []) w)
          (omega arith)

  write_u24le_lem : (n : ℕ) → write_u24le n w ≡ write_bytes (to_le_bytes 3 n) w
  unfolding write_u24le to_le_bytes
  write_u24le_lem n =
      put_write_u24 (n % 256) (n / 2 ^ 8 % 256) (n / 2 ^ 16 % 256)
      ∙ ap (λ (t : ℕ). write_bytes (n % 256 ∷ n / 2 ^ 8 % 256 ∷ t % 256 ∷ []) w) (omega arith)

  write_u8_lem : (n : ℕ) → write_u8 (n % 256) w ≡ write_bytes (to_be_bytes 1 n) w
  unfolding write_u8 to_be_bytes
  write_u8_lem n = elim (Bool-cases (ltb (room w) 1)) [
    | inl short ↦ ground (arith, require_lem 1, write_bytes_lem ((n / 256 ^ 0 % 256) ∷ []), short)
    | inr enough ↦
        let front : length (take w.pos w.buf) ≡ w.pos =
          omega (arith, length-take w.pos w.buf, v.inside) in
        let (x, e, f) =
          drop_split (drop w.pos w.buf) 0
            (omega (arith, length-drop w.pos w.buf, ltb→le _ _ enough)) in
        let whole : w.buf ≡ take w.pos w.buf ++ (x ∷ drop 1 (drop w.pos w.buf)) =
          rw (← f) (sym (take-append-drop w.pos w.buf)) in
        ground (
          arith,
          require_lem 1,
          write_bytes_lem ((n / 256 ^ 0 % 256) ∷ []),
          enough,
          put_at_lem (take w.pos w.buf) (x ∷ drop 1 (drop w.pos w.buf)) 0 (n % 256) w whole
              (sym front) (omega arith),
          drop-drop w.buf w.pos 1,
          advance_lem 1 (take w.pos w.buf ++ ((n % 256) ∷ drop (w.pos + 1) w.buf))
              (ltb→le _ _ enough),
        )
  ]

  -- The unsigned writes, as copies.
  pub unsigned_writes :
      (n : ℕ)
      → (write_u8 (n % 256) w ≡ write_bytes (to_be_bytes 1 n) w)
        × (write_u16be n w ≡ write_bytes (to_be_bytes 2 n) w)
        × (write_u16le n w ≡ write_bytes (to_le_bytes 2 n) w)
        × (write_u24be n w ≡ write_bytes (to_be_bytes 3 n) w)
        × (write_u24le n w ≡ write_bytes (to_le_bytes 3 n) w)
        × (write_u32be n w ≡ write_bytes (to_be_bytes 4 n) w)
        × (write_u32le n w ≡ write_bytes (to_le_bytes 4 n) w)
        × (write_u64be n w ≡ write_bytes (to_be_bytes 8 n) w)
        × (write_u64le n w ≡ write_bytes (to_le_bytes 8 n) w)
  unfolding write_u16be write_u16le write_u32be write_u32le write_u64be write_u64le
  unsigned_writes n = (
    write_u8_lem n,
    copied_write 2 _ (length-to_be_bytes 2 n),
    copied_write 2 _ (length-to_le_bytes 2 n),
    write_u24be_lem n,
    write_u24le_lem n,
    copied_write 4 _ (length-to_be_bytes 4 n),
    copied_write 4 _ (length-to_le_bytes 4 n),
    copied_write 8 _ (length-to_be_bytes 8 n),
    copied_write 8 _ (length-to_le_bytes 8 n),
  )

  -- Every fixed-width write, unsigned or signed, on both branches, is `write_bytes` of the value's
  -- bytes in its order, which for a signed one are those of its two's complement.
  -- (`write_u8` takes a byte as it is, and `write_i8` a number of 8 bits.)
  -- The writer is valid.
  pub fixed_writes :
      (n : ℕ) (a z : ℤ)
      → IsSigned (2 ^ 7) a
      → (write_u8 (n % 256) w ≡ write_bytes (to_be_bytes 1 n) w)
        × (write_u16be n w ≡ write_bytes (to_be_bytes 2 n) w)
        × (write_u16le n w ≡ write_bytes (to_le_bytes 2 n) w)
        × (write_u24be n w ≡ write_bytes (to_be_bytes 3 n) w)
        × (write_u24le n w ≡ write_bytes (to_le_bytes 3 n) w)
        × (write_u32be n w ≡ write_bytes (to_be_bytes 4 n) w)
        × (write_u32le n w ≡ write_bytes (to_le_bytes 4 n) w)
        × (write_u64be n w ≡ write_bytes (to_be_bytes 8 n) w)
        × (write_u64le n w ≡ write_bytes (to_le_bytes 8 n) w)
        × (write_i8 a w ≡ write_bytes (to_be_bytes 1 (as_unsigned (2 ^ 7) a)) w)
        × (write_i16be z w ≡ write_bytes (to_be_bytes 2 (as_unsigned (2 ^ 15) z)) w)
        × (write_i16le z w ≡ write_bytes (to_le_bytes 2 (as_unsigned (2 ^ 15) z)) w)
        × (write_i32be z w ≡ write_bytes (to_be_bytes 4 (as_unsigned (2 ^ 31) z)) w)
        × (write_i32le z w ≡ write_bytes (to_le_bytes 4 (as_unsigned (2 ^ 31) z)) w)
        × (write_i64be z w ≡ write_bytes (to_be_bytes 8 (as_unsigned (2 ^ 63) z)) w)
        × (write_i64le z w ≡ write_bytes (to_le_bytes 8 (as_unsigned (2 ^ 63) z)) w)
  unfolding write_i8 write_i16be write_i16le write_i32be write_i32le write_i64be write_i64le
  fixed_writes n a z h =
      let u = unsigned_writes n in
      let byte : as_unsigned (2 ^ 7) a % 256 ≡ as_unsigned (2 ^ 7) a =
        mod-eq_of_lt (as_unsigned-lt (2 ^ 7) a h) in
      (
        u.0,
        u.1,
        u.2,
        u.3,
        u.4,
        u.5,
        u.6,
        u.7,
        u.8,
        ap (λ (t : ℕ). write_u8 t w) (sym byte) ∙ (unsigned_writes (as_unsigned (2 ^ 7) a)).0,
        (unsigned_writes (as_unsigned (2 ^ 15) z)).1,
        (unsigned_writes (as_unsigned (2 ^ 15) z)).2,
        (unsigned_writes (as_unsigned (2 ^ 31) z)).5,
        (unsigned_writes (as_unsigned (2 ^ 31) z)).6,
        (unsigned_writes (as_unsigned (2 ^ 63) z)).7,
        (unsigned_writes (as_unsigned (2 ^ 63) z)).8,
      )
