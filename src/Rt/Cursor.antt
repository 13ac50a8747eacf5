-- ===== src/Rt/Cursor.antt =====
-- `Cursor` of crates/wirespec-rt/src/lib.rs: a position in a byte slice, and the reads that move it.
pub mod Joined
pub mod Laws
use Prim.Native.Nat.{bit_or}
use wirespec.Base.{ℕ, zero, suc, ◌+◌, ◌-◌, ◌*◌, ◌%◌, ◌^◌, ltb, leb, if◌then◌else◌}
use wirespec.Base.{List, [], ◌∷◌, Option, none, some, length, get_elem?, take, drop}
use wirespec.Base.Int.{ℤ, as_signed}
use wirespec.Rt.{Error, Act, ok, err, panic, ◌>>=◌, ◌>>◌, map_ok, usize_end, checked_add}
use wirespec.Rt.Bytes.{from_be_bytes, from_le_bytes}

pub record Cursor : Type 0 where
  pub input : List ℕ
  pub pos : ℕ

pub new : List ℕ → Cursor
new input = record { input = input; pos = 0 }

pub require : ℕ → Act Cursor (Unit {0})
require n c = elim (checked_add c.pos n) [
  | none ↦ err Error.short_buffer c
  | some end ↦ if ltb (length c.input) end then err Error.short_buffer c else ok tt c
]

pub consumed : Cursor → ℕ
consumed c = c.pos

-- `none` is the panic of a subtraction below 0.
pub remaining : Cursor → Option ℕ
remaining c = if leb c.pos (length c.input) then some (length c.input - c.pos) else none

pub bytes : Cursor → List ℕ
bytes c = c.input

-- `self.data[self.pos + k]`.
byte_at : ℕ → Act Cursor ℕ
byte_at k c = elim (get_elem? c.input (c.pos + k)) [ none ↦ panic | some b ↦ ok b c ]

-- `[self.data[self.pos + k], self.data[self.pos + k + 1], …]`, of `n` bytes.
bytes_at : ℕ → ℕ → Act Cursor (List ℕ)
bytes_at zero k = ok []
bytes_at (suc n) k = do b ← byte_at k; bs ← bytes_at n (k + 1); ok (b ∷ bs)

-- `&self.data[self.pos..self.pos + n]`.
slice : ℕ → Act Cursor (List ℕ)
slice n c = if leb (c.pos + n) (length c.input) then ok (take n (drop c.pos c.input)) c else panic

-- `self.pos += n`.
advance : ℕ → Act Cursor (Unit {0})
advance n c = if ltb (c.pos + n) usize_end then ok tt (record c { pos = c.pos + n }) else panic

-- `(b as u32) << k`.
abbrev shl32 : ℕ → ℕ → ℕ
shl32 b k = b * 2 ^ k % 2 ^ 32

pub read_u8 : Act Cursor ℕ
read_u8 = do require 1; v ← byte_at 0; advance 1; ok v

pub read_u16be : Act Cursor ℕ
read_u16be = do require 2; bs ← bytes_at 2 0; advance 2; ok (from_be_bytes bs)

pub read_u16le : Act Cursor ℕ
read_u16le = do require 2; bs ← bytes_at 2 0; advance 2; ok (from_le_bytes bs)

pub read_u24be : Act Cursor ℕ
read_u24be = do
  require 3
  a ← byte_at 0
  b ← byte_at 1
  d ← byte_at 2
  advance 3
  ok (bit_or (bit_or (shl32 a 16) (shl32 b 8)) d)

pub read_u24le : Act Cursor ℕ
read_u24le = do
  require 3
  a ← byte_at 0
  b ← byte_at 1
  d ← byte_at 2
  advance 3
  ok (bit_or (bit_or a (shl32 b 8)) (shl32 d 16))

pub read_u32be : Act Cursor ℕ
read_u32be = do require 4; bs ← bytes_at 4 0; advance 4; ok (from_be_bytes bs)

pub read_u32le : Act Cursor ℕ
read_u32le = do require 4; bs ← bytes_at 4 0; advance 4; ok (from_le_bytes bs)

pub read_u64be : Act Cursor ℕ
read_u64be = do require 8; buf ← slice 8; advance 8; ok (from_be_bytes buf)

pub read_u64le : Act Cursor ℕ
read_u64le = do require 8; buf ← slice 8; advance 8; ok (from_le_bytes buf)

unfoldable pub read_i8 : Act Cursor ℤ
read_i8 = map_ok (as_signed (2 ^ 7)) read_u8

unfoldable pub read_i16be : Act Cursor ℤ
read_i16be = map_ok (as_signed (2 ^ 15)) read_u16be

unfoldable pub read_i16le : Act Cursor ℤ
read_i16le = map_ok (as_signed (2 ^ 15)) read_u16le

unfoldable pub read_i32be : Act Cursor ℤ
read_i32be = map_ok (as_signed (2 ^ 31)) read_u32be

unfoldable pub read_i32le : Act Cursor ℤ
read_i32le = map_ok (as_signed (2 ^ 31)) read_u32le

unfoldable pub read_i64be : Act Cursor ℤ
read_i64be = map_ok (as_signed (2 ^ 63)) read_u64be

unfoldable pub read_i64le : Act Cursor ℤ
read_i64le = map_ok (as_signed (2 ^ 63)) read_u64le

pub read_bytes : ℕ → Act Cursor (List ℕ)
read_bytes n = do require n; out ← slice n; advance n; ok out

-- `&self.data[self.pos..]`, then `self.pos = self.data.len()`.
pub read_remaining : Act Cursor (List ℕ)
read_remaining c =
    if leb c.pos (length c.input)
    then ok (drop c.pos c.input) (record c { pos = length c.input })
    else panic

pub sub_cursor : ℕ → Act Cursor Cursor
sub_cursor n = do require n; part ← slice n; advance n; ok (record { input = part; pos = 0 })
