-- ===== src/Rt/Writer.antt =====
-- `Writer` of crates/wirespec-rt/src/lib.rs: a position in a mutable byte slice, and the writes
-- that move it.
pub mod Splits
pub mod Laws
use wirespec.Base.{ℕ, ◌+◌, ◌*◌, ◌/◌, ◌%◌, ◌^◌, ltb, leb, ◌==◌, ◌&&◌, if◌then◌else◌}
use wirespec.Base.{List, ◌++◌, Option, none, some, length, set, take, drop}
use wirespec.Base.Int.{ℤ, as_unsigned}
use wirespec.Rt.{Error, Act, ok, err, panic, ◌>>=◌, ◌>>◌, usize_end, checked_add}
use wirespec.Rt.Bytes.{to_be_bytes, to_le_bytes}

pub record Writer : Type 0 where
  pub buf : List ℕ
  pub pos : ℕ

pub new : List ℕ → Writer
new buf = record { buf = buf; pos = 0 }

pub require : ℕ → Act Writer (Unit {0})
require n w = elim (checked_add w.pos n) [
  | none ↦ err Error.short_buffer w
  | some end ↦ if ltb (length w.buf) end then err Error.short_buffer w else ok tt w
]

pub written : Writer → ℕ
written w = w.pos

-- `&mut self.buf[..self.pos]`, as the bytes that it shows.
pub as_written_mut : Writer → Option (List ℕ)
as_written_mut w = if leb w.pos (length w.buf) then some (take w.pos w.buf) else none

-- `self.buf[self.pos + k] = v`.
pub put_at : ℕ → ℕ → Act Writer (Unit {0})
put_at k v w =
    if ltb (w.pos + k) (length w.buf)
    then ok tt (record w { buf = set w.buf (w.pos + k) v })
    else panic

-- `self.buf[self.pos..self.pos + n].copy_from_slice(&bytes)`.
copy_at : ℕ → List ℕ → Act Writer (Unit {0})
copy_at n bytes w =
    if leb (w.pos + n) (length w.buf) && length bytes == n
    then ok tt (record w { buf = take w.pos w.buf ++ (bytes ++ drop (w.pos + n) w.buf) })
    else panic

-- `self.pos += n`.
advance : ℕ → Act Writer (Unit {0})
advance n w = if ltb (w.pos + n) usize_end then ok tt (record w { pos = w.pos + n }) else panic

pub write_u8 : ℕ → Act Writer (Unit {0})
write_u8 v = do require 1; put_at 0 v; advance 1

pub write_u16be : ℕ → Act Writer (Unit {0})
write_u16be v = do require 2; copy_at 2 (to_be_bytes 2 v); advance 2

pub write_u16le : ℕ → Act Writer (Unit {0})
write_u16le v = do require 2; copy_at 2 (to_le_bytes 2 v); advance 2

pub write_u24be : ℕ → Act Writer (Unit {0})
write_u24be v = do
  require 3
  put_at 0 (v / 2 ^ 16 % 256)
  put_at 1 (v / 2 ^ 8 % 256)
  put_at 2 (v % 256)
  advance 3

pub write_u24le : ℕ → Act Writer (Unit {0})
write_u24le v = do
  require 3
  put_at 0 (v % 256)
  put_at 1 (v / 2 ^ 8 % 256)
  put_at 2 (v / 2 ^ 16 % 256)
  advance 3

pub write_u32be : ℕ → Act Writer (Unit {0})
write_u32be v = do require 4; copy_at 4 (to_be_bytes 4 v); advance 4

pub write_u32le : ℕ → Act Writer (Unit {0})
write_u32le v = do require 4; copy_at 4 (to_le_bytes 4 v); advance 4

pub write_u64be : ℕ → Act Writer (Unit {0})
write_u64be v = do require 8; copy_at 8 (to_be_bytes 8 v); advance 8

pub write_u64le : ℕ → Act Writer (Unit {0})
write_u64le v = do require 8; copy_at 8 (to_le_bytes 8 v); advance 8

unfoldable pub write_i8 : ℤ → Act Writer (Unit {0})
write_i8 v = write_u8 (as_unsigned (2 ^ 7) v)

unfoldable pub write_i16be : ℤ → Act Writer (Unit {0})
write_i16be v = write_u16be (as_unsigned (2 ^ 15) v)

unfoldable pub write_i16le : ℤ → Act Writer (Unit {0})
write_i16le v = write_u16le (as_unsigned (2 ^ 15) v)

unfoldable pub write_i32be : ℤ → Act Writer (Unit {0})
write_i32be v = write_u32be (as_unsigned (2 ^ 31) v)

unfoldable pub write_i32le : ℤ → Act Writer (Unit {0})
write_i32le v = write_u32le (as_unsigned (2 ^ 31) v)

unfoldable pub write_i64be : ℤ → Act Writer (Unit {0})
write_i64be v = write_u64be (as_unsigned (2 ^ 63) v)

unfoldable pub write_i64le : ℤ → Act Writer (Unit {0})
write_i64le v = write_u64le (as_unsigned (2 ^ 63) v)

pub write_bytes : List ℕ → Act Writer (Unit {0})
write_bytes bytes = do require (length bytes); copy_at (length bytes) bytes; advance (length bytes)
