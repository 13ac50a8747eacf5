-- ===== src/Backend/Methods.antt =====
-- The methods that the back ends name for a wire type: they exist for the types with a width in bytes,
-- and for no others, and agree in width, sign and byte order.
use wirespec.Base.{ℕ, ◌*◌, ◌==◌, if◌then◌else◌, Bool, true, false, ◌++◌, Option, none, some}
use wirespec.Base.{◌≡◌, refl, ◌⊎◌, inl, inr}
use wirespec.Base.Str.{Str, str, decimal, digits_of}
use wirespec.Sema.Types.{Endianness}
use wirespec.Codec.Ir.{WireType}
use wirespec.Backend.Rust.{cursor_read_method, writer_write_method, wire_type_byte_width}
use wirespec.Backend.C.{cursor_read_fn, write_fn}
use wirespec.Backend.C as C

abbrev pub is_signed : WireType → Bool
is_signed WireType.i8 = true
is_signed WireType.i16 = true
is_signed WireType.i32 = true
is_signed WireType.i64 = true
is_signed _ = false

-- `8`, or `16be` and the like: what the names of `k` bytes in a byte order end with. Big endian is
-- the order of a type that names none.
abbrev pub order_of : Option Endianness → Str
order_of (some Endianness.little) = str "le"
order_of (some Endianness.big) = str "be"
order_of none = str "be"

abbrev pub tail_of : ℕ → Option Endianness → Str
tail_of k e = decimal (8 * k) ++ (if k == 1 then str "" else order_of e)

-- No method and no width, or the methods of `k` bytes.
abbrev pub IsServed : WireType → Option Endianness → Type 0
IsServed wt e =
    ((wire_type_byte_width wt ≡ none)
      × (cursor_read_method wt e ≡ none)
      × (writer_write_method wt e ≡ none)
      × (cursor_read_fn wt e ≡ none)
      × (write_fn wt e ≡ none))
    ⊎ ((k : ℕ) × (wire_type_byte_width wt ≡ some k)
        × (cursor_read_method wt e
            ≡ some (str "read_" ++ ((if is_signed wt then str "i" else str "u") ++ tail_of k e)))
        × (writer_write_method wt e
            ≡ some (str "write_" ++ ((if is_signed wt then str "i" else str "u") ++ tail_of k e)))
        × (cursor_read_fn wt e ≡ some (str "wirespec_cursor_read_u" ++ tail_of k e))
        × (write_fn wt e ≡ some (str "wirespec_write_u" ++ tail_of k e)))

-- For every wire type and byte order, either it has a width in bytes, and both back ends name a
-- read and a write of that width and order, which in Rust are signed as the type is and in C are
-- unsigned; or it has none, and asking for a method is `unreachable!` in all four places.
pub methods-IsServed :
    (wt : WireType) (e : Option Endianness)
    → (C.wire_type_byte_width wt ≡ wire_type_byte_width wt) × IsServed wt e
unfolding decimal digits_of
methods-IsServed WireType.u8 e = (refl, inr (1, refl, refl, refl, refl, refl))
methods-IsServed WireType.i8 e = (refl, inr (1, refl, refl, refl, refl, refl))
methods-IsServed WireType.bool e = (refl, inr (1, refl, refl, refl, refl, refl))
methods-IsServed WireType.bit e = (refl, inr (1, refl, refl, refl, refl, refl))
methods-IsServed WireType.u16 none = (refl, inr (2, refl, refl, refl, refl, refl))
methods-IsServed WireType.u16 (some Endianness.little) =
    (refl, inr (2, refl, refl, refl, refl, refl))
methods-IsServed WireType.u16 (some Endianness.big) = (refl, inr (2, refl, refl, refl, refl, refl))
methods-IsServed WireType.i16 none = (refl, inr (2, refl, refl, refl, refl, refl))
methods-IsServed WireType.i16 (some Endianness.little) =
    (refl, inr (2, refl, refl, refl, refl, refl))
methods-IsServed WireType.i16 (some Endianness.big) = (refl, inr (2, refl, refl, refl, refl, refl))
methods-IsServed WireType.u24 none = (refl, inr (3, refl, refl, refl, refl, refl))
methods-IsServed WireType.u24 (some Endianness.little) =
    (refl, inr (3, refl, refl, refl, refl, refl))
methods-IsServed WireType.u24 (some Endianness.big) = (refl, inr (3, refl, refl, refl, refl, refl))
methods-IsServed WireType.u32 none = (refl, inr (4, refl, refl, refl, refl, refl))
methods-IsServed WireType.u32 (some Endianness.little) =
    (refl, inr (4, refl, refl, refl, refl, refl))
methods-IsServed WireType.u32 (some Endianness.big) = (refl, inr (4, refl, refl, refl, refl, refl))
methods-IsServed WireType.i32 none = (refl, inr (4, refl, refl, refl, refl, refl))
methods-IsServed WireType.i32 (some Endianness.little) =
    (refl, inr (4, refl, refl, refl, refl, refl))
methods-IsServed WireType.i32 (some Endianness.big) = (refl, inr (4, refl, refl, refl, refl, refl))
methods-IsServed WireType.u64 none = (refl, inr (8, refl, refl, refl, refl, refl))
methods-IsServed WireType.u64 (some Endianness.little) =
    (refl, inr (8, refl, refl, refl, refl, refl))
methods-IsServed WireType.u64 (some Endianness.big) = (refl, inr (8, refl, refl, refl, refl, refl))
methods-IsServed WireType.i64 none = (refl, inr (8, refl, refl, refl, refl, refl))
methods-IsServed WireType.i64 (some Endianness.little) =
    (refl, inr (8, refl, refl, refl, refl, refl))
methods-IsServed WireType.i64 (some Endianness.big) = (refl, inr (8, refl, refl, refl, refl, refl))
methods-IsServed (WireType.bits n) e = (refl, inl (refl, refl, refl, refl, refl))
methods-IsServed WireType.var_int e = (refl, inl (refl, refl, refl, refl, refl))
methods-IsServed WireType.cont_var_int e = (refl, inl (refl, refl, refl, refl, refl))
methods-IsServed WireType.bytes e = (refl, inl (refl, refl, refl, refl, refl))
methods-IsServed (WireType.struct x) e = (refl, inl (refl, refl, refl, refl, refl))
methods-IsServed (WireType.enum x) e = (refl, inl (refl, refl, refl, refl, refl))
methods-IsServed (WireType.frame x) e = (refl, inl (refl, refl, refl, refl, refl))
methods-IsServed (WireType.capsule x) e = (refl, inl (refl, refl, refl, refl, refl))
methods-IsServed WireType.array e = (refl, inl (refl, refl, refl, refl, refl))
