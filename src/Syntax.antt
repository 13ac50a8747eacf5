-- ===== src/Syntax.antt =====
-- crates/wirespec-syntax/src/span.rs: positions in the source text. `none` is a panic, of an
-- addition or a subtraction on `u32` under Rust's overflow checks.
pub mod Ast
pub mod Lexer
pub mod Token
mod Tests
use Prim.Native.Nat.{min, max}
use wirespec.Base.{
  ℕ, ◌+◌, ◌-◌, ◌^◌, ◌≤◌, ◌<◌, ltb, leb, if◌then◌else◌, Option, none, some, ◌≡◌, refl, arith,
}

pub record Span : Type 0 where
  pub offset : ℕ
  pub len : ℕ

unfoldable pub end_of : Span → Option ℕ
end_of s = if ltb (s.offset + s.len) (2 ^ 32) then some (s.offset + s.len) else none

merge_ends : ℕ → Option ℕ → Option ℕ → Option Span
merge_ends start (some e) (some e') =
    if leb start (max e e') then some (record { offset = start; len = max e e' - start }) else none
merge_ends start _ _ = none

pub merge : Span → Span → Option Span
merge s other = merge_ends (min s.offset other.offset) (end_of s) (end_of other)

-- `u` has the bytes of `s`.
abbrev pub Covers : Span → Span → Type 0
Covers u s = (u.offset ≤ s.offset) × (s.offset + s.len ≤ u.offset + u.len)

abbrev pub IsSpan : Span → Type 0
IsSpan s = s.offset + s.len < 2 ^ 32

-- Two spans whose ends fit a `u32` merge with no panic to a span whose end fits one; it covers both
-- and is the least that does.
pub merge-Covers :
    (s t : Span)
    → IsSpan s
    → IsSpan t
    → (u : Span) × (merge s t ≡ some u)
      × IsSpan u
      × Covers u s
      × Covers u t
      × ((v : Span) → Covers v s → Covers v t → Covers v u)
unfolding merge merge_ends end_of
merge-Covers s t hs ht =
    let start = min s.offset t.offset in
    let stop = max (s.offset + s.len) (t.offset + t.len) in
    (
      record { offset = start; len = stop - start },
      ground (arith, hs, ht),
      omega (arith, hs, ht),
      (omega arith, omega arith),
      (omega arith, omega arith),
      λ v cs ct. (omega (arith, cs.0, ct.0), omega (arith, cs.1, ct.1)),
    )
