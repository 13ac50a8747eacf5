-- ===== src/Syntax/Lexer/Literals.antt =====
-- The lexer's integer literals are written as the grammar says.
use wirespec.Base.{ℕ, ◌+◌, ◌*◌, ◌^◌, ◌≤◌, ◌<◌, ltb, ◌==◌, Bool, true}
use wirespec.Base.{List, [], ◌∷◌, ◌++◌, ◌≡◌, refl, sym, ap, subst, ◌∙◌, arith, some}
use wirespec.Base.{length, take, All, inl, inr, Bool-cases, Option-cases, ltb→lt}
use wirespec.Base.Int.{ℤ, pos}
use wirespec.Base.Str.{Str}
use wirespec.Syntax.Token.{invalid_integer}
use wirespec.Syntax.Lexer.{is_digit, lex_decimal, lex_prefixed}
use wirespec.Syntax.Lexer.Grammar.{IsUnprefixed, IsEnded, IsNumeral, decimal, numeral}
use wirespec.Syntax.Lexer.Reads.{advance_while_lem}
use wirespec.Base.Outcome.{ok}
use wirespec.Syntax.Token.{LexMsg, integer}
use wirespec.Syntax.Lexer.{Lexer, rest, count_while, advance_while, push_token, text_from}
use wirespec.Syntax.Lexer.{without_underscores, from_digits, from_str_radix, to_digit, push_integer}
use wirespec.Syntax.Lexer.{or_underscore, fail}
use wirespec.Syntax.Lexer.Grammar.{value, IsDigits, Spells}
use wirespec.Syntax.Lexer.Reads.{
  list_split, Reads, Reads-refl, Reads-le, Steps, push_token-Steps, text_from-Reads, Reads-append,
}

-- A number that is accepted is the one the digits write, and fits an `i64`.
from_digits_lem :
    (radix acc : ℕ) (s : Str) (n : ℕ)
    → acc < 2 ^ 63
    → from_digits radix acc (without_underscores s) ≡ some n
    → (value radix acc s ≡ n) × (n < 2 ^ 63)
unfolding from_digits without_underscores value
from_digits_lem radix acc [] n small h =
    let same : acc ≡ n = ground (arith, h) in (same, rw (sym same) small)
from_digits_lem radix acc (c ∷ s) n small h = elim (Bool-cases (c == 95)) [
  | inl under ↦
      let (v, b) = from_digits_lem radix acc s n small (ground (arith, h, under)) in
      (ground (arith, under, v), b)
  | inr other ↦
      let next = acc * radix + to_digit c in
      elim (Bool-cases (ltb next (2 ^ 63))) [
        | inl fits ↦
            let (v, b) =
              from_digits_lem radix next s n (ltb→lt next (2 ^ 63) fits)
                (ground (arith, h, other, fits)) in
            (ground (arith, other, v), b)
        | inr over ↦ absurd (ground (arith, h, other, over))
      ]
]

from_str_radix_lem :
    (radix : ℕ) (s : Str) (z : ℤ)
    → from_str_radix radix s ≡ some z
    → (n : ℕ) × (from_digits radix 0 s ≡ some n) × (z ≡ pos n)
unfolding from_str_radix
from_str_radix_lem radix [] z h = absurd cc
from_str_radix_lem radix (c ∷ s) z h = elim (Option-cases (from_digits radix 0 (c ∷ s))) [
  | inl e ↦ absurd (ground (arith, h, e))
  | inr (n, e) ↦ (n, e, ground (arith, h, e))
]

-- The loop reads the digit that has been looked at.
advance_while_first :
    (test : ℕ → Bool) (l : Lexer) (c : ℕ) (s : List ℕ)
    → rest l ≡ c ∷ s
    → test c ≡ true
    → (text : Str) × All (λ b. or_underscore test b ≡ true) text
      × Reads l (c ∷ text) (advance_while (or_underscore test) l)
      × IsEnded (or_underscore test) (rest (advance_while (or_underscore test) l))
unfolding count_while
advance_while_first test l c s e first =
    let (read, all, r, h, ended) = advance_while_lem (or_underscore test) l in
    let digit : or_underscore test c ≡ true = rw first refl in
    let more = take (count_while (or_underscore test) s) s in
    let starts : read ≡ c ∷ more =
      h ∙ ap (λ t. take (count_while (or_underscore test) t) t) e ∙ ground (arith, digit) in
    (
      more,
      (subst (λ (t : Str). All (λ b. or_underscore test b ≡ true) t) starts all).1,
      subst (λ (t : Str). Reads l t (advance_while (or_underscore test) l)) starts r,
      ended,
    )

module _ (radix : ℕ) (invalid : Str → LexMsg) (test : ℕ → Bool) where
  read_integer :
      (s : Str) (z : ℤ)
      → from_str_radix radix (without_underscores s) ≡ some z
      → (z ≡ pos (value radix 0 s)) × (value radix 0 s < 2 ^ 63)
  read_integer s z h =
      let (n, e, f) = from_str_radix_lem radix (without_underscores s) z h in
      let (v, b) = from_digits_lem radix 0 s n (omega arith) e in (rw v f, rw v b)

  pub push_integer-Steps :
      (l l1 l' : Lexer) (pre : Str) (c : ℕ) (s : Str) (from : ℕ)
      → Reads l pre l1
      → Reads l1 (c ∷ s) l'
      → test c ≡ true
      → All (λ b. or_underscore test b ≡ true) s
      → ((z : ℤ) → IsDigits radix test z (c ∷ s) → Spells (integer z) (pre ++ (c ∷ s)) (rest l'))
      → from ≡ l1.position
      → l.position < length l.source
      → length l.source < 2 ^ 32
      → Steps l (push_integer radix invalid from l.position l')
  unfolding push_integer
  push_integer-Steps l l1 l' pre c s from p r first more spells e inside small =
      let bound : l1.position ≤ length l1.source =
        rw p.source_same (Reads-le p (omega (arith, inside))) in
      let text : text_from from l' ≡ ok (c ∷ s) = rw e (text_from-Reads r bound) in
      elim (Option-cases (from_str_radix radix (without_underscores (c ∷ s)))) [
        | inl wrong ↦
            let same : push_integer radix invalid from l.position l'
                ≡ fail (invalid (without_underscores (c ∷ s))) l.position =
              ground (arith, text, wrong) in
            rw same (omega arith, inside)
        | inr (z, right) ↦
            let (v, b) = read_integer (c ∷ s) z right in
            let same : push_integer radix invalid from l.position l'
                ≡ push_token (integer z) l.position l' =
              ground (arith, text, right) in
            rw same (
              push_token-Steps (Reads-append p r) (spells z (first, more, v, b))
                (omega (arith, inside)) small)
      ]

pub lex_decimal-Steps :
    (l l1 : Lexer) (c : ℕ)
    → Reads l (c ∷ []) l1
    → is_digit c ≡ true
    → IsUnprefixed (rest l)
    → l.position < length l.source
    → length l.source < 2 ^ 32
    → Steps l (lex_decimal l.position l1)
unfolding lex_decimal
lex_decimal-Steps l l1 c p first bare inside small =
    let (text, all, r, _, ended) = advance_while_lem (or_underscore is_digit) l1 in
    push_integer-Steps 10 invalid_integer is_digit l l (advance_while (or_underscore is_digit) l1)
      [] c text l.position (Reads-refl l) (Reads-append p r) first all
      (λ z d. numeral (decimal d ended (subst IsUnprefixed (Reads-append p r).rest_is bare))) refl
      inside small

pub lex_prefixed-Steps :
    (radix : ℕ) (test : ℕ → Bool) (expected : LexMsg) (invalid : Str → LexMsg) (l l2 : Lexer)
    (x : ℕ)
    → Reads l (48 ∷ x ∷ []) l2
    → ((z : ℤ) (s r : Str)
        → IsDigits radix test z s
        → IsEnded (or_underscore test) r
        → IsNumeral z (48 ∷ x ∷ s) r)
    → l.position < length l.source
    → length l.source < 2 ^ 32
    → Steps l (lex_prefixed radix test expected invalid l.position l2)
unfolding lex_prefixed
lex_prefixed-Steps radix test expected invalid l l2 x p grow inside small =
    elim (list_split (rest l2)) [
      | inl none_left ↦
          let same : lex_prefixed radix test expected invalid l.position l2
              ≡ fail expected l.position =
            ground (arith, none_left) in
          rw same (omega arith, inside)
      | inr (c, s, some_left) ↦ elim (Bool-cases (test c)) [
        | inr other ↦
            let same : lex_prefixed radix test expected invalid l.position l2
                ≡ fail expected l.position =
              ground (arith, some_left, other) in
            rw same (omega arith, inside)
        | inl first ↦
            let (text, all, r, ended) = advance_while_first test l2 c s some_left first in
            let same : lex_prefixed radix test expected invalid l.position l2
                ≡ push_integer radix invalid (l.position + 2) l.position
                    (advance_while (or_underscore test) l2) =
              ground (arith, some_left, first) in
            rw same (
              push_integer-Steps radix invalid test l l2 (advance_while (or_underscore test) l2)
                (48 ∷ x ∷ []) c text (l.position + 2) p r first all
                (λ z d. numeral (grow z (c ∷ text) _ d ended)) (sym p.position_is) inside small)
      ]
    ]
