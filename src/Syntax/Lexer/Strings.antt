-- ===== src/Syntax/Lexer/Strings.antt =====
-- The lexer's string literals are written as the grammar says.
use mathlib.Core.List.{append-nil, append_assoc}
use wirespec.Base.{ℕ, ◌+◌, ◌^◌, ◌≤◌, ◌<◌, ◌==◌}
use wirespec.Base.{List, [], ◌∷◌, ◌++◌, ◌≡◌, refl, sym, ap, subst, ◌∙◌, arith}
use wirespec.Base.{length, length-append, ==_iff, inl, inr, Bool-cases, Option-cases}
use wirespec.Base.Str.{Str}
use wirespec.Base.Outcome.{Meets, Meets-bind, Meets-map}
use wirespec.Syntax.Token.{LexError, arm_of}
use wirespec.Syntax.Lexer.{Lexer, rest, moved}
use wirespec.Syntax.Lexer.{lex_chars, lex_string, escapes}
use wirespec.Syntax.Lexer.Grammar.{value, IsEscaped, close, escape, plain, quoted}
use wirespec.Syntax.Lexer.Reads.{
  Reads, Reads-le, IsStep, Reads-moved, rest-length, IsLocated, Steps, push_token-Steps,
  Reads-append,
}

-- The loop of a string literal.
IsQuoted : ℕ → Str → List ℕ → Str × ℕ → Type 0
IsQuoted at value s r =
    (v : Str) × (body : Str) × (after : Str) × (r.0 ≡ value ++ v)
    × (s ≡ body ++ after)
    × (r.1 ≡ at + length body)
    × IsEscaped v body

abbrev IsWithin : ℕ → ℕ → LexError → Type 0
IsWithin start total e = (start ≤ e.offset) × (e.offset < total)

-- Another byte or escape in front of what the rest of the loop reads.
IsQuoted-more :
    (at n : ℕ) (value : Str) (b : ℕ) (front s : Str)
    → n ≡ at + length front
    → ((v body : Str) → IsEscaped v body → IsEscaped (b ∷ v) (front ++ body))
    → (r : Str × ℕ) → IsQuoted n (value ++ (b ∷ [])) s r
    → IsQuoted at value (front ++ s) r
unfolding IsQuoted
IsQuoted-more at n value b front s e grow r (v, body, after, h0, h1, h2, written) = (
  b ∷ v,
  front ++ body,
  after,
  h0 ∙ append_assoc value (b ∷ []) v,
  ap (λ t. front ++ t) h1 ∙ sym (append_assoc front body after),
  omega (arith, h2, e, length-append front body),
  grow v body written,
)

lex_chars_lem :
    (start total at : ℕ) (value : Str) (s : List ℕ)
    → start < at
    → at + length s ≡ total
    → Meets (IsQuoted at value s) (IsWithin start total) (lex_chars start at value s)
unfolding lex_chars IsQuoted
lex_chars_lem start total at value [] before e = (omega arith, omega (arith, before, e))
lex_chars_lem start total at value (ch ∷ []) before e = elim (Bool-cases (ch == 34)) [
  | inl quote ↦
      rw quote
        ([], ch ∷ [], [], sym (append-nil value), refl, refl, rw ((==_iff ch 34).0 quote) close)
  | inr other ↦ elim (Bool-cases (ch == 92)) [
    | inl back ↦ rw other (rw back (omega arith, omega (arith, before, e)))
    | inr ordinary ↦ rw other (rw ordinary (omega arith, omega (arith, before, e)))
  ]
]
lex_chars_lem start total at value (ch ∷ esc ∷ s) before e = elim (Bool-cases (ch == 34)) [
  | inl quote ↦
      rw quote (
        [],
        ch ∷ [],
        esc ∷ s,
        sym (append-nil value),
        refl,
        refl,
        rw ((==_iff ch 34).0 quote) close,
      )
  | inr other ↦ elim (Bool-cases (ch == 92)) [
    | inl back ↦ elim (Option-cases (arm_of esc escapes)) [
      | inl unknown ↦ rw other (rw back (rw unknown (omega (arith, before), omega (arith, e))))
      | inr (b, known) ↦ rw other (
          rw back (
            rw known (
              Meets-map
                (IsQuoted-more at (at + 2) value b (ch ∷ esc ∷ []) s refl
                  (λ v body w. rw ((==_iff ch 92).0 back) (escape known w)))
                (λ e h. h) (lex_chars start (at + 2) (value ++ (b ∷ [])) s)
                (lex_chars_lem start total (at + 2) (value ++ (b ∷ [])) s (omega (arith, before))
                  (omega (arith, e))))))
    ]
    | inr ordinary ↦ rw other (
        rw ordinary (
          Meets-map
            (IsQuoted-more at (at + 1) value ch (ch ∷ []) (esc ∷ s) refl
              (λ v body w. plain other ordinary w))
            (λ e h. h) (lex_chars start (at + 1) (value ++ (ch ∷ [])) (esc ∷ s))
            (lex_chars_lem start total (at + 1) (value ++ (ch ∷ [])) (esc ∷ s)
              (omega (arith, before)) (omega (arith, e)))))
  ]
]

pub lex_string-Steps :
    (l l1 : Lexer)
    → Reads l (34 ∷ []) l1
    → l.position < length l.source
    → length l.source < 2 ^ 32
    → Steps l (lex_string l.position l1)
unfolding lex_string IsQuoted moved
lex_string-Steps l l1 p inside small =
    let bound : l1.position ≤ length l1.source =
      rw p.source_same (Reads-le p (omega (arith, inside))) in
    Meets-bind (IsQuoted l1.position [] (rest l1)) (IsStep l) (IsLocated l) _
      (lex_chars l.position l1.position [] (rest l1))
      (lex_chars_lem l.position (length l.source) l1.position [] (rest l1)
        (omega (arith, p.position_is))
        (omega (arith, rest-length l1 bound, ap length p.source_same)))
      (λ (r : Str × ℕ) (q : IsQuoted l1.position [] (rest l1) r).
        let (v, body, after, same, split, stop, w) = q in
        let moves = (Reads-moved l1 body after (length body) split refl).0 in
        let reads =
          subst (λ (n : ℕ). Reads l1 body (record l1 { position = n })) (sym stop) moves in
        push_token-Steps (Reads-append p reads) (rw same (quoted w)) (omega (arith, inside)) small)
