-- ===== src/Syntax/Lexer/Next.antt =====
-- Each call of the lexer's `next_token` reads one token that is written as the grammar says.
use wirespec.Base.{ℕ, ◌^◌, ◌<◌, ◌==◌, ◌&&◌, ◌||◌, false}
use wirespec.Base.{List, [], ◌∷◌, ◌≡◌, refl, ap, subst, arith, Option, none, some, ==_iff}
use wirespec.Base.{length, inl, inr, Bool-cases, ◌⊎◌}
use wirespec.Base.Outcome.{ok}
use wirespec.Syntax.Token.{TokenKind, arm_of, punctuation, compounds}
use wirespec.Syntax.Token.{unexpected_character}
use wirespec.Syntax.Lexer.{Lexer, rest, moved, peek, advance, fail}
use wirespec.Syntax.Lexer.{
  lex_dot, lex_question, lex_word, lex_other, lex_arm, lex_symbol, next_token, lex_string, lex_hex,
}
use wirespec.Syntax.Lexer.{
  lex_binary, lex_decimal, lex_name, is_digit, is_alphabetic, or_underscore,
}
use wirespec.Base.{sym, ◌∙◌}
use wirespec.Base.Str.{Str}
use wirespec.Syntax.Lexer.Grammar.{IsUnprefixed, IsSymbol, symbol, hex, binary}
use wirespec.Syntax.Lexer.Literals.{lex_decimal-Steps, lex_prefixed-Steps}
use wirespec.Syntax.Lexer.Names.{lex_name-Steps}
use wirespec.Syntax.Lexer.Strings.{lex_string-Steps}
use wirespec.Syntax.Lexer.Reads.{
  list_split, rest-length, Reads, Reads-append, Steps, advance_lem, push_token-Steps,
}
use wirespec.Syntax.Lexer.Symbols.{
  peek_lem, arm_of-All, IsFinal, final-IsLongest, IsCompound, punctuation_spelled,
  compounds_spelled, lex_compound-Steps, lex_dot-Steps, lex_question-Steps,
}

module _ (l l1 : Lexer) (inside : l.position < length l.source)
    (small : length l.source < 2 ^ 32) where
  -- `0x` and `0b`, in either case of the letter.
  lex_hex-Steps :
      (x : ℕ)
      → Reads l (48 ∷ []) l1
      → peek l1 ≡ x
      → (x ≡ 120) ⊎ (x ≡ 88)
      → (advance l1 ≡ ok (x, moved 1 l1)) × Steps l (lex_hex l.position (moved 1 l1))
  unfolding lex_hex
  lex_hex-Steps x p h letter =
      let (s, there) = peek_lem l1 x h (elim letter [ inl e ↦ rw e refl | inr e ↦ rw e refl ]) in
      let (moves, r, _) = advance_lem l1 x s there in
      (
        moves,
        lex_prefixed-Steps 16 _ _ _ l (moved 1 l1) x (Reads-append p r)
            (λ z t r d ended. hex letter d ended) inside small,
      )

  lex_binary-Steps :
      (x : ℕ)
      → Reads l (48 ∷ []) l1
      → peek l1 ≡ x
      → (x ≡ 98) ⊎ (x ≡ 66)
      → (advance l1 ≡ ok (x, moved 1 l1)) × Steps l (lex_binary l.position (moved 1 l1))
  unfolding lex_binary
  lex_binary-Steps x p h letter =
      let (s, there) = peek_lem l1 x h (elim letter [ inl e ↦ rw e refl | inr e ↦ rw e refl ]) in
      let (moves, r, _) = advance_lem l1 x s there in
      (
        moves,
        lex_prefixed-Steps 2 _ _ _ l (moved 1 l1) x (Reads-append p r)
            (λ z t r d ended. binary letter d ended) inside small,
      )

  peek-IsUnprefixed :
      (ch : ℕ)
      → Reads l (ch ∷ []) l1
      → (ch == 48 && ((peek l1 == 120) || (peek l1 == 88))) ≡ false
      → (ch == 48 && ((peek l1 == 98) || (peek l1 == 66))) ≡ false
      → IsUnprefixed (rest l)
  unfolding peek
  peek-IsUnprefixed ch p h b = elim (list_split (rest l1)) [
    | inl gone ↦
        subst IsUnprefixed {x = ch ∷ []} (sym (p.rest_is ∙ ap (λ (s : Str). ch ∷ s) gone)) tt
    | inr (x, s, there) ↦
        let same : peek l1 ≡ x = ground (arith, there) in
        subst IsUnprefixed {x = ch ∷ x ∷ s} (sym (p.rest_is ∙ ap (λ (t : Str). ch ∷ t) there))
          (rw (sym same) h, rw (sym same) b)
  ]

  lex_plain-Steps :
      (ch : ℕ)
      → Reads l (ch ∷ []) l1
      → (ch == 34) ≡ false
      → (ch == 48 && ((peek l1 == 120) || (peek l1 == 88))) ≡ false
      → (ch == 48 && ((peek l1 == 98) || (peek l1 == 66))) ≡ false
      → Steps l (lex_word ch l.position l1)
  unfolding lex_word
  lex_plain-Steps ch p q h b = elim (Bool-cases (is_digit ch)) [
    | inl digit ↦
        let same : lex_word ch l.position l1 ≡ lex_decimal l.position l1 =
          rw q (rw h (rw b (rw digit refl))) in
        rw same (lex_decimal-Steps l l1 ch p digit (peek-IsUnprefixed ch p h b) inside small)
    | inr n ↦ elim (Bool-cases (or_underscore is_alphabetic ch)) [
      | inl letter ↦
          let same : lex_word ch l.position l1 ≡ lex_name l.position l1 =
            rw q (rw h (rw b (rw n (rw letter refl)))) in
          rw same (lex_name-Steps l l1 ch p letter inside small)
      | inr other ↦
          let same : lex_word ch l.position l1 ≡ fail (unexpected_character ch) l.position =
            rw q (rw h (rw b (rw n (rw other refl)))) in
          rw same (omega arith, inside)
    ]
  ]

  lex_word-Steps : (ch : ℕ) → Reads l (ch ∷ []) l1 → Steps l (lex_word ch l.position l1)
  unfolding lex_word
  lex_word-Steps ch p = elim (Bool-cases (ch == 34)) [
    | inl quote ↦
        let reads = subst (λ (c : ℕ). Reads l (c ∷ []) l1) ((==_iff ch 34).0 quote) p in
        let same : lex_word ch l.position l1 ≡ lex_string l.position l1 = ground (arith, quote) in
        rw same (lex_string-Steps l l1 reads inside small)
    | inr q ↦ elim (Bool-cases (ch == 48 && ((peek l1 == 120) || (peek l1 == 88)))) [
      | inl hexed ↦
          let reads = subst (λ (c : ℕ). Reads l (c ∷ []) l1) (ground (arith, hexed)) p in
          let (moves, steps) = lex_hex-Steps (peek l1) reads refl (ground (arith, hexed)) in
          let same : lex_word ch l.position l1 ≡ lex_hex l.position (moved 1 l1) =
            ground (arith, q, hexed, moves) in
          rw same steps
      | inr h ↦ elim (Bool-cases (ch == 48 && ((peek l1 == 98) || (peek l1 == 66)))) [
        | inl binaried ↦
            let reads = subst (λ (c : ℕ). Reads l (c ∷ []) l1) (ground (arith, binaried)) p in
            let (moves, steps) = lex_binary-Steps (peek l1) reads refl (ground (arith, binaried)) in
            let same : lex_word ch l.position l1 ≡ lex_binary l.position (moved 1 l1) =
              ground (arith, q, h, binaried, moves) in
            rw same steps
        | inr b ↦ lex_plain-Steps ch p q h b
      ]
    ]
  ]

  lex_other-Steps : (ch : ℕ) → Reads l (ch ∷ []) l1 → Steps l (lex_other ch l.position l1)
  unfolding lex_other
  lex_other-Steps ch p = elim (Bool-cases (ch == 46)) [
    | inl dotted ↦
        let reads = subst (λ (c : ℕ). Reads l (c ∷ []) l1) ((==_iff ch 46).0 dotted) p in
        let same : lex_other ch l.position l1 ≡ lex_dot l.position l1 = ground (arith, dotted) in
        rw same (lex_dot-Steps l l1 inside small reads)
    | inr d ↦ elim (Bool-cases (ch == 63)) [
      | inl asked ↦
          let reads = subst (λ (c : ℕ). Reads l (c ∷ []) l1) ((==_iff ch 63).0 asked) p in
          let same : lex_other ch l.position l1 ≡ lex_question l.position l1 =
            ground (arith, d, asked) in
          rw same (lex_question-Steps l l1 inside small reads)
      | inr q ↦
          let same : lex_other ch l.position l1 ≡ lex_word ch l.position l1 =
            ground (arith, d, q) in
          rw same (lex_word-Steps ch p)
    ]
  ]

  lex_arm-Steps :
      (ch : ℕ) (alone : Option TokenKind) (double : Option (List (ℕ × TokenKind) × TokenKind))
      → Reads l (ch ∷ []) l1
      → ((kind : TokenKind) → alone ≡ some kind → IsSymbol kind (ch ∷ []) × IsFinal (ch ∷ []))
      → ((r : List (ℕ × TokenKind) × TokenKind) → double ≡ some r → IsCompound (ch ∷ []) r)
      → Steps l (lex_arm alone double ch l.position l1)
  lex_arm-Steps ch (some kind) double p one two =
      let (spelled, final) = one kind refl in
      push_token-Steps p (symbol spelled (final-IsLongest (ch ∷ []) _ final))
        (omega (arith, inside)) small
  lex_arm-Steps ch none (some (arms, other)) p one two =
      lex_compound-Steps l l1 inside small ch [] arms other p (two (arms, other) refl)
  lex_arm-Steps ch none none p one two = lex_other-Steps ch p

  lex_symbol-Steps : (ch : ℕ) → Reads l (ch ∷ []) l1 → Steps l (lex_symbol ch l.position l1)
  unfolding lex_symbol
  lex_symbol-Steps ch p =
      lex_arm-Steps ch (arm_of ch punctuation) (arm_of ch compounds) p
        (λ kind hit.
          arm_of-All (λ c k. IsSymbol k (c ∷ []) × IsFinal (c ∷ [])) punctuation ch kind
            punctuation_spelled hit)
        (λ r hit. arm_of-All (λ c a. IsCompound (c ∷ []) a) compounds ch r compounds_spelled hit)

pub next_token-Steps :
    (l : Lexer) → l.position < length l.source → length l.source < 2 ^ 32 → Steps l (next_token l)
unfolding next_token
next_token-Steps l inside small = elim (list_split (rest l)) [
  | inl gone ↦ absurd (omega (arith, inside, rest-length l (omega (arith, inside)), ap length gone))
  | inr (c, s, there) ↦
      let (moves, r, _) = advance_lem l c s there in
      let same : next_token l ≡ lex_symbol c l.position (moved 1 l) = ground (arith, moves) in
      rw same (lex_symbol-Steps l (moved 1 l) inside small c r)
]
