-- ===== src/Syntax/Lexer/Symbols.antt =====
-- The lexer's arms for symbols give the longest symbol that the text starts with.
use wirespec.Base.{ℕ, ◌^◌, ◌<◌, ltb, ◌==◌, true, false}
use wirespec.Base.{List, [], ◌∷◌, ◌++◌, ◌≡◌, refl, sym, subst, arith, none, some, ==_iff}
use wirespec.Base.{length, All, inl, inr, Bool-cases, Option-cases, ltb→lt}
use wirespec.Base.Str.{Str, str_eq, has}
use wirespec.Syntax.Token.{TokenKind, arm_of, punctuation, compounds}
use wirespec.Syntax.Token.{dot, dot_dot, dot_dot_eq, question_question, unexpected_question}
use wirespec.Syntax.Lexer.{Lexer, rest, moved, peek, push_token, fail, lex_compound}
use wirespec.Syntax.Lexer.{lex_dot, lex_question}
use wirespec.Syntax.Lexer.Grammar.{IsSymbol, symbol, symbols, IsLongest}
use wirespec.Syntax.Lexer.Reads.{
  list_split, Reads, Reads-append, Steps, advance_lem, push_token-Steps,
}

-- A byte other than 0 that is looked at is there.
pub peek_lem : (l : Lexer) (c : ℕ) → peek l ≡ c → ltb 0 c ≡ true → (s : List ℕ) × (rest l ≡ c ∷ s)
unfolding peek
peek_lem l c h positive = elim (list_split (rest l)) [
  | inl gone ↦ absurd (ground (arith, h, gone, ltb→lt 0 c positive))
  | inr (d, s, there) ↦ let same : d ≡ c = ground (arith, h, there) in (s, rw (sym same) there)
]

pub arm_of-All :
    {A : Type 0} (P : ℕ → A → Type 0) (arms : List (ℕ × A)) (c : ℕ) (a : A)
    → All (λ r. P r.0 r.1) arms
    → arm_of c arms ≡ some a
    → P c a
arm_of-All P [] c a all h = absurd cc
arm_of-All P ((d, b) ∷ arms) c a all h = elim (Bool-cases (c == d)) [
  | inl hit ↦
      let same : b ≡ a = ground (arith, h, hit) in rw ((==_iff c d).0 hit) (rw (sym same) all.0)
  | inr miss ↦ arm_of-All P arms c a all.1 (ground (arith, h, miss))
]

-- No symbol goes on from the text.
abbrev pub IsFinal : Str → Type 0
IsFinal t = (d : ℕ) → has symbols (t ++ (d ∷ [])) ≡ false

pub final-IsLongest : (t s : Str) → IsFinal t → IsLongest t s
final-IsLongest t [] f = tt
final-IsLongest t (d ∷ s) f = f d

peek-IsLongest :
    (t : Str) (l : Lexer)
    → ((d : ℕ) → peek l ≡ d → has symbols (t ++ (d ∷ [])) ≡ false)
    → IsLongest t (rest l)
unfolding peek
peek-IsLongest t l f = elim (list_split (rest l)) [
  | inl gone ↦ rw gone tt
  | inr (d, s, there) ↦ subst (IsLongest t) {x = d ∷ s} (sym there) (f d (ground (arith, there)))
]

-- The texts of an arm that looks at a second byte.
abbrev pub IsCompound : Str → List (ℕ × TokenKind) × TokenKind → Type 0
IsCompound front (arms, other) =
    All
      (λ r. (ltb 0 r.0 ≡ true) × IsSymbol r.1 (front ++ (r.0 ∷ [])) × IsFinal (front ++ (r.0 ∷ [])))
      arms
    × IsSymbol other front
    × ((d : ℕ) → arm_of d arms ≡ none → has symbols (front ++ (d ∷ [])) ≡ false)

pub punctuation_spelled : All (λ r. IsSymbol r.1 (r.0 ∷ []) × IsFinal (r.0 ∷ [])) punctuation
unfolding has str_eq
punctuation_spelled = (
  ((refl, refl), λ d. refl),
  (
    ((refl, refl), λ d. refl),
    (
      ((refl, refl), λ d. refl),
      (
        ((refl, refl), λ d. refl),
        (
          ((refl, refl), λ d. refl),
          (
            ((refl, refl), λ d. refl),
            (
              ((refl, refl), λ d. refl),
              (
                ((refl, refl), λ d. refl),
                (
                  ((refl, refl), λ d. refl),
                  (
                    ((refl, refl), λ d. refl),
                    (
                      ((refl, refl), λ d. refl),
                      (
                        ((refl, refl), λ d. refl),
                        (
                          ((refl, refl), λ d. refl),
                          (((refl, refl), λ d. refl), (((refl, refl), λ d. refl), tt)),
                        ),
                      ),
                    ),
                  ),
                ),
              ),
            ),
          ),
        ),
      ),
    ),
  ),
)

pub compounds_spelled : All (λ r. IsCompound (r.0 ∷ []) r.1) compounds
unfolding has str_eq
compounds_spelled = (
  (((refl, (refl, refl), λ d. refl), tt), (refl, refl), λ d h. ground (arith, h)),
  (
    (((refl, (refl, refl), λ d. refl), tt), (refl, refl), λ d h. ground (arith, h)),
    (
      (
        ((refl, (refl, refl), λ d. refl), ((refl, (refl, refl), λ d. refl), tt)),
        (refl, refl),
        λ d h. ground (arith, h),
      ),
      (
        (((refl, (refl, refl), λ d. refl), tt), (refl, refl), λ d h. ground (arith, h)),
        (
          (((refl, (refl, refl), λ d. refl), tt), (refl, refl), λ d h. ground (arith, h)),
          (
            (
              (
                (refl, (refl, refl), λ d. refl),
                ((refl, (refl, refl), λ d. refl), ((refl, (refl, refl), λ d. refl), tt)),
              ),
              (refl, refl),
              λ d h. ground (arith, h),
            ),
            (
              (
                ((refl, (refl, refl), λ d. refl), ((refl, (refl, refl), λ d. refl), tt)),
                (refl, refl),
                λ d h. ground (arith, h),
              ),
              ((((refl, (refl, refl), λ d. refl), tt), (refl, refl), λ d h. ground (arith, h)), tt),
            ),
          ),
        ),
      ),
    ),
  ),
)

module _ (l l1 : Lexer) (inside : l.position < length l.source)
    (small : length l.source < 2 ^ 32) where
  pub lex_compound-Steps :
      (f : ℕ) (fs : Str) (arms : List (ℕ × TokenKind)) (other : TokenKind)
      → Reads l (f ∷ fs) l1
      → IsCompound (f ∷ fs) (arms, other)
      → Steps l (lex_compound arms other l.position l1)
  unfolding lex_compound
  lex_compound-Steps f fs arms other p (both, alone, last) =
      elim (Option-cases (arm_of (peek l1) arms)) [
        | inl miss ↦
            let same : lex_compound arms other l.position l1 ≡ push_token other l.position l1 =
              ground (arith, miss) in
            rw same (
              push_token-Steps p
                (symbol alone (
                  peek-IsLongest (f ∷ fs) l1
                    (λ d e. last d (subst (λ (c : ℕ). arm_of c arms ≡ none) e miss))))
                (omega (arith, inside)) small)
        | inr (kind, hit) ↦
            let (positive, spelled, final) =
              arm_of-All
                (λ c k.
                  (ltb 0 c ≡ true)
                  × IsSymbol k ((f ∷ fs) ++ (c ∷ []))
                  × IsFinal ((f ∷ fs) ++ (c ∷ [])))
                arms (peek l1) kind both hit in
            let (s, there) = peek_lem l1 (peek l1) refl positive in
            let (moves, r, _) = advance_lem l1 (peek l1) s there in
            let same : lex_compound arms other l.position l1
                ≡ push_token kind l.position (moved 1 l1) =
              ground (arith, hit, moves) in
            rw same (
              push_token-Steps (Reads-append p r)
                (symbol spelled (final-IsLongest ((f ∷ fs) ++ (peek l1 ∷ [])) _ final))
                (omega (arith, inside)) small)
      ]

module _ (l l1 : Lexer) (inside : l.position < length l.source)
    (small : length l.source < 2 ^ 32) where
  pub lex_dot-Steps : Reads l (46 ∷ []) l1 → Steps l (lex_dot l.position l1)
  unfolding lex_dot has str_eq
  lex_dot-Steps p = elim (Bool-cases (peek l1 == 46)) [
    | inr one ↦
        let same : lex_dot l.position l1 ≡ push_token dot l.position l1 = ground (arith, one) in
        rw same (
          push_token-Steps p
            (symbol (refl, refl) (peek-IsLongest (46 ∷ []) l1 (λ d e. ground (arith, e, one))))
            (omega (arith, inside)) small)
    | inl two ↦
        let (s, there) = peek_lem l1 46 ((==_iff (peek l1) 46).0 two) refl in
        let (moves, r, _) = advance_lem l1 46 s there in
        let same : lex_dot l.position l1
            ≡ lex_compound ((61, dot_dot_eq) ∷ []) dot_dot l.position (moved 1 l1) =
          ground (arith, two, moves) in
        rw same (
          lex_compound-Steps l (moved 1 l1) inside small 46 (46 ∷ []) ((61, dot_dot_eq) ∷ [])
            dot_dot (Reads-append p r)
            (((refl, (refl, refl), λ d. refl), tt), (refl, refl), λ d h. ground (arith, h)))
  ]

  pub lex_question-Steps : Reads l (63 ∷ []) l1 → Steps l (lex_question l.position l1)
  unfolding lex_question has str_eq
  lex_question-Steps p = elim (Bool-cases (peek l1 == 63)) [
    | inr one ↦
        let same : lex_question l.position l1 ≡ fail unexpected_question l.position =
          ground (arith, one) in
        rw same (omega arith, inside)
    | inl two ↦
        let (s, there) = peek_lem l1 63 ((==_iff (peek l1) 63).0 two) refl in
        let (moves, r, _) = advance_lem l1 63 s there in
        let same : lex_question l.position l1
            ≡ push_token question_question l.position (moved 1 l1) =
          ground (arith, two, moves) in
        rw same (
          push_token-Steps (Reads-append p r)
            (symbol (refl, refl) (final-IsLongest (63 ∷ 63 ∷ []) _ (λ d. refl)))
            (omega (arith, inside)) small)
  ]
