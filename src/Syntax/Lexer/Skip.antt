-- ===== src/Syntax/Lexer/Skip.antt =====
-- What the lexer's `skip_whitespace_and_comments` passes is a gap, as the grammar says.
use wirespec.Base.{ℕ, suc, ◌≤◌, ◌<◌, ◌==◌, ◌&&◌, Bool, true, false}
use wirespec.Base.{List, [], ◌∷◌, ◌≡◌, refl, sym, subst, arith, ◌⊎◌, inl, inr}
use wirespec.Base.{length, take, drop, Bool-cases, ==_iff, not, take-append-drop, length-take}
use wirespec.Base.Str.{Str}
use wirespec.Syntax.Lexer.{Lexer, rest, is_space, skip_len, skip_whitespace_and_comments}
use wirespec.Syntax.Lexer.{first_or_zero}
use wirespec.Syntax.Lexer.Grammar.{
  IsInk, IsBlank, done, unclosed, space, hash, slashes, inside, newline,
}
use wirespec.Syntax.Lexer.Reads.{Reads, Reads-moved}

skip_len-le : (b : Bool) (s : List ℕ) → skip_len b s ≤ length s
unfolding skip_len
skip_len-le true [] = omega arith
skip_len-le false [] = omega arith
skip_len-le true (c ∷ s) = omega (arith, skip_len-le (not (c == 10)) s)
skip_len-le false (c ∷ s) = ground (arith, skip_len-le (not (is_space c)) s)

-- The first `n` bytes are blank; they may only end in a comment where nothing follows them.
abbrev IsGap : Bool → Bool → ℕ → Str → Type 0
IsGap last b n s = (last ≡ true) ⊎ (0 < length (drop n s)) → IsBlank last b (take n s)

slashes-IsGap :
    (last : Bool) (s : List ℕ)
    → first_or_zero s ≡ 47
    → IsGap last true (skip_len true s) s
    → IsGap last false (suc (skip_len true s)) (47 ∷ s)
unfolding skip_len
slashes-IsGap last [] e g = absurd (omega (arith, e))
slashes-IsGap last (d ∷ t) e g =
    let g' = subst (λ (x : ℕ). IsGap last true (skip_len true (x ∷ t)) (x ∷ t)) e g in
    subst (λ (x : ℕ). IsGap last false (suc (skip_len true (x ∷ t))) (47 ∷ x ∷ t)) (sym e)
      (λ h. slashes (g' h))

skip_len-IsGap : (last b : Bool) (s : List ℕ) → IsGap last b (skip_len b s) s
unfolding skip_len
skip_len-IsGap last true [] = elim [ inl h ↦ unclosed h | inr h ↦ absurd (omega (arith, h)) ]
skip_len-IsGap last false [] = λ h. done
skip_len-IsGap last true (c ∷ s) = elim (Bool-cases (c == 10)) [
  | inl ends ↦
      subst (λ (d : ℕ). IsGap last true (skip_len true (d ∷ s)) (d ∷ s))
        (sym ((==_iff c 10).0 ends)) (λ h. newline (skip_len-IsGap last false s h))
  | inr stays ↦
      let same : skip_len true (c ∷ s) ≡ suc (skip_len true s) = rw stays refl in
      subst (λ (n : ℕ). IsGap last true n (c ∷ s)) (sym same)
        (λ h. inside stays (skip_len-IsGap last true s h))
]
skip_len-IsGap last false (c ∷ s) = elim (Bool-cases (is_space c)) [
  | inl blank ↦
      let same : skip_len false (c ∷ s) ≡ suc (skip_len false s) = rw blank refl in
      subst (λ (n : ℕ). IsGap last false n (c ∷ s)) (sym same)
        (λ h. space blank (skip_len-IsGap last false s h))
  | inr ink ↦ elim (Bool-cases (c == 35)) [
    | inl sharp ↦
        subst (λ (d : ℕ). IsGap last false (skip_len false (d ∷ s)) (d ∷ s))
          (sym ((==_iff c 35).0 sharp)) (λ h. hash (skip_len-IsGap last true s h))
    | inr plain ↦ elim (Bool-cases (c == 47 && first_or_zero s == 47)) [
      | inl both ↦
          let same : skip_len false (c ∷ s) ≡ suc (skip_len true s) =
            rw ink (rw plain (rw both refl)) in
          subst (λ (n : ℕ). IsGap last false n (c ∷ s)) (sym same)
            (subst (λ (d : ℕ). IsGap last false (suc (skip_len true s)) (d ∷ s))
              (ground (arith, both))
              (slashes-IsGap last s (ground (arith, both)) (skip_len-IsGap last true s)))
      | inr neither ↦
          let same : skip_len false (c ∷ s) ≡ 0 = rw ink (rw plain (rw neither refl)) in
          subst (λ (n : ℕ). IsGap last false n (c ∷ s)) (sym same) (λ h. done)
    ]
  ]
]

-- What stands behind the gap is none.
skip_len-IsInk : (b : Bool) (s : List ℕ) → IsInk (drop (skip_len b s) s)
unfolding skip_len
skip_len-IsInk true [] = tt
skip_len-IsInk false [] = tt
skip_len-IsInk true (c ∷ s) = skip_len-IsInk (not (c == 10)) s
skip_len-IsInk false (c ∷ s) = elim (Bool-cases (is_space c)) [
  | inl blank ↦ rw blank (skip_len-IsInk false s)
  | inr ink ↦ elim (Bool-cases (c == 35)) [
    | inl sharp ↦ rw (ink, sharp) (skip_len-IsInk true s)
    | inr plain ↦ elim (Bool-cases (c == 47 && first_or_zero s == 47)) [
      | inl both ↦ rw (ink, plain, both) (skip_len-IsInk true s)
      | inr neither ↦ rw (ink, plain, neither) (ink, plain, neither)
    ]
  ]
]

pub skip-lem :
    (l : Lexer)
    → (gap : Str) × Reads l gap (skip_whitespace_and_comments l)
      × ((last : Bool)
          → (last ≡ true) ⊎ (0 < length (rest (skip_whitespace_and_comments l)))
          → IsBlank last false gap)
      × IsInk (rest (skip_whitespace_and_comments l))
unfolding skip_whitespace_and_comments
skip-lem l =
    let n = skip_len false (rest l) in
    let gap = take n (rest l) in
    let reads =
      Reads-moved l gap (drop n (rest l)) n (sym (take-append-drop n (rest l)))
        (omega (arith, length-take n (rest l), skip_len-le false (rest l))) in
    (
      gap,
      reads.0,
      λ last h. skip_len-IsGap last false (rest l) (elim h [
        | inl e ↦ inl e
        | inr some_left ↦ inr (subst (λ (s : Str). 0 < length s) reads.1 some_left)
      ]),
      subst IsInk (sym reads.1) (skip_len-IsInk false (rest l)),
    )
