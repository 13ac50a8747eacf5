-- ===== src/Sema/Suggest/Nearest.antt =====
-- `suggest_similar` of crates/wirespec-sema/src/error.rs gives a candidate that is nearest to the name.
use wirespec.Base.{
  ℕ, ◌≤◌, ◌<◌, ltb, leb, ◌&&◌, if◌then◌else◌, List, [], ◌∷◌, Option, none, some, All, In,
}
use wirespec.Base.{◌≡◌, refl, ap, ◌∙◌, arith, ◌⊎◌, inl, inr, Bool-cases, subst}
use wirespec.Base.Str.{Str}
use wirespec.Sema.Suggest.{levenshtein, nearer, nearest, suggest_similar, name_of}
use wirespec.Sema.Suggest.Distance.{IsAscii, levenshtein-Edits}

-- A distance is not below that of the candidate that is kept.
abbrev Beats : Option (Str × ℕ) → ℕ → Type 0
Beats none m = ⊥
Beats (some (c, n)) m = n ≤ m

abbrev IsAtMost : Option (Str × ℕ) → Option (Str × ℕ) → Type 0
IsAtMost r none = Unit
IsAtMost r (some (b, e)) = Beats r e

-- A candidate is the name itself, too far from it, or not nearer than what is kept.
abbrev pub IsBounded : Str → ℕ → Option (Str × ℕ) → Str → Type 0
IsBounded name max_distance r c =
    (m : ℕ) × (levenshtein name c ≡ some m) × ((m ≡ 0) ⊎ ((max_distance < m) ⊎ Beats r m))

-- A candidate that qualifies.
abbrev pub IsNear : Str → ℕ → List Str → Str → ℕ → Type 0
IsNear name max_distance candidates c n =
    In c candidates × (levenshtein name c ≡ some n) × (0 < n) × (n ≤ max_distance)

Beats-IsAtMost : (r best : Option (Str × ℕ)) (m : ℕ) → IsAtMost r best → Beats best m → Beats r m
Beats-IsAtMost r none m h k = absurd k
Beats-IsAtMost none (some (b, e)) m h k = absurd h
Beats-IsAtMost (some (c, n)) (some (b, e)) m h k = omega (arith, h, k)

IsAtMost-trans : (r s t : Option (Str × ℕ)) → IsAtMost r s → IsAtMost s t → IsAtMost r t
IsAtMost-trans r s none h k = tt
IsAtMost-trans r s (some (b, e)) h k = Beats-IsAtMost r s e h k

IsAtMost-refl : (r : Option (Str × ℕ)) → IsAtMost r r
IsAtMost-refl none = tt
IsAtMost-refl (some (b, e)) = omega arith

nearer_lem :
    (best : Option (Str × ℕ)) (c : Str) (d : ℕ)
    → Beats (nearer best c d) d
      × IsAtMost (nearer best c d) best
      × ((nearer best c d ≡ best) ⊎ (nearer best c d ≡ some (c, d)))
nearer_lem none c d = (omega arith, tt, inr refl)
nearer_lem (some (b, e)) c d = elim (Bool-cases (ltb d e)) [
  | inl closer ↦ rw closer (omega arith, ground (arith, closer), inr refl)
  | inr other ↦ rw other (ground (arith, other), omega arith, inl refl)
]

-- What the loop keeps: what it started with, or a candidate.
abbrev IsKept : Str → ℕ → List Str → Option (Str × ℕ) → Option (Str × ℕ) → Type 0
IsKept name max_distance candidates best r =
    (r ≡ best) ⊎ ((c : Str) × (n : ℕ) × (r ≡ some (c, n)) × IsNear name max_distance candidates c n)

module _ (name : Str) (max_distance : ℕ) (ascii : IsAscii name) where
  IsKept-more :
      (x : Str) (xs : List Str) (b b' r : Option (Str × ℕ))
      → ((b' ≡ b) ⊎ ((n : ℕ) × (b' ≡ some (x, n)) × IsNear name max_distance (x ∷ xs) x n))
      → IsKept name max_distance xs b' r
      → IsKept name max_distance (x ∷ xs) b r
  IsKept-more x xs b b' r (inl e) (inl f) = inl (rw f e)
  IsKept-more x xs b b' r (inr (n, e, near)) (inl f) = inr (x, n, rw f e, near)
  IsKept-more x xs b b' r h (inr (c, n, e, near)) =
      inr (c, n, e, (inr near.0, near.1, near.2, near.3))

  nearest_lem :
      (candidates : List Str) (best : Option (Str × ℕ))
      → All IsAscii candidates
      → (r : Option (Str × ℕ)) × (nearest name max_distance candidates best ≡ some r)
        × IsAtMost r best
        × IsKept name max_distance candidates best r
        × All (IsBounded name max_distance r) candidates
  unfolding nearest
  nearest_lem [] best h = (best, refl, IsAtMost-refl best, inl refl, tt)
  nearest_lem (x ∷ xs) best h =
      let (d, measured, _, _) = levenshtein-Edits name x ascii h.0 in
      let next = λ (k : ℕ). if leb k max_distance && ltb 0 k then nearer best x k else best in
      let step : nearest name max_distance (x ∷ xs) best ≡ nearest name max_distance xs (next d) =
        ap
          (λ (o : Option ℕ). elim o [
            | none ↦ none
            | some k ↦ nearest name max_distance xs (next k)
          ])
          measured in
      elim (Bool-cases (leb d max_distance && ltb 0 d)) [
        | inl near ↦
            let (beats, below, from) = nearer_lem best x d in
            let (r, e, at_most, kept, bounded) = nearest_lem xs (nearer best x d) h.1 in
            (
              r,
              step ∙ rw near e,
              IsAtMost-trans r (nearer best x d) best at_most below,
              IsKept-more x xs best (nearer best x d) r
                  (elim from [
                    | inl same ↦ inl same
                    | inr taken ↦
                        inr (
                          d,
                          taken,
                          (inl refl, measured, ground (arith, near), ground (arith, near)),
                        )
                  ])
                  kept,
              (
                (d, measured, inr (inr (Beats-IsAtMost r (nearer best x d) d at_most beats))),
                bounded,
              ),
            )
        | inr far ↦
            let (r, e, at_most, kept, bounded) = nearest_lem xs best h.1 in
            (
              r,
              step ∙ rw far e,
              at_most,
              IsKept-more x xs best best r (inl refl) kept,
              ((d, measured, ground (arith, far)), bounded),
            )
      ]

-- What `suggest_similar` promises of its result.
abbrev pub IsSuggestion : Str → List Str → ℕ → Option Str → Type 0
IsSuggestion name candidates max_distance none = All (IsBounded name max_distance none) candidates
IsSuggestion name candidates max_distance (some c) =
    (n : ℕ) × IsNear name max_distance candidates c n
    × All (IsBounded name max_distance (some (c, n))) candidates

suggestion :
    (name : Str) (candidates : List Str) (max_distance : ℕ) (r : Option (Str × ℕ))
    → nearest name max_distance candidates none ≡ some r
    → IsKept name max_distance candidates none r
    → All (IsBounded name max_distance r) candidates
    → (s : Option Str) × (suggest_similar name candidates max_distance ≡ some s)
      × IsSuggestion name candidates max_distance s
unfolding suggest_similar
suggestion name candidates max_distance none e kept bounded = (none, ap name_of e, bounded)
suggestion name candidates max_distance (some (c, n)) e (inl same) bounded = absurd cc
suggestion name candidates max_distance (some (c, n)) e (inr (b, m, same, near)) bounded =
    let name_same : b ≡ c = ground (arith, same) in
    let count_same : m ≡ n = ground (arith, same) in
    (
      some c,
      ap name_of e,
      (
        n,
        subst (λ (x : Str). IsNear name max_distance candidates x n) name_same
            (subst (λ (k : ℕ). IsNear name max_distance candidates b k) count_same near),
        bounded,
      ),
    )

-- On ASCII texts `suggest_similar` never panics. If it suggests a name, that is a candidate other than
-- the name itself, within the greatest distance, and no other such candidate has fewer edits; if it
-- suggests none, each candidate is the name itself or too far from it.
pub suggest_similar-IsSuggestion :
    (name : Str) (candidates : List Str) (max_distance : ℕ)
    → IsAscii name
    → All IsAscii candidates
    → (r : Option Str) × (suggest_similar name candidates max_distance ≡ some r)
      × IsSuggestion name candidates max_distance r
unfolding suggest_similar
suggest_similar-IsSuggestion name candidates max_distance ascii all =
    let (r, e, _, kept, bounded) = nearest_lem name max_distance ascii candidates none all in
    suggestion name candidates max_distance r e kept bounded
