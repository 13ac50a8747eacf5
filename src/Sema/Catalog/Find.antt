-- ===== src/Sema/Catalog/Find.antt =====
-- What `iter().find(…)` gives: an element that passes, or none where none does.
use wirespec.Base.{◌≡◌, inl, inr, sym, arith, List, [], ◌∷◌, none, some, Bool, true, false}
use wirespec.Base.{All, In, Bool-cases}
use wirespec.Sema.Catalog.{find}

module _ {A : Type 0} (p : A → Bool) where
  pub find-some : (x : A) (xs : List A) → find p xs ≡ some x → In x xs × (p x ≡ true)
  unfolding find
  find-some x [] h = absurd cc
  find-some x (y ∷ ys) h = elim (Bool-cases (p y)) [
    | inl here ↦ let same : y ≡ x = ground (arith, h, here) in (inl (sym same), rw (← same) here)
    | inr other ↦ let (m, e) = find-some x ys (ground (arith, h, other)) in (inr m, e)
  ]

  pub find-none : (xs : List A) → find p xs ≡ none → All (λ x. p x ≡ false) xs
  unfolding find
  find-none [] h = tt
  find-none (y ∷ ys) h = elim (Bool-cases (p y)) [
    | inl here ↦ absurd (ground (arith, h, here))
    | inr other ↦ (other, find-none ys (ground (arith, h, other)))
  ]
