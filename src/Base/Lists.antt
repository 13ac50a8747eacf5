-- ===== src/Base/Lists.antt =====
-- Lists measured and indexed by native numbers, under the library's names.
use Prim.Native.Nat.{ℕ, zero, suc, ◌+◌, ◌-◌, ◌≤◌, ◌<◌, min}
use mathlib.Core.Path.{◌≡◌, refl, ap, subst}
use mathlib.Core.Logic.{◌⊎◌}
use mathlib.Core.List.{List, [], ◌∷◌, ◌++◌, map}
use mathlib.Core.Option.{Option, none, some}
use native.Mathlib.Omega.{arith}
use Prim.Native.Nat.add

module _ {ℓ} {A : Type ℓ} where
  abbrev pub length : List A → ℕ
  length [] = 0
  length (x ∷ xs) = suc (length xs)

  abbrev pub get_elem? : List A → ℕ → Option A
  get_elem? [] i = none
  get_elem? (x ∷ xs) zero = some x
  get_elem? (x ∷ xs) (suc i) = get_elem? xs i

  abbrev pub set : List A → ℕ → A → List A
  set [] i v = []
  set (x ∷ xs) zero v = v ∷ xs
  set (x ∷ xs) (suc i) v = x ∷ set xs i v

  abbrev pub take : ℕ → List A → List A
  take zero xs = []
  take (suc n) [] = []
  take (suc n) (x ∷ xs) = x ∷ take n xs

  abbrev pub drop : ℕ → List A → List A
  drop zero xs = xs
  drop (suc n) [] = []
  drop (suc n) (x ∷ xs) = drop n xs

  abbrev pub replicate : ℕ → A → List A
  replicate zero a = []
  replicate (suc n) a = a ∷ replicate n a

  -- A predicate on every element, and one between the elements of two lists.
  abbrev pub All {κ} : (A → Type κ) → List A → Type κ
  All P [] = Unit
  All P (x ∷ xs) = P x × All P xs

  pub length-append : (xs ys : List A) → length (xs ++ ys) ≡ length xs + length ys
  length-append [] ys = omega arith
  length-append (x ∷ xs) ys = omega (arith, length-append xs ys)

module _ {ℓ} {A : Type ℓ} where
  pub length-set : (xs : List A) (i : ℕ) (v : A) → length (set xs i v) ≡ length xs
  length-set [] i v = refl
  length-set (x ∷ xs) zero v = refl
  length-set (x ∷ xs) (suc i) v = ap suc (length-set xs i v)

  pub take-append-drop : (n : ℕ) (xs : List A) → take n xs ++ drop n xs ≡ xs
  take-append-drop zero xs = refl
  take-append-drop (suc n) [] = refl
  take-append-drop (suc n) (x ∷ xs) = rw (take-append-drop n xs)

  pub length-take : (n : ℕ) (xs : List A) → length (take n xs) ≡ min n (length xs)
  length-take zero xs = omega arith
  length-take (suc n) [] = omega arith
  length-take (suc n) (x ∷ xs) = omega (arith, length-take n xs)

  pub length-drop : (n : ℕ) (xs : List A) → length (drop n xs) ≡ length xs - n
  length-drop zero xs = omega arith
  length-drop (suc n) [] = omega arith
  length-drop (suc n) (x ∷ xs) = omega (arith, length-drop n xs)

  pub length-replicate : (n : ℕ) (a : A) → length (replicate n a) ≡ n
  length-replicate zero a = refl
  length-replicate (suc n) a = ap suc (length-replicate n a)

  pub length-map {κ} : {B : Type κ} (xs : List A) (f : A → B) → length (map f xs) ≡ length xs
  length-map [] f = refl
  length-map (x ∷ xs) f = ap suc (length-map xs f)

  pub drop-append_length : (xs ys : List A) (n : ℕ) → n ≡ length xs → drop n (xs ++ ys) ≡ ys
  drop-append_length [] ys zero e = refl
  drop-append_length [] ys (suc n) e = absurd (omega arith)
  drop-append_length (x ∷ xs) ys zero e = absurd (omega arith)
  drop-append_length (x ∷ xs) ys (suc n) e = drop-append_length xs ys n (omega arith)

  pub take-append_length : (xs ys : List A) (n : ℕ) → n ≡ length xs → take n (xs ++ ys) ≡ xs
  take-append_length [] ys zero e = refl
  take-append_length [] ys (suc n) e = absurd (omega arith)
  take-append_length (x ∷ xs) ys zero e = absurd (omega arith)
  take-append_length (x ∷ xs) ys (suc n) e = rw (take-append_length xs ys n (omega arith))

  pub take_self : (xs : List A) (n : ℕ) → length xs ≤ n → take n xs ≡ xs
  take_self [] zero h = refl
  take_self [] (suc n) h = refl
  take_self (x ∷ xs) zero h = absurd (omega arith)
  take_self (x ∷ xs) (suc n) h = ap (◌∷◌ x) (take_self xs n (omega arith))

  -- Reading and writing at the index that a prefix leaves.
  pub get_elem?-append_length :
      (xs ys : List A) (y : A) (i : ℕ) → i ≡ length xs → get_elem? (xs ++ (y ∷ ys)) i ≡ some y
  get_elem?-append_length [] ys y zero e = refl
  get_elem?-append_length [] ys y (suc i) e = absurd (omega arith)
  get_elem?-append_length (x ∷ xs) ys y zero e = absurd (omega arith)
  get_elem?-append_length (x ∷ xs) ys y (suc i) e = get_elem?-append_length xs ys y i (omega arith)

  pub set-append_length :
      (xs ys : List A) (y v : A) (i : ℕ) → i ≡ length xs → set (xs ++ (y ∷ ys)) i v ≡ xs ++ (v ∷ ys)
  set-append_length [] ys y v zero e = refl
  set-append_length [] ys y v (suc i) e = absurd (omega arith)
  set-append_length (x ∷ xs) ys y v zero e = absurd (omega arith)
  set-append_length (x ∷ xs) ys y v (suc i) e =
      ap (◌∷◌ x) (set-append_length xs ys y v i (omega arith))

  pub get_elem?-drop : (xs : List A) (i k : ℕ) → get_elem? xs (i + k) ≡ get_elem? (drop i xs) k
  get_elem?-drop [] zero k = refl
  get_elem?-drop [] (suc i) k = refl
  get_elem?-drop (x ∷ xs) zero k = ground arith
  get_elem?-drop (x ∷ xs) (suc i) k = ground (arith, get_elem?-drop xs i k)

  pub drop-drop : (xs : List A) (i k : ℕ) → drop k (drop i xs) ≡ drop (i + k) xs
  drop-drop [] zero k = ground arith
  drop-drop [] (suc i) zero = ground arith
  drop-drop [] (suc i) (suc k) = rw add.suc refl
  drop-drop (x ∷ xs) zero k = ground arith
  drop-drop (x ∷ xs) (suc i) k = rw add.suc (drop-drop xs i k)

  -- The element at an index in range, and the suffix that it heads.
  pub drop_split :
      (xs : List A) (k : ℕ)
      → k < length xs
      → (x : A) × (get_elem? xs k ≡ some x) × (drop k xs ≡ x ∷ drop (k + 1) xs)
  drop_split [] k h = absurd (omega arith)
  drop_split (x ∷ xs) zero h = (x, refl, refl)
  drop_split (x ∷ xs) (suc k) h =
      let (y, e, f) = drop_split xs k (omega arith) in (y, e, rw add.suc f)

module _ {ℓ κ} {A : Type ℓ} (P : A → Type κ) where
  pub All-append : (xs ys : List A) → All P xs → All P ys → All P (xs ++ ys)
  All-append [] ys h k = k
  All-append (x ∷ xs) ys h k = (h.0, All-append xs ys h.1 k)

  pub All-take : (n : ℕ) (xs : List A) → All P xs → All P (take n xs)
  All-take zero xs h = tt
  All-take (suc n) [] h = tt
  All-take (suc n) (x ∷ xs) h = (h.0, All-take n xs h.1)

  pub All-drop : (n : ℕ) (xs : List A) → All P xs → All P (drop n xs)
  All-drop zero xs h = h
  All-drop (suc n) [] h = tt
  All-drop (suc n) (x ∷ xs) h = All-drop n xs h.1

-- Membership with its proof kept, and a relation between the elements of two lists.
abbrev pub In : {A : Type 0} → A → List A → Type 0
In x [] = ⊥
In x (y ∷ ys) = (x ≡ y) ⊎ In x ys

abbrev pub Forall₂ : {A B : Type 0} → (A → B → Type 0) → List A → List B → Type 0
Forall₂ R [] [] = Unit
Forall₂ R [] (y ∷ ys) = ⊥
Forall₂ R (x ∷ xs) [] = ⊥
Forall₂ R (x ∷ xs) (y ∷ ys) = R x y × Forall₂ R xs ys

module _ {A B : Type 0} (R S : A → B → Type 0) where
  pub Forall₂-map :
      (xs : List A) (ys : List B)
      → ((x : A) (y : B) → R x y → S x y)
      → Forall₂ R xs ys
      → Forall₂ S xs ys
  Forall₂-map [] [] f h = tt
  Forall₂-map [] (y ∷ ys) f h = absurd h
  Forall₂-map (x ∷ xs) [] f h = absurd h
  Forall₂-map (x ∷ xs) (y ∷ ys) f h = (f x y h.0, Forall₂-map xs ys f h.1)

module _ {A B : Type 0} (R : A → B → Type 0) where
  pub Forall₂-append :
      (xs xs' : List A) (ys ys' : List B)
      → Forall₂ R xs ys
      → Forall₂ R xs' ys'
      → Forall₂ R (xs ++ xs') (ys ++ ys')
  Forall₂-append [] xs' [] ys' h k = k
  Forall₂-append [] xs' (y ∷ ys) ys' h k = absurd h
  Forall₂-append (x ∷ xs) xs' [] ys' h k = absurd h
  Forall₂-append (x ∷ xs) xs' (y ∷ ys) ys' h k = (h.0, Forall₂-append xs xs' ys ys' h.1 k)

module _ {ℓ} {A : Type ℓ} where
  pub get_elem?-append_left :
      (xs ys : List A) (i : ℕ) (x : A) → get_elem? xs i ≡ some x → get_elem? (xs ++ ys) i ≡ some x
  get_elem?-append_left [] ys i x e = cc
  get_elem?-append_left (x ∷ xs) ys zero y e = e
  get_elem?-append_left (x ∷ xs) ys (suc i) y e = get_elem?-append_left xs ys i y e

  pub get_elem?-append_right :
      (xs ys : List A) (i n : ℕ) → n ≡ length xs + i → get_elem? (xs ++ ys) n ≡ get_elem? ys i
  get_elem?-append_right [] ys i n e = ap (get_elem? ys) (omega (arith, e))
  get_elem?-append_right (x ∷ xs) ys i zero e = absurd (omega (arith, e))
  get_elem?-append_right (x ∷ xs) ys i (suc n) e =
      get_elem?-append_right xs ys i n (omega (arith, e))

none-ne-some {ℓ} : {A : Type ℓ} {x : A} → none ≡ some x → ⊥
none-ne-some e = cc

module _ {ℓ κ} {A : Type ℓ} (P : A → Type κ) where
  pub All-get_elem? : (xs : List A) (i : ℕ) (x : A) → All P xs → get_elem? xs i ≡ some x → P x
  All-get_elem? [] i x h e = absurd (none-ne-some e)
  All-get_elem? (y ∷ ys) zero x h e = let same : y ≡ x = cc in subst P same h.0
  All-get_elem? (y ∷ ys) (suc i) x h e = All-get_elem? ys i x h.1 e
