-- ===== src/Base/Outcome.antt =====
-- Fallible code: a value, an error of the code's own, or a panic.
use wirespec.Base.{List, [], ◌∷◌, ◌≡◌, refl, ◌⊎◌, inl, inr, ap}

pub data Outcome {ℓ} (E : Type 0) (A : Type ℓ) : Type ℓ where
  ok : A → Outcome E A
  err : E → Outcome E A
  panic : Outcome E A

infixl 5 ◌>>=◌
abbrev pub ◌>>=◌ {ℓ κ} :
    {E : Type 0} {A : Type ℓ} {B : Type κ} → Outcome E A → (A → Outcome E B) → Outcome E B
ok a >>= f = f a
err e >>= f = err e
panic >>= f = panic

pub Outcome-cases {ℓ} :
    {E : Type 0} {A : Type ℓ} (m : Outcome E A)
    → ((a : A) × (m ≡ ok a)) ⊎ (((e : E) × (m ≡ err e)) ⊎ (m ≡ panic))
Outcome-cases (ok a) = inl (a, refl)
Outcome-cases (err e) = inr (inl (e, refl))
Outcome-cases panic = inr (inr refl)

-- A computation with one step that may fail, when that step succeeds.
pub >>=-ok {ℓ κ} :
    {E : Type 0} {A : Type ℓ} {B : Type κ} {m : Outcome E A} {a : A} (k : A → B)
    → m ≡ ok a
    → (m >>= (λ x. ok (k x))) ≡ ok (k a)
>>=-ok k h = ap (λ m. m >>= (λ x. ok (k x))) h

-- What a successful bind has done: its step's value, and what is made of it.
pub bind_inv {ℓ κ} :
    {E : Type 0} {A : Type ℓ} {B : Type κ} (k : A → Outcome E B) (b : B) (m : Outcome E A)
    → (m >>= k) ≡ ok b
    → (a : A) × (k a ≡ ok b) × (m ≡ ok a)
bind_inv k b (ok a) h = (a, h, refl)
bind_inv k b (err e) h = absurd cc
bind_inv k b panic h = absurd cc

-- Where a bind panics, one of its parts does; and where it is an error, one of them is.
pub bind_panic {ℓ κ} :
    {E : Type 0} {A : Type ℓ} {B : Type κ} (k : A → Outcome E B) (m : Outcome E A)
    → (m >>= k) ≡ panic
    → (m ≡ panic) ⊎ ((a : A) × (k a ≡ panic) × (m ≡ ok a))
bind_panic k (ok a) h = inr (a, h, refl)
bind_panic k (err e) h = absurd cc
bind_panic k panic h = inl refl

pub bind_err {ℓ κ} :
    {E : Type 0} {A : Type ℓ} {B : Type κ} (k : A → Outcome E B) (e : E) (m : Outcome E A)
    → (m >>= k) ≡ err e
    → (m ≡ err e) ⊎ ((a : A) × (k a ≡ err e) × (m ≡ ok a))
bind_err k e (ok a) h = inr (a, h, refl)
bind_err k e (err x) h = inl (cc)
bind_err k e panic h = absurd cc

-- `for x in xs { out.push(f(x)?); }`.
unfoldable pub push_each {ℓ κ} :
    {E : Type 0} {A : Type ℓ} {B : Type κ} → (A → Outcome E B) → List A → Outcome E (List B)
push_each f [] = ok []
push_each f (x ∷ xs) = do y ← f x; ys ← push_each f xs; ok (y ∷ ys)

-- `Result::map_err`.
abbrev pub map_err {ℓ} : {E F : Type 0} {A : Type ℓ} → (E → F) → Outcome E A → Outcome F A
map_err g (ok a) = ok a
map_err g (err e) = err (g e)
map_err g panic = panic

-- No panic, a value that meets `P`, or an error that meets `Q`.
abbrev pub Meets : {E A : Type 0} → (A → Type 0) → (E → Type 0) → Outcome E A → Type 0
Meets P Q (ok a) = P a
Meets P Q (err e) = Q e
Meets P Q panic = ⊥

module _ {E A B : Type 0} (P : A → Type 0) (R : B → Type 0) (Q : E → Type 0) where
  pub Meets-bind :
      (k : A → Outcome E B) (m : Outcome E A)
      → Meets P Q m
      → ((a : A) → P a → Meets R Q (k a))
      → Meets R Q (m >>= k)
  Meets-bind k (ok a) h f = f a h
  Meets-bind k (err e) h f = h
  Meets-bind k panic h f = absurd h

module _ {E A : Type 0} {P R : A → Type 0} {Q S : E → Type 0} where
  pub Meets-map :
      ((a : A) → P a → R a) → ((e : E) → Q e → S e) → (m : Outcome E A) → Meets P Q m → Meets R S m
  Meets-map f g (ok a) h = f a h
  Meets-map f g (err e) h = g e h
  Meets-map f g panic h = absurd h
