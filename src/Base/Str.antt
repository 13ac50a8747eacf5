-- ===== src/Base/Str.antt =====
-- Texts as lists of code points, with Rust's `==`, string literals and the decimal form of a number.
use Prim.Native.Char.{code}
use Prim.Native.String.{String}
use wirespec.Base.{ℕ, zero, suc, ◌+◌, ◌-◌, ◌*◌, ◌/◌, ◌%◌, ◌<◌, ltb, ◌==◌, ◌&&◌, if◌then◌else◌}
use wirespec.Base.{List, [], ◌∷◌, ◌++◌, Bool, true, false, ◌≡◌, ◌↔◌, refl, ap, arith, ◌∙◌, sym}
use wirespec.Base.{Bool-cases, inl, inr, ltb→le, ◌||◌, In}

abbrev pub Str : Type 0
Str = List ℕ

abbrev pub str : String → Str
str String.[] = []
str (String.◌∷◌ c s) = code c ∷ str s

unfoldable pub str_eq : Str → Str → Bool
str_eq [] [] = true
str_eq [] (b ∷ t) = false
str_eq (a ∷ s) [] = false
str_eq (a ∷ s) (b ∷ t) = a == b && str_eq s t

pub str_eq→eq : (s t : Str) → str_eq s t ≡ true → s ≡ t
unfolding str_eq
str_eq→eq [] [] h = refl
str_eq→eq [] (b ∷ t) h = cc
str_eq→eq (a ∷ s) [] h = cc
str_eq→eq (a ∷ s) (b ∷ t) h = ground (arith, str_eq→eq s t)

pub str_eq_refl : (s : Str) → str_eq s s ≡ true
unfolding str_eq
str_eq_refl [] = refl
str_eq_refl (a ∷ s) = ground (arith, str_eq_refl s)

pub str_eq_iff : (s t : Str) → (str_eq s t ≡ true) ↔ (s ≡ t)
str_eq_iff s t = (str_eq→eq s t, λ e. rw e (str_eq_refl t))

-- `contains` of a list of texts.
unfoldable pub has : List Str → Str → Bool
has [] name = false
has (x ∷ xs) name = str_eq x name || has xs name

pub has-In : (xs : List Str) (name : Str) → (has xs name ≡ true) ↔ In name xs
unfolding has
has-In [] name = (λ h. absurd cc, λ h. absurd h)
has-In (x ∷ xs) name =
    let (there, back) = has-In xs name in
    (
      λ h. elim (Bool-cases (str_eq x name)) [
        | inl same ↦ inl (sym (str_eq→eq x name same))
        | inr other ↦ inr (there (ground (arith, h, other)))
      ],
      elim [ inl e ↦ rw e (ground (arith, str_eq_refl x)) | inr m ↦ ground (arith, back m) ],
    )

-- `{n}` of `format!`. The fuel is above `n`.
unfoldable pub digits_of : ℕ → ℕ → Str
digits_of zero n = []
digits_of (suc fuel) n =
    let more = digits_of fuel (n / 10) ++ ((48 + n % 10) ∷ []) in
    if ltb n 10 then (48 + n) ∷ [] else more

unfoldable pub decimal : ℕ → Str
decimal n = digits_of (suc n) n

read_digits : ℕ → Str → ℕ
read_digits acc [] = acc
read_digits acc (d ∷ s) = read_digits (acc * 10 + (d - 48)) s

read_digits-append :
    (acc : ℕ) (s : Str) (d : ℕ)
    → read_digits acc (s ++ (d ∷ [])) ≡ read_digits acc s * 10 + (d - 48)
unfolding read_digits
read_digits-append acc [] d = refl
read_digits-append acc (e ∷ s) d = read_digits-append (acc * 10 + (e - 48)) s d

read_digits-digits_of : (fuel n : ℕ) → n < fuel → read_digits 0 (digits_of fuel n) ≡ n
unfolding digits_of
read_digits-digits_of zero n h = absurd (omega arith)
read_digits-digits_of (suc fuel) n h = elim (Bool-cases (ltb n 10)) [
  | inl one ↦ rw one (unfold read_digits in omega arith)
  | inr more ↦ rw more (
      omega (
        arith,
        read_digits-append 0 (digits_of fuel (n / 10)) (48 + n % 10),
        read_digits-digits_of fuel (n / 10) (omega (arith, ltb→le _ _ more)),
      ))
]

pub decimal_injective : (m n : ℕ) → decimal m ≡ decimal n → m ≡ n
unfolding decimal
decimal_injective m n e =
    sym (read_digits-digits_of (suc m) m (omega arith))
    ∙ ap (read_digits 0) e
    ∙ read_digits-digits_of (suc n) n (omega arith)

pub cancel_prefix : (p s t : Str) → p ++ s ≡ p ++ t → s ≡ t
cancel_prefix [] s t e = e
cancel_prefix (a ∷ p) s t e = cancel_prefix p s t (ground (arith, e))

pub cancel_last : (s t : Str) (x : ℕ) → s ++ (x ∷ []) ≡ t ++ (x ∷ []) → s ≡ t
cancel_last [] [] x e = refl
cancel_last [] (b ∷ []) x e = absurd (ground (arith, e))
cancel_last [] (b ∷ c ∷ t) x e = absurd (ground (arith, e))
cancel_last (a ∷ []) [] x e = absurd (ground (arith, e))
cancel_last (a ∷ c ∷ s) [] x e = absurd (ground (arith, e))
cancel_last (a ∷ s) (b ∷ t) x e = ground (arith, e, cancel_last s t x)
