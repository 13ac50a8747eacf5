-- ===== src/Sema/Suggest/Edits.antt =====
-- The edit distance of two texts, by edits, and the recursion that computes it: what `levenshtein` of
-- crates/wirespec-sema/src/error.rs is compared with.
use mathlib.Core.List.{reverse, reverse-cons, append-nil}
use Prim.Native.Nat.{min}
use wirespec.Base.{ℕ, suc, ◌+◌, ◌≤◌, leb, ◌==◌, [], ◌∷◌, ◌++◌, length, ◌≡◌, arith}
use wirespec.Base.{subst, sym, ==_refl, ==_iff, Bool-cases, inl, inr}
use wirespec.Base.Str.{Str}
use wirespec.Sema.Suggest.{cell}

-- `s` becomes `t` by so many insertions, deletions and replacements of a character.
pub data Edits : ℕ → Str → Str → Type 0 where
  done : Edits 0 [] []
  keep : {n : ℕ} (c : ℕ) {s t : Str} → Edits n s t → Edits n (c ∷ s) (c ∷ t)
  insert : {n : ℕ} (c : ℕ) {s t : Str} → Edits n s t → Edits (suc n) s (c ∷ t)
  delete : {n : ℕ} (c : ℕ) {s t : Str} → Edits n s t → Edits (suc n) (c ∷ s) t
  replace : {n : ℕ} (c d : ℕ) {s t : Str} → Edits n s t → Edits (suc n) (c ∷ s) (d ∷ t)

unfoldable pub distance : Str → Str → ℕ
distance [] t = length t
distance (c ∷ s) [] = suc (length s)
distance (c ∷ s) (d ∷ t) = cell c d (distance s t) (distance s (d ∷ t)) (distance (c ∷ s) t)

insert_all : (t : Str) → Edits (length t) [] t
insert_all [] = done
insert_all (c ∷ t) = insert c (insert_all t)

delete_all : (s : Str) → Edits (length s) s []
delete_all [] = done
delete_all (c ∷ s) = delete c (delete_all s)

at : {m n : ℕ} {s t : Str} → m ≡ n → Edits m s t → Edits n s t
at {s = s} {t = t} e h = subst (λ (k : ℕ). Edits k s t) e h

min_edits : (m k : ℕ) {s t : Str} → Edits m s t → Edits k s t → Edits (min m k) s t
min_edits m k h g = elim (Bool-cases (leb m k)) [
  | inl first ↦ at (ground (arith, first)) h
  | inr second ↦ at (ground (arith, second)) g
]

cell_edits :
    (c d m k l : ℕ) (s t : Str)
    → Edits m s t
    → Edits k s (d ∷ t)
    → Edits l (c ∷ s) t
    → Edits (cell c d m k l) (c ∷ s) (d ∷ t)
cell_edits c d m k l s t both first second = elim (Bool-cases (c == d)) [
  | inl same ↦
      let kept =
        subst (λ (x : ℕ). Edits m (x ∷ s) (d ∷ t)) (sym ((==_iff c d).0 same)) (keep d both) in
      rw same (
        min_edits _ _ (min_edits _ _ (at (omega arith) kept) (at (omega arith) (delete c first)))
          (at (omega arith) (insert d second)))
  | inr other ↦ rw other (
      min_edits _ _
        (min_edits _ _ (at (omega arith) (replace c d both)) (at (omega arith) (delete c first)))
        (at (omega arith) (insert d second)))
]

pub distance-Edits : (s t : Str) → Edits (distance s t) s t
unfolding distance
distance-Edits [] t = insert_all t
distance-Edits (c ∷ s) [] = delete_all (c ∷ s)
distance-Edits (c ∷ s) (d ∷ t) =
    cell_edits c d _ _ _ s t (distance-Edits s t) (distance-Edits s (d ∷ t))
      (distance-Edits (c ∷ s) t)

distance-insert : (c : ℕ) (s t : Str) → distance s (c ∷ t) ≤ suc (distance s t)
unfolding distance
distance-insert c [] t = omega arith
distance-insert c (d ∷ s) t = omega arith

distance-delete : (c : ℕ) (s t : Str) → distance (c ∷ s) t ≤ suc (distance s t)
unfolding distance
distance-delete c [] [] = omega arith
distance-delete c (d ∷ s) [] = omega arith
distance-delete c s (d ∷ t) = omega arith

pub distance-le : {n : ℕ} {s t : Str} → Edits n s t → distance s t ≤ n
unfolding distance
distance-le done = omega arith
distance-le (keep c e) = rw (==_refl c) (omega (arith, distance-le e))
distance-le (insert c e) = omega (arith, distance-insert c _ _, distance-le e)
distance-le (delete c e) = omega (arith, distance-delete c _ _, distance-le e)
distance-le (replace c d e) = ground (arith, distance-le e)

Edits-append :
    {m n : ℕ} {s t u v : Str} → Edits m s t → Edits n u v → Edits (m + n) (s ++ u) (t ++ v)
Edits-append done g = at (omega arith) g
Edits-append (keep c e) g = keep c (Edits-append e g)
Edits-append (insert c e) g = at (omega arith) (insert c (Edits-append e g))
Edits-append (delete c e) g = at (omega arith) (delete c (Edits-append e g))
Edits-append (replace c d e) g = at (omega arith) (replace c d (Edits-append e g))

pub Edits-reverse : {n : ℕ} {s t : Str} → Edits n s t → Edits n (reverse s) (reverse t)
Edits-reverse done = done
Edits-reverse (keep c {s = s} {t = t} e) =
    rw (reverse-cons c s)
      (rw (reverse-cons c t) (at (omega arith) (Edits-append (Edits-reverse e) (keep c done))))
Edits-reverse (insert {n = n} c {s = s} {t = t} e) =
    let more : Edits (n + 1) (reverse s ++ []) (reverse t ++ (c ∷ [])) =
      Edits-append (Edits-reverse e) (insert c done) in
    rw (reverse-cons c t) (
      at (omega arith) (
        subst (λ (x : Str). Edits (n + 1) x (reverse t ++ (c ∷ []))) (append-nil (reverse s)) more))
Edits-reverse (delete {n = n} c {s = s} {t = t} e) =
    let more : Edits (n + 1) (reverse s ++ (c ∷ [])) (reverse t ++ []) =
      Edits-append (Edits-reverse e) (delete c done) in
    rw (reverse-cons c s) (
      at (omega arith) (
        subst (λ (x : Str). Edits (n + 1) (reverse s ++ (c ∷ [])) x) (append-nil (reverse t)) more))
Edits-reverse (replace c d {s = s} {t = t} e) =
    rw (reverse-cons c s)
      (rw (reverse-cons d t) (at (omega arith) (Edits-append (Edits-reverse e) (replace c d done))))
