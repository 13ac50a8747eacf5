-- ===== src/Sema/Suggest/Distance.antt =====
-- `levenshtein` of crates/wirespec-sema/src/error.rs: its two rows hold the distances of the texts read
-- so far.
use mathlib.Core.List.{reverse, reverse-cons, reverse-reverse, append_assoc, append-nil}
use wirespec.Base.{
  ℕ, suc, ◌+◌, ◌≤◌, ◌<◌, List, [], ◌∷◌, ◌++◌, length, All, length-replicate, length-append,
}
use wirespec.Base.{
  Option, none, some, get_elem?, replicate, ◌≡◌, refl, sym, ap, ap₂, subst, ◌∙◌, arith,
}
use wirespec.Base.Str.{Str}
use wirespec.Sema.Suggest.{utf8_len, count_from, cells, rows, levenshtein, push_front, cell_at}
use wirespec.Sema.Suggest.Edits.{Edits, distance, distance-Edits, distance-le, Edits-reverse}

-- The distances of `a` from `q`, and from `q` with each part of `b` that comes next; `a` and `q` are
-- texts read so far, the last character first.
row_of : Str → Str → Str → List ℕ
row_of a q [] = distance a q ∷ []
row_of a q (c ∷ b) = distance a q ∷ row_of a (c ∷ q) b

tail_of : Str → Str → Str → List ℕ
tail_of a q [] = []
tail_of a q (c ∷ b) = row_of a (c ∷ q) b

row_of_split : (a q b : Str) → row_of a q b ≡ distance a q ∷ tail_of a q b
unfolding row_of tail_of
row_of_split a q [] = refl
row_of_split a q (c ∷ b) = refl

length-tail_of : (a q b : Str) → length (tail_of a q b) ≡ length b
unfolding row_of tail_of
length-tail_of a q [] = refl
length-tail_of a q (c ∷ b) =
    omega (arith, ap length (row_of_split a (c ∷ q) b), length-tail_of a (c ∷ q) b)

cells_lem :
    (ca : ℕ) (a q b : Str) (curr : List ℕ)
    → length curr ≡ length b
    → cells ca (distance (ca ∷ a) q) (row_of a q b) curr b ≡ some (tail_of (ca ∷ a) q b)
unfolding cells tail_of row_of distance
cells_lem ca a q [] [] e = refl
cells_lem ca a q [] (old ∷ curr) e = absurd (omega (arith, e))
cells_lem ca a q (cb ∷ b) [] e = absurd (omega (arith, e))
cells_lem ca a q (cb ∷ b) (old ∷ curr) e =
    let left = distance (ca ∷ a) q in
    let v = distance (ca ∷ a) (cb ∷ q) in
    let above = row_of a (cb ∷ q) b in
    let step : cells ca left (distance a q ∷ above) (old ∷ curr) (cb ∷ b)
        ≡ push_front v (cells ca v above curr b) =
      rw (row_of_split a (cb ∷ q) b) refl in
    step
    ∙ ap (push_front v) (cells_lem ca a (cb ∷ q) b curr (omega (arith, e)))
    ∙ ap some (sym (row_of_split (ca ∷ a) (cb ∷ q) b))

rows_lem :
    (a p b : Str) (i : ℕ) (curr : List ℕ)
    → i ≡ length p
    → length curr ≡ suc (length b)
    → rows i (row_of p [] b) curr a b ≡ some (row_of (reverse a ++ p) [] b)
unfolding rows distance
rows_lem [] p b i curr e f = refl
rows_lem (ca ∷ a) p b i [] e f = absurd (omega (arith, f))
rows_lem (ca ∷ a) p b i (old ∷ curr) e f =
    let first : distance (ca ∷ p) [] ≡ i + 1 = omega (arith, e) in
    let row : cells ca (i + 1) (row_of p [] b) curr b ≡ some (tail_of (ca ∷ p) [] b) =
      subst (λ (n : ℕ). cells ca n (row_of p [] b) curr b ≡ some (tail_of (ca ∷ p) [] b)) first
        (cells_lem ca p [] b curr (omega (arith, f))) in
    let whole : (i + 1) ∷ tail_of (ca ∷ p) [] b ≡ row_of (ca ∷ p) [] b =
      ap (λ n. n ∷ tail_of (ca ∷ p) [] b) (sym first) ∙ sym (row_of_split (ca ∷ p) [] b) in
    let rest =
      rows_lem a (ca ∷ p) b (i + 1) (row_of p [] b) (omega (arith, e))
        (omega (arith, ap length (row_of_split p [] b), length-tail_of p [] b)) in
    let order : reverse a ++ (ca ∷ p) ≡ reverse (ca ∷ a) ++ p =
      sym (append_assoc (reverse a) (ca ∷ []) p)
      ∙ ap (λ (s : Str). s ++ p) (sym (reverse-cons ca a)) in
    let step : rows i (row_of p [] b) (old ∷ curr) (ca ∷ a) b
        ≡ rows (i + 1) ((i + 1) ∷ tail_of (ca ∷ p) [] b) (row_of p [] b) a b =
      ap
        (λ (o : Option (List ℕ)). elim o [
          | none ↦ none
          | some r ↦ rows (i + 1) ((i + 1) ∷ r) (row_of p [] b) a b
        ])
        row in
    rw step (rw whole (rest ∙ ap (λ (s : Str). some (row_of s [] b)) order))

count_from_lem : (q b : Str) (k : ℕ) → k ≡ length q → count_from k (suc (length b)) ≡ row_of [] q b
unfolding count_from row_of distance
count_from_lem q [] k e = rw e refl
count_from_lem q (c ∷ b) k e =
    rw e (ap (λ r. length q ∷ r) (count_from_lem (c ∷ q) b (suc (length q)) refl))

row_of_last :
    (a q b : Str) → get_elem? (row_of a q b) (length b) ≡ some (distance a (reverse b ++ q))
unfolding row_of
row_of_last a q [] = refl
row_of_last a q (c ∷ b) =
    row_of_last a (c ∷ q) b
    ∙ ap (λ (s : Str). some (distance a s))
        (sym (append_assoc (reverse b) (c ∷ []) q)
          ∙ ap (λ (s : Str). s ++ q) (sym (reverse-cons c b)))

-- The texts in which each character is a byte.
abbrev pub IsAscii : Str → Type 0
IsAscii = All (λ c. c < 128)

utf8_len-ascii : (s : Str) → IsAscii s → utf8_len s ≡ length s
unfolding utf8_len
utf8_len-ascii [] h = refl
utf8_len-ascii (c ∷ s) h = ground (arith, h.0, utf8_len-ascii s h.1)

distance-nil : (s : Str) → distance s [] ≡ length s
unfolding distance
distance-nil [] = refl
distance-nil (c ∷ s) = refl

length-reverse : (s : Str) → length (reverse s) ≡ length s
length-reverse [] = refl
length-reverse (c ∷ s) =
    omega
      (arith, ap length (reverse-cons c s), length-append (reverse s) (c ∷ []), length-reverse s)

abbrev table : ℕ → Str → Str → Option ℕ
table n a b = cell_at n (rows 0 (count_from 0 (suc n)) (replicate (suc n) 0) a b)

two_rows : (a b : Str) → table (length b) a b ≡ some (distance (reverse a) (reverse b))
two_rows a b =
    let first = count_from_lem [] b 0 refl in
    let all =
      rows_lem a [] b 0 (replicate (suc (length b)) 0) refl (length-replicate (suc (length b)) 0) in
    rw first (ap (cell_at (length b)) all ∙ row_of_last (reverse a ++ []) [] b)
    ∙ ap₂ (λ (s t : Str). some (distance s t)) (append-nil (reverse a)) (append-nil (reverse b))

levenshtein-distance :
    (a b : Str) → IsAscii a → IsAscii b → levenshtein a b ≡ some (distance (reverse a) (reverse b))
unfolding levenshtein
levenshtein-distance [] b ha hb =
    rw (utf8_len-ascii [] tt)
      (ap some (utf8_len-ascii b hb ∙ unfold distance in sym (length-reverse b)))
levenshtein-distance (c ∷ a) [] ha hb =
    let full = utf8_len-ascii (c ∷ a) ha in
    let none_left = utf8_len-ascii [] tt in
    let size : levenshtein (c ∷ a) [] ≡ some (utf8_len (c ∷ a)) = ground (arith, full, none_left) in
    size ∙ ap some (full ∙ sym (distance-nil (reverse (c ∷ a)) ∙ length-reverse (c ∷ a)))
levenshtein-distance (c ∷ a) (d ∷ b) ha hb =
    let full = utf8_len-ascii (c ∷ a) ha in
    let m = utf8_len-ascii (d ∷ b) hb in
    let size : levenshtein (c ∷ a) (d ∷ b) ≡ table (utf8_len (d ∷ b)) (c ∷ a) (d ∷ b) =
      ground (arith, full, m) in
    size ∙ ap (λ n. table n (c ∷ a) (d ∷ b)) m ∙ two_rows (c ∷ a) (d ∷ b)

-- On ASCII texts `levenshtein` never panics, and its result is the edit distance: so many edits turn
-- the first text into the second, and no fewer do.
pub levenshtein-Edits :
    (a b : Str)
    → IsAscii a
    → IsAscii b
    → (n : ℕ) × (levenshtein a b ≡ some n) × Edits n a b × ((m : ℕ) → Edits m a b → n ≤ m)
levenshtein-Edits a b ha hb =
    let n = distance (reverse a) (reverse b) in
    let back = Edits-reverse (distance-Edits (reverse a) (reverse b)) in
    (
      n,
      levenshtein-distance a b ha hb,
      subst (λ (s : Str). Edits n s b) (reverse-reverse a)
          (subst (λ (t : Str). Edits n (reverse (reverse a)) t) (reverse-reverse b) back),
      λ m e. distance-le (Edits-reverse e),
    )
