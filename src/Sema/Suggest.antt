-- ===== src/Sema/Suggest.antt =====
-- `levenshtein` and `suggest_similar` of crates/wirespec-sema/src/error.rs: the edit distance with two
-- rows, and the name that an error message suggests. `none` of a distance is an index out of range.
pub mod Edits
pub mod Distance
pub mod Nearest
mod Tests
use Prim.Native.Nat.{min}
use wirespec.Base.{ℕ, zero, suc, ◌+◌, ltb, leb, ◌==◌, ◌&&◌, if◌then◌else◌, List, [], ◌∷◌}
use wirespec.Base.{Option, none, some, get_elem?, replicate}
use wirespec.Base.Str.{Str}

-- `str::len`, in UTF-8.
unfoldable pub utf8_len : Str → ℕ
utf8_len [] = 0
utf8_len (c ∷ s) =
    (if ltb c 128 then 1 else if ltb c 2048 then 2 else if ltb c 65536 then 3 else 4) + utf8_len s

-- `(from..from + n).collect()`.
unfoldable pub count_from : ℕ → ℕ → List ℕ
count_from start zero = []
count_from start (suc n) = start ∷ count_from (suc start) n

abbrev pub cell : ℕ → ℕ → ℕ → ℕ → ℕ → ℕ
cell ca cb diagonal above left =
    min (min (diagonal + (if ca == cb then 0 else 1)) (above + 1)) (left + 1)

abbrev pub push_front : ℕ → Option (List ℕ) → Option (List ℕ)
push_front v none = none
push_front v (some row) = some (v ∷ row)

-- The inner loop for `ca`: `left` is `curr[j]`, `prev` starts at `prev[j]`, and `curr`, the row that
-- is overwritten, at `curr[j + 1]`; what the loop does not reach of it stays.
unfoldable pub cells : ℕ → ℕ → List ℕ → List ℕ → Str → Option (List ℕ)
cells ca left prev curr [] = some curr
cells ca left (diagonal ∷ above ∷ prev) (old ∷ curr) (cb ∷ b) =
    let v = cell ca cb diagonal above left in push_front v (cells ca v (above ∷ prev) curr b)
cells ca left prev curr (cb ∷ b) = none

-- The outer loop, with `swap` at its end: what is left in `prev`.
unfoldable pub rows : ℕ → List ℕ → List ℕ → Str → Str → Option (List ℕ)
rows i prev curr [] b = some prev
rows i prev [] (ca ∷ a) b = none
rows i prev (first ∷ curr) (ca ∷ a) b = elim (cells ca (i + 1) prev curr b) [
  | none ↦ none
  | some row ↦ rows (i + 1) ((i + 1) ∷ row) prev a b
]

abbrev pub cell_at : ℕ → Option (List ℕ) → Option ℕ
cell_at n none = none
cell_at n (some row) = get_elem? row n

unfoldable pub levenshtein : Str → Str → Option ℕ
levenshtein a b =
    if utf8_len a == 0
    then some (utf8_len b)
    else if utf8_len b == 0
    then some (utf8_len a)
    else cell_at (utf8_len b)
        (rows 0 (count_from 0 (suc (utf8_len b))) (replicate (suc (utf8_len b)) 0) a b)

-- `min_by_key` on what `filter` leaves: the first candidate of the least distance. The outer `none`
-- is a panic.
abbrev pub nearer : Option (Str × ℕ) → Str → ℕ → Option (Str × ℕ)
nearer none c d = some (c, d)
nearer (some (best, e)) c d = if ltb d e then some (c, d) else some (best, e)

unfoldable pub nearest : Str → ℕ → List Str → Option (Str × ℕ) → Option (Option (Str × ℕ))
nearest name max_distance [] best = some best
nearest name max_distance (c ∷ candidates) best = elim (levenshtein name c) [
  | none ↦ none
  | some d ↦
      nearest name max_distance candidates
        (if leb d max_distance && ltb 0 d then nearer best c d else best)
]

-- `.map(|(c, _)| c)`.
abbrev pub name_of : Option (Option (Str × ℕ)) → Option (Option Str)
name_of none = none
name_of (some none) = some none
name_of (some (some (c, d))) = some (some c)

unfoldable pub suggest_similar : Str → List Str → ℕ → Option (Option Str)
suggest_similar name candidates max_distance = name_of (nearest name max_distance candidates none)
