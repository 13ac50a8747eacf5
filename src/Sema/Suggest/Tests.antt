-- ===== src/Sema/Suggest/Tests.antt =====
-- Runs of `levenshtein` and `suggest_similar`, with their theorems at those texts.
use wirespec.Base.{ℕ, List, [], ◌∷◌, Option, some, ◌≡◌, ◌≤◌, refl, arith}
use wirespec.Base.Str.{Str, str}
use wirespec.Sema.Suggest.{levenshtein, suggest_similar, utf8_len, rows, cells, count_from}
use wirespec.Sema.Suggest.Edits.{Edits}
use wirespec.Sema.Suggest.Distance.{levenshtein-Edits}
use wirespec.Sema.Suggest.Nearest.{IsSuggestion, suggest_similar-IsSuggestion}

abbrev varnt : Str
varnt = str "Varnt"

abbrev candidates : List Str
candidates = str "bytes" ∷ str "VarInt" ∷ str "Vart" ∷ []

varnt_distance : levenshtein varnt (str "VarInt") ≡ some 1
unfolding levenshtein utf8_len rows cells count_from
varnt_distance = refl

-- A text that is not ASCII: the index is the length in bytes, past the characters of a row.
not_ascii : levenshtein (97 ∷ []) (233 ∷ []) ≡ some 0
unfolding levenshtein utf8_len rows cells count_from
not_ascii = refl

levenshtein-Edits_example :
    (n : ℕ) × (levenshtein varnt (str "VarInt") ≡ some n)
    × Edits n varnt (str "VarInt")
    × ((m : ℕ) → Edits m varnt (str "VarInt") → n ≤ m)
levenshtein-Edits_example = levenshtein-Edits varnt (str "VarInt") (ground arith) (ground arith)

suggest_similar-IsSuggestion_example :
    (r : Option Str) × (suggest_similar varnt candidates 3 ≡ some r)
    × IsSuggestion varnt candidates 3 r
suggest_similar-IsSuggestion_example =
    suggest_similar-IsSuggestion varnt candidates 3 (ground arith) (ground arith)
