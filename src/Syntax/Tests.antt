-- ===== src/Syntax/Tests.antt =====
-- A run of the theorem on merged spans.
use wirespec.Base.{◌≡◌, some, arith}
use wirespec.Syntax.{Span, merge, Covers, IsSpan, merge-Covers}

abbrev early : Span
early = record { offset = 3; len = 4 }

abbrev late : Span
late = record { offset = 10; len = 2 }

merge-Covers_example :
    (u : Span) × (merge early late ≡ some u)
    × IsSpan u
    × Covers u early
    × Covers u late
    × ((v : Span) → Covers v early → Covers v late → Covers v u)
merge-Covers_example = merge-Covers early late (omega arith) (omega arith)
