-- ===== src/Syntax/Lexer/Tokens.antt =====
-- The lexer's loop divides the whole source text into tokens and gaps, as the grammar says.
use mathlib.Core.List.{append_assoc, append-nil}
use wirespec.Base.{ℕ, zero, suc, ◌+◌, ◌%◌, ◌^◌, ◌≤◌, ◌<◌, Bool, true, false}
use wirespec.Base.{List, [], ◌∷◌, ◌++◌, ◌≡◌, refl, sym, ap, subst, ◌∙◌, arith, inl, inr}
use wirespec.Base.{length, length-append, Bool-cases, leb→le}
use wirespec.Base.Int.{ℤ}
use wirespec.Base.Str.{Str}
use wirespec.Base.Outcome.{ok, ◌>>=◌, Meets, Meets-bind, Meets-map}
use wirespec.Syntax.Token.{Token, TokenKind, LexError, eof}
use wirespec.Syntax.Lexer.{Lexer, rest, new, skip_whitespace_and_comments}
use wirespec.Syntax.Lexer.{at_end, token_loop, tokenize, next_token}
use wirespec.Syntax.Lexer.Grammar.{
  IsBlank, IsInk, done, Spells, symbol, keyword, word, numeral, quoted, IsLexed, end, more, decimal,
  hex, binary, IsWord, IsDigits,
}
use wirespec.Syntax.Lexer.Reads.{
  Reads, Reads-refl, Reads-le, IsStep, IsLocated, rest-length, list_split,
}
use wirespec.Syntax.Lexer.Skip.{skip-lem}
use wirespec.Syntax.Lexer.Next.{next_token-Steps}

eof_at : ℕ → Token
eof_at n = record { kind = eof; span = record { offset = n; len = 0 } }

-- The loop has pushed the tokens of the rest of the source, and stopped at its end.
record IsTokenized (l l' : Lexer) : Type 0 where
  found : List Token
  tokens_are : l'.tokens ≡ l.tokens ++ found
  inside_source : l'.position ≤ length l.source
  lexed : IsLexed l.position (rest l) (found ++ (eof_at l'.position ∷ []))

rest_empty : (l : Lexer) → l.position ≤ length l.source → at_end l ≡ true → rest l ≡ []
rest_empty l h e = elim (list_split (rest l)) [
  | inl gone ↦ gone
  | inr (c, s, there) ↦ absurd (omega (arith, h, rest-length l h, leb→le _ _ e, ap length there))
]

-- A gap that reaches the end.
end_lem :
    (l l1 : Lexer) (gap : Str)
    → Reads l gap l1
    → IsBlank true false gap
    → rest l1 ≡ []
    → IsLexed l.position (rest l) (eof_at l1.position ∷ [])
unfolding eof_at
end_lem l l1 gap r blank gone =
    let whole : gap ≡ rest l =
      sym (append-nil gap) ∙ ap (λ s. gap ++ s) (sym gone) ∙ sym r.rest_is in
    let located = end l.position gap blank in
    rw r.position_is (
      subst (λ (s : Str). IsLexed l.position s (eof_at (l.position + length gap) ∷ [])) whole
        located)

IsWord-nonempty : (s : Str) → IsWord s → 0 < length s
IsWord-nonempty [] h = absurd h
IsWord-nonempty (c ∷ s) h = omega arith

IsDigits-nonempty :
    (radix : ℕ) (test : ℕ → Bool) (z : ℤ) (s : Str) → IsDigits radix test z s → 0 < length s
IsDigits-nonempty radix test z [] h = absurd h
IsDigits-nonempty radix test z (c ∷ s) h = omega arith

Spells-nonempty : {kind : TokenKind} {t r : Str} → Spells kind t r → 0 < length t
Spells-nonempty (symbol e longest) = omega arith
Spells-nonempty (keyword e h ended) = IsWord-nonempty _ h
Spells-nonempty (word h other ended) = IsWord-nonempty _ h
Spells-nonempty (numeral (decimal d ended bare)) = IsDigits-nonempty _ _ _ _ d
Spells-nonempty (numeral (hex x d ended)) = omega arith
Spells-nonempty (numeral (binary x d ended)) = omega arith
Spells-nonempty (quoted e) = omega arith

-- A gap and a token in front of what the rest of the loop finds.
more_lem :
    (l l1 l2 l3 : Lexer) (gap : Str)
    → Reads l gap l1
    → IsBlank false false gap
    → IsInk (rest l1)
    → IsStep l1 l2
    → IsTokenized l2 l3
    → IsTokenized l l3
more_lem l l1 l2 l3 gap r blank ink step t =
    let tok : Token = record {
      kind = step.kind;
      span = record { offset = l.position + length gap; len = length step.text };
    } in
    let next : l2.position ≡ l.position + length gap + length step.text =
      omega (arith, r.position_is, step.position_is) in
    let pushed : l2.tokens ≡ l.tokens ++ (tok ∷ []) =
      step.tokens_are ∙ rw r.tokens_same (rw r.position_is refl) in
    let ts = t.found ++ (eof_at l3.position ∷ []) in
    let later : IsLexed (l.position + length gap + length step.text) (rest l2) ts =
      subst (λ (n : ℕ). IsLexed n (rest l2) ts) next t.lexed in
    let text : gap ++ (step.text ++ rest l2) ≡ rest l =
      sym (r.rest_is ∙ ap (λ s. gap ++ s) step.rest_is) in
    record {
      found = tok ∷ t.found;
      tokens_are =
          t.tokens_are ∙ ap (λ xs. xs ++ t.found) pushed ∙ append_assoc l.tokens (tok ∷ []) t.found;
      inside_source = rw (sym r.source_same) (rw (sym step.source_same) t.inside_source);
      lexed =
          subst (λ (s : Str). IsLexed l.position s (tok ∷ ts)) text
            (more l.position gap step.text (rest l2) step.kind ts blank
              (subst IsInk step.rest_is ink) step.spells later);
    }

IsStep-le :
    {l l' : Lexer} → IsStep l l' → l.position ≤ length l.source → l'.position ≤ length l.source
IsStep-le {l = l} {l' = l'} step h = omega (
  arith,
  h,
  rest-length l h,
  ap length step.rest_is,
  length-append step.text (rest l'),
  step.position_is,
)

within :
    (l l' : Lexer) (e : LexError)
    → l'.source ≡ l.source
    → l.position ≤ l'.position
    → IsLocated l' e
    → IsLocated l e
within l l' e same later (h, k) = (omega (arith, later, h), omega (arith, k, ap length same))

finished_lem :
    (l l1 : Lexer) (gap : Str)
    → Reads l gap l1
    → l.position ≤ length l.source
    → IsBlank true false gap
    → rest l1 ≡ []
    → IsTokenized l l1
finished_lem l l1 gap r h blank gone = record {
  found = [];
  tokens_are = r.tokens_same ∙ sym (append-nil l.tokens);
  inside_source = Reads-le r h;
  lexed = end_lem l l1 gap r blank gone;
}

token_loop_lem :
    (fuel : ℕ) (l : Lexer)
    → length l.source < l.position + fuel
    → l.position ≤ length l.source
    → length l.source < 2 ^ 32
    → Meets (IsTokenized l) (IsLocated l) (token_loop fuel l)
unfolding token_loop
token_loop_lem zero l enough h small = absurd (omega (arith, enough, h))
token_loop_lem (suc fuel) l enough h small = elim (Bool-cases (at_end l)) [
  | inl finished ↦
      let same : token_loop (suc fuel) l ≡ ok l = ground (arith, finished) in
      rw same (finished_lem l l [] (Reads-refl l) h done (rest_empty l h finished))
  | inr going ↦
      let (gap, r, blank, ink) = skip-lem l in
      let l1 = skip_whitespace_and_comments l in
      let bound : l1.position ≤ length l.source = Reads-le r h in
      elim (Bool-cases (at_end l1)) [
        | inl ended ↦
            let same : token_loop (suc fuel) l ≡ ok l1 = ground (arith, going, ended) in
            rw same (
              finished_lem l l1 gap r h (blank true (inl refl))
                (rest_empty l1 (rw r.source_same bound) ended))
        | inr more_left ↦
            let same : token_loop (suc fuel) l ≡ (next_token l1 >>= (λ l2. token_loop fuel l2)) =
              ground (arith, going, more_left) in
            let inside1 : l1.position < length l1.source = ground (arith, more_left) in
            let small1 : length l1.source < 2 ^ 32 = rw r.source_same small in
            let gap_is =
              blank false (inr (omega (arith, inside1, rest-length l1 (omega (arith, inside1))))) in
            rw same (
              Meets-bind (IsStep l1) (IsTokenized l) (IsLocated l) (λ l2. token_loop fuel l2)
                (next_token l1)
                (Meets-map (λ l2 step. step)
                  (λ e w. within l l1 e r.source_same (omega (arith, r.position_is)) w)
                  (next_token l1) (next_token-Steps l1 inside1 small1))
                (λ l2 step.
                  let source_same : l2.source ≡ l.source = step.source_same ∙ r.source_same in
                  let size : length l2.source ≡ length l.source = ap length source_same in
                  let forward : 0 < length step.text = Spells-nonempty step.spells in
                  Meets-map (λ l3 t. more_lem l l1 l2 l3 gap r gap_is ink step t)
                    (λ e w.
                      within l l2 e source_same (omega (arith, r.position_is, step.position_is)) w)
                    (token_loop fuel l2)
                    (token_loop_lem fuel l2
                      (omega (arith, size, enough, r.position_is, step.position_is, forward))
                      (omega (
                        arith,
                        size,
                        ap length r.source_same,
                        IsStep-le step (omega (arith, inside1)),
                      ))
                      (rw source_same small))))
      ]
]

-- Total correctness of the lexer: on a text of fewer than 2 ^ 32 bytes, with fuel above their number,
-- it never panics. Either it returns tokens that the lexical grammar finds in the text, each with
-- the span of a text that spells it, white space and comments between them, and `eof` at the end; or
-- an error at an offset inside of the text. No token starts where white space or a comment does, a
-- name, a keyword or a number ends only before a byte that cannot go on with it, no decimal number is
-- the start of `0x` or `0b`, and no symbol with the byte after it is a symbol.
pub tokenize-IsLexed :
    (source : Str) (fuel : ℕ)
    → length source < 2 ^ 32
    → length source < fuel
    → Meets (IsLexed 0 source) (λ e. e.offset < length source) (tokenize fuel (new source))
unfolding tokenize eof_at
tokenize-IsLexed source fuel small enough =
    let l = new source in
    Meets-bind (IsTokenized l) (IsLexed 0 source) (λ e. e.offset < length source) _
      (token_loop fuel l)
      (Meets-map (λ l' t. t) (λ e h. h.1) (token_loop fuel l)
        (token_loop_lem fuel l (omega (arith, enough)) (omega arith) small))
      (λ l' t.
        let fits : l'.position % 2 ^ 32 ≡ l'.position = omega (arith, t.inside_source, small) in
        rw t.tokens_are (rw fits t.lexed))
