-- ===== src/Syntax/Lexer/Names.antt =====
-- The lexer's names and keywords are written as the grammar says.
use wirespec.Base.{ℕ, ◌^◌, ◌<◌, true}
use wirespec.Base.{List, [], ◌∷◌, ◌≡◌, ap, subst, arith, none, some}
use wirespec.Base.{length, All, inl, inr, Bool-cases, Option-cases}
use wirespec.Base.Str.{Str, str_eq, str_eq→eq}
use wirespec.Syntax.Token.{name, keywords, text_arm_of}
use wirespec.Syntax.Lexer.{is_alphabetic, is_name_byte, name_kind, lex_name}
use wirespec.Syntax.Lexer.Grammar.{Spells, spelling, IsWord, IsEnded, keyword, word}
use wirespec.Syntax.Lexer.Reads.{advance_while_lem}
use wirespec.Base.Outcome.{ok}
use wirespec.Syntax.Token.{TokenKind}
use wirespec.Syntax.Lexer.{Lexer, advance_while, text_from}
use wirespec.Syntax.Lexer.{or_underscore}
use wirespec.Syntax.Lexer.Reads.{Reads, Steps, push_token-Steps, text_from-Reads, Reads-append}

text_arm_of-Spells :
    (arms : List (Str × TokenKind)) (s : Str) (kind : TokenKind)
    → All (λ a. spelling a.1 ≡ some a.0) arms
    → text_arm_of s arms ≡ some kind
    → spelling kind ≡ some s
text_arm_of-Spells [] s kind all h = absurd cc
text_arm_of-Spells ((t, k) ∷ arms) s kind all h = elim (Bool-cases (str_eq s t)) [
  | inl hit ↦
      let same : k ≡ kind = ground (arith, h, hit) in
      subst (λ (x : TokenKind). spelling x ≡ some s) same (rw (str_eq→eq s t hit) all.0)
  | inr miss ↦ text_arm_of-Spells arms s kind all.1 (ground (arith, h, miss))
]

keywords_spelled : All (λ a. spelling a.1 ≡ some a.0) keywords
keywords_spelled = search tt

-- A word is a keyword, or else a name.
name_kind-Spells : (s r : Str) → IsWord s → IsEnded is_name_byte r → Spells (name_kind s) s r
name_kind-Spells s r written ended = elim (Option-cases (text_arm_of s keywords)) [
  | inl fresh ↦
      let same : name_kind s ≡ name s =
        ap (λ o. elim o [ none ↦ name s | some kind ↦ kind ]) fresh in
      rw same (word written fresh ended)
  | inr (kind, found) ↦
      let same : name_kind s ≡ kind = ap (λ o. elim o [ none ↦ name s | some k ↦ k ]) found in
      rw same (keyword (text_arm_of-Spells keywords s kind keywords_spelled found) written ended)
]

pub lex_name-Steps :
    (l l1 : Lexer) (c : ℕ)
    → Reads l (c ∷ []) l1
    → or_underscore is_alphabetic c ≡ true
    → l.position < length l.source
    → length l.source < 2 ^ 32
    → Steps l (lex_name l.position l1)
unfolding lex_name
lex_name-Steps l l1 c p first inside small =
    let (text, all, r, _, ended) = advance_while_lem is_name_byte l1 in
    let both = Reads-append p r in
    let slice : text_from l.position (advance_while is_name_byte l1) ≡ ok (c ∷ text) =
      text_from-Reads both (omega (arith, inside)) in
    rw slice (
      push_token-Steps both (name_kind-Spells (c ∷ text) _ (first, all) ended)
        (omega (arith, inside)) small)
