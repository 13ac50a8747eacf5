-- ===== src/Syntax/Lexer.antt =====
-- `Lexer` of crates/wirespec-syntax/src/lexer.rs: a position in the bytes of the source text, and the
-- tokens so far. A loop over the bytes from the position on is a recursion on them; the loop over the
-- tokens has fuel, and `panic` without it. The field `pos` is `position`.
pub mod Grammar
pub mod Literals
pub mod Names
pub mod Next
pub mod Reads
pub mod Skip
pub mod Strings
pub mod Symbols
pub mod Tokens
mod Tests
use wirespec.Base.{ℕ, zero, suc, ◌+◌, ◌-◌, ◌*◌, ◌%◌, ◌^◌, ltb, leb, ◌==◌, ◌&&◌, ◌||◌, not}
use wirespec.Base.{if◌then◌else◌, Bool, true, false, List, [], ◌∷◌, ◌++◌, Option, none, some}
use wirespec.Base.{length, take, drop}
use wirespec.Base.Int.{ℤ, pos}
use wirespec.Base.Str.{Str}
use wirespec.Base.Outcome.{Outcome, ok, err, panic, ◌>>=◌}
use wirespec.Syntax.{Span}
use wirespec.Syntax.Token.{TokenKind, Token, LexMsg, LexError, arm_of, text_arm_of, punctuation}
use wirespec.Syntax.Token.{
  compounds, keywords, name, integer, string_lit, eof, dot, dot_dot, dot_dot_eq,
}
use wirespec.Syntax.Token.{question_question, unexpected_question, unexpected_character}
use wirespec.Syntax.Token.{invalid_integer, expected_hex_digit, invalid_hex, expected_binary_digit}
use wirespec.Syntax.Token.{invalid_binary, unterminated_string, unterminated_escape, unknown_escape}

pub record Lexer : Type 0 where
  pub source : List ℕ
  pub position : ℕ
  pub tokens : List Token

abbrev pub new : List ℕ → Lexer
new source = record { source = source; position = 0; tokens = [] }

-- `self.source[self.pos..]`.
abbrev pub rest : Lexer → List ℕ
rest l = drop l.position l.source

unfoldable pub moved : ℕ → Lexer → Lexer
moved n l = record l { position = l.position + n }

abbrev pub first_or_zero : List ℕ → ℕ
first_or_zero [] = 0
first_or_zero (c ∷ s) = c

unfoldable pub peek : Lexer → ℕ
peek l = first_or_zero (rest l)

unfoldable pub advance : Lexer → Outcome LexError (ℕ × Lexer)
advance l = elim (rest l) [ [] ↦ panic | c ∷ s ↦ ok (c, moved 1 l) ]

-- How often `while self.pos < self.source.len() && test(self.peek())` advances.
unfoldable pub count_while : (ℕ → Bool) → List ℕ → ℕ
count_while test [] = 0
count_while test (c ∷ s) = let more = count_while test s in if test c then suc more else 0

unfoldable pub advance_while : (ℕ → Bool) → Lexer → Lexer
advance_while test l = moved (count_while test (rest l)) l

abbrev pub is_space : ℕ → Bool
is_space c = (c == 32) || ((c == 9) || ((c == 13) || (c == 10)))

-- How many bytes `skip_whitespace_and_comments` passes, from outside of a comment or from in one.
unfoldable pub skip_len : Bool → List ℕ → ℕ
skip_len in_comment [] = 0
skip_len true (c ∷ s) = suc (skip_len (not (c == 10)) s)
skip_len false (c ∷ s) =
    let more = skip_len (not (is_space c)) s in
    if is_space c || ((c == 35) || (c == 47 && first_or_zero s == 47)) then suc more else 0

unfoldable pub skip_whitespace_and_comments : Lexer → Lexer
skip_whitespace_and_comments l = moved (skip_len false (rest l)) l

-- `self.tokens.push(Token { kind, span: Span::new(start as u32, (self.pos - start) as u32) })`.
unfoldable pub push_token : TokenKind → ℕ → Lexer → Outcome LexError Lexer
push_token kind start l =
    if leb start l.position
    then ok (record l {
      tokens =
          l.tokens
          ++ (record {
            kind = kind;
            span = record { offset = start % 2 ^ 32; len = (l.position - start) % 2 ^ 32 };
          }
              ∷ []);
    })
    else panic

abbrev pub fail {ℓ} : {A : Type ℓ} → LexMsg → ℕ → Outcome LexError A
fail msg offset = err (record { msg = msg; offset = offset })

abbrev pub is_digit : ℕ → Bool
is_digit c = leb 48 c && leb c 57

abbrev pub is_hex_digit : ℕ → Bool
is_hex_digit c = is_digit c || ((leb 65 c && leb c 70) || (leb 97 c && leb c 102))

abbrev pub is_binary_digit : ℕ → Bool
is_binary_digit c = (c == 48) || (c == 49)

abbrev pub is_alphabetic : ℕ → Bool
is_alphabetic c = (leb 65 c && leb c 90) || (leb 97 c && leb c 122)

abbrev pub or_underscore : (ℕ → Bool) → ℕ → Bool
or_underscore test c = test c || (c == 95)

abbrev pub is_name_byte : ℕ → Bool
is_name_byte c = or_underscore (λ b. is_alphabetic b || is_digit b) c

-- `.filter(|&&b| b != b'_')`.
unfoldable pub without_underscores : Str → Str
without_underscores [] = []
without_underscores (c ∷ s) = let more = without_underscores s in if c == 95 then more else c ∷ more

-- `char::to_digit`, of the ASCII digits that the callers have checked.
abbrev pub to_digit : ℕ → ℕ
to_digit c = if leb c 57 then c - 48 else if leb c 70 then c - 55 else c - 87

-- `i64::from_str_radix` and, in base 10, `parse`, of digits.
unfoldable pub from_digits : ℕ → ℕ → Str → Option ℕ
from_digits radix acc [] = some acc
from_digits radix acc (c ∷ s) =
    let next = acc * radix + to_digit c in
    elim (ltb next (2 ^ 63)) [ true ↦ from_digits radix next s | false ↦ none ]

unfoldable pub from_str_radix : ℕ → Str → Option ℤ
from_str_radix radix [] = none
from_str_radix radix (c ∷ s) = elim (from_digits radix 0 (c ∷ s)) [
  | none ↦ none
  | some n ↦ some (pos n)
]

-- `self.source[from..self.pos]`.
unfoldable pub text_from : ℕ → Lexer → Outcome LexError Str
text_from start l =
    if leb start l.position && leb l.position (length l.source)
    then ok (take (l.position - start) (drop start l.source))
    else panic

-- The end that the three forms of integer share: the digits from `from` on, without `_`.
unfoldable pub push_integer : ℕ → (Str → LexMsg) → ℕ → ℕ → Lexer → Outcome LexError Lexer
push_integer radix invalid from start l = do
  slice ← text_from from l
  elim (from_str_radix radix (without_underscores slice)) [
    | none ↦ fail (invalid (without_underscores slice)) start
    | some value ↦ push_token (integer value) start l
  ]

unfoldable pub lex_decimal : ℕ → Lexer → Outcome LexError Lexer
lex_decimal start l =
    push_integer 10 invalid_integer start start (advance_while (or_underscore is_digit) l)

-- `lex_hex` and `lex_binary`, which differ in their digits and messages.
unfoldable pub lex_prefixed :
    ℕ → (ℕ → Bool) → LexMsg → (Str → LexMsg) → ℕ → Lexer → Outcome LexError Lexer
lex_prefixed radix test expected invalid start l = elim (rest l) [
  | [] ↦ fail expected start
  | c ∷ s ↦
      if test c
      then push_integer radix invalid (start + 2) start (advance_while (or_underscore test) l)
      else fail expected start
]

unfoldable pub lex_hex : ℕ → Lexer → Outcome LexError Lexer
lex_hex = lex_prefixed 16 is_hex_digit expected_hex_digit invalid_hex

unfoldable pub lex_binary : ℕ → Lexer → Outcome LexError Lexer
lex_binary = lex_prefixed 2 is_binary_digit expected_binary_digit invalid_binary

-- The byte that an escape stands for.
abbrev pub escapes : List (ℕ × ℕ)
escapes = (110, 10) ∷ (116, 9) ∷ (92, 92) ∷ (34, 34) ∷ []

-- The loop of `lex_string` on the bytes from `at` on, with `value` so far: the literal's value and
-- the position after its closing quote. A byte is pushed `as char`.
unfoldable pub lex_chars : ℕ → ℕ → Str → List ℕ → Outcome LexError (Str × ℕ)
lex_chars start at value [] = fail unterminated_string start
lex_chars start at value (ch ∷ []) =
    if ch == 34
    then ok (value, at + 1)
    else if ch == 92
    then fail unterminated_escape start
    else fail unterminated_string start
lex_chars start at value (ch ∷ esc ∷ s) =
    if ch == 34
    then ok (value, at + 1)
    else if ch == 92
    then elim (arm_of esc escapes) [
      | none ↦ fail (unknown_escape esc) (at + 1)
      | some b ↦ lex_chars start (at + 2) (value ++ (b ∷ [])) s
    ]
    else lex_chars start (at + 1) (value ++ (ch ∷ [])) (esc ∷ s)

unfoldable pub lex_string : ℕ → Lexer → Outcome LexError Lexer
lex_string start l = do
  (value, end) ← lex_chars start l.position [] (rest l)
  push_token (string_lit value) start (record l { position = end })

abbrev pub name_kind : Str → TokenKind
name_kind s = elim (text_arm_of s keywords) [ none ↦ name s | some kind ↦ kind ]

-- The bytes are ASCII, so that `from_utf8` does not fail on them.
unfoldable pub lex_name : ℕ → Lexer → Outcome LexError Lexer
lex_name start l = do
  text ← text_from start (advance_while is_name_byte l)
  push_token (name_kind text) start (advance_while is_name_byte l)

-- A second byte that the arm looks for is passed.
unfoldable pub lex_compound : List (ℕ × TokenKind) → TokenKind → ℕ → Lexer → Outcome LexError Lexer
lex_compound arms other start l = elim (arm_of (peek l) arms) [
  | none ↦ push_token other start l
  | some kind ↦ do (b, l1) ← advance l; push_token kind start l1
]

unfoldable pub lex_dot : ℕ → Lexer → Outcome LexError Lexer
lex_dot start l =
    if peek l == 46
    then (do (b, l1) ← advance l; lex_compound ((61, dot_dot_eq) ∷ []) dot_dot start l1)
    else push_token dot start l

unfoldable pub lex_question : ℕ → Lexer → Outcome LexError Lexer
lex_question start l =
    if peek l == 63
    then (do (b, l1) ← advance l; push_token question_question start l1)
    else fail unexpected_question start

-- The arms after the punctuation's.
unfoldable pub lex_word : ℕ → ℕ → Lexer → Outcome LexError Lexer
lex_word ch start l =
    if ch == 34
    then lex_string start l
    else if ch == 48 && ((peek l == 120) || (peek l == 88))
    then (do (b, l1) ← advance l; lex_hex start l1)
    else if ch == 48 && ((peek l == 98) || (peek l == 66))
    then (do (b, l1) ← advance l; lex_binary start l1)
    else if is_digit ch
    then lex_decimal start l
    else if is_alphabetic ch || (ch == 95)
    then lex_name start l
    else fail (unexpected_character ch) start

unfoldable pub lex_other : ℕ → ℕ → Lexer → Outcome LexError Lexer
lex_other ch start l =
    if ch == 46
    then lex_dot start l
    else if ch == 63
    then lex_question start l
    else lex_word ch start l

-- The arms of the two tables, if the byte has one.
abbrev pub lex_arm :
    Option TokenKind
    → Option (List (ℕ × TokenKind) × TokenKind)
    → ℕ
    → ℕ
    → Lexer
    → Outcome LexError Lexer
lex_arm (some kind) double ch start l = push_token kind start l
lex_arm none (some (arms, other)) ch start l = lex_compound arms other start l
lex_arm none none ch start l = lex_other ch start l

unfoldable pub lex_symbol : ℕ → ℕ → Lexer → Outcome LexError Lexer
lex_symbol ch start l = lex_arm (arm_of ch punctuation) (arm_of ch compounds) ch start l

unfoldable pub next_token : Lexer → Outcome LexError Lexer
next_token l = do (ch, l1) ← advance l; lex_symbol ch l.position l1

abbrev pub at_end : Lexer → Bool
at_end l = leb (length l.source) l.position

-- The loop of `tokenize`.
unfoldable pub token_loop : ℕ → Lexer → Outcome LexError Lexer
token_loop zero l = panic
token_loop (suc fuel) l = elim (at_end l) [
  | true ↦ ok l
  | false ↦
      let l1 = skip_whitespace_and_comments l in
      elim (at_end l1) [ true ↦ ok l1 | false ↦ do l2 ← next_token l1; token_loop fuel l2 ]
]

unfoldable pub tokenize : ℕ → Lexer → Outcome LexError (List Token)
tokenize fuel l = do
  l1 ← token_loop fuel l
  ok (
      l1.tokens
      ++ (record { kind = eof; span = record { offset = l1.position % 2 ^ 32; len = 0 } } ∷ []))
