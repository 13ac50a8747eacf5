-- ===== src/Syntax/Lexer/Grammar.antt =====
-- The lexical grammar that crates/wirespec-syntax/src/lexer.rs reads, described apart from its loops:
-- how each kind of token is written, and how a text is divided into tokens and the gaps between them.
use wirespec.Base.{
  ℕ, ◌+◌, ◌*◌, ◌^◌, ◌<◌, ◌==◌, ◌&&◌, ◌||◌, Bool, true, false, List, [], ◌∷◌, ◌++◌, Option, none,
  some,
}
use wirespec.Base.{◌≡◌, ◌⊎◌, All, length}
use wirespec.Base.Int.{ℤ, pos}
use wirespec.Base.Str.{Str, str, has}
use wirespec.Syntax.Token.{kw_module, kw_import, kw_const, kw_enum, kw_flags, kw_type, kw_packet}
use wirespec.Syntax.Token.{kw_frame, kw_capsule, kw_state, kw_machine, kw_transition, kw_initial}
use wirespec.Syntax.Token.{kw_terminal, kw_on, kw_guard, kw_action, kw_delegate, kw_match, kw_if}
use wirespec.Syntax.Token.{kw_let, kw_require, kw_static_assert, kw_within, kw_export, kw_varint}
use wirespec.Syntax.Token.{kw_bytes, kw_bits, kw_bit, kw_fill, kw_remaining, kw_true, kw_false}
use wirespec.Syntax.Token.{kw_null, kw_and, kw_or, kw_not, kw_in_state, kw_all, l_brace, r_brace}
use wirespec.Syntax.Token.{l_paren, r_paren, l_bracket, r_bracket, colon, colon_colon, semicolon}
use wirespec.Syntax.Token.{comma, dot, dot_dot, dot_dot_eq, arrow, fat_arrow, assign}
use wirespec.Syntax.Token.{plus_assign, at_sign, l_arrow, plus, minus, star, slash, percent, amp}
use wirespec.Syntax.Token.{pipe, caret, shl, shr, bang, eq_eq, bang_eq, lt, le, gt, ge}
use wirespec.Syntax.Token.{question_question, tilde, tilde_gt, eof, name, integer, string_lit}
use wirespec.Syntax.Token.{TokenKind, Token}
use wirespec.Syntax.Token.{arm_of, text_arm_of, keywords}
use wirespec.Syntax.Lexer.{
  first_or_zero, is_space, is_digit, is_hex_digit, is_binary_digit, is_alphabetic,
}
use wirespec.Syntax.Lexer.{is_name_byte, or_underscore, to_digit, escapes}

-- The one text of a keyword or a symbol.
abbrev pub spelling : TokenKind → Option Str
spelling kw_module = some (str "module")
spelling kw_import = some (str "import")
spelling kw_const = some (str "const")
spelling kw_enum = some (str "enum")
spelling kw_flags = some (str "flags")
spelling kw_type = some (str "type")
spelling kw_packet = some (str "packet")
spelling kw_frame = some (str "frame")
spelling kw_capsule = some (str "capsule")
spelling kw_state = some (str "state")
spelling kw_machine = some (str "machine")
spelling kw_transition = some (str "transition")
spelling kw_initial = some (str "initial")
spelling kw_terminal = some (str "terminal")
spelling kw_on = some (str "on")
spelling kw_guard = some (str "guard")
spelling kw_action = some (str "action")
spelling kw_delegate = some (str "delegate")
spelling kw_match = some (str "match")
spelling kw_if = some (str "if")
spelling kw_let = some (str "let")
spelling kw_require = some (str "require")
spelling kw_static_assert = some (str "static_assert")
spelling kw_within = some (str "within")
spelling kw_export = some (str "export")
spelling kw_varint = some (str "varint")
spelling kw_bytes = some (str "bytes")
spelling kw_bits = some (str "bits")
spelling kw_bit = some (str "bit")
spelling kw_fill = some (str "fill")
spelling kw_remaining = some (str "remaining")
spelling kw_true = some (str "true")
spelling kw_false = some (str "false")
spelling kw_null = some (str "null")
spelling kw_and = some (str "and")
spelling kw_or = some (str "or")
spelling kw_not = some (str "not")
spelling kw_in_state = some (str "in_state")
spelling kw_all = some (str "all")
spelling l_brace = some (str "{")
spelling r_brace = some (str "}")
spelling l_paren = some (str "(")
spelling r_paren = some (str ")")
spelling l_bracket = some (str "[")
spelling r_bracket = some (str "]")
spelling colon = some (str ":")
spelling colon_colon = some (str "::")
spelling semicolon = some (str ";")
spelling comma = some (str ",")
spelling dot = some (str ".")
spelling dot_dot = some (str "..")
spelling dot_dot_eq = some (str "..=")
spelling arrow = some (str "->")
spelling fat_arrow = some (str "=>")
spelling assign = some (str "=")
spelling plus_assign = some (str "+=")
spelling at_sign = some (str "@")
spelling l_arrow = some (str "<-")
spelling plus = some (str "+")
spelling minus = some (str "-")
spelling star = some (str "*")
spelling slash = some (str "/")
spelling percent = some (str "%")
spelling amp = some (str "&")
spelling pipe = some (str "|")
spelling caret = some (str "^")
spelling shl = some (str "<<")
spelling shr = some (str ">>")
spelling bang = some (str "!")
spelling eq_eq = some (str "==")
spelling bang_eq = some (str "!=")
spelling lt = some (str "<")
spelling le = some (str "<=")
spelling gt = some (str ">")
spelling ge = some (str ">=")
spelling question_question = some (str "??")
spelling tilde = some (str "~")
spelling tilde_gt = some (str "~>")
spelling (name s) = none
spelling (integer z) = none
spelling (string_lit s) = none
spelling eof = none

-- The number that digits write, with `_` passed over and no bound.
unfoldable pub value : ℕ → ℕ → Str → ℕ
value radix acc [] = acc
value radix acc (c ∷ s) = elim (c == 95) [
  | true ↦ value radix acc s
  | false ↦ value radix (acc * radix + to_digit c) s
]

abbrev pub IsDigits : ℕ → (ℕ → Bool) → ℤ → Str → Type 0
IsDigits radix test z [] = ⊥
IsDigits radix test z (c ∷ s) =
    (test c ≡ true)
    × All (λ b. or_underscore test b ≡ true) s
    × (z ≡ pos (value radix 0 (c ∷ s)))
    × (value radix 0 (c ∷ s) < 2 ^ 63)

-- What follows does not go on with such a byte.
abbrev pub IsEnded : (ℕ → Bool) → Str → Type 0
IsEnded test [] = Unit
IsEnded test (c ∷ s) = test c ≡ false

-- The text does not start with `0x` or `0b`, in either case of the letter.
abbrev pub IsUnprefixed : Str → Type 0
IsUnprefixed [] = Unit
IsUnprefixed (c ∷ []) = Unit
IsUnprefixed (c ∷ x ∷ s) =
    ((c == 48 && ((x == 120) || (x == 88))) ≡ false)
    × ((c == 48 && ((x == 98) || (x == 66))) ≡ false)

pub data IsNumeral (z : ℤ) : Str → Str → Type 0 where
  decimal :
      {s r : Str}
      → IsDigits 10 is_digit z s
      → IsEnded (or_underscore is_digit) r
      → IsUnprefixed (s ++ r)
      → IsNumeral z s r
  hex :
      {x : ℕ} {s r : Str}
      → (x ≡ 120) ⊎ (x ≡ 88)
      → IsDigits 16 is_hex_digit z s
      → IsEnded (or_underscore is_hex_digit) r
      → IsNumeral z (48 ∷ x ∷ s) r
  binary :
      {x : ℕ} {s r : Str}
      → (x ≡ 98) ⊎ (x ≡ 66)
      → IsDigits 2 is_binary_digit z s
      → IsEnded (or_underscore is_binary_digit) r
      → IsNumeral z (48 ∷ x ∷ s) r

-- A string literal's value, and its bytes after the opening quote.
pub data IsEscaped : Str → Str → Type 0 where
  close : IsEscaped [] (34 ∷ [])
  escape :
      {e b : ℕ} {v s : Str}
      → arm_of e escapes ≡ some b
      → IsEscaped v s
      → IsEscaped (b ∷ v) (92 ∷ e ∷ s)
  plain :
      {c : ℕ} {v s : Str}
      → (c == 34) ≡ false
      → (c == 92) ≡ false
      → IsEscaped v s
      → IsEscaped (c ∷ v) (c ∷ s)

abbrev pub IsWord : Str → Type 0
IsWord [] = ⊥
IsWord (c ∷ s) = (or_underscore is_alphabetic c ≡ true) × All (λ b. is_name_byte b ≡ true) s

abbrev pub symbols : List Str
symbols =
    str "{"
    ∷ str "}"
    ∷ str "("
    ∷ str ")"
    ∷ str "["
    ∷ str "]"
    ∷ str ":"
    ∷ str "::"
    ∷ str ";"
    ∷ str ","
    ∷ str "."
    ∷ str ".."
    ∷ str "..="
    ∷ str "->"
    ∷ str "=>"
    ∷ str "="
    ∷ str "+="
    ∷ str "@"
    ∷ str "<-"
    ∷ str "+"
    ∷ str "-"
    ∷ str "*"
    ∷ str "/"
    ∷ str "%"
    ∷ str "&"
    ∷ str "|"
    ∷ str "^"
    ∷ str "<<"
    ∷ str ">>"
    ∷ str "!"
    ∷ str "=="
    ∷ str "!="
    ∷ str "<"
    ∷ str "<="
    ∷ str ">"
    ∷ str ">="
    ∷ str "??"
    ∷ str "~"
    ∷ str "~>"
    ∷ []

-- The symbol `t` with the next byte is not a longer one.
abbrev pub IsLongest : Str → Str → Type 0
IsLongest t [] = Unit
IsLongest t (d ∷ s) = has symbols (t ++ (d ∷ [])) ≡ false

-- `t` is the text of `kind` and a symbol, so no keyword.
abbrev pub IsSymbol : TokenKind → Str → Type 0
IsSymbol kind t = (spelling kind ≡ some t) × (has symbols t ≡ true)

-- How a token is written, before what follows it: it is the longest of its kind.
pub data Spells : TokenKind → Str → Str → Type 0 where
  symbol :
      {kind : TokenKind} {c : ℕ} {t r : Str}
      → IsSymbol kind (c ∷ t)
      → IsLongest (c ∷ t) r
      → Spells kind (c ∷ t) r
  keyword :
      {kind : TokenKind} {t r : Str}
      → spelling kind ≡ some t
      → IsWord t
      → IsEnded is_name_byte r
      → Spells kind t r
  word :
      {s r : Str}
      → IsWord s
      → text_arm_of s keywords ≡ none
      → IsEnded is_name_byte r
      → Spells (name s) s r
  numeral : {z : ℤ} {t r : Str} → IsNumeral z t r → Spells (integer z) t r
  quoted : {v s r : Str} → IsEscaped v s → Spells (string_lit v) (34 ∷ s) r

-- White space and whole comments, from outside of a comment (`false`) or from in one. Where `last`,
-- the text may end in a comment.
pub data IsBlank (last : Bool) : Bool → Str → Type 0 where
  done : IsBlank last false []
  unclosed : last ≡ true → IsBlank last true []
  space : {c : ℕ} {s : Str} → is_space c ≡ true → IsBlank last false s → IsBlank last false (c ∷ s)
  hash : {s : Str} → IsBlank last true s → IsBlank last false (35 ∷ s)
  slashes : {s : Str} → IsBlank last true (47 ∷ s) → IsBlank last false (47 ∷ 47 ∷ s)
  inside : {c : ℕ} {s : Str} → (c == 10) ≡ false → IsBlank last true s → IsBlank last true (c ∷ s)
  newline : {s : Str} → IsBlank last false s → IsBlank last true (10 ∷ s)

-- White space and comments do not start here.
abbrev pub IsInk : Str → Type 0
IsInk [] = Unit
IsInk (c ∷ s) =
    (is_space c ≡ false) × ((c == 35) ≡ false) × ((c == 47 && first_or_zero s == 47) ≡ false)

-- A text that starts at `at`, divided into tokens, which their spans locate; `eof` is at its end.
pub data IsLexed : ℕ → Str → List Token → Type 0 where
  end :
      (at : ℕ) (gap : Str)
      → IsBlank true false gap
      → IsLexed at gap
          (record { kind = eof; span = record { offset = at + length gap; len = 0 } } ∷ [])
  more :
      (at : ℕ) (gap text s : Str) (kind : TokenKind) (ts : List Token)
      → IsBlank false false gap
      → IsInk (text ++ s)
      → Spells kind text s
      → IsLexed (at + length gap + length text) s ts
      → IsLexed at (gap ++ (text ++ s)) (
          record { kind = kind; span = record { offset = at + length gap; len = length text } }
          ∷ ts)
