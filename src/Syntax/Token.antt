-- ===== src/Syntax/Token.antt =====
-- `Token`, `TokenKind` and `LexError` of crates/wirespec-syntax/src/lexer.rs, and its arms for
-- punctuation and for keywords as tables. The constructor of a keyword starts with `kw_`.
use wirespec.Base.{ℕ, ◌==◌, if◌then◌else◌, List, [], ◌∷◌, Option, none, some}
use wirespec.Base.Int.{ℤ}
use wirespec.Base.Str.{Str, str, str_eq}
use wirespec.Syntax.{Span}

pub data TokenKind : Type 0 where
  name : Str → TokenKind
  integer : ℤ → TokenKind
  string_lit : Str → TokenKind
  kw_module : TokenKind
  kw_import : TokenKind
  kw_const : TokenKind
  kw_enum : TokenKind
  kw_flags : TokenKind
  kw_type : TokenKind
  kw_packet : TokenKind
  kw_frame : TokenKind
  kw_capsule : TokenKind
  kw_state : TokenKind
  kw_machine : TokenKind
  kw_transition : TokenKind
  kw_initial : TokenKind
  kw_terminal : TokenKind
  kw_on : TokenKind
  kw_guard : TokenKind
  kw_action : TokenKind
  kw_delegate : TokenKind
  kw_match : TokenKind
  kw_if : TokenKind
  kw_let : TokenKind
  kw_require : TokenKind
  kw_static_assert : TokenKind
  kw_within : TokenKind
  kw_export : TokenKind
  kw_varint : TokenKind
  kw_bytes : TokenKind
  kw_bits : TokenKind
  kw_bit : TokenKind
  kw_fill : TokenKind
  kw_remaining : TokenKind
  kw_true : TokenKind
  kw_false : TokenKind
  kw_null : TokenKind
  kw_and : TokenKind
  kw_or : TokenKind
  kw_not : TokenKind
  kw_in_state : TokenKind
  kw_all : TokenKind
  l_brace : TokenKind
  r_brace : TokenKind
  l_paren : TokenKind
  r_paren : TokenKind
  l_bracket : TokenKind
  r_bracket : TokenKind
  colon : TokenKind
  colon_colon : TokenKind
  semicolon : TokenKind
  comma : TokenKind
  dot : TokenKind
  dot_dot : TokenKind
  dot_dot_eq : TokenKind
  arrow : TokenKind
  fat_arrow : TokenKind
  assign : TokenKind
  plus_assign : TokenKind
  at_sign : TokenKind
  l_arrow : TokenKind
  plus : TokenKind
  minus : TokenKind
  star : TokenKind
  slash : TokenKind
  percent : TokenKind
  amp : TokenKind
  pipe : TokenKind
  caret : TokenKind
  shl : TokenKind
  shr : TokenKind
  bang : TokenKind
  eq_eq : TokenKind
  bang_eq : TokenKind
  lt : TokenKind
  le : TokenKind
  gt : TokenKind
  ge : TokenKind
  question_question : TokenKind
  tilde : TokenKind
  tilde_gt : TokenKind
  eof : TokenKind

pub record Token : Type 0 where
  pub kind : TokenKind
  pub span : Span

-- The messages of `LexError`, with what `format!` puts into them.
pub data LexMsg : Type 0 where
  unexpected_question : LexMsg
  unexpected_character : ℕ → LexMsg
  invalid_integer : Str → LexMsg
  expected_hex_digit : LexMsg
  invalid_hex : Str → LexMsg
  expected_binary_digit : LexMsg
  invalid_binary : Str → LexMsg
  unterminated_string : LexMsg
  unterminated_escape : LexMsg
  unknown_escape : ℕ → LexMsg

pub record LexError : Type 0 where
  pub msg : LexMsg
  pub offset : ℕ

-- The first of a `match`'s arms whose pattern is the byte or the text.
abbrev pub arm_of {ℓ} : {A : Type ℓ} → ℕ → List (ℕ × A) → Option A
arm_of c [] = none
arm_of c ((d, a) ∷ arms) = if c == d then some a else arm_of c arms

abbrev pub text_arm_of : Str → List (Str × TokenKind) → Option TokenKind
text_arm_of s [] = none
text_arm_of s ((t, kind) ∷ arms) = if str_eq s t then some kind else text_arm_of s arms

-- The bytes that are a token of their own: `{ } ( ) [ ] ; , * % ^ @ & | /`.
abbrev pub punctuation : List (ℕ × TokenKind)
punctuation =
    (123, l_brace)
    ∷ (125, r_brace)
    ∷ (40, l_paren)
    ∷ (41, r_paren)
    ∷ (91, l_bracket)
    ∷ (93, r_bracket)
    ∷ (59, semicolon)
    ∷ (44, comma)
    ∷ (42, star)
    ∷ (37, percent)
    ∷ (94, caret)
    ∷ (64, at_sign)
    ∷ (38, amp)
    ∷ (124, pipe)
    ∷ (47, slash)
    ∷ []

-- The bytes `: - = + ! < > ~`: the second bytes they look for, and the token without one.
abbrev pub compounds : List (ℕ × (List (ℕ × TokenKind) × TokenKind))
compounds =
    (58, ((58, colon_colon) ∷ [], colon))
    ∷ (45, ((62, arrow) ∷ [], minus))
    ∷ (61, ((62, fat_arrow) ∷ (61, eq_eq) ∷ [], assign))
    ∷ (43, ((61, plus_assign) ∷ [], plus))
    ∷ (33, ((61, bang_eq) ∷ [], bang))
    ∷ (60, ((61, le) ∷ (60, shl) ∷ (45, l_arrow) ∷ [], lt))
    ∷ (62, ((61, ge) ∷ (62, shr) ∷ [], gt))
    ∷ (126, ((62, tilde_gt) ∷ [], tilde))
    ∷ []

abbrev pub keywords : List (Str × TokenKind)
keywords =
    (str "module", kw_module)
    ∷ (str "import", kw_import)
    ∷ (str "const", kw_const)
    ∷ (str "enum", kw_enum)
    ∷ (str "flags", kw_flags)
    ∷ (str "type", kw_type)
    ∷ (str "packet", kw_packet)
    ∷ (str "frame", kw_frame)
    ∷ (str "capsule", kw_capsule)
    ∷ (str "state", kw_state)
    ∷ (str "machine", kw_machine)
    ∷ (str "transition", kw_transition)
    ∷ (str "initial", kw_initial)
    ∷ (str "terminal", kw_terminal)
    ∷ (str "on", kw_on)
    ∷ (str "guard", kw_guard)
    ∷ (str "action", kw_action)
    ∷ (str "delegate", kw_delegate)
    ∷ (str "match", kw_match)
    ∷ (str "if", kw_if)
    ∷ (str "let", kw_let)
    ∷ (str "require", kw_require)
    ∷ (str "static_assert", kw_static_assert)
    ∷ (str "within", kw_within)
    ∷ (str "export", kw_export)
    ∷ (str "varint", kw_varint)
    ∷ (str "bytes", kw_bytes)
    ∷ (str "bits", kw_bits)
    ∷ (str "bit", kw_bit)
    ∷ (str "fill", kw_fill)
    ∷ (str "remaining", kw_remaining)
    ∷ (str "true", kw_true)
    ∷ (str "false", kw_false)
    ∷ (str "null", kw_null)
    ∷ (str "and", kw_and)
    ∷ (str "or", kw_or)
    ∷ (str "not", kw_not)
    ∷ (str "in_state", kw_in_state)
    ∷ (str "all", kw_all)
    ∷ []
