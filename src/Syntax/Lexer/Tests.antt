-- ===== src/Syntax/Lexer/Tests.antt =====
-- Runs of the lexer on short texts, with its theorem at one of them.
use wirespec.Base.{◌≡◌, ◌<◌, refl, arith, List, [], ◌∷◌, map, length}
use wirespec.Base.Int.{pos}
use wirespec.Base.Str.{Str, str, str_eq}
use wirespec.Base.Outcome.{Outcome, ok, err, Meets}
use wirespec.Syntax.Token.{TokenKind, LexError, kw_packet, integer, name, dot_dot_eq, l_arrow, eof}
use wirespec.Syntax.Token.{invalid_integer}
use wirespec.Syntax.Lexer.{new, tokenize, token_loop, next_token, lex_symbol, lex_other, lex_word}
use wirespec.Syntax.Lexer.{
  lex_compound, lex_dot, lex_name, lex_hex, lex_prefixed, lex_binary, lex_decimal,
}
use wirespec.Syntax.Lexer.{lex_string, lex_question, push_token, push_integer, text_from, advance}
use wirespec.Syntax.Lexer.{
  advance_while, count_while, peek, moved, skip_whitespace_and_comments, skip_len,
}
use wirespec.Syntax.Lexer.{without_underscores, from_digits, from_str_radix}
use wirespec.Syntax.Lexer.Grammar.{IsLexed}
use wirespec.Syntax.Lexer.Tokens.{tokenize-IsLexed}

abbrev kinds_of : Str → Outcome LexError (List TokenKind)
kinds_of s = elim (tokenize 100 (new s)) [
  | Outcome.ok ts ↦ ok (map (λ t. t.kind) ts)
  | Outcome.err e ↦ err e
  | Outcome.panic ↦ Outcome.panic
]

abbrev packet_text : Str
packet_text = str "packet 0xFf a_b ..= <- // x"

packet_kinds :
    kinds_of packet_text
    ≡ ok (kw_packet ∷ integer (pos 255) ∷ name (str "a_b") ∷ dot_dot_eq ∷ l_arrow ∷ eof ∷ [])
unfolding tokenize token_loop next_token lex_symbol lex_other lex_word lex_compound lex_dot lex_name
    lex_hex lex_prefixed lex_binary lex_decimal lex_string lex_question push_token push_integer
    text_from advance advance_while count_while peek moved skip_whitespace_and_comments skip_len
    without_underscores from_digits from_str_radix str_eq
packet_kinds = refl

too_large :
    kinds_of (str "9223372036854775808")
    ≡ err (record { msg = invalid_integer (str "9223372036854775808"); offset = 0 })
unfolding tokenize token_loop next_token lex_symbol lex_other lex_word lex_compound lex_dot lex_name
    lex_hex lex_prefixed lex_binary lex_decimal lex_string lex_question push_token push_integer
    text_from advance advance_while count_while peek moved skip_whitespace_and_comments skip_len
    without_underscores from_digits from_str_radix str_eq
too_large = refl

tokenize-IsLexed_example :
    Meets
      (IsLexed 0 packet_text)
      (λ e. e.offset < length packet_text)
      (tokenize 100 (new packet_text))
tokenize-IsLexed_example = tokenize-IsLexed packet_text 100 (omega arith) (omega arith)
