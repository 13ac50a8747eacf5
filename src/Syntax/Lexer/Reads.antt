-- ===== src/Syntax/Lexer/Reads.antt =====
-- What the lexer's steps have in common: the bytes that one reads, from a position to a later one.
use mathlib.Core.List.{append_assoc}
use wirespec.Base.{ℕ, suc, ◌+◌, ◌-◌, ◌%◌, ◌^◌, ◌≤◌, ◌<◌, Bool, true}
use wirespec.Base.{List, [], ◌∷◌, ◌++◌, ◌≡◌, refl, sym, ap, subst, ◌∙◌, arith, le→leb}
use wirespec.Base.{
  length, take, drop, All, length-append, drop-append_length, take-append_length, drop-drop,
}
use wirespec.Base.{take-append-drop, length-drop, Bool-cases, ◌⊎◌, inl, inr}
use wirespec.Base.Str.{Str}
use wirespec.Base.Outcome.{Outcome, ok, Meets}
use wirespec.Syntax.Token.{TokenKind, LexError}
use wirespec.Syntax.Lexer.{
  Lexer, rest, moved, advance, count_while, advance_while, push_token, text_from,
}
use wirespec.Syntax.Lexer.Grammar.{Spells, IsEnded}

pub list_split : (s : List ℕ) → (s ≡ []) ⊎ ((c : ℕ) × (t : List ℕ) × (s ≡ c ∷ t))
list_split [] = inl refl
list_split (c ∷ t) = inr (c, t, refl)

-- From `l` to `l'`, nothing changes but that `text` is read.
pub record Reads (l : Lexer) (text : Str) (l' : Lexer) : Type 0 where
  pub source_same : l'.source ≡ l.source
  pub tokens_same : l'.tokens ≡ l.tokens
  pub position_is : l'.position ≡ l.position + length text
  pub rest_is : rest l ≡ text ++ rest l'

pub Reads-moved :
    (l : Lexer) (text s : Str) (n : ℕ)
    → rest l ≡ text ++ s
    → n ≡ length text
    → Reads l text (moved n l) × (rest (moved n l) ≡ s)
unfolding moved
Reads-moved l text s n e m =
    let after : drop (l.position + n) l.source ≡ s =
      sym (drop-drop l.source l.position n) ∙ ap (drop n) e ∙ drop-append_length text s n m in
    (
      record {
        source_same = refl;
        tokens_same = refl;
        position_is = ap (λ k. l.position + k) m;
        rest_is = rw after e;
      },
      after,
    )

pub Reads-refl : (l : Lexer) → Reads l [] l
Reads-refl l = record {
  source_same = refl;
  tokens_same = refl;
  position_is = omega arith;
  rest_is = refl;
}

pub Reads-append :
    {l l1 l2 : Lexer} {s t : Str} → Reads l s l1 → Reads l1 t l2 → Reads l (s ++ t) l2
Reads-append {l2 = l2} {s = s} {t = t} r q = record {
  source_same = q.source_same ∙ r.source_same;
  tokens_same = q.tokens_same ∙ r.tokens_same;
  position_is = omega (arith, r.position_is, q.position_is, length-append s t);
  rest_is = r.rest_is ∙ ap (λ z. s ++ z) q.rest_is ∙ sym (append_assoc s t (rest l2));
}

pub advance_lem :
    (l : Lexer) (c : ℕ) (s : Str)
    → rest l ≡ c ∷ s
    → (advance l ≡ ok (c, moved 1 l)) × Reads l (c ∷ []) (moved 1 l) × (rest (moved 1 l) ≡ s)
unfolding advance
advance_lem l c s e = let r = Reads-moved l (c ∷ []) s 1 e refl in (ground (arith, e), r.0, r.1)

count_while_lem :
    (test : ℕ → Bool) (s : Str)
    → All (λ b. test b ≡ true) (take (count_while test s) s)
      × (length (take (count_while test s) s) ≡ count_while test s)
      × IsEnded test (drop (count_while test s) s)
unfolding count_while
count_while_lem test [] = (tt, refl, tt)
count_while_lem test (c ∷ s) = elim (Bool-cases (test c)) [
  | inl hit ↦ rw hit (let more = count_while_lem test s in ((hit, more.0), ap suc more.1, more.2))
  | inr miss ↦ rw miss (tt, refl, miss)
]

pub advance_while_lem :
    (test : ℕ → Bool) (l : Lexer)
    → (text : Str) × All (λ b. test b ≡ true) text
      × Reads l text (advance_while test l)
      × (text ≡ take (count_while test (rest l)) (rest l))
      × IsEnded test (rest (advance_while test l))
unfolding advance_while
advance_while_lem test l =
    let n = count_while test (rest l) in
    let scanned = count_while_lem test (rest l) in
    let moves =
      Reads-moved l (take n (rest l)) (drop n (rest l)) n (sym (take-append-drop n (rest l)))
        (sym scanned.1) in
    (take n (rest l), scanned.0, moves.0, refl, subst (IsEnded test) (sym moves.1) scanned.2)

-- The bytes left, counted from inside of the source.
pub rest-length :
    (l : Lexer) → l.position ≤ length l.source → l.position + length (rest l) ≡ length l.source
rest-length l h = omega (arith, h, length-drop l.position l.source)

pub Reads-le :
    {l l' : Lexer} {text : Str}
    → Reads l text l'
    → l.position ≤ length l.source
    → l'.position ≤ length l.source
Reads-le {l = l} {l' = l'} {text = text} r h =
    omega
      (arith, h, rest-length l h, ap length r.rest_is, length-append text (rest l'), r.position_is)

-- The slice of what is read from `l` on.
pub text_from-Reads :
    {l l' : Lexer} {text : Str}
    → Reads l text l'
    → l.position ≤ length l.source
    → text_from l.position l' ≡ ok text
unfolding text_from
text_from-Reads {l = l} {l' = l'} {text = text} r h =
    let slice : take (l'.position - l.position) (drop l.position l'.source) ≡ text =
      rw r.source_same (
        rw r.rest_is (
          take-append_length text (rest l') (l'.position - l.position)
            (omega (arith, r.position_is)))) in
    rw (le→leb l.position l'.position (omega (arith, r.position_is)))
      (rw (le→leb l'.position (length l'.source) (rw r.source_same (Reads-le r h))) (rw slice refl))

-- A step has read the text of one token, and pushed it with its span.
pub record IsStep (l l' : Lexer) : Type 0 where
  pub kind : TokenKind
  pub text : Str
  pub source_same : l'.source ≡ l.source
  pub position_is : l'.position ≡ l.position + length text
  pub rest_is : rest l ≡ text ++ rest l'
  pub spells : Spells kind text (rest l')
  pub tokens_are :
      l'.tokens
      ≡ l.tokens
        ++ (record { kind = kind; span = record { offset = l.position; len = length text } } ∷ [])

-- An error that is located in the source, from the start of the token on.
abbrev pub IsLocated : Lexer → LexError → Type 0
IsLocated l e = (l.position ≤ e.offset) × (e.offset < length l.source)

abbrev pub Steps : Lexer → Outcome LexError Lexer → Type 0
Steps l = Meets (IsStep l) (IsLocated l)

pub push_token-Steps :
    {l l' : Lexer} {text : Str} {kind : TokenKind}
    → Reads l text l'
    → Spells kind text (rest l')
    → l.position ≤ length l.source
    → length l.source < 2 ^ 32
    → Steps l (push_token kind l.position l')
unfolding push_token
push_token-Steps {l = l} {l' = l'} {text = text} {kind = kind} r spells h small =
    let bound = Reads-le r h in
    let offset : l.position % 2 ^ 32 ≡ l.position = omega (arith, h, small) in
    let len : (l'.position - l.position) % 2 ^ 32 ≡ length text =
      omega (arith, bound, small, r.position_is) in
    rw (le→leb l.position l'.position (omega (arith, r.position_is))) (record {
      kind = kind;
      text = text;
      source_same = r.source_same;
      position_is = r.position_is;
      rest_is = r.rest_is;
      spells = spells;
      tokens_are = rw offset (rw len (rw r.tokens_same refl));
    })
