-- ===== src/Sema/Registry/Resolution.antt =====
-- What a type name resolves to, against the chain of its aliases.
use Prim.Native.Nat.add
use wirespec.Base.{ℕ, zero, suc, ◌+◌, ◌-◌, ◌≤◌, ◌≡◌, refl, ap, ◌∙◌, arith, leb}
use wirespec.Base.{none, some, Bool-cases, inl, inr}
use wirespec.Base.Str.{Str}
use wirespec.Sema.Registry.{TypeRegistry, get, resolve_direct, resolve_type_name}
use wirespec.Sema.Registry.{resolve_type_name_inner}

-- `target` is reached from `name` by `n` aliases.
abbrev pub Follows : TypeRegistry → ℕ → Str → Str → Type 0
Follows r zero name target = name ≡ target
Follows r (suc n) name target = (t : Str) × (get name r.aliases ≡ some t) × Follows r n t target

module _ (r : TypeRegistry) where
  inner-Follows :
      (n left : ℕ) (name target : Str)
      → Follows r n name target
      → resolve_type_name_inner (n + left) name r ≡ resolve_type_name_inner left target r
  unfolding resolve_type_name_inner
  inner-Follows zero left name target e = ground (arith, e)
  inner-Follows (suc n) left name target (t, e, f) =
      rw add.suc (ground (arith, e, inner-Follows n left t target f))

  inner_short :
      (left n : ℕ) (name target : Str)
      → Follows r n name target
      → left ≤ n
      → resolve_type_name_inner left name r ≡ none
  unfolding resolve_type_name_inner
  inner_short zero n name target f h = refl
  inner_short (suc left) zero name target f h = absurd (omega arith)
  inner_short (suc left) (suc n) name target (t, e, f) h =
      ground (arith, e, inner_short left n t target f)

  inner_end :
      (left : ℕ) (target : Str)
      → get target r.aliases ≡ none
      → resolve_type_name_inner (suc left) target r ≡ resolve_direct target r
  unfolding resolve_type_name_inner
  inner_end left target e = ground (arith, e)

  inner_cycle :
      (bound left n : ℕ) (name : Str)
      → left ≤ bound
      → Follows r (suc n) name name
      → resolve_type_name_inner left name r ≡ none
  inner_cycle zero left n name h f = inner_short left (suc n) name name f (omega arith)
  inner_cycle (suc bound) left n name h f = elim (Bool-cases (leb left (suc n))) [
    | inl short ↦ inner_short left (suc n) name name f (ground (arith, short))
    | inr long ↦
        ap (λ (t : ℕ). resolve_type_name_inner t name r)
          (let split : left ≡ suc n + (left - suc n) = ground (arith, long) in split)
        ∙ inner-Follows (suc n) (left - suc n) name name f
        ∙ inner_cycle bound (left - suc n) n name (ground (arith, long)) f
  ]

  -- A name means what the end of its chain of aliases means, if the chain has at most 32 of them.
  pub resolve_type_name-Follows :
      (n : ℕ) (name target : Str)
      → n ≤ 32
      → Follows r n name target
      → get target r.aliases ≡ none
      → resolve_type_name name r ≡ resolve_direct target r
  unfolding resolve_type_name
  resolve_type_name-Follows n name target h f e =
      ap (λ (t : ℕ). resolve_type_name_inner t name r)
        (let split : 33 ≡ n + suc (32 - n) = omega (arith, h) in split)
      ∙ inner-Follows n (suc (32 - n)) name target f
      ∙ inner_end (32 - n) target e

  -- A name whose chain has 33 aliases or more means nothing.
  resolve_type_name_too_long :
      (name target : Str) → Follows r 33 name target → resolve_type_name name r ≡ none
  unfolding resolve_type_name
  resolve_type_name_too_long name target f = inner_short 33 33 name target f (omega arith)

  -- A name on a cycle of aliases, of any length, means nothing; the search ends all the same.
  pub resolve_type_name_cycle :
      (name : Str) (n : ℕ) → Follows r (suc n) name name → resolve_type_name name r ≡ none
  unfolding resolve_type_name
  resolve_type_name_cycle name n f = inner_cycle 33 33 n name (omega arith) f
