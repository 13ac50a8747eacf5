-- ===== src/Sema/Registry/Tests.antt =====
-- Runs of the registry's theorems on a registry with a declaration, a chain of aliases and a cycle.
use wirespec.Base.{ℕ, zero, suc, ◌≡◌, refl, arith, [], ◌∷◌, none, ◌↔◌, In, true}
use wirespec.Base.Str.{str, str_eq}
use wirespec.Sema.Types.{Endianness}
use wirespec.Sema.Registry.{TypeRegistry, DeclKind, new, get}
use wirespec.Sema.Registry.{register, register_alias, contains, all_names}
use wirespec.Sema.Registry.{resolve_type_name, resolve_direct}
use wirespec.Sema.Registry.Resolution.{Follows, resolve_type_name-Follows}
use wirespec.Sema.Registry.Resolution.{resolve_type_name_cycle}
use wirespec.Sema.Registry.Declared.{IsSeparate, register-IsSeparate, contains-all_names}

-- `packet P`, the aliases `A` of `B` and `B` of `P`, and `X` and `Y` of each other.
abbrev sample : TypeRegistry
sample = record {
  module_endianness = Endianness.big;
  declarations = (str "P", DeclKind.packet) ∷ [];
  aliases = (str "A", str "B") ∷ (str "B", str "P") ∷ (str "X", str "Y") ∷ (str "Y", str "X") ∷ [];
  const_values = [];
}

-- The registry that a module starts with.
abbrev empty : TypeRegistry
empty = new Endianness.little

empty-IsSeparate : IsSeparate empty
unfolding new get
empty-IsSeparate name = refl

P-no_alias : get (str "P") sample.aliases ≡ none
unfolding get str_eq
P-no_alias = refl

-- `L` is an alias of itself, so its chains are as long as wanted.
abbrev looped : TypeRegistry
looped = record sample { aliases = (str "L", str "L") ∷ [] }

L-Follows : (n : ℕ) → Follows looped n (str "L") (str "L")
unfolding get str_eq
L-Follows zero = refl
L-Follows (suc n) = (str "L", refl, L-Follows n)

A-Follows : Follows sample 2 (str "A") (str "P")
unfolding get str_eq
A-Follows = (str "B", refl, (str "P", refl, refl))

X-Follows : Follows sample 2 (str "X") (str "X")
unfolding get str_eq
X-Follows = (str "Y", refl, (str "X", refl, refl))

resolve_type_name-Follows_example :
    resolve_type_name (str "A") sample ≡ resolve_direct (str "P") sample
resolve_type_name-Follows_example =
    resolve_type_name-Follows sample 2 (str "A") (str "P") (omega arith) A-Follows P-no_alias

resolve_type_name_cycle_example : resolve_type_name (str "X") sample ≡ none
resolve_type_name_cycle_example = resolve_type_name_cycle sample (str "X") 1 X-Follows

register-IsSeparate_example :
    IsSeparate (register (str "P") DeclKind.frame empty).0
    × IsSeparate (register_alias (str "P") (str "u8") empty).0
register-IsSeparate_example =
    register-IsSeparate empty (str "P") (str "u8") DeclKind.frame empty-IsSeparate

contains-all_names_example :
    (contains (str "u24") sample ≡ true) ↔ In (str "u24") (all_names sample)
contains-all_names_example = contains-all_names sample (str "u24")
