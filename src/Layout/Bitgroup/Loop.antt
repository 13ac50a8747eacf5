-- ===== src/Layout/Bitgroup/Loop.antt =====
-- `detect_bitgroups`, with its indices and writes, computes the recursion on runs of bit fields.
use mathlib.Core.List.{append_assoc, append-nil}
use wirespec.Base.{ℕ, zero, suc, ◌+◌, ◌^◌, ◌≤◌, ◌<◌, ◌≡◌, refl}
use wirespec.Base.{List, [], ◌∷◌, ◌++◌, some, length, arith, ap, sym, ◌∙◌}
use wirespec.Base.{length-append, get_elem?-append_length, set-append_length, get_elem?, set}
use wirespec.Base.{All-append, Option-cases, inl, inr}
use wirespec.Base.Str.{Str}
use wirespec.Base.Outcome.{Outcome-cases, Outcome, ok, err, panic, ◌>>=◌}
use wirespec.Sema.Types.{Endianness}
use wirespec.Layout.Ir.{LayoutField, LayoutBitGroup, LayoutBitGroupMember}
use wirespec.Layout.Bitgroup.{bit_width, bitgroup_id}
use wirespec.Layout.Bitgroup.{offset_of, member, with_member, place_members}
use wirespec.Layout.Bitgroup.{finalize_group, finalize_if_any, detect_loop, detect_bitgroups}
use wirespec.Layout.Bitgroup.Runs.{
  bits_left, width, run_bits, IsRun, offset, run_members, run_fields,
}
use wirespec.Layout.Bitgroup.Runs.{close_run, group_runs, bit_width-wire, width_of_wire}

range : ℕ → ℕ → List ℕ
range n zero = []
range n (suc k) = n ∷ range (n + 1) k

range-append : (n k : ℕ) → range n k ++ ((n + k) ∷ []) ≡ range n (k + 1)
unfolding range
range-append n zero = ground arith
range-append n (suc k) = ground (arith, range-append (n + 1) k)

run_bits-append :
    (run : List LayoutField) (f : LayoutField) → run_bits (run ++ (f ∷ [])) ≡ run_bits run + width f
unfolding run_bits
run_bits-append [] f = omega arith
run_bits-append (g ∷ run) f = omega (arith, run_bits-append run f)

offset_of_lem :
    (endianness : Endianness) (total before w : ℕ)
    → before + w ≤ total
    → offset_of endianness total before w ≡ ok (offset endianness total before w)
unfolding offset_of offset
offset_of_lem Endianness.big total before w h = ground arith
offset_of_lem Endianness.little total before w h = refl

snoc_append {ℓ} : {A : Type ℓ} (p t : List A) (x : A) → (p ++ (x ∷ [])) ++ t ≡ p ++ (x ∷ t)
snoc_append p t x = append_assoc p (x ∷ []) t

module _ (total : ℕ) (endianness : Endianness) (id : Str) (small : total < 2 ^ 16) where
  place_members_lem :
      (run pre post fields : List LayoutField) (n before : ℕ) (members : List LayoutBitGroupMember)
      → n ≡ length pre
      → fields ≡ pre ++ (run ++ post)
      → IsRun run
      → before + run_bits run ≤ total
      → place_members total endianness id (range n (length run)) before members fields
        ≡ ok (
          members ++ run_members total endianness id before run,
          pre ++ (run_fields total endianness id before run ++ post),
        )
  unfolding place_members range run_members run_fields run_bits
  place_members_lem [] pre post fields n before members e q r h = rw (append-nil, q)
  place_members_lem (f ∷ run) pre post fields n before members e q r h =
      let w = width f in
      let o = offset endianness total before w in
      let m = member total endianness id f o w in
      let f' = with_member total endianness id f o w in
      let found : get_elem? fields n ≡ some f =
        rw q (get_elem?-append_length pre (run ++ post) f n e) in
      let stored : set fields n f' ≡ pre ++ (f' ∷ (run ++ post)) =
        rw q (set-append_length pre (run ++ post) f f' n e) in
      let later =
        place_members_lem run (pre ++ (f' ∷ [])) post (set fields n f') (n + 1) (before + w)
          (members ++ (m ∷ [])) (omega (arith, e, length-append pre (f' ∷ [])))
          (stored ∙ sym (snoc_append pre (run ++ post) f')) r.1 (omega (arith, h)) in
      ground (
        arith,
        found,
        bit_width-wire f w r.0,
        offset_of_lem endianness total before w (omega (arith, h)),
        small,
        later,
        snoc_append members (run_members total endianness id (before + w) run) m,
        snoc_append pre (run_fields total endianness id (before + w) run ++ post) f',
      )

length-run_fields :
    (total : ℕ) (endianness : Endianness) (id : Str) (before : ℕ) (run : List LayoutField)
    → length (run_fields total endianness id before run) ≡ length run
unfolding run_fields
length-run_fields total endianness id before [] = refl
length-run_fields total endianness id before (f ∷ run) =
    ap suc (length-run_fields total endianness id (before + width f) run)

module _ (scope_id : Str) (endianness : Endianness) where
  close_run-length :
      (run : List LayoutField) (k : ℕ) (gs : List LayoutBitGroup) (rs : List LayoutField)
      → close_run scope_id endianness k run ≡ ok (gs, rs)
      → length rs ≡ length run
  unfolding close_run
  close_run-length [] k gs rs h = ground (arith, h)
  close_run-length (f ∷ run) k gs rs h = ground (
    arith,
    h,
    length-run_fields (run_bits (f ∷ run)) endianness (bitgroup_id scope_id k) 0 (f ∷ run),
  )

  finalize_lem :
      (run pre post fields : List LayoutField) (n : ℕ) (groups : List LayoutBitGroup)
      → n ≡ length pre
      → fields ≡ pre ++ (run ++ post)
      → IsRun run
      → run_bits run < 2 ^ 16
      → finalize_if_any (range n (length run)) (run_bits run) scope_id endianness groups fields ≡ (
          close_run scope_id endianness (length groups) run >>= λ (gs, rs).
          ok (groups ++ gs, pre ++ (rs ++ post)))
  unfolding finalize_if_any finalize_group close_run range
  finalize_lem [] pre post fields n groups e q r small = rw (append-nil, q)
  finalize_lem (f ∷ run) pre post fields n groups e q r small = ground (
    arith,
    place_members_lem (run_bits (f ∷ run)) endianness (bitgroup_id scope_id (length groups)) small
        (f ∷ run) pre post fields n 0 [] e q r (omega arith),
  )

  detect_loop_lem :
      (fields run pre all : List LayoutField) (n i : ℕ) (groups : List LayoutBitGroup)
      → n ≡ length pre
      → i ≡ n + length run
      → all ≡ pre ++ (run ++ fields)
      → IsRun run
      → run_bits run + bits_left fields < 2 ^ 16
      → detect_loop scope_id endianness fields i (range n (length run)) (run_bits run) groups all
        ≡ (group_runs scope_id endianness (length groups) run fields >>= λ (gs, rs).
            ok (groups ++ gs, pre ++ rs))
  unfolding detect_loop group_runs bits_left range run_bits
  detect_loop_lem [] run pre all n i groups e ei q r small =
      finalize_lem run pre [] all n groups e q r (omega arith) ∙ simp append-nil
  detect_loop_lem (f ∷ fields) run pre all n i groups e ei q r small =
      elim (Option-cases (bit_width f)) [
        | inl plain ↦
            let finish =
              finalize_lem run pre (f ∷ fields) all n groups e q r (omega (arith, small)) in
            elim (Outcome-cases (close_run scope_id endianness (length groups) run)) [
              | inl ((gs, rs), closed) ↦
                  let same = close_run-length run (length groups) gs rs closed in
                  let ih =
                    detect_loop_lem fields [] (pre ++ (rs ++ (f ∷ [])))
                      (pre ++ (rs ++ (f ∷ fields))) (i + 1) (i + 1) (groups ++ gs)
                      (omega (
                        arith,
                        e,
                        ei,
                        same,
                        length-append pre (rs ++ (f ∷ [])),
                        length-append rs (f ∷ []),
                      ))
                      (omega arith)
                      (ap (λ (t : List LayoutField). pre ++ t)
                          (sym (append_assoc rs (f ∷ []) fields))
                        ∙ sym (append_assoc pre (rs ++ (f ∷ [])) fields))
                      tt (ground (arith, small)) in
                  elim (Outcome-cases
                    (group_runs scope_id endianness (length (groups ++ gs)) [] fields)) [
                      | inl ((gs', rs'), later) ↦ ground (
                        arith,
                        plain,
                        closed,
                        finish,
                        ih,
                        later,
                        length-append groups gs,
                        append_assoc groups gs gs',
                        append_assoc pre (rs ++ (f ∷ [])) rs',
                        append_assoc rs (f ∷ []) rs',
                      )
                      | inr (inl (x, later)) ↦
                          ground (arith, plain, closed, finish, ih, later, length-append groups gs)
                      | inr (inr later) ↦
                          ground (arith, plain, closed, finish, ih, later, length-append groups gs)
                    ]
              | inr (inl (x, closed)) ↦ ground (arith, plain, closed, finish)
              | inr (inr closed) ↦ ground (arith, plain, closed, finish)
            ]
        | inr (w, bit) ↦
            let same : width f ≡ w = width_of_wire f w (bit_width-wire f w bit) in
            let ih =
              detect_loop_lem fields (run ++ (f ∷ [])) pre all n (i + 1) groups e
                (omega (arith, ei, length-append run (f ∷ [])))
                (q ∙ ap (λ (t : List LayoutField). pre ++ t) (sym (snoc_append run fields f)))
                (All-append (λ g. bit_width g ≡ some (width g)) run (f ∷ []) r
                  (bit ∙ ap some (sym same), tt))
                (ground (arith, run_bits-append run f, same, bit, small)) in
            ground (
              arith,
              bit,
              ih,
              same,
              run_bits-append run f,
              length-append run (f ∷ []),
              range-append n (length run),
              ei,
              small,
            )
      ]

bind_ok {ℓ} : {E : Type 0} {A B : Type ℓ} (m : Outcome E (A × B)) → (m >>= λ (a, b). ok (a, b)) ≡ m
bind_ok (ok (a, b)) = refl
bind_ok (err e) = refl
bind_ok panic = refl

-- `detect_bitgroups`, which keeps indices and writes references through them, computes the groups
-- and fields of the recursion over runs, errors included, if the widths of all bit fields
-- together fit a `u16`.
pub detect_bitgroups-group_runs :
    (fields : List LayoutField) (scope_id : Str) (endianness : Endianness)
    → bits_left fields < 2 ^ 16
    → detect_bitgroups fields scope_id endianness ≡ group_runs scope_id endianness 0 [] fields
unfolding detect_bitgroups range run_bits
detect_bitgroups-group_runs fields scope_id endianness small =
    detect_loop_lem scope_id endianness fields [] [] fields 0 0 [] refl refl refl tt
      (omega (arith, small))
    ∙ bind_ok (group_runs scope_id endianness 0 [] fields)
