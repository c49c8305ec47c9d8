-- ===== src/Splice/Tests.antt =====
-- Constraints on natural numbers, and a hash table of numbers.
use saltyrtc_server_python.Prelude.{
  ℕ, ◌≡◌, ◌≢◌, refl, true, false, ◌&&◌, Option, none, some, List, [], ◌∷◌, arith, leb, ◌==◌, ==_iff,
  if◌then◌else◌, Bool-cases, inl, inr,
}
use saltyrtc_server_python.Exception.{ok}
use saltyrtc_server_python.Splice.Constraints.{Conjunction, lt, le, gt, ge, ne, xeq, has_key}
use saltyrtc_server_python.Splice.Conjunction.{IsDictionary, holds, any_holds}
use saltyrtc_server_python.Splice.Order.{Ordered}
use saltyrtc_server_python.Splice.Synthesis.{
  Argument, plain, Solver, add_conjunction, splice_synthesis,
}
use saltyrtc_server_python.Splice.Synthesis.Meaning.{all_asserted, meets}
use saltyrtc_server_python.Splice.Synthesis.Disjunction.{
  IsSound, add_conjunction-holds, splice_synthesis-any_holds, splice_synthesis-contradicted,
}
use saltyrtc_server_python.Splice.HashTable.{Hashable, new, get_item, contains}
use saltyrtc_server_python.Splice.HashTable.Refinement.{
  Call, sets, deletes, run, replay, is_some, run-new_refines,
}

leb_refl : (a : ℕ) → leb a a ≡ true
leb_refl a = ground arith

leb_trans : (a b c : ℕ) → leb a b ≡ true → leb b c ≡ true → leb a c ≡ true
leb_trans a b c p q = ground arith

leb_total : (a b : ℕ) → leb a b ≡ false → leb b a ≡ true
leb_total a b p = ground arith

instance abbrev numbers : Ordered ℕ
numbers = record {
  leq = leb;
  equals = λ a b. a == b;
  leq_refl = leb_refl;
  leq_trans = leb_trans;
  leq_total = leb_total;
}

-- Between 4 and 8, but not 6.
abbrev between : Conjunction (Argument ℕ)
between =
    (ge, plain 2 ∷ plain 4 ∷ []) ∷ (lt, plain 9 ∷ []) ∷ (le, plain 8 ∷ []) ∷ (ne, plain 6 ∷ []) ∷ []

abbrev no_assertion : Solver ℕ
no_assertion = []

abbrev nothing : Conjunction (Argument ℕ)
nothing = (lt, plain 3 ∷ []) ∷ (gt, plain 5 ∷ []) ∷ []

-- A solver that only tries the number 5.
abbrev try_five : Solver ℕ → Option ℕ
try_five s = if all_asserted s 5 then some 5 else none

try_five-IsSound : IsSound try_five
try_five-IsSound s v found = elim (Bool-cases (all_asserted s 5)) [
  | inl met ↦ ground (arith, met, found)
  | inr unmet ↦ ground (arith, unmet, found)
]

between-IsDictionary : IsDictionary between
unfolding has_key
between-IsDictionary = (refl, (refl, (refl, (refl, tt))))

add_conjunction-holds_example :
    all_asserted (add_conjunction between no_assertion).1 7
    ≡ (all_asserted no_assertion 7 && holds (meets 7) between)
unfolding has_key add_conjunction
add_conjunction-holds_example =
    add_conjunction-holds between no_assertion (add_conjunction between no_assertion).1 7
      between-IsDictionary refl refl

splice_synthesis-any_holds_example : any_holds (meets 5) (((xeq, []) ∷ []) ∷ between ∷ []) ≡ true
unfolding has_key splice_synthesis all_asserted
splice_synthesis-any_holds_example =
    splice_synthesis-any_holds try_five (((xeq, []) ∷ []) ∷ between ∷ []) []
      (splice_synthesis try_five (((xeq, []) ∷ []) ∷ between ∷ []) []).1 5 try_five-IsSound
      ((refl, tt), (between-IsDictionary, tt)) refl

nothing-holds : (x : ℕ) → holds (meets x) nothing ≡ false
unfolding holds
nothing-holds x = ground arith

splice_synthesis-contradicted_example :
    splice_synthesis try_five (nothing ∷ between ∷ []) [] ≢ (ok (some 5), [])
unfolding has_key
splice_synthesis-contradicted_example =
    splice_synthesis-contradicted try_five nothing (between ∷ []) [] [] 5 try_five-IsSound
      (refl, (refl, tt)) refl nothing-holds

instance abbrev number_keys : Hashable ℕ
number_keys = record { equals = λ a b. a == b; equals_iff = ==_iff; hash = λ a. a }

abbrev calls : List (Call ℕ ℕ)
calls = sets 3 1 ∷ sets 13 2 ∷ deletes 3 ∷ sets 13 5 ∷ []

run-new_refines_example :
    (get_item 13 (run calls new) ≡ replay calls (λ _. none) 13)
    × (contains 13 (run calls new) ≡ is_some (replay calls (λ _. none) 13))
run-new_refines_example = run-new_refines calls 13
