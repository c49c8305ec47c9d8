-- ===== src/Splice/Grammar/Merging.antt =====
-- What the constraints of an object, from all of its callbacks, mean.
use saltyrtc_server_python.Prelude.{
  ◌≡◌, refl, ap, sym, ◌∙◌, Bool, true, ◌&&◌, Option, none, some, List, All, [], ◌∷◌, arith,
}
use saltyrtc_server_python.Exception.{Result, ok, err, ◌>>=◌}
use saltyrtc_server_python.Splice.Constraints.{Op, Conjunction, merge_constraints}
use saltyrtc_server_python.Splice.Conjunction.{IsDictionary, satisfies, satisfies-merge_constraints}
use saltyrtc_server_python.Splice.Grammar.{Symbolic, Struct, Operand, visit_symbolic}
use saltyrtc_server_python.Splice.Grammar.Walking.{
  walk_clauses, concretize, unsplicify_all, concretize_each, merge_each, merge_concrete,
  concretize_and_merge_constraints,
}
use saltyrtc_server_python.Splice.Grammar.Meaning.{visit_symbolic-met}
use saltyrtc_server_python.Splice.Grammar.Yielding.{
  Yields, OfParts, Yields-bind, walk_clauses-AreDictionaries, unsplicify_all-AreDictionaries,
}

abbrev OfConjunctions : {V F : Type 0} → List (Conjunction (Operand V F)) → Type 0
OfConjunctions cs = All IsDictionary cs

abbrev OfCallbacks : {V F : Type 0} → List (List (Conjunction (Operand V F))) → Type 0
OfCallbacks css = All OfConjunctions css

module _ {V F : Type 0} where
  concretize-AreDictionaries :
      (struct : Struct V F) (obj : V) (tree : Symbolic)
      → Yields OfConjunctions (concretize struct obj tree)
  unfolding concretize
  concretize-AreDictionaries struct obj tree =
      Yields-bind OfParts OfConjunctions (walk_clauses struct obj tree)
        (λ parts. ok (visit_symbolic parts)) (walk_clauses-AreDictionaries struct obj tree)
        (λ parts v. (visit_symbolic-met (λ k x. true) parts v).1)

  concretize_each-AreDictionaries :
      (unsplicify : V → V) (obj : V) (callbacks : List (Struct V F × Symbolic))
      → Yields OfCallbacks (concretize_each unsplicify obj callbacks)
  unfolding concretize_each
  concretize_each-AreDictionaries unsplicify obj [] = tt
  concretize_each-AreDictionaries unsplicify obj ((struct, tree) ∷ callbacks) =
      Yields-bind OfConjunctions OfCallbacks (concretize struct obj tree)
        (λ c.
          concretize_each unsplicify obj callbacks >>= λ cs. ok (unsplicify_all unsplicify c ∷ cs))
        (concretize-AreDictionaries struct obj tree)
        (λ c v.
          Yields-bind OfCallbacks OfCallbacks (concretize_each unsplicify obj callbacks)
            (λ cs. ok (unsplicify_all unsplicify c ∷ cs))
            (concretize_each-AreDictionaries unsplicify obj callbacks)
            (λ cs w. (unsplicify_all-AreDictionaries unsplicify c v, w)))

and_true : (b : Bool) → b ≡ (b && true)
and_true b = ground arith

and_assoc : (a b c : Bool) → ((a && b) && c) ≡ (a && (b && c))
and_assoc a b c = ground arith

module _ {V F : Type 0} (meets : Op → Operand V F → Bool) where
  -- The constraints of every callback are satisfied.
  unfoldable pub all_satisfied : List (List (Conjunction (Operand V F))) → Bool
  all_satisfied [] = true
  all_satisfied (c ∷ cs) = satisfies meets c && all_satisfied cs

  -- `None` is no constraint.
  abbrev pub satisfied : Option (List (Conjunction (Operand V F))) → Bool
  satisfied none = true
  satisfied (some cs) = satisfies meets cs

  satisfies-merge_each :
      (merged : List (Conjunction (Operand V F))) (css : List (List (Conjunction (Operand V F))))
      → OfCallbacks css
      → satisfies meets (merge_each merged css) ≡ (satisfies meets merged && all_satisfied css)
  unfolding merge_each all_satisfied
  satisfies-merge_each merged [] v = and_true (satisfies meets merged)
  satisfies-merge_each merged (c ∷ css) v =
      satisfies-merge_each (merge_constraints merged c) css v.1
      ∙ ap (λ b. b && all_satisfied css) (satisfies-merge_constraints meets merged c v.0)
      ∙ and_assoc (satisfies meets merged) (satisfies meets c) (all_satisfied css)

  satisfied-merge_concrete :
      (css : List (List (Conjunction (Operand V F))))
      → OfCallbacks css
      → satisfied (merge_concrete css) ≡ all_satisfied css
  unfolding all_satisfied
  satisfied-merge_concrete [] v = refl
  satisfied-merge_concrete (c ∷ css) v = satisfies-merge_each c css v.1

  -- If the constraints of an object can be made concrete, then the ones of each of its callbacks
  -- can, and a value satisfies the merged constraints exactly if it satisfies the constraints of
  -- all callbacks; an object without callbacks has no constraint.
  pub concretize_and_merge_constraints-satisfied :
      (unsplicify : V → V) (obj : V) (callbacks : List (Struct V F × Symbolic))
      (merged : Option (List (Conjunction (Operand V F))))
      → concretize_and_merge_constraints unsplicify obj callbacks ≡ ok merged
      → (css : List (List (Conjunction (Operand V F)))) × (concretize_each unsplicify obj callbacks
          ≡ ok css)
        × (satisfied merged ≡ all_satisfied css)
  unfolding concretize_and_merge_constraints
  concretize_and_merge_constraints-satisfied unsplicify obj callbacks merged h =
      go (concretize_each unsplicify obj callbacks) refl
        (concretize_each-AreDictionaries unsplicify obj callbacks) h
    where
      go :
          (r : Result (List (List (Conjunction (Operand V F)))))
          → concretize_each unsplicify obj callbacks ≡ r
          → Yields OfCallbacks r
          → (r >>= λ concrete. ok (merge_concrete concrete)) ≡ ok merged
          → (css : List (List (Conjunction (Operand V F)))) × (concretize_each unsplicify obj
                callbacks
              ≡ ok css)
            × (satisfied merged ≡ all_satisfied css)
      go (err x) e v f = cc
      go (ok css) e v f =
          let same : merge_concrete css ≡ merged = cc in
          (css, e, ap satisfied (sym same) ∙ satisfied-merge_concrete css v)
