-- ===== src/Splice/Grammar/Meaning.antt =====
-- What the constraints of the visitor mean for a value that is synthesized.
use saltyrtc_server_python.Prelude.{
  ◌≡◌, refl, ap, ◌∙◌, Bool, true, false, ◌&&◌, Option, none, some, List, All, [], ◌∷◌, ◌++◌, arith,
  Bool-cases, inl, inr, if◌then◌else◌,
}
use saltyrtc_server_python.Splice.Constraints.{Op, op_eq, Conjunction, merge_constraints}
use saltyrtc_server_python.Splice.Conjunction.{
  op_eq_sound, IsDictionary, holds, meets_all, satisfies, satisfies-merge_constraints,
}
use saltyrtc_server_python.Splice.Grammar.{
  Struct, Operand, Part, test, branch, append_to, append_all, visit_cnf, merge_parts,
  visit_symbolic, first_true, last_of, visit_conditioned_dnf, has_else, or_branch,
}
use saltyrtc_server_python.Splice.Grammar.Dictionary.{
  merge_constraints-IsDictionary, visit_cnf-IsDictionary,
}

and_true : (b : Bool) → b ≡ (b && true)
and_true b = ground arith

and_swap : (a b c : Bool) → ((a && b) && c) ≡ (b && (a && c))
and_swap a b c = ground arith

abbrev pub AreDictionaries : {V F : Type 0} → Part V F → Type 0
AreDictionaries (test v) = Unit
AreDictionaries (branch d) = All IsDictionary d

module _ {V F : Type 0} (meets : Op → Operand V F → Bool) where
  unfoldable pub all_met : List (Op × Operand V F) → Bool
  all_met [] = true
  all_met ((k, v) ∷ cs) = meets k v && all_met cs

  meets_all-snoc :
      (k : Op) (vs : List (Operand V F)) (v : Operand V F)
      → meets_all meets k (vs ++ v ∷ []) ≡ (meets_all meets k vs && meets k v)
  unfolding meets_all
  meets_all-snoc k [] v = ground arith
  meets_all-snoc k (w ∷ vs) v = ground (arith, meets_all-snoc k vs v)

  holds-append_to :
      (k : Op) (v : Operand V F) (c : Conjunction (Operand V F))
      → holds meets (append_to k v c) ≡ (holds meets c && meets k v)
  unfolding append_to holds
  holds-append_to k v [] = unfold meets_all in ground arith
  holds-append_to k v ((j, vs) ∷ c) = elim (Bool-cases (op_eq j k)) [
    | inl same ↦ ground (arith, meets_all-snoc j vs v, ap (λ o. meets o v) (op_eq_sound j k same))
    | inr other ↦ ground (arith, holds-append_to k v c)
  ]

  holds-append_all :
      (cs : List (Op × Operand V F)) (c : Conjunction (Operand V F))
      → holds meets (append_all cs c) ≡ (holds meets c && all_met cs)
  unfolding append_all all_met
  holds-append_all [] c = ground arith
  holds-append_all ((k, v) ∷ cs) c =
      ground (arith, holds-append_all cs (append_to k v c), holds-append_to k v c)

  -- The dictionary of a conjunction holds exactly if all of its constraints are met, and no key
  -- stands in it twice.
  pub visit_cnf-holds :
      (cs : List (Op × Operand V F))
      → (holds meets (visit_cnf cs) ≡ all_met cs) × IsDictionary (visit_cnf cs)
  unfolding visit_cnf
  visit_cnf-holds cs = (unfold holds in holds-append_all cs [], visit_cnf-IsDictionary cs)

  -- What a part asks.
  abbrev pub part_met : Part V F → Bool
  part_met (test v) = true
  part_met (branch d) = satisfies meets d

  unfoldable pub parts_met : List (Part V F) → Bool
  parts_met [] = true
  parts_met (p ∷ ps) = part_met p && parts_met ps

  merge_parts-met :
      (ps : List (Part V F)) (merged : List (Conjunction (Operand V F)))
      → All AreDictionaries ps
      → All IsDictionary merged
      → (satisfies meets (merge_parts ps merged) ≡ (satisfies meets merged && parts_met ps))
        × All IsDictionary (merge_parts ps merged)
  unfolding merge_parts parts_met
  merge_parts-met [] merged d v = (and_true (satisfies meets merged), v)
  merge_parts-met (test w ∷ ps) merged d v = merge_parts-met ps merged d.1 v
  merge_parts-met (branch child ∷ ps) merged d v =
      let (met, rest) =
        merge_parts-met ps (merge_constraints child merged) d.1
          (merge_constraints-IsDictionary child merged d.0 v) in
      (
        met
            ∙ ap (λ b. b && parts_met ps) (satisfies-merge_constraints meets child merged v)
            ∙ and_swap (satisfies meets child) (satisfies meets merged) (parts_met ps),
        rest,
      )

  -- The constraints of a tree are satisfied exactly if the ones of all of its clauses are, where a
  -- clause that is no list of constraints asks nothing.
  pub visit_symbolic-met :
      (ps : List (Part V F))
      → All AreDictionaries ps
      → (satisfies meets (visit_symbolic ps) ≡ parts_met ps) × All IsDictionary (visit_symbolic ps)
  unfolding visit_symbolic
  visit_symbolic-met ps d = merge_parts-met ps [] d tt

-- The parts of branches whose conditions have a value, and of what holds otherwise.
module _ {V F : Type 0} where
  unfoldable pub parts_of :
      List (V × List (Conjunction (Operand V F)))
      → Option (List (Conjunction (Operand V F)))
      → List (Part V F)
  parts_of [] none = []
  parts_of [] (some d) = branch d ∷ []
  parts_of ((v, d) ∷ branches) otherwise = test v ∷ branch d ∷ parts_of branches otherwise

  module _ (struct : Struct V F) where
    -- The branch of the first true condition, or what holds otherwise, or nothing.
    unfoldable pub chosen :
        List (V × List (Conjunction (Operand V F)))
        → Option (List (Conjunction (Operand V F)))
        → List (Conjunction (Operand V F))
    chosen [] none = []
    chosen [] (some d) = d
    chosen ((v, d) ∷ branches) otherwise =
        let rest = chosen branches otherwise in if struct.is_true v then d else rest

    last_of-parts_of :
        (branches : List (V × List (Conjunction (Operand V F))))
        (d : List (Conjunction (Operand V F)))
        → last_of (parts_of branches (some d)) ≡ branch d
    unfolding last_of parts_of
    last_of-parts_of [] d = refl
    last_of-parts_of ((v, e) ∷ []) d = refl
    last_of-parts_of ((v, e) ∷ (w, f) ∷ branches) d = last_of-parts_of ((w, f) ∷ branches) d

    abbrev fallback : Option (List (Conjunction (Operand V F))) → List (Conjunction (Operand V F))
    fallback none = []
    fallback (some d) = d

    first_true-parts_of :
        (branches : List (V × List (Conjunction (Operand V F))))
        (otherwise : Option (List (Conjunction (Operand V F))))
        → or_branch (first_true struct (parts_of branches otherwise)) (branch (fallback otherwise))
          ≡ branch (chosen branches otherwise)
    unfolding first_true parts_of chosen
    first_true-parts_of [] none = refl
    first_true-parts_of [] (some d) = refl
    first_true-parts_of ((v, d) ∷ branches) otherwise = elim (Bool-cases (struct.is_true v)) [
      | inl met ↦ rw met refl
      | inr unmet ↦ rw unmet (first_true-parts_of branches otherwise)
    ]

    -- A conditioned disjunction stands for the branch of its first true condition, for what holds
    -- otherwise if there is none, and for no constraint if that is missing, provided that each of
    -- its conditions has a value, which is not `None`.
    pub visit_conditioned_dnf-chosen :
        (branches : List (V × List (Conjunction (Operand V F))))
        (otherwise : Option (List (Conjunction (Operand V F))))
        → visit_conditioned_dnf struct (has_else otherwise) (parts_of branches otherwise)
          ≡ branch (chosen branches otherwise)
    unfolding visit_conditioned_dnf
    visit_conditioned_dnf-chosen branches none = first_true-parts_of branches none
    visit_conditioned_dnf-chosen branches (some d) =
        rw (last_of-parts_of branches d) (first_true-parts_of branches (some d))

    -- A condition without a value shifts the children: under the condition `None`, the constraints
    -- of a first branch are taken for a true condition, and the next condition for the constraints
    -- that hold under it, so that no constraint is left.
    pub visit_conditioned_dnf-shifted :
        (c : Conjunction (Operand V F)) (d e : List (Conjunction (Operand V F))) (v : V)
        → visit_symbolic
            (visit_conditioned_dnf struct false (branch (c ∷ d) ∷ test v ∷ branch e ∷ []) ∷ [])
          ≡ []
    unfolding visit_conditioned_dnf visit_symbolic
    visit_conditioned_dnf-shifted c d e v = refl
