-- ===== src/Splice/Grammar/Yielding.antt =====
-- The walk over a parsed tree only makes dictionaries, in which no key stands twice.
use saltyrtc_server_python.Prelude.{
  ◌≡◌, refl, ◌∙◌, Bool, true, false, Option, none, some, List, All, [], ◌∷◌, ◌++◌, map, Bool-cases,
  inl, inr, arith,
}
use saltyrtc_server_python.Exception.{Result, ok, err, ◌>>=◌}
use saltyrtc_server_python.Splice.Constraints.{Op, Conjunction, has_key}
use saltyrtc_server_python.Splice.Conjunction.{IsDictionary}
use saltyrtc_server_python.Splice.Grammar.{
  Condition, visit_condition, or_branch, is_true_part, Dnf, Clause, conditioned, unconditioned,
  Symbolic, Struct, Operand, Part, branch, visit_cnf, visit_conditioned_dnf, has_else, first_true,
  last_of,
}
use saltyrtc_server_python.Splice.Grammar.Walking.{
  tested, walk_constraints, walk_dnf, walk_branches, walk_otherwise, walk_clause, walk_clauses,
  unsplicify_all, unsplicified,
}
use saltyrtc_server_python.Splice.Grammar.Dictionary.{visit_cnf-IsDictionary}
use saltyrtc_server_python.Splice.Grammar.Meaning.{AreDictionaries}

-- What a function returns, if it does not raise, has a property.
abbrev pub Yields : {A : Type 0} → (A → Type 0) → Result A → Type 0
Yields P (ok a) = P a
Yields P (err e) = Unit

pub Yields-bind :
    {A B : Type 0} (Q : A → Type 0) (P : B → Type 0) (r : Result A) (f : A → Result B)
    → Yields Q r
    → ((a : A) → Q a → Yields P (f a))
    → Yields P (r >>= f)
Yields-bind Q P (ok a) f q k = k a q
Yields-bind Q P (err e) f q k = tt

Any : {A : Type 0} → A → Type 0
Any a = Unit

Yields-Any : {A : Type 0} (r : Result A) → Yields Any r
unfolding Any
Yields-Any (ok a) = tt
Yields-Any (err e) = tt

module _ {V F : Type 0} (unsplicify : V → V) where
  has_key-map :
      (k : Op) (c : Conjunction (Operand V F))
      → has_key k (map (λ (j, vs). (j, map (unsplicified unsplicify) vs)) c) ≡ has_key k c
  unfolding has_key
  has_key-map k [] = refl
  has_key-map k ((j, vs) ∷ c) = ground (arith, has_key-map k c)

  map-IsDictionary :
      (c : Conjunction (Operand V F))
      → IsDictionary c
      → IsDictionary (map (λ (j, vs). (j, map (unsplicified unsplicify) vs)) c)
  map-IsDictionary [] d = tt
  map-IsDictionary ((j, vs) ∷ c) d = (has_key-map j c ∙ d.0, map-IsDictionary c d.1)

  pub unsplicify_all-AreDictionaries :
      (cs : List (Conjunction (Operand V F)))
      → All IsDictionary cs
      → All IsDictionary (unsplicify_all unsplicify cs)
  unsplicify_all-AreDictionaries [] d = tt
  unsplicify_all-AreDictionaries (c ∷ cs) d =
      (map-IsDictionary c d.0, unsplicify_all-AreDictionaries cs d.1)

abbrev pub OfParts : {V F : Type 0} → List (Part V F) → Type 0
OfParts ps = All AreDictionaries ps

module _ {V F : Type 0} (struct : Struct V F) (obj : V) where
  walk_dnf-AreDictionaries : (dnf : Dnf) → Yields (All IsDictionary) (walk_dnf struct obj dnf)
  unfolding walk_dnf
  walk_dnf-AreDictionaries [] = tt
  walk_dnf-AreDictionaries (cnf ∷ cnfs) =
      Yields-bind Any (All IsDictionary) (walk_constraints struct obj cnf)
        (λ cs. walk_dnf struct obj cnfs >>= λ rest. ok (visit_cnf cs ∷ rest))
        (Yields-Any (walk_constraints struct obj cnf))
        (λ cs u.
          Yields-bind (All IsDictionary) (All IsDictionary) (walk_dnf struct obj cnfs)
            (λ rest. ok (visit_cnf cs ∷ rest)) (walk_dnf-AreDictionaries cnfs)
            (λ rest v. (visit_cnf-IsDictionary cs, v)))

  walk_branches-AreDictionaries :
      (branches : List (Condition × Dnf)) → Yields OfParts (walk_branches struct obj branches)
  unfolding walk_branches
  walk_branches-AreDictionaries [] = tt
  walk_branches-AreDictionaries ((c, dnf) ∷ branches) =
      Yields-bind Any OfParts (visit_condition struct obj c)
        (λ v. walk_dnf struct obj dnf >>= λ d. walk_branches struct obj branches >>= λ parts.
          ok (tested struct obj v (branch d ∷ parts)))
        (Yields-Any (visit_condition struct obj c))
        (λ v u.
          Yields-bind (All IsDictionary) OfParts (walk_dnf struct obj dnf)
            (λ d. walk_branches struct obj branches >>= λ parts.
              ok (tested struct obj v (branch d ∷ parts)))
            (walk_dnf-AreDictionaries dnf)
            (λ d w.
              Yields-bind OfParts OfParts (walk_branches struct obj branches)
                (λ parts. ok (tested struct obj v (branch d ∷ parts)))
                (walk_branches-AreDictionaries branches)
                (λ parts z. tested-AreDictionaries v (branch d ∷ parts) (w, z))))
    where
      tested-AreDictionaries :
          (v : Option V) (ps : List (Part V F)) → OfParts ps → OfParts (tested struct obj v ps)
      tested-AreDictionaries none ps d = d
      tested-AreDictionaries (some v) ps d = (tt, d)

  walk_otherwise-AreDictionaries : (o : Option Dnf) → Yields OfParts (walk_otherwise struct obj o)
  walk_otherwise-AreDictionaries none = tt
  walk_otherwise-AreDictionaries (some dnf) =
      Yields-bind (All IsDictionary) OfParts (walk_dnf struct obj dnf) (λ d. ok (branch d ∷ []))
        (walk_dnf-AreDictionaries dnf) (λ d v. (v, tt))

  last_of-AreDictionaries : (ps : List (Part V F)) → OfParts ps → AreDictionaries (last_of ps)
  unfolding last_of
  last_of-AreDictionaries [] d = tt
  last_of-AreDictionaries (p ∷ []) d = d.0
  last_of-AreDictionaries (p ∷ q ∷ ps) d = last_of-AreDictionaries (q ∷ ps) d.1

  first_true-AreDictionaries :
      (ps : List (Part V F)) (fall : Part V F)
      → OfParts ps
      → AreDictionaries fall
      → AreDictionaries (or_branch (first_true struct ps) fall)
  unfolding first_true
  first_true-AreDictionaries [] fall d v = v
  first_true-AreDictionaries (p ∷ []) fall d v = v
  first_true-AreDictionaries (p ∷ q ∷ ps) fall d v = elim (Bool-cases (is_true_part struct p)) [
    | inl met ↦ rw met d.1.0
    | inr unmet ↦ rw unmet (first_true-AreDictionaries ps fall d.1.1 v)
  ]

  All-append : (ps qs : List (Part V F)) → OfParts ps → OfParts qs → OfParts (ps ++ qs)
  All-append [] qs v w = w
  All-append (p ∷ ps) qs v w = (v.0, All-append ps qs v.1 w)

  conditioned-AreDictionaries :
      (e : Bool) (ps : List (Part V F))
      → OfParts ps
      → AreDictionaries (visit_conditioned_dnf struct e ps)
  unfolding visit_conditioned_dnf
  conditioned-AreDictionaries true ps d =
      first_true-AreDictionaries ps (last_of ps) d (last_of-AreDictionaries ps d)
  conditioned-AreDictionaries false ps d = first_true-AreDictionaries ps (branch []) d tt

  walk_clause-AreDictionaries : (c : Clause) → Yields AreDictionaries (walk_clause struct obj c)
  unfolding walk_clause
  walk_clause-AreDictionaries (unconditioned dnf) =
      Yields-bind (All IsDictionary) AreDictionaries (walk_dnf struct obj dnf) (λ d. ok (branch d))
        (walk_dnf-AreDictionaries dnf) (λ d v. v)
  walk_clause-AreDictionaries (conditioned c) =
      let finish = λ (ps qs : List (Part V F)).
        visit_conditioned_dnf struct (has_else c.otherwise) (ps ++ qs) in
      Yields-bind OfParts AreDictionaries (walk_branches struct obj c.branches)
        (λ ps. walk_otherwise struct obj c.otherwise >>= λ qs. ok (finish ps qs))
        (walk_branches-AreDictionaries c.branches)
        (λ ps v.
          Yields-bind OfParts AreDictionaries (walk_otherwise struct obj c.otherwise)
            (λ qs. ok (finish ps qs)) (walk_otherwise-AreDictionaries c.otherwise)
            (λ qs w.
              conditioned-AreDictionaries (has_else c.otherwise) (ps ++ qs) (All-append ps qs v w)))

  pub walk_clauses-AreDictionaries : (cs : Symbolic) → Yields OfParts (walk_clauses struct obj cs)
  unfolding walk_clauses
  walk_clauses-AreDictionaries [] = tt
  walk_clauses-AreDictionaries (c ∷ cs) =
      Yields-bind AreDictionaries OfParts (walk_clause struct obj c)
        (λ p. walk_clauses struct obj cs >>= λ ps. ok (p ∷ ps)) (walk_clause-AreDictionaries c)
        (λ p v.
          Yields-bind OfParts OfParts (walk_clauses struct obj cs) (λ ps. ok (p ∷ ps))
            (walk_clauses-AreDictionaries cs) (λ ps w. (v, w)))
