-- ===== src/Splice/Grammar/Walking.antt =====
-- The walk over a parsed tree, from its leaves, and the constraints of an object: `concretize` of
-- saltyrtc/splice/structs.py, and `concretize_and_merge_constraints` of saltyrtc/server/server.py.
--
-- `concretize_and_merge_constraints` is modelled with `unsplicify`, which is its default. The server
-- itself calls it without, for the dependency graph; what the visitor does then is not modelled.
use saltyrtc_server_python.Prelude.{Option, none, some, List, [], ◌∷◌, ◌++◌, map}
use saltyrtc_server_python.Exception.{Result, ok, ◌>>=◌}
use saltyrtc_server_python.Splice.Constraints.{Op, Conjunction, merge_constraints}
use saltyrtc_server_python.Splice.Grammar.{
  Condition, Cnf, Dnf, Clause, conditioned, unconditioned, Symbolic, Struct, Operand, value, Part,
  test, branch, keep, has_else, visit_cnf, visit_condition, visit_tokens, visit_constraint,
  visit_conditioned_dnf, visit_symbolic,
}

module _ {V F : Type 0} (struct : Struct V F) (obj : V) where
  abbrev pub with_op : Op → Option (Operand V F) → Option (Op × Operand V F)
  with_op op none = none
  with_op op (some v) = some (op, v)

  -- The constraints of a conjunction that are not `None`.
  unfoldable pub walk_constraints : Cnf → Result (List (Op × Operand V F))
  unfolding visit_tokens visit_constraint
  walk_constraints [] = ok []
  walk_constraints (c ∷ cs) = visit_tokens struct obj c.arguments >>= λ children.
      visit_constraint struct children >>= λ v.
      walk_constraints cs >>= λ rest. ok (keep (with_op c.op v) rest)

  -- `visit_dnf` of the children
  unfoldable pub walk_dnf : Dnf → Result (List (Conjunction (Operand V F)))
  unfolding walk_constraints visit_cnf
  walk_dnf [] = ok []
  walk_dnf (cnf ∷ cnfs) =
      walk_constraints cnf >>= λ children. walk_dnf cnfs >>= λ rest. ok (visit_cnf children ∷ rest)

  abbrev pub tested : Option V → List (Part V F) → List (Part V F)
  tested none parts = parts
  tested (some v) parts = test v ∷ parts

  unfoldable pub walk_branches : List (Condition × Dnf) → Result (List (Part V F))
  unfolding visit_condition walk_dnf
  walk_branches [] = ok []
  walk_branches ((c, dnf) ∷ branches) = visit_condition struct obj c >>= λ v.
      walk_dnf dnf >>= λ d. walk_branches branches >>= λ parts. ok (tested v (branch d ∷ parts))

  abbrev pub walk_otherwise : Option Dnf → Result (List (Part V F))
  walk_otherwise none = ok []
  walk_otherwise (some dnf) = walk_dnf dnf >>= λ d. ok (branch d ∷ [])

  unfoldable pub walk_clause : Clause → Result (Part V F)
  unfolding walk_branches visit_conditioned_dnf
  walk_clause (unconditioned dnf) = walk_dnf dnf >>= λ d. ok (branch d)
  walk_clause (conditioned c) = walk_branches c.branches >>= λ parts.
      walk_otherwise c.otherwise >>= λ last.
      ok (visit_conditioned_dnf struct (has_else c.otherwise) (parts ++ last))

  unfoldable pub walk_clauses : Symbolic → Result (List (Part V F))
  unfolding walk_clause
  walk_clauses [] = ok []
  walk_clauses (c ∷ cs) = walk_clause c >>= λ p. walk_clauses cs >>= λ ps. ok (p ∷ ps)

  -- The callback that `concretize_cb` returns
  unfoldable pub concretize : Symbolic → Result (List (Conjunction (Operand V F)))
  unfolding walk_clauses visit_symbolic
  concretize tree = walk_clauses tree >>= λ parts. ok (visit_symbolic parts)

module _ {V F : Type 0} where
  unfoldable pub merge_each :
      List (Conjunction (Operand V F))
      → List (List (Conjunction (Operand V F)))
      → List (Conjunction (Operand V F))
  unfolding merge_constraints
  merge_each merged [] = merged
  merge_each merged (c ∷ cs) = merge_each (merge_constraints merged c) cs

  abbrev pub merge_concrete :
      List (List (Conjunction (Operand V F))) → Option (List (Conjunction (Operand V F)))
  merge_concrete [] = none
  merge_concrete (c ∷ cs) = some (merge_each c cs)

module _ {V F : Type 0} (unsplicify : V → V) where
  -- A tuple and a function are not objects of Splice.
  abbrev pub unsplicified : Operand V F → Operand V F
  unsplicified (value v) = value (unsplicify v)
  unsplicified x = x

  abbrev pub unsplicify_all : List (Conjunction (Operand V F)) → List (Conjunction (Operand V F))
  unsplicify_all = map (λ c. map (λ (k, vs). (k, map unsplicified vs)) c)

  -- The callbacks of an object: the data structures that it is in, with their trees.
  unfoldable pub concretize_each :
      V → List (Struct V F × Symbolic) → Result (List (List (Conjunction (Operand V F))))
  unfolding concretize
  concretize_each obj [] = ok []
  concretize_each obj ((struct, tree) ∷ callbacks) = concretize struct obj tree >>= λ c.
      concretize_each obj callbacks >>= λ cs. ok (unsplicify_all c ∷ cs)

  -- `None`, if the object has no callback.
  unfoldable pub concretize_and_merge_constraints :
      V → List (Struct V F × Symbolic) → Result (Option (List (Conjunction (Operand V F))))
  unfolding concretize_each merge_each
  concretize_and_merge_constraints obj constraints =
      concretize_each obj constraints >>= λ concrete. ok (merge_concrete concrete)
