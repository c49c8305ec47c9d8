-- ===== src/Splice/Constraints.antt =====
-- `merge_constraints` of saltyrtc/splice/constraints.py, with the constraints that it merges: lists
-- of dictionaries, which stand for a disjunction of conjunctions.
use saltyrtc_server_python.Prelude.{Bool, true, false, List, [], ◌∷◌, ◌++◌, if◌then◌else◌}

-- The keys that the grammar of a constraint allows, and the key that `visit_symbolic` adds.
pub data Op : Type 0 where
  gt ge lt le eq ne xeq conds : Op

abbrev pub op_eq : Op → Op → Bool
op_eq gt gt = true
op_eq ge ge = true
op_eq lt lt = true
op_eq le le = true
op_eq eq eq = true
op_eq ne ne = true
op_eq xeq xeq = true
op_eq conds conds = true
op_eq _ _ = false

-- A dictionary of lists, with the arguments of each operation.
abbrev pub Conjunction {ℓ} : Type ℓ → Type ℓ
Conjunction A = List (Op × List A)

module _ {ℓ} {A : Type ℓ} where
  unfoldable pub has_key : Op → Conjunction A → Bool
  has_key k [] = false
  has_key k ((j, vs) ∷ c) = if op_eq j k then true else has_key k c

  -- `new_constraint[key] if key in new_constraint else []`
  unfoldable pub values : Op → Conjunction A → List A
  values k [] = []
  values k ((j, vs) ∷ c) = if op_eq j k then vs else values k c

  -- The first inner loop: every key of `constraint`, with the values of both.
  unfoldable pub extend : Conjunction A → Conjunction A → Conjunction A
  unfolding values
  extend [] new_constraint = []
  extend ((k, vs) ∷ constraint) new_constraint =
      (k, vs ++ values k new_constraint) ∷ extend constraint new_constraint

  -- The second inner loop: the keys of `new_constraint` that are not in `constraint`.
  unfoldable pub missing : Conjunction A → Conjunction A → Conjunction A
  unfolding has_key
  missing constraint [] = []
  missing constraint ((k, vs) ∷ new_constraint) =
      let rest = missing constraint new_constraint in
      if has_key k constraint then rest else (k, vs) ∷ rest

  unfoldable pub merge_one : Conjunction A → Conjunction A → Conjunction A
  unfolding extend missing
  merge_one constraint new_constraint =
      extend constraint new_constraint ++ missing constraint new_constraint

  unfoldable pub merge_with : Conjunction A → List (Conjunction A) → List (Conjunction A)
  unfolding merge_one
  merge_with constraint [] = []
  merge_with constraint (c ∷ other) = merge_one constraint c ∷ merge_with constraint other

  unfoldable pub merge_all : List (Conjunction A) → List (Conjunction A) → List (Conjunction A)
  unfolding merge_with
  merge_all [] other = []
  merge_all (c ∷ constraints) other = merge_with c other ++ merge_all constraints other

  -- An empty list, or `None`, is no constraint at all.
  unfoldable pub merge_constraints :
      List (Conjunction A) → List (Conjunction A) → List (Conjunction A)
  unfolding merge_all
  merge_constraints [] other = other
  merge_constraints (c ∷ constraints) [] = c ∷ constraints
  merge_constraints (c ∷ constraints) (d ∷ other) = merge_all (c ∷ constraints) (d ∷ other)
