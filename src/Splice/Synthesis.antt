-- ===== src/Splice/Synthesis.antt =====
-- `Synthesizer` of saltyrtc/splice/synthesis.py, as `IntSynthesizer` inherits it: its `to_python`
-- gives the integer that z3 has found, so that it is left out. `FloatSynthesizer` is not modelled,
-- since the conversion of its values loses precision.
--
-- The solver is z3, which is not part of the repository: `solve` is what `check` and `model` find
-- for the assertions that were added, or `none`. The state of a synthesizer are these assertions.
-- An argument of the wrong shape raises `TypeError`, whether Python or z3 finds it.
pub mod Meaning
pub mod Adding
pub mod Disjunction
use saltyrtc_server_python.Prelude.{
  ◌≡◌, Bool, true, false, not, ◌&&◌, Option, none, some, List, [], ◌∷◌, ◌++◌, length, ◌==◌,
  if◌then◌else◌,
}
use saltyrtc_server_python.Exception
use saltyrtc_server_python.Exception.{
  Error, Result, ok, err, value_error, type_error, attribute_error,
}
use saltyrtc_server_python.Exec.{Exec, pure, raise, lift, gets, modify, continue, ◌>>=◌, ◌>>◌}
use saltyrtc_server_python.Splice.Constraints.{
  Conjunction, gt, ge, lt, le, eq, ne, xeq, has_key, values,
}
use saltyrtc_server_python.Splice.Order.{Ordered, less, smaller, larger}

-- The arguments of the constraints: a value, a function with the value that it should return, and
-- a value with the length of its fixed part.
pub data Argument (A : Type 0) : Type 0 where
  plain : A → Argument A
  call : (A → A) → A → Argument A
  prefix : A → A → Argument A

-- What was added to the solver.
pub data Assertion (A : Type 0) : Type 0 where
  below at_most above at_least differs : A → Assertion A
  equal : (A → A) → A → Assertion A

abbrev pub Solver : Type 0 → Type 0
Solver A = List (Assertion A)

module _ {A : Type 0} where
  abbrev pub add : Assertion A → Exec (Solver A) (Unit {0})
  add a = modify (λ s. s ++ a ∷ [])

  abbrev pub plain_value : Argument A → Result A
  plain_value (plain a) = ok a
  plain_value _ = err type_error

  -- `if not constraints: return None`
  abbrev pub is_given : Conjunction (Argument A) → Bool
  is_given [] = false
  is_given (e ∷ c) = true

  abbrev pub bounded_constraints : A → A → Bool → Bool → Exec (Solver A) (Unit {0})
  bounded_constraints upper lower true true = do add (at_most upper); add (at_least lower)
  bounded_constraints upper lower true false = do add (at_most upper); add (above lower)
  bounded_constraints upper lower false true = do add (below upper); add (at_least lower)
  bounded_constraints upper lower false false = do add (below upper); add (above lower)

  abbrev add_if : (A → Assertion A) → Option A → Exec (Solver A) (Unit {0})
  add_if a none = pure tt
  add_if a (some b) = add (a b)

  unfoldable pub add_equal : List (Argument A) → Exec (Solver A) (Unit {0})
  add_equal [] = pure tt
  add_equal (call f b ∷ rest) = do add (equal f b); add_equal rest
  add_equal (_ ∷ rest) = raise type_error

  unfoldable pub add_differs : List (Argument A) → Exec (Solver A) (Unit {0})
  add_differs [] = pure tt
  add_differs (a ∷ rest) = do b ← lift (plain_value a); add (differs b); add_differs rest

module _ {A : Type 0} ⦃o : Ordered A⦄ where
  unfoldable pub fold_smaller : A → List (Argument A) → Result A
  fold_smaller m [] = ok m
  fold_smaller m (a ∷ rest) = Exception.◌>>=◌ (plain_value a) (λ x. fold_smaller (smaller m x) rest)

  unfoldable pub fold_larger : A → List (Argument A) → Result A
  fold_larger m [] = ok m
  fold_larger m (a ∷ rest) = Exception.◌>>=◌ (plain_value a) (λ x. fold_larger (larger m x) rest)

  -- `min` and `max` of a list
  abbrev pub minimum : List (Argument A) → Result A
  minimum [] = err value_error
  minimum (a ∷ rest) = Exception.◌>>=◌ (plain_value a) (λ x. fold_smaller x rest)

  abbrev pub maximum : List (Argument A) → Result A
  maximum [] = err value_error
  maximum (a ∷ rest) = Exception.◌>>=◌ (plain_value a) (λ x. fold_larger x rest)

  abbrev pub present : Bool → Result A → Result (Option A)
  present false r = ok none
  present true r = Exception.◌>>=◌ r (λ a. ok (some a))

  -- The bound, and whether it is included.
  abbrev pub upper_bound : Option A → Option A → Option (A × Bool)
  upper_bound (some l) (some e) = if o.leq l e then some (l, false) else some (e, true)
  upper_bound (some l) none = some (l, false)
  upper_bound none (some e) = some (e, true)
  upper_bound none none = none

  abbrev pub lower_bound : Option A → Option A → Option (A × Bool)
  lower_bound (some g) (some e) = if o.leq e g then some (g, false) else some (e, true)
  lower_bound (some g) none = some (g, false)
  lower_bound none (some e) = some (e, true)
  lower_bound none none = none

  abbrev pub add_bounds :
      Option A
      → Option A
      → Option A
      → Option A
      → Option (A × Bool)
      → Option (A × Bool)
      → Exec (Solver A) (Unit {0})
  add_bounds l e g h (some (upper, include_upper)) (some (lower, include_lower)) =
      bounded_constraints upper lower include_upper include_lower
  add_bounds l e g h _ _ = do add_if below l; add_if at_most e; add_if above g; add_if at_least h

  -- `_splice_synthesis`, from the consolidation of the constraints up to the call of the solver
  unfoldable pub add_conjunction : Conjunction (Argument A) → Exec (Solver A) (Unit {0})
  unfolding values has_key fold_smaller fold_larger add_equal add_differs
  add_conjunction c = do
    l ← lift (present (has_key lt c) (minimum (values lt c)))
    e ← lift (present (has_key le c) (minimum (values le c)))
    g ← lift (present (has_key gt c) (maximum (values gt c)))
    h ← lift (present (has_key ge c) (maximum (values ge c)))
    add_bounds l e g h (upper_bound l e) (lower_bound g h)
    add_equal (values eq c)
    add_differs (values ne c)

  -- A constraint that the class has no method for, but for the cases that are given up before.
  abbrev pub synthesize_prefix : Conjunction (Argument A) → Exec (Solver A) (Option A)
  synthesize_prefix c =
      if not (length (values xeq c) == 1)
      then pure none
      else if has_key lt c && not (length (values lt c) == 1)
      then pure none
      else if has_key gt c && not (length (values gt c) == 1)
      then pure none
      else raise attribute_error

  abbrev pub or_try : Option A → Exec (Solver A) (Option A) → Exec (Solver A) (Option A)
  or_try (some v) rest = pure (some v)
  or_try none rest = rest

  module _ (solve : Solver A → Option A) where
    -- `value`
    abbrev pub value : Exec (Solver A) (Option A)
    value s = (ok (solve s), s)

    -- `_splice_synthesis`
    unfoldable pub synthesize_one : Conjunction (Argument A) → Exec (Solver A) (Option A)
    unfolding add_conjunction
    synthesize_one c =
        if is_given c
        then (if has_key xeq c then synthesize_prefix c else (do add_conjunction c; value))
        else pure none

    unfoldable pub splice_synthesis : List (Conjunction (Argument A)) → Exec (Solver A) (Option A)
    unfolding synthesize_one
    splice_synthesis [] = pure none
    splice_synthesis (c ∷ cs) = do
      found ← synthesize_one c
      let rest = splice_synthesis cs
      or_try found rest
