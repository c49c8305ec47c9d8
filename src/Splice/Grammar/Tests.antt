-- ===== src/Splice/Grammar/Tests.antt =====
-- A data structure whose objects lie between a lower bound and an upper one, if it is bounded.
use saltyrtc_server_python.Prelude.{
  ℕ, ◌≡◌, refl, Bool, true, false, Option, some, none, [], ◌∷◌, leb, bytes_eq, if◌then◌else◌, ◌==◌,
}
use saltyrtc_server_python.Exception.{ok}
use saltyrtc_server_python.Value.{Text, text}
use saltyrtc_server_python.Splice.Constraints.{Op, Conjunction, ge, le}
use saltyrtc_server_python.Splice.Grammar.{
  Condition, condition, no_more, Symbolic, conditioned, unconditioned, operand, Struct, Operand,
  value,
}
use saltyrtc_server_python.Splice.Grammar.Walking.{concretize_and_merge_constraints}

-- An operation is the number that it returns.
abbrev attribute_of : Text → Option ℕ
attribute_of name =
    if bytes_eq name (text "bounded")
    then some 1
    else if bytes_eq name (text "lower")
    then some 3
    else if bytes_eq name (text "upper")
    then some 9
    else none

abbrev struct : Struct ℕ ℕ
struct = record {
  attribute = attribute_of;
  call = λ f vs. ok (some f);
  is_false = λ v. false;
  is_true = λ v. if v == 0 then false else true;
}

abbrev operation : Text → Condition
operation name = condition name no_more

-- `ge(lower())`, and `if bounded() then le(upper())`
abbrev at_least : Symbolic
at_least =
    unconditioned
      ((record { op = ge; arguments = operand (operation (text "lower")) ∷ [] } ∷ []) ∷ [])
    ∷ []

abbrev bounded : Symbolic
bounded =
    conditioned (record {
      branches =
          (
            operation (text "bounded"),
            (record { op = le; arguments = operand (operation (text "upper")) ∷ [] } ∷ []) ∷ [],
          )
          ∷ [];
      otherwise = none;
    })
    ∷ []

abbrev constraint : Op → ℕ → Conjunction (Operand ℕ ℕ)
constraint op v = (op, value v ∷ []) ∷ []

-- The number 5 against the constraints.
abbrev meets_five : Op → Operand ℕ ℕ → Bool
meets_five ge (value v) = leb v 5
meets_five le (value v) = leb 5 v
meets_five _ _ = false

bounded_constraints :
    concretize_and_merge_constraints (λ v. v) 7 ((struct, at_least) ∷ (struct, bounded) ∷ [])
    ≡ ok (some (((ge, value 3 ∷ []) ∷ (le, value 9 ∷ []) ∷ []) ∷ []))
unfolding concretize_and_merge_constraints
bounded_constraints = refl
