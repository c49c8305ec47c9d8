-- ===== src/Splice/Grammar.antt =====
-- The grammar of symbolic constraints, and `SymbolicVisitor` of saltyrtc/splice/constraints.py as
-- `concretize_cb` of saltyrtc/splice/structs.py uses it when `dg` is false.
--
-- The parser is the library arpeggio, which is not part of the repository: a parsed tree is a value
-- of the types below, one for each rule. A child that is `None` is left out of the children of its
-- node by the library, and so are the keywords and brackets of a sequence. Other brackets are
-- texts, which only the visit of a constraint looks at, as the commas between its arguments.
--
-- `V` are the values of Python but for `None` and lists, `F` the attributes of a data structure.
pub mod Walking
pub mod Dictionary
pub mod Meaning
pub mod Yielding
pub mod Merging
pub mod Tests
use saltyrtc_server_python.Prelude.{
  Bool, true, false, Option, none, some, List, [], ◌∷◌, ◌++◌, if◌then◌else◌,
}
use saltyrtc_server_python.Exception.{Result, ok, err, attribute_error, ◌>>=◌}
use saltyrtc_server_python.Value.{Text}
use saltyrtc_server_python.Splice.Constraints.{Op, op_eq, Conjunction, has_key, merge_constraints}

-- `condition`: the operation and its arguments
mutual
  pub data Condition : Type 0 where
    condition : Text → Conditions → Condition

  pub data Conditions : Type 0 where
    no_more : Conditions
    next : Condition → Conditions → Conditions

-- What stands between the brackets of a constraint.
pub data Token : Type 0 where
  operand : Condition → Token
  func_name : Text → Token
  comma : Token

-- `constraint`: one of the seven operations, and its arguments
pub record Constraint : Type 0 where
  pub op : Op
  pub arguments : List Token

abbrev pub Cnf : Type 0
Cnf = List Constraint

abbrev pub Dnf : Type 0
Dnf = List Cnf

-- `conditioned_dnf`: the conditions with what holds under them, and what holds otherwise
pub record ConditionedDnf : Type 0 where
  pub branches : List (Condition × Dnf)
  pub otherwise : Option Dnf

pub data Clause : Type 0 where
  conditioned : ConditionedDnf → Clause
  unconditioned : Dnf → Clause

-- `symbolic`
abbrev pub Symbolic : Type 0
Symbolic = List Clause

-- The data structure that an object is in: `getattr`, the call of an attribute, whose `None` is
-- `none`, and the tests `is False` and `if`.
pub record Struct (V F : Type 0) : Type 0 where
  pub attribute : Text → Option F
  pub call : F → List V → Result (Option V)
  pub is_false : V → Bool
  pub is_true : V → Bool

-- The value of an operation in a dictionary.
pub data Operand (V F : Type 0) : Type 0 where
  value : V → Operand V F
  function : F → Operand V F
  separator : Operand V F
  several : List F → List V → Operand V F

-- The children of a constraint after the operation.
pub data Child (V : Type 0) : Type 0 where
  computed : V → Child V
  named : Text → Child V
  separating : Child V

-- The children of a conditioned disjunction.
pub data Part (V F : Type 0) : Type 0 where
  test : V → Part V F
  branch : List (Conjunction (Operand V F)) → Part V F

-- `"else" in node`
abbrev pub has_else {ℓ} : {A : Type ℓ} → Option A → Bool
has_else none = false
has_else (some a) = true

abbrev pub keep {ℓ} : {A : Type ℓ} → Option A → List A → List A
keep none xs = xs
keep (some x) xs = x ∷ xs

abbrev computed_of : {V : Type 0} → List (Child V) → List V
computed_of [] = []
computed_of (computed v ∷ children) = v ∷ computed_of children
computed_of (_ ∷ children) = computed_of children

module _ {V F : Type 0} where
  -- `constraints[key].append(...)`, or a new key
  unfoldable pub append_to :
      Op → Operand V F → Conjunction (Operand V F) → Conjunction (Operand V F)
  append_to k v [] = (k, v ∷ []) ∷ []
  append_to k v ((j, vs) ∷ c) =
      let rest = append_to k v c in if op_eq j k then (j, vs ++ v ∷ []) ∷ c else (j, vs) ∷ rest

  -- The loop of `visit_cnf`, after some children
  unfoldable pub append_all :
      List (Op × Operand V F) → Conjunction (Operand V F) → Conjunction (Operand V F)
  unfolding append_to
  append_all [] c = c
  append_all ((k, v) ∷ children) c = append_all children (append_to k v c)

  unfoldable pub visit_cnf : List (Op × Operand V F) → Conjunction (Operand V F)
  unfolding append_all
  visit_cnf children = append_all children []

  -- `visit_symbolic`: what is not a list is passed over.
  unfoldable pub merge_parts :
      List (Part V F) → List (Conjunction (Operand V F)) → List (Conjunction (Operand V F))
  unfolding merge_constraints
  merge_parts [] merged = merged
  merge_parts (test v ∷ children) merged = merge_parts children merged
  merge_parts (branch child ∷ children) merged =
      merge_parts children (merge_constraints child merged)

  unfoldable pub visit_symbolic : List (Part V F) → List (Conjunction (Operand V F))
  unfolding merge_parts
  visit_symbolic children = merge_parts children []

  -- `children[-1]`
  unfoldable pub last_of : List (Part V F) → Part V F
  last_of [] = branch []
  last_of (p ∷ []) = p
  last_of (p ∷ q ∷ ps) = last_of (q ∷ ps)

  abbrev pub or_branch : Option (Part V F) → Part V F → Part V F
  or_branch none p = p
  or_branch (some q) p = q

  module _ (struct : Struct V F) where
    -- The truth of a child; a list is true if it is not empty.
    abbrev pub is_true_part : Part V F → Bool
    is_true_part (test v) = struct.is_true v
    is_true_part (branch []) = false
    is_true_part (branch (c ∷ cs)) = true

    -- The loop over every second child: the one after the first true one.
    unfoldable pub first_true : List (Part V F) → Option (Part V F)
    first_true [] = none
    first_true (p ∷ []) = none
    first_true (p ∷ q ∷ ps) = let rest = first_true ps in if is_true_part p then some q else rest

    unfoldable pub visit_conditioned_dnf : Bool → List (Part V F) → Part V F
    unfolding first_true last_of
    visit_conditioned_dnf has_else children =
        or_branch (first_true children) (if has_else then last_of children else branch [])

    abbrev pub get_attribute : Text → Result F
    get_attribute name = elim (struct.attribute name) [ none ↦ err attribute_error | some f ↦ ok f ]

    -- Without an argument, the object is the argument.
    abbrev pub call_with : V → F → List V → Result (Option V)
    call_with obj f [] = struct.call f (obj ∷ [])
    call_with obj f (v ∷ vs) = struct.call f (v ∷ vs)

    unfoldable mutual
      pub visit_condition : V → Condition → Result (Option V)
      visit_condition obj (condition op arguments) =
          visit_conditions obj arguments >>= λ vs. get_attribute op >>= λ f. call_with obj f vs

      pub visit_conditions : V → Conditions → Result (List V)
      visit_conditions obj no_more = ok []
      visit_conditions obj (next c cs) =
          visit_condition obj c >>= λ v. visit_conditions obj cs >>= λ vs. ok (keep v vs)

    unfoldable pub visit_tokens : V → List Token → Result (List (Child V))
    unfolding visit_condition
    visit_tokens obj [] = ok []
    visit_tokens obj (operand c ∷ tokens) = visit_condition obj c >>= λ v.
        visit_tokens obj tokens >>= λ children.
        ok (elim v [ none ↦ children | some v ↦ computed v ∷ children ])
    visit_tokens obj (func_name name ∷ tokens) =
        visit_tokens obj tokens >>= λ children. ok (named name ∷ children)
    visit_tokens obj (comma ∷ tokens) =
        visit_tokens obj tokens >>= λ children. ok (separating ∷ children)

    -- `children.results["func_name"]`, each with its attribute
    unfoldable pub functions_of : List (Child V) → Result (List F)
    functions_of [] = ok []
    functions_of (named name ∷ children) =
        get_attribute name >>= λ f. functions_of children >>= λ fs. ok (f ∷ fs)
    functions_of (_ ∷ children) = functions_of children

    -- `visit_constraint`; `None` is `none`.
    unfoldable pub visit_constraint : List (Child V) → Result (Option (Operand V F))
    unfolding functions_of
    visit_constraint [] = ok none
    visit_constraint (named name ∷ []) = get_attribute name >>= λ f. ok (some (function f))
    visit_constraint (computed v ∷ []) = ok (if struct.is_false v then none else some (value v))
    visit_constraint (separating ∷ []) = ok (some separator)
    visit_constraint (x ∷ y ∷ children) = functions_of (x ∷ y ∷ children) >>= λ fs.
        ok (some (several fs (computed_of (x ∷ y ∷ children))))
