-- ===== src/Splice/Tags/Attached.antt =====
-- The constraints that are attached to an object: the property `constraints` of `SpliceMixin`, and
-- `clear_constraints`, in saltyrtc/splice/splice.py. A callable is a number.
use saltyrtc_server_python.Prelude.{
  ℕ, ◌≡◌, ap, sym, ◌∙◌, Option, none, some, List, [], ◌∷◌, ◌++◌, append_nil, append_cons,
}
use saltyrtc_server_python.Exception.{Result, ok, err, type_error}
use saltyrtc_server_python.Exec.{Exec, pure, raise, modify, ◌>>◌}

-- What is assigned: an empty list, another false value, a callable, what can be iterated over,
-- whose elements that are not callable are `none`, or anything else.
pub data Assigned : Type 0 where
  empty_list falsy neither : Assigned
  callable : ℕ → Assigned
  collection : List (Option ℕ) → Assigned

-- The loop over a collection.
unfoldable pub append_each : List (Option ℕ) → Exec (List ℕ) (Unit {0})
append_each [] = pure tt
append_each (none ∷ cbs) = raise type_error
append_each (some cb ∷ cbs) = do modify (λ cs. cs ++ cb ∷ []); append_each cbs

-- The setter.
unfoldable pub set_constraints : Assigned → Exec (List ℕ) (Unit {0})
unfolding append_each
set_constraints empty_list = modify (λ cs. [])
set_constraints falsy = pure tt
set_constraints (callable cb) = modify (λ cs. cs ++ cb ∷ [])
set_constraints (collection cbs) = append_each cbs
set_constraints neither = raise type_error

abbrev pub clear_constraints : List ℕ → List ℕ
clear_constraints cs = []

-- The callables before the first element that is not one, and whether there is such an element.
unfoldable pub leading : List (Option ℕ) → List ℕ × Result (Unit {0})
leading [] = ([], ok tt)
leading (none ∷ cbs) = ([], err type_error)
leading (some cb ∷ cbs) = let (rest, result) = leading cbs in (cb ∷ rest, result)

-- A collection is attached up to the first element that is not callable, which raises a
-- `TypeError`; what was attached before stays.
pub append_each-leading :
    (cbs : List (Option ℕ)) (cs : List ℕ)
    → append_each cbs cs ≡ ((leading cbs).1, cs ++ (leading cbs).0)
unfolding append_each leading
append_each-leading [] cs = ap (λ xs. (ok tt, xs)) (sym (append_nil cs))
append_each-leading (none ∷ cbs) cs = ap (λ xs. (err type_error, xs)) (sym (append_nil cs))
append_each-leading (some cb ∷ cbs) cs =
    append_each-leading cbs (cs ++ cb ∷ [])
    ∙ ap (λ xs. ((leading cbs).1, xs)) (append_cons cs cb (leading cbs).0)
