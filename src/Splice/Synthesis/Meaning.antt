-- ===== src/Splice/Synthesis/Meaning.antt =====
-- What the assertions of a solver and the constraints of saltyrtc/splice/synthesis.py ask of a
-- value, and what the least and the greatest of several arguments ask.
use saltyrtc_server_python.Prelude.{
  ◌≡◌, Bool, true, false, not, ◌&&◌, Option, none, some, List, [], ◌∷◌, ◌++◌, arith,
}
use saltyrtc_server_python.Exception.{ok}
use saltyrtc_server_python.Splice.Constraints.{Op, gt, ge, lt, le, eq, ne, conds}
use saltyrtc_server_python.Splice.Conjunction.{meets_all}
use saltyrtc_server_python.Splice.Order.{
  Ordered, less, smaller, larger, less-smaller, leq-smaller, larger-less, larger-leq,
}
use saltyrtc_server_python.Splice.Synthesis.{
  Argument, plain, call, prefix, Assertion, below, at_most, above, at_least, differs, equal, Solver,
  fold_smaller, fold_larger,
}

module _ {A : Type 0} ⦃o : Ordered A⦄ where
  abbrev pub asserted : Assertion A → A → Bool
  asserted (below b) v = less v b
  asserted (at_most b) v = o.leq v b
  asserted (above b) v = less b v
  asserted (at_least b) v = o.leq b v
  asserted (differs b) v = not (o.equals v b)
  asserted (equal f b) v = o.equals (f v) b

  unfoldable pub all_asserted : Solver A → A → Bool
  all_asserted [] v = true
  all_asserted (a ∷ s) v = asserted a v && all_asserted s v

  -- What an argument of a constraint asks of a value. `conds` asks nothing.
  abbrev pub meets : A → Op → Argument A → Bool
  meets v lt (plain b) = less v b
  meets v le (plain b) = o.leq v b
  meets v gt (plain b) = less b v
  meets v ge (plain b) = o.leq b v
  meets v ne (plain b) = not (o.equals v b)
  meets v eq (call f b) = o.equals (f v) b
  meets v conds a = true
  meets v _ _ = false

  pub all_asserted-add :
      (s : Solver A) (a : Assertion A) (v : A)
      → all_asserted (s ++ a ∷ []) v ≡ (all_asserted s v && asserted a v)
  unfolding all_asserted
  all_asserted-add [] a v = ground arith
  all_asserted-add (b ∷ s) a v = ground (arith, all_asserted-add s a v)

  pub fold_smaller-less :
      (m x v : A) (as' : List (Argument A))
      → fold_smaller m as' ≡ ok x
      → less v x ≡ (less v m && meets_all (meets v) lt as')
  unfolding fold_smaller meets_all
  fold_smaller-less m x v [] h = ground arith
  fold_smaller-less m x v (plain a ∷ rest) h =
      ground (arith, fold_smaller-less (smaller m a) x v rest h, less-smaller v m a)
  fold_smaller-less m x v (call f a ∷ rest) h = cc
  fold_smaller-less m x v (prefix a b ∷ rest) h = cc

  pub fold_smaller-leq :
      (m x v : A) (as' : List (Argument A))
      → fold_smaller m as' ≡ ok x
      → o.leq v x ≡ (o.leq v m && meets_all (meets v) le as')
  unfolding fold_smaller meets_all
  fold_smaller-leq m x v [] h = ground arith
  fold_smaller-leq m x v (plain a ∷ rest) h =
      ground (arith, fold_smaller-leq (smaller m a) x v rest h, leq-smaller v m a)
  fold_smaller-leq m x v (call f a ∷ rest) h = cc
  fold_smaller-leq m x v (prefix a b ∷ rest) h = cc

  pub fold_larger-less :
      (m x v : A) (as' : List (Argument A))
      → fold_larger m as' ≡ ok x
      → less x v ≡ (less m v && meets_all (meets v) gt as')
  unfolding fold_larger meets_all
  fold_larger-less m x v [] h = ground arith
  fold_larger-less m x v (plain a ∷ rest) h =
      ground (arith, fold_larger-less (larger m a) x v rest h, larger-less v m a)
  fold_larger-less m x v (call f a ∷ rest) h = cc
  fold_larger-less m x v (prefix a b ∷ rest) h = cc

  pub fold_larger-leq :
      (m x v : A) (as' : List (Argument A))
      → fold_larger m as' ≡ ok x
      → o.leq x v ≡ (o.leq m v && meets_all (meets v) ge as')
  unfolding fold_larger meets_all
  fold_larger-leq m x v [] h = ground arith
  fold_larger-leq m x v (plain a ∷ rest) h =
      ground (arith, fold_larger-leq (larger m a) x v rest h, larger-leq v m a)
  fold_larger-leq m x v (call f a ∷ rest) h = cc
  fold_larger-leq m x v (prefix a b ∷ rest) h = cc

  abbrev pub met : (A → Bool) → Option A → Bool
  met p none = true
  met p (some b) = p b
