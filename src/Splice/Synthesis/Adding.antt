-- ===== src/Splice/Synthesis/Adding.antt =====
-- What `_splice_synthesis` of saltyrtc/splice/synthesis.py adds to the solver means the same as the
-- constraints that it is given.
use saltyrtc_server_python.Prelude.{
  ◌≡◌, refl, ap, ◌∙◌, Bool, true, false, ◌&&◌, Option, none, some, List, [], ◌∷◌, arith,
}
use saltyrtc_server_python.Exception.{Result, ok, err}
use saltyrtc_server_python.Exec.{Exec, pure, lift, ◌>>=◌, ◌>>◌, >>=-eq-ok}
use saltyrtc_server_python.Splice.Constraints.{Conjunction, gt, ge, lt, le, eq, ne, has_key, values}
use saltyrtc_server_python.Splice.Conjunction.{meets_all, values_none}
use saltyrtc_server_python.Splice.Order.{Ordered, less}
use saltyrtc_server_python.Splice.Synthesis.{
  Argument, plain, call, prefix, Assertion, below, at_most, above, at_least, differs, equal, Solver,
  add, add_equal, add_differs, minimum, maximum, present, upper_bound, lower_bound, add_bounds,
  bounded_constraints, add_if, add_conjunction,
}
use saltyrtc_server_python.Splice.Synthesis.Meaning.{
  asserted, all_asserted, meets, all_asserted-add, fold_smaller-less, fold_smaller-leq,
  fold_larger-less, fold_larger-leq, met,
}

module _ {A : Type 0} ⦃o : Ordered A⦄ where
  -- Where the action succeeds, the solver asks of `v` what it asked before, and `p`.
  abbrev pub Adds : A → Exec (Solver A) (Unit {0}) → Bool → Type 0
  Adds v m p = (s s' : Solver A) → m s ≡ (ok tt, s') → all_asserted s' v ≡ (all_asserted s v && p)

  Adds->> :
      (v : A) (m k : Exec (Solver A) (Unit {0})) (p q : Bool)
      → Adds v m p
      → Adds v k q
      → Adds v (m >> k) (p && q)
  Adds->> v m k p q hm hk s s' h =
      let (_, t, e, f) = >>=-eq-ok m (λ _. k) s s' h in ground (arith, hm s t e, hk t s' f)

  Adds-pure : (v : A) → Adds v (pure tt) true
  Adds-pure v s s' h = ground arith

  Adds-add : (v : A) (a : Assertion A) → Adds v (add a) (asserted a v)
  Adds-add v a s s' h = ground (arith, all_asserted-add s a v)

  Adds-add_if :
      (v : A) (a : A → Assertion A) (b : Option A)
      → Adds v (add_if a b) (met (λ x. asserted (a x) v) b)
  Adds-add_if v a none = Adds-pure v
  Adds-add_if v a (some b) = Adds-add v (a b)

  abbrev upper_met : A → A × Bool → Bool
  upper_met v (b, true) = o.leq v b
  upper_met v (b, false) = less v b

  abbrev lower_met : A → A × Bool → Bool
  lower_met v (b, true) = o.leq b v
  lower_met v (b, false) = less b v

  Adds-bounded_constraints :
      (v u w : A) (i j : Bool)
      → Adds v (bounded_constraints u w i j) (upper_met v (u, i) && lower_met v (w, j))
  Adds-bounded_constraints v u w true true =
      Adds->> v (add (at_most u)) (add (at_least w)) _ _ (Adds-add v (at_most u))
        (Adds-add v (at_least w))
  Adds-bounded_constraints v u w true false =
      Adds->> v (add (at_most u)) (add (above w)) _ _ (Adds-add v (at_most u))
        (Adds-add v (above w))
  Adds-bounded_constraints v u w false true =
      Adds->> v (add (below u)) (add (at_least w)) _ _ (Adds-add v (below u))
        (Adds-add v (at_least w))
  Adds-bounded_constraints v u w false false =
      Adds->> v (add (below u)) (add (above w)) _ _ (Adds-add v (below u)) (Adds-add v (above w))

  abbrev uppers_met : A → Option A → Option A → Bool
  uppers_met v l e = met (λ b. less v b) l && met (λ b. o.leq v b) e

  abbrev lowers_met : A → Option A → Option A → Bool
  lowers_met v g h = met (λ b. less b v) g && met (λ b. o.leq b v) h

  upper_bound_lem :
      (v : A) (l e : Option A) (u : A × Bool)
      → upper_bound l e ≡ some u
      → upper_met v u ≡ uppers_met v l e
  upper_bound_lem v none none u h = cc
  upper_bound_lem v none (some e) (b, i) h = ground arith
  upper_bound_lem v (some l) none (b, i) h = ground arith
  upper_bound_lem v (some l) (some e) (b, i) h = ground (
    arith,
    o.leq_trans v l e,
    o.leq_trans v e l,
    o.leq_trans l v e,
    o.leq_total l e,
    o.leq_trans l e v,
    o.leq_trans e l v,
    o.leq_total v l,
  )

  lower_bound_lem :
      (v : A) (g h : Option A) (w : A × Bool)
      → lower_bound g h ≡ some w
      → lower_met v w ≡ lowers_met v g h
  lower_bound_lem v none none w e = cc
  lower_bound_lem v none (some h) (b, i) e = ground arith
  lower_bound_lem v (some g) none (b, i) e = ground arith
  lower_bound_lem v (some g) (some h) (b, i) e = ground (
    arith,
    o.leq_trans h g v,
    o.leq_trans g h v,
    o.leq_trans v g h,
    o.leq_trans h v g,
    o.leq_trans v h g,
    o.leq_total h g,
    o.leq_total g v,
  )

  Adds-singly :
      (v : A) (l e g h : Option A)
      → Adds v
          (do add_if below l; add_if at_most e; add_if above g; add_if at_least h)
          (uppers_met v l e && lowers_met v g h)
  Adds-singly v l e g h s s' run =
      let all =
        Adds->> v (add_if below l) _ _ _ (Adds-add_if v below l)
          (Adds->> v (add_if at_most e) _ _ _ (Adds-add_if v at_most e) (
            Adds->> v (add_if above g) (add_if at_least h) _ _ (Adds-add_if v above g)
              (Adds-add_if v at_least h)))
          s s' run in
      ground arith

  Adds-add_bounds :
      (v : A) (l e g h : Option A) (p q : Option (A × Bool))
      → upper_bound l e ≡ p
      → lower_bound g h ≡ q
      → Adds v (add_bounds l e g h p q) (uppers_met v l e && lowers_met v g h)
  Adds-add_bounds v l e g h (some (u, i)) (some (w, j)) a b s s' run = ground (
    arith,
    Adds-bounded_constraints v u w i j s s' run,
    upper_bound_lem v l e (u, i) a,
    lower_bound_lem v g h (w, j) b,
  )
  Adds-add_bounds v l e g h none q a b s s' run = Adds-singly v l e g h s s' run
  Adds-add_bounds v l e g h (some u) none a b s s' run = Adds-singly v l e g h s s' run

  Adds-add_equal :
      (v : A) (as' : List (Argument A)) → Adds v (add_equal as') (meets_all (meets v) eq as')
  unfolding add_equal meets_all
  Adds-add_equal v [] s s' h = Adds-pure v s s' h
  Adds-add_equal v (call f b ∷ rest) s s' h =
      Adds->> v (add (equal f b)) (add_equal rest) _ _ (Adds-add v (equal f b))
        (Adds-add_equal v rest) s s' h
  Adds-add_equal v (plain b ∷ rest) s s' h = cc
  Adds-add_equal v (prefix b c ∷ rest) s s' h = cc

  Adds-add_differs :
      (v : A) (as' : List (Argument A)) → Adds v (add_differs as') (meets_all (meets v) ne as')
  unfolding add_differs meets_all
  Adds-add_differs v [] s s' h = Adds-pure v s s' h
  Adds-add_differs v (plain b ∷ rest) s s' h =
      Adds->> v (add (differs b)) (add_differs rest) _ _ (Adds-add v (differs b))
        (Adds-add_differs v rest) s s' h
  Adds-add_differs v (call f b ∷ rest) s s' h = cc
  Adds-add_differs v (prefix b c ∷ rest) s s' h = cc

  present_at :
      (b t : Bool) (r : Result A) (o' : Option A) (p : A → Bool)
      → (b ≡ false → t ≡ true)
      → ((x : A) → r ≡ ok x → p x ≡ t)
      → present b r ≡ ok o'
      → met p o' ≡ t
  present_at false t r o' p a h e = ground (arith, a refl)
  present_at true t (ok x) o' p a h e = ground (arith, h x refl)
  present_at true t (err y) o' p a h e = cc

  -- The least or the greatest of a list that is there stands for the whole list.
  minimum-less :
      (as' : List (Argument A)) (x v : A)
      → minimum as' ≡ ok x
      → less v x ≡ meets_all (meets v) lt as'
  unfolding meets_all
  minimum-less [] x v h = cc
  minimum-less (plain a ∷ rest) x v h = fold_smaller-less a x v rest h
  minimum-less (call f a ∷ rest) x v h = cc
  minimum-less (prefix a b ∷ rest) x v h = cc

  minimum_leq :
      (as' : List (Argument A)) (x v : A)
      → minimum as' ≡ ok x
      → o.leq v x ≡ meets_all (meets v) le as'
  unfolding meets_all
  minimum_leq [] x v h = cc
  minimum_leq (plain a ∷ rest) x v h = fold_smaller-leq a x v rest h
  minimum_leq (call f a ∷ rest) x v h = cc
  minimum_leq (prefix a b ∷ rest) x v h = cc

  maximum-less :
      (as' : List (Argument A)) (x v : A)
      → maximum as' ≡ ok x
      → less x v ≡ meets_all (meets v) gt as'
  unfolding meets_all
  maximum-less [] x v h = cc
  maximum-less (plain a ∷ rest) x v h = fold_larger-less a x v rest h
  maximum-less (call f a ∷ rest) x v h = cc
  maximum-less (prefix a b ∷ rest) x v h = cc

  maximum_leq :
      (as' : List (Argument A)) (x v : A)
      → maximum as' ≡ ok x
      → o.leq x v ≡ meets_all (meets v) ge as'
  unfolding meets_all
  maximum_leq [] x v h = cc
  maximum_leq (plain a ∷ rest) x v h = fold_larger-leq a x v rest h
  maximum_leq (call f a ∷ rest) x v h = cc
  maximum_leq (prefix a b ∷ rest) x v h = cc

  lift-ok :
      {B : Type 0} (r : Result B) (f : B → Exec (Solver A) (Unit {0})) (s s' : Solver A)
      → (lift r >>= f) s ≡ (ok tt, s')
      → (b : B) × (r ≡ ok b) × (f b s ≡ (ok tt, s'))
  lift-ok (ok b) f s s' h = (b, refl, h)
  lift-ok (err e) f s s' h = cc

  abbrev pub six_met : A → Conjunction (Argument A) → Bool
  six_met v c =
      (((meets_all (meets v) lt (values lt c) && meets_all (meets v) le (values le c))
        && (meets_all (meets v) gt (values gt c) && meets_all (meets v) ge (values ge c))))
      && (meets_all (meets v) eq (values eq c) && meets_all (meets v) ne (values ne c))

  pub Adds-add_conjunction :
      (v : A) (c : Conjunction (Argument A)) → Adds v (add_conjunction c) (six_met v c)
  unfolding add_conjunction
  Adds-add_conjunction v c s s' run =
      let (l, l_is, run₁) = lift-ok (present (has_key lt c) (minimum (values lt c))) _ s s' run in
      let (e, e_is, run₂) = lift-ok (present (has_key le c) (minimum (values le c))) _ s s' run₁ in
      let (g, g_is, run₃) = lift-ok (present (has_key gt c) (maximum (values gt c))) _ s s' run₂ in
      let (h, h_is, run₄) = lift-ok (present (has_key ge c) (maximum (values ge c))) _ s s' run₃ in
      let all =
        Adds->> v (add_bounds l e g h (upper_bound l e) (lower_bound g h)) _ _ _
          (Adds-add_bounds v l e g h (upper_bound l e) (lower_bound g h) refl refl)
          (Adds->> v (add_equal (values eq c)) (add_differs (values ne c)) _ _
            (Adds-add_equal v (values eq c)) (Adds-add_differs v (values ne c)))
          s s' run₄ in
      let l_met =
        present_at (has_key lt c) _ (minimum (values lt c)) l (λ b. less v b)
          (values_none (meets v) lt c) (λ x. minimum-less (values lt c) x v) l_is in
      let e_met =
        present_at (has_key le c) _ (minimum (values le c)) e (λ b. o.leq v b)
          (values_none (meets v) le c) (λ x. minimum_leq (values le c) x v) e_is in
      let g_met =
        present_at (has_key gt c) _ (maximum (values gt c)) g (λ b. less b v)
          (values_none (meets v) gt c) (λ x. maximum-less (values gt c) x v) g_is in
      let h_met =
        present_at (has_key ge c) _ (maximum (values ge c)) h (λ b. o.leq b v)
          (values_none (meets v) ge c) (λ x. maximum_leq (values ge c) x v) h_is in
      all ∙ ap (λ b. all_asserted s v && b) (rw (l_met, e_met, g_met, h_met) refl)
