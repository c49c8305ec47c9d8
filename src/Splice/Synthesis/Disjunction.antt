-- ===== src/Splice/Synthesis/Disjunction.antt =====
-- `splice_synthesis` of saltyrtc/splice/synthesis.py: the sets of constraints are tried one after
-- the other with the same solver.
use saltyrtc_server_python.Prelude.{
  ◌≡◌, ◌≢◌, ◌⊎◌, refl, ap, sym, ◌∙◌, Bool, true, false, ◌&&◌, Option, none, some, List, All, [],
  ◌∷◌, arith, Bool-cases, inl, inr,
}
use saltyrtc_server_python.Exception.{Result, ok}
use saltyrtc_server_python.Exec.{>>=-eq-ok}
use saltyrtc_server_python.Splice.Constraints.{
  Op, Conjunction, gt, ge, lt, le, eq, ne, xeq, conds, has_key, values,
}
use saltyrtc_server_python.Splice.Conjunction.{
  IsDictionary, holds, any_holds, meets_all, values_hold, values_none, holds_of_values,
}
use saltyrtc_server_python.Splice.Order.{Ordered}
use saltyrtc_server_python.Splice.Synthesis.{
  Argument, Solver, add_conjunction, synthesize_one, splice_synthesis, is_given, value,
  synthesize_prefix, or_try,
}
use saltyrtc_server_python.Splice.Synthesis.Meaning.{all_asserted, meets}
use saltyrtc_server_python.Splice.Synthesis.Adding.{six_met, Adds-add_conjunction}

Bool-ext : (a b : Bool) → (a ≡ true → b ≡ true) → (b ≡ true → a ≡ true) → a ≡ b
Bool-ext true b f g = sym (f refl)
Bool-ext false true f g = g refl
Bool-ext false false f g = refl

conds_met :
    {A : Type 0} ⦃o : Ordered A⦄ (v : A) (as' : List (Argument A))
    → meets_all (meets v) conds as' ≡ true
unfolding meets_all
conds_met v [] = refl
conds_met v (a ∷ rest) = conds_met v rest

module _ {A : Type 0} ⦃o : Ordered A⦄ where
  -- What is left of a dictionary without a prefix are the six operations, and `conds`.
  six_met_iff :
      (v : A) (c : Conjunction (Argument A))
      → IsDictionary c
      → has_key xeq c ≡ false
      → six_met v c ≡ holds (meets v) c
  six_met_iff v c d no_prefix =
      Bool-ext (six_met v c) (holds (meets v) c)
        (λ six. holds_of_values (meets v) c d λ k. value_of k six)
        (λ all. ground (
          arith,
          values_hold (meets v) lt c all,
          values_hold (meets v) le c all,
          values_hold (meets v) gt c all,
          values_hold (meets v) ge c all,
          values_hold (meets v) eq c all,
          values_hold (meets v) ne c all,
        ))
    where
      value_of : (k : Op) → six_met v c ≡ true → meets_all (meets v) k (values k c) ≡ true
      value_of lt h = ground arith
      value_of le h = ground arith
      value_of gt h = ground arith
      value_of ge h = ground arith
      value_of eq h = ground arith
      value_of ne h = ground arith
      value_of xeq h = values_none (meets v) xeq c no_prefix
      value_of conds h = conds_met v (values conds c)

  -- What `_splice_synthesis` adds to the solver for a set of constraints means the same as the set:
  -- to keep only the least upper and the greatest lower bounds, and only one of a pair of them,
  -- loses nothing. The set is a dictionary without `xeq`.
  pub add_conjunction-holds :
      (c : Conjunction (Argument A)) (s s' : Solver A) (v : A)
      → IsDictionary c
      → has_key xeq c ≡ false
      → add_conjunction c s ≡ (ok tt, s')
      → all_asserted s' v ≡ (all_asserted s v && holds (meets v) c)
  add_conjunction-holds c s s' v d p run =
      Adds-add_conjunction v c s s' run ∙ ap (λ b. all_asserted s v && b) (six_met_iff v c d p)

  prefix_none :
      (c : Conjunction (Argument A)) (s t : Solver A) (v : A)
      → synthesize_prefix c s ≡ (ok (some v), t)
      → ⊥
  prefix_none c s t v run = ground arith

  prefix_keeps : (c : Conjunction (Argument A)) (s : Solver A) → (synthesize_prefix c s).1 ≡ s
  prefix_keeps c s = ground arith

  given_of : (c : Conjunction (Argument A)) (v : A) → holds (meets v) c ≡ false → is_given c ≡ true
  unfolding holds
  given_of [] v h = cc
  given_of (e ∷ c) v h = refl

  -- What the solver finds meets all that was added.
  abbrev pub IsSound : (Solver A → Option A) → Type 0
  IsSound solve = (s : Solver A) (v : A) → solve s ≡ some v → all_asserted s v ≡ true

  module _ (solve : Solver A → Option A) where
    -- A set that was added, and what the solver found for it.
    synthesize_one-ok :
        (c : Conjunction (Argument A)) (s t : Solver A) (found : Option A)
        → is_given c ≡ true
        → has_key xeq c ≡ false
        → synthesize_one solve c s ≡ (ok found, t)
        → (add_conjunction c s ≡ (ok tt, t)) × (found ≡ solve t)
    unfolding synthesize_one
    synthesize_one-ok c s t found g p run =
        let (u, t', e, f) =
          >>=-eq-ok (add_conjunction c) (λ _. value solve) s t (rw (g, p) at run) in
        (ground arith, ground arith)

    synthesize_one-some :
        (c : Conjunction (Argument A)) (s t : Solver A) (v : A)
        → synthesize_one solve c s ≡ (ok (some v), t)
        → (is_given c ≡ true) × (has_key xeq c ≡ false)
    unfolding synthesize_one
    synthesize_one-some [] s t v run = cc
    synthesize_one-some (e ∷ c) s t v run = elim (Bool-cases (has_key xeq (e ∷ c))) [
      | inl prefix ↦ absurd (prefix_none (e ∷ c) s t v (rw prefix at run))
      | inr other ↦ (refl, other)
    ]

    splice_synthesis_cons :
        (c : Conjunction (Argument A)) (cs : List (Conjunction (Argument A))) (s s' : Solver A)
        (v : A)
        → splice_synthesis solve (c ∷ cs) s ≡ (ok (some v), s')
        → (synthesize_one solve c s ≡ (ok (some v), s'))
          ⊎ ((t : Solver A) × (synthesize_one solve c s ≡ (ok none, t))
              × (splice_synthesis solve cs t ≡ (ok (some v), s')))
    unfolding splice_synthesis
    splice_synthesis_cons c cs s s' v run =
        let (found, t, e, f) =
          >>=-eq-ok (synthesize_one solve c) (λ found. or_try found (splice_synthesis solve cs)) s
            s' run in
        tried found t e f
      where
        tried :
            (found : Option A) (t : Solver A)
            → synthesize_one solve c s ≡ (ok found, t)
            → or_try found (splice_synthesis solve cs) t ≡ (ok (some v), s')
            → (synthesize_one solve c s ≡ (ok (some v), s'))
              ⊎ ((t' : Solver A) × (synthesize_one solve c s ≡ (ok none, t'))
                  × (splice_synthesis solve cs t' ≡ (ok (some v), s')))
        tried (some x) t e f = inl (e ∙ f)
        tried none t e f = inr (t, e, f)

    -- A value that the synthesizer returns without a conversion, as that of integers does, meets one
    -- of the sets of constraints, in all of its parts, given that what the solver finds meets what
    -- was added, and that the sets are dictionaries.
    pub splice_synthesis-any_holds :
        (cs : List (Conjunction (Argument A))) (s s' : Solver A) (v : A)
        → IsSound solve
        → All IsDictionary cs
        → splice_synthesis solve cs s ≡ (ok (some v), s')
        → any_holds (meets v) cs ≡ true
    unfolding any_holds
    splice_synthesis-any_holds [] s s' v sound d run = unfold splice_synthesis in cc
    splice_synthesis-any_holds (c ∷ cs) s s' v sound d run =
        elim (splice_synthesis_cons c cs s s' v run) [
          | inl here ↦
              let (g, p) = synthesize_one-some c s s' v here in
              let (added, found) = synthesize_one-ok c s s' (some v) g p here in
              ground (arith, sound s' v (sym found), add_conjunction-holds c s s' v d.0 p added)
          | inr (t, none_here, later) ↦
              ground (arith, splice_synthesis-any_holds cs t s' v sound d.1 later)
        ]

    -- Whatever is tried keeps what the solver was told before.
    only_adds :
        (c : Conjunction (Argument A)) (s t : Solver A) (found : Option A) (x : A)
        → synthesize_one solve c s ≡ (ok found, t)
        → all_asserted s x ≡ false
        → all_asserted t x ≡ false
    unfolding synthesize_one
    only_adds [] s t found x run h = ground arith
    only_adds (e ∷ c) s t found x run h = elim (Bool-cases (has_key xeq (e ∷ c))) [
      | inl prefix ↦
          let same = prefix_keeps (e ∷ c) s in
          let ran : synthesize_prefix (e ∷ c) s ≡ (ok found, t) = rw prefix at run in
          ap (λ z. all_asserted z x)
            (sym (ap (λ (z : Result (Option A) × Solver A). z.1) ran) ∙ same)
          ∙ h
      | inr other ↦
          let (added, _) = synthesize_one-ok (e ∷ c) s t found refl other run in
          ground (arith, Adds-add_conjunction x (e ∷ c) s t added)
    ]

    contradicted :
        (cs : List (Conjunction (Argument A))) (s s' : Solver A) (v : A)
        → IsSound solve
        → ((x : A) → all_asserted s x ≡ false)
        → splice_synthesis solve cs s ≡ (ok (some v), s')
        → ⊥
    contradicted [] s s' v sound h run = unfold splice_synthesis in cc
    contradicted (c ∷ cs) s s' v sound h run = elim (splice_synthesis_cons c cs s s' v run) [
      | inl here ↦
          let (g, p) = synthesize_one-some c s s' v here in
          let (added, found) = synthesize_one-ok c s s' (some v) g p here in
          ground (arith, sound s' v (sym found), only_adds c s s' (some v) v here (h v))
      | inr (t, none_here, later) ↦
          contradicted cs t s' v sound (λ x. only_adds c s t none x none_here (h x)) later
    ]

    -- The solver is not reset between two sets. Where the first set cannot be met, no value is ever
    -- synthesized, even if a later set could be met: the later sets are added to the first.
    pub splice_synthesis-contradicted :
        (c : Conjunction (Argument A)) (cs : List (Conjunction (Argument A))) (s s' : Solver A)
        (v : A)
        → IsSound solve
        → IsDictionary c
        → has_key xeq c ≡ false
        → ((x : A) → holds (meets x) c ≡ false)
        → splice_synthesis solve (c ∷ cs) s ≢ (ok (some v), s')
    splice_synthesis-contradicted c cs s s' v sound d p never run =
        elim (splice_synthesis_cons c cs s s' v run) [
          | inl here ↦
              let (g, _) = synthesize_one-some c s s' v here in
              let (added, found) = synthesize_one-ok c s s' (some v) g p here in
              ground
                (arith, sound s' v (sym found), add_conjunction-holds c s s' v d p added, never v)
          | inr (t, none_here, later) ↦
              let (added, _) = synthesize_one-ok c s t none (given_of c v (never v)) p none_here in
              contradicted cs t s' v sound
                (λ x. ground (arith, add_conjunction-holds c s t x d p added, never x)) later
        ]
