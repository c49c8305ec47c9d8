-- ===== src/Splice/Conjunction.antt =====
-- Merged constraints mean both: `merge_constraints` of saltyrtc/splice/constraints.py.
use saltyrtc_server_python.Prelude.{
  ◌≡◌, refl, ap, sym, ◌∙◌, Bool, true, false, ◌&&◌, ◌||◌, List, All, [], ◌∷◌, ◌++◌, arith,
  Bool-cases, inl, inr,
}
use saltyrtc_server_python.Splice.Constraints.{
  Op, op_eq, Conjunction, has_key, values, extend, missing, merge_one, merge_with, merge_all,
  merge_constraints,
}

-- No key stands in the dictionary twice.
abbrev pub IsDictionary {ℓ} : {A : Type ℓ} → Conjunction A → Type 0
IsDictionary [] = Unit
IsDictionary ((k, vs) ∷ c) = (has_key k c ≡ false) × IsDictionary c

pub op_eq_sound : (j k : Op) → op_eq j k ≡ true → j ≡ k
op_eq_sound j k e = ground arith

pub op_eq_refl : (k : Op) → op_eq k k ≡ true
op_eq_refl k = ground arith

pub op_eq_sym : (j k : Op) → op_eq j k ≡ op_eq k j
op_eq_sym j k = ground arith

missing_none {ℓ} : {A : Type ℓ} (d : Conjunction A) → missing [] d ≡ d
unfolding missing has_key
missing_none [] = refl
missing_none ((k, vs) ∷ d) = ap (◌∷◌ (k, vs)) (missing_none d)

-- `meets k a` tells whether the synthesized value meets one argument of the operation `k`.
module _ {ℓ} {A : Type ℓ} (meets : Op → A → Bool) where
  unfoldable pub meets_all : Op → List A → Bool
  meets_all k [] = true
  meets_all k (a ∷ as') = meets k a && meets_all k as'

  unfoldable pub holds : Conjunction A → Bool
  unfolding meets_all
  holds [] = true
  holds ((k, vs) ∷ c) = meets_all k vs && holds c

  unfoldable pub any_holds : List (Conjunction A) → Bool
  unfolding holds
  any_holds [] = false
  any_holds (c ∷ cs) = holds c || any_holds cs

  -- An empty list of conjunctions is no constraint.
  abbrev pub satisfies : List (Conjunction A) → Bool
  satisfies [] = true
  satisfies (c ∷ cs) = any_holds (c ∷ cs)

  meets_all-append :
      (k : Op) (xs ys : List A) → meets_all k (xs ++ ys) ≡ (meets_all k xs && meets_all k ys)
  unfolding meets_all
  meets_all-append k [] ys = refl
  meets_all-append k (x ∷ xs) ys = ground (arith, meets_all-append k xs ys)

  holds-append : (c d : Conjunction A) → holds (c ++ d) ≡ (holds c && holds d)
  unfolding holds
  holds-append [] d = refl
  holds-append ((k, vs) ∷ c) d = ground (arith, holds-append c d)

  meets_all-op_eq : (j k : Op) (vs : List A) → op_eq j k ≡ true → meets_all j vs ≡ meets_all k vs
  meets_all-op_eq j k vs e = ap (λ o. meets_all o vs) (op_eq_sound j k e)

  pub values_hold : (k : Op) (d : Conjunction A) → holds d ≡ true → meets_all k (values k d) ≡ true
  unfolding holds values
  values_hold k [] h = unfold meets_all in refl
  values_hold k ((j, ws) ∷ d) h = ground (arith, values_hold k d, meets_all-op_eq j k ws)

  pub values_none :
      (k : Op) (c : Conjunction A) → has_key k c ≡ false → meets_all k (values k c) ≡ true
  unfolding has_key values meets_all
  values_none k [] h = refl
  values_none k ((j, ws) ∷ c) h = ground (arith, values_none k c)

  values_other :
      (j k : Op) (ws : List A) (c : Conjunction A)
      → has_key j c ≡ false
      → meets_all k (values k ((j, ws) ∷ c)) ≡ true
      → meets_all k (values k c) ≡ true
  unfolding values
  values_other j k ws c h e = elim (Bool-cases (op_eq j k)) [
    | inl same ↦ values_none k c (ap (λ o. has_key o c) (sym (op_eq_sound j k same)) ∙ h)
    | inr other ↦ rw other at e
  ]

  own_values :
      (k : Op) (ws : List A) (c : Conjunction A)
      → meets_all k (values k ((k, ws) ∷ c)) ≡ true
      → meets_all k ws ≡ true
  unfolding values
  own_values k ws c e = rw (op_eq_refl k) at e

  -- The values of all keys are all that a dictionary asks.
  pub holds_of_values :
      (c : Conjunction A)
      → IsDictionary c
      → ((k : Op) → meets_all k (values k c) ≡ true)
      → holds c ≡ true
  unfolding holds
  holds_of_values [] d h = refl
  holds_of_values ((k, ws) ∷ c) d h =
      let rest = holds_of_values c d.1 (λ j. values_other k j ws c d.0 (h j)) in
      ground (arith, own_values k ws c (h k))

  missing_other :
      (k : Op) (vs : List A) (c d : Conjunction A)
      → has_key k d ≡ false
      → missing ((k, vs) ∷ c) d ≡ missing c d
  unfolding missing has_key
  missing_other k vs c [] h = refl
  missing_other k vs c ((j, ws) ∷ d) h = ground (arith, missing_other k vs c d, op_eq_sym j k)

  -- To leave out one more key changes nothing, where the values of this key are met.
  holds-missing :
      (k : Op) (vs : List A) (c d : Conjunction A)
      → IsDictionary d
      → (meets_all k (values k d) && holds (missing ((k, vs) ∷ c) d))
        ≡ (meets_all k (values k d) && holds (missing c d))
  unfolding missing has_key values holds
  holds-missing k vs c [] v = refl
  holds-missing k vs c ((j, ws) ∷ d) (new, v) = elim (Bool-cases (op_eq j k)) [
    | inl same ↦
        let key = op_eq_sound j k same in
        ground (
          arith,
          missing_other k vs c d (ap (λ o. has_key o d) (sym key) ∙ new),
          meets_all-op_eq j k ws,
          op_eq_sym j k,
        )
    | inr other ↦ ground (arith, holds-missing k vs c d v, op_eq_sym j k)
  ]

  merge_one_lem :
      (c d : Conjunction A)
      → IsDictionary d
      → (holds (extend c d) && holds (missing c d)) ≡ (holds c && holds d)
  unfolding extend holds
  merge_one_lem [] d v = ap holds (missing_none d)
  merge_one_lem ((k, vs) ∷ c) d v = ground (
    arith,
    merge_one_lem c d v,
    holds-missing k vs c d v,
    values_hold k d,
    meets_all-append k vs (values k d),
  )

  holds-merge_one :
      (c d : Conjunction A) → IsDictionary d → holds (merge_one c d) ≡ (holds c && holds d)
  unfolding merge_one
  holds-merge_one c d v = holds-append (extend c d) (missing c d) ∙ merge_one_lem c d v

  any_holds-append :
      (cs ds : List (Conjunction A)) → any_holds (cs ++ ds) ≡ (any_holds cs || any_holds ds)
  unfolding any_holds
  any_holds-append [] ds = refl
  any_holds-append (c ∷ cs) ds = ground (arith, any_holds-append cs ds)

  any_holds-merge_with :
      (c : Conjunction A) (ds : List (Conjunction A))
      → All IsDictionary ds
      → any_holds (merge_with c ds) ≡ (holds c && any_holds ds)
  unfolding any_holds merge_with
  any_holds-merge_with c [] v = ground arith
  any_holds-merge_with c (d ∷ ds) v =
      ground (arith, any_holds-merge_with c ds v.1, holds-merge_one c d v.0)

  any_holds-merge_all :
      (cs ds : List (Conjunction A))
      → All IsDictionary ds
      → any_holds (merge_all cs ds) ≡ (any_holds cs && any_holds ds)
  unfolding any_holds merge_all
  any_holds-merge_all [] ds v = refl
  any_holds-merge_all (c ∷ cs) ds v = ground (
    arith,
    any_holds-append (merge_with c ds) (merge_all cs ds),
    any_holds-merge_with c ds v,
    any_holds-merge_all cs ds v,
  )

  -- A value satisfies merged constraints exactly if it satisfies both, where an empty list is no
  -- constraint at all, and the conjunctions of the second are dictionaries.
  pub satisfies-merge_constraints :
      (cs ds : List (Conjunction A))
      → All IsDictionary ds
      → satisfies (merge_constraints cs ds) ≡ (satisfies cs && satisfies ds)
  unfolding merge_constraints
  satisfies-merge_constraints [] ds v = refl
  satisfies-merge_constraints (c ∷ cs) [] v = ground arith
  satisfies-merge_constraints (c ∷ cs) (d ∷ ds) v =
      ground (arith, any_holds-merge_all (c ∷ cs) (d ∷ ds) v)
