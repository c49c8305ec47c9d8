-- ===== src/Splice/Grammar/Dictionary.antt =====
-- What the dictionaries of the visitor mean.
use saltyrtc_server_python.Prelude.{
  ◌≡◌, refl, ap, ◌∙◌, true, false, not, ◌&&◌, ◌||◌, List, All, [], ◌∷◌, ◌++◌, arith, Bool-cases,
  inl, inr,
}
use saltyrtc_server_python.Splice.Constraints.{
  Op, op_eq, Conjunction, has_key, extend, missing, merge_one, merge_with, merge_all,
  merge_constraints,
}
use saltyrtc_server_python.Splice.Conjunction.{op_eq_sound, op_eq_refl, op_eq_sym, IsDictionary}
use saltyrtc_server_python.Splice.Grammar.{Operand, append_to, append_all, visit_cnf}

module _ {A : Type 0} where
  has_key-append :
      (k : Op) (c d : Conjunction A) → has_key k (c ++ d) ≡ (has_key k c || has_key k d)
  unfolding has_key
  has_key-append k [] d = refl
  has_key-append k ((j, vs) ∷ c) d = ground (arith, has_key-append k c d)

  has_key-extend : (k : Op) (c d : Conjunction A) → has_key k (extend c d) ≡ has_key k c
  unfolding has_key extend
  has_key-extend k [] d = refl
  has_key-extend k ((j, vs) ∷ c) d = ground (arith, has_key-extend k c d)

  extend-IsDictionary : (c d : Conjunction A) → IsDictionary c → IsDictionary (extend c d)
  unfolding extend
  extend-IsDictionary [] d v = tt
  extend-IsDictionary ((k, vs) ∷ c) d v = (has_key-extend k c d ∙ v.0, extend-IsDictionary c d v.1)

  -- What is missing has no key of the first dictionary, and no key that the second has not.
  has_key-missing :
      (k : Op) (c d : Conjunction A) → has_key k (missing c d) ≡ (has_key k d && not (has_key k c))
  unfolding has_key missing
  has_key-missing k c [] = refl
  has_key-missing k c ((j, vs) ∷ d) = elim (Bool-cases (op_eq j k)) [
    | inl same ↦ ground (arith, has_key-missing k c d, ap (λ o. has_key o c) (op_eq_sound j k same))
    | inr other ↦ ground (arith, has_key-missing k c d)
  ]

  missing-IsDictionary : (c d : Conjunction A) → IsDictionary d → IsDictionary (missing c d)
  unfolding missing
  missing-IsDictionary c [] v = tt
  missing-IsDictionary c ((j, vs) ∷ d) v = elim (Bool-cases (has_key j c)) [
    | inl there ↦ rw there (missing-IsDictionary c d v.1)
    | inr new ↦ rw new (ground (arith, has_key-missing j c d, v.0), missing-IsDictionary c d v.1)
  ]

  append-IsDictionary :
      (c d : Conjunction A)
      → IsDictionary c
      → IsDictionary d
      → ((k : Op) → has_key k c ≡ true → has_key k d ≡ false)
      → IsDictionary (c ++ d)
  unfolding has_key
  append-IsDictionary [] d v w apart = w
  append-IsDictionary ((k, vs) ∷ c) d v w apart = (
    has_key-append k c d ∙ ground (arith, v.0, apart k (ground (arith, op_eq_refl k))),
    append-IsDictionary c d v.1 w (λ j h. apart j (ground (arith, h))),
  )

  merge_one-IsDictionary :
      (c d : Conjunction A) → IsDictionary c → IsDictionary d → IsDictionary (merge_one c d)
  unfolding merge_one
  merge_one-IsDictionary c d v w =
      append-IsDictionary (extend c d) (missing c d) (extend-IsDictionary c d v)
        (missing-IsDictionary c d w)
        (λ k h. ground (arith, has_key-extend k c d, has_key-missing k c d, h))

  merge_with-IsDictionary :
      (c : Conjunction A) (ds : List (Conjunction A))
      → IsDictionary c
      → All IsDictionary ds
      → All IsDictionary (merge_with c ds)
  unfolding merge_with
  merge_with-IsDictionary c [] v w = tt
  merge_with-IsDictionary c (d ∷ ds) v w =
      (merge_one-IsDictionary c d v w.0, merge_with-IsDictionary c ds v w.1)

  All-append :
      (cs ds : List (Conjunction A))
      → All IsDictionary cs
      → All IsDictionary ds
      → All IsDictionary (cs ++ ds)
  All-append [] ds v w = w
  All-append (c ∷ cs) ds v w = (v.0, All-append cs ds v.1 w)

  merge_all-IsDictionary :
      (cs ds : List (Conjunction A))
      → All IsDictionary cs
      → All IsDictionary ds
      → All IsDictionary (merge_all cs ds)
  unfolding merge_all
  merge_all-IsDictionary [] ds v w = tt
  merge_all-IsDictionary (c ∷ cs) ds v w =
      All-append (merge_with c ds) (merge_all cs ds) (merge_with-IsDictionary c ds v.0 w)
        (merge_all-IsDictionary cs ds v.1 w)

  pub merge_constraints-IsDictionary :
      (cs ds : List (Conjunction A))
      → All IsDictionary cs
      → All IsDictionary ds
      → All IsDictionary (merge_constraints cs ds)
  unfolding merge_constraints
  merge_constraints-IsDictionary [] ds v w = w
  merge_constraints-IsDictionary (c ∷ cs) [] v w = v
  merge_constraints-IsDictionary (c ∷ cs) (d ∷ ds) v w =
      merge_all-IsDictionary (c ∷ cs) (d ∷ ds) v w

module _ {V F : Type 0} where
  has_key-append_to :
      (j k : Op) (v : Operand V F) (c : Conjunction (Operand V F))
      → has_key j (append_to k v c) ≡ (has_key j c || op_eq k j)
  unfolding has_key append_to
  has_key-append_to j k v [] = ground arith
  has_key-append_to j k v ((i, vs) ∷ c) = elim (Bool-cases (op_eq i k)) [
    | inl same ↦ ground (arith, ap (λ o. op_eq o j) (op_eq_sound i k same))
    | inr other ↦ ground (arith, has_key-append_to j k v c)
  ]

  append_to-IsDictionary :
      (k : Op) (v : Operand V F) (c : Conjunction (Operand V F))
      → IsDictionary c
      → IsDictionary (append_to k v c)
  unfolding append_to
  append_to-IsDictionary k v [] d = (unfold has_key in refl, tt)
  append_to-IsDictionary k v ((i, vs) ∷ c) d = elim (Bool-cases (op_eq i k)) [
    | inl same ↦ rw same d
    | inr other ↦ rw other (
      ground (arith, has_key-append_to i k v c, d.0, op_eq_sym i k),
      append_to-IsDictionary k v c d.1,
    )
  ]

  append_all-IsDictionary :
      (cs : List (Op × Operand V F)) (c : Conjunction (Operand V F))
      → IsDictionary c
      → IsDictionary (append_all cs c)
  unfolding append_all
  append_all-IsDictionary [] c d = d
  append_all-IsDictionary ((k, v) ∷ cs) c d =
      append_all-IsDictionary cs (append_to k v c) (append_to-IsDictionary k v c d)

  pub visit_cnf-IsDictionary : (cs : List (Op × Operand V F)) → IsDictionary (visit_cnf cs)
  unfolding visit_cnf
  visit_cnf-IsDictionary cs = append_all-IsDictionary cs [] tt
