-- ===== src/Splice/Strings/Fixed.antt =====
-- A string that meets what `xeq_constraint` of saltyrtc/splice/synthesis.py adds to the solver.
use saltyrtc_server_python.Prelude.{
  ℕ, ◌+◌, ◌≤◌, ◌<◌, ◌≡◌, ◌≢◌, refl, ap, sym, ◌∙◌, Bool, true, false, ◌&&◌, ◌||◌, Bool-cases, inl,
  inr, Option, none, some, List, [], ◌∷◌, ◌++◌, length, take, ◌==◌, arith,
}
use saltyrtc_server_python.Exception.{Error, ok, err, index_error}
use saltyrtc_server_python.Exec.{◌>>◌, >>=-eq-ok}
use saltyrtc_server_python.Splice.Strings.{
  Solver, one_of, extended, add, char_at, lt_constraint, gt_constraint,
}
use saltyrtc_server_python.Splice.Strings.Lexical.{lex_less, strip, IsSorted, started_below}
use saltyrtc_server_python.Splice.Strings.Allowed.{lt_constraint-allows}
use saltyrtc_server_python.Splice.Strings.Bounds.{
  starts_in, starts_in-cons, any_matches, all_allow, all_allow-append,
}
use saltyrtc_server_python.Splice.Strings.Bounded.{char_at-length, above-Starts, above-allows}
use saltyrtc_server_python.Splice.Strings.Prefixed.{
  given, shares, sharing, add_apart, add_sharing, xeq_constraint,
}
use saltyrtc_server_python.Splice.Strings.Sharing.{
  lex_leq, shares_below, shares_above, common_start-shares,
}

-- The string is below, or above, the bound, if there is one.
abbrev pub is_below : Option (List ℕ) → List ℕ → Bool
is_below none s = true
is_below (some upper) s = lex_less s upper

abbrev pub is_above : Option (List ℕ) → List ℕ → Bool
is_above none s = true
is_above (some lower) s = lex_less lower s

-- The value is at most, or at least, the bound, if there is one.
abbrev pub is_at_most : Option (List ℕ) → List ℕ → Bool
is_at_most none v = true
is_at_most (some upper) v = lex_leq v upper

abbrev pub is_at_least : Option (List ℕ) → List ℕ → Bool
is_at_least none v = true
is_at_least (some lower) v = lex_leq lower v

nonzero : (n : ℕ) → n ≢ 0 → (n == 0) ≡ false
nonzero n h = ground (arith, h)

both_parts : (a b : Bool) → (a && (b || false)) ≡ true → (a ≡ true) × (b ≡ true)
both_parts a b h = ground (arith, h)

-- The bound, if there is one, has the first characters of the value.
abbrev IsShared : ℕ → List ℕ → Option (List ℕ) → Type 0
IsShared n v none = Unit
IsShared n v (some bound) = shares n v bound ≡ true

sharing-IsShared : (n : ℕ) (v : List ℕ) (o : Option (List ℕ)) → IsShared n v (sharing n v o)
sharing-IsShared n v none = tt
sharing-IsShared n v (some b) = elim (Bool-cases (shares n v b)) [
  | inl shared ↦ rw (shared, shared) refl
  | inr other ↦ rw other tt
]

below_all :
    (n : ℕ) (v s rest : List ℕ) (o : Option (List ℕ))
    → n ≤ length v
    → strip (take n v) s ≡ some rest
    → is_at_most o v ≡ true
    → is_below (sharing n v o) s ≡ true
    → is_below o s ≡ true
below_all n v s rest none short e m h = refl
below_all n v s rest (some u) short e m h = elim (Bool-cases (shares n v u)) [
  | inl shared ↦ ground (arith, shared, h)
  | inr other ↦ shares_below n v u s rest short other m e
]

above_all :
    (n : ℕ) (v s rest : List ℕ) (o : Option (List ℕ))
    → n ≤ length v
    → strip (take n v) s ≡ some rest
    → is_at_least o v ≡ true
    → is_above (sharing n v o) s ≡ true
    → is_above o s ≡ true
above_all n v s rest none short e m h = refl
above_all n v s rest (some u) short e m h = elim (Bool-cases (shares n v u)) [
  | inl shared ↦ ground (arith, shared, h)
  | inr other ↦ shares_above n v u s rest short other m e
]

module _ (charset : List ℕ) (refused : Error) where
  gt_constraint-above :
      (l : List ℕ) (offset : ℕ) (σ τ : Solver) (s : List ℕ)
      → IsSorted charset
      → gt_constraint charset refused l offset σ ≡ (ok tt, τ)
      → all_allow charset τ s ≡ true
      → (all_allow charset σ s ≡ true) × (lex_less l s ≡ true)
  gt_constraint-above l offset σ τ s sorted run h =
      let (before, hit) = above-allows charset refused false l offset σ τ s sorted run h in
      (before, ground (arith, hit))

  add_apart-within :
      (n : ℕ) (v upper lower : List ℕ) (p q : Option ℕ) (σ τ : Solver) (s : List ℕ)
      → IsSorted charset
      → shares n v upper ≡ true
      → shares n v lower ≡ true
      → char_at n lower ≡ p
      → char_at n upper ≡ q
      → add_apart charset refused n upper lower p q σ ≡ (ok tt, τ)
      → all_allow charset τ s ≡ true
      → (lex_less s upper ≡ true) × (lex_less lower s ≡ true)
  add_apart-within n v upper lower none q σ τ s sorted su sl e f run h = cc
  add_apart-within n v upper lower (some a) none σ τ s sorted su sl e f run h = cc
  add_apart-within n v upper lower (some a) (some b) σ τ s sorted su sl e f run h =
      elim (Bool-cases ((a + 1) == b)) [
        | inl next ↦
            let run' : gt_constraint charset refused lower (n + 1) σ ≡ (ok tt, τ) =
              rw next at run in
            let less : a < b = ground (arith, next) in
            let same = common_start-shares n a b v upper lower su sl e f less in
            let (o, rest, far, starts) =
              above-Starts charset refused false lower (n + 1) σ τ s sorted
                (char_at-length n a lower e) run' h in
            (
              started_below o a b lower upper s rest (ap (λ m. char_at m lower) same ∙ e)
                  (ap (λ m. char_at m upper) same ∙ f) less (omega (arith, same)) starts,
              (gt_constraint-above lower (n + 1) σ τ s sorted run' h).1,
            )
        | inr other ↦
            let first = lt_constraint charset refused upper n in
            let second = gt_constraint charset refused lower n in
            let run' : (first >> second) σ ≡ (ok tt, τ) = rw other at run in
            let (_, t, one, two) = >>=-eq-ok first (λ _. second) σ τ run' in
            let (before, above) = gt_constraint-above lower n t τ s sorted two h in
            ((lt_constraint-allows charset refused upper n σ t s sorted one before).1, above)
      ]

  add_sharing-within :
      (n : ℕ) (v : List ℕ) (upper lower : Option (List ℕ)) (σ τ : Solver) (s : List ℕ)
      → IsSorted charset
      → IsShared n v upper
      → IsShared n v lower
      → add_sharing charset refused n upper lower σ ≡ (ok tt, τ)
      → all_allow charset τ s ≡ true
      → (is_below upper s ≡ true) × (is_above lower s ≡ true)
  add_sharing-within n v none none σ τ s sorted su sl run h = (refl, refl)
  add_sharing-within n v none (some l) σ τ s sorted su sl run h =
      (refl, (gt_constraint-above l n σ τ s sorted run h).1)
  add_sharing-within n v (some u) none σ τ s sorted su sl run h =
      ((lt_constraint-allows charset refused u n σ τ s sorted run h).1, refl)
  add_sharing-within n v (some u) (some l) σ τ s sorted su sl run h =
      add_apart-within n v u l (char_at n l) (char_at n u) σ τ s sorted su sl refl refl run h

  -- If the value itself is within the bounds, and not shorter than its fixed part, then a string
  -- that meets all that the solver was told, after `xeq_constraint` returned, begins with the fixed
  -- part of the value, goes on with characters of the charset, at least one, and is above the lower
  -- bound and below the upper bound, each if it is given. The charset is in the order of the code
  -- points, and the fixed part is not empty.
  pub xeq_constraint-within :
      (value : List ℕ) (fixed_length : ℕ) (upper lower : Option (List ℕ)) (σ τ : Solver)
      (s : List ℕ)
      → IsSorted charset
      → fixed_length ≢ 0
      → fixed_length ≤ length value
      → is_at_most (given upper) value ≡ true
      → is_at_least (given lower) value ≡ true
      → xeq_constraint charset refused value fixed_length upper lower σ ≡ (ok tt, τ)
      → all_allow charset τ s ≡ true
      → (starts_in charset charset (strip (take fixed_length value) s) ≡ true)
        × (is_below (given upper) s ≡ true)
        × (is_above (given lower) s ≡ true)
  unfolding xeq_constraint any_matches
  xeq_constraint-within v n upper lower σ τ s sorted some' short most least run h =
      let ou = sharing n v (given upper) in
      let ol = sharing n v (given lower) in
      let first = add_sharing charset refused n ou ol in
      let ext = one_of (extended (take n v) ∷ []) in
      let run' : (first >> add ext) σ ≡ (ok tt, τ) = rw (nonzero n some') at run in
      let (_, t, one, two) = >>=-eq-ok first (λ _. add ext) σ τ run' in
      let split = all_allow-append charset t ext s in
      let whole : (t ++ ext ∷ []) ≡ τ = ap (λ o. o.1) two in
      let both = sym split ∙ ap (λ t. all_allow charset t s) whole ∙ h in
      let starts : starts_in charset charset (strip (take n v) s) ≡ true =
        (both_parts (all_allow charset t s) (starts_in charset charset (strip (take n v) s))
          both).1 in
      let before : all_allow charset t s ≡ true =
        (both_parts (all_allow charset t s) (starts_in charset charset (strip (take n v) s))
          both).0 in
      let (d, rest, e, _) = starts_in-cons charset charset (strip (take n v) s) starts in
      let (low, high) =
        add_sharing-within n v ou ol σ t s sorted (sharing-IsShared n v (given upper))
          (sharing-IsShared n v (given lower)) one before in
      (
        starts,
        below_all n v s (d ∷ rest) (given upper) short e most low,
        above_all n v s (d ∷ rest) (given lower) short e least high,
      )

  -- Two bounds that share the fixed part, of which the lower one is no longer than it, raise an
  -- `IndexError`.
  pub xeq_constraint-index_error :
      (value : List ℕ) (c : ℕ) (cs : List ℕ) (fixed_length : ℕ) (u : ℕ) (us : List ℕ) (σ : Solver)
      → fixed_length ≢ 0
      → shares fixed_length value (u ∷ us) ≡ true
      → shares fixed_length value (c ∷ cs) ≡ true
      → char_at fixed_length (c ∷ cs) ≡ none
      → (xeq_constraint charset refused value fixed_length (some (u ∷ us)) (some (c ∷ cs)) σ).0
        ≡ err index_error
  unfolding xeq_constraint
  xeq_constraint-index_error v c cs n u us σ some' su sl short =
      rw (nonzero n some', su, sl, short) refl
