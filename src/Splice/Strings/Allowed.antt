-- ===== src/Splice/Strings/Allowed.antt =====
-- What the single constraints of `StrSynthesizer` of saltyrtc/splice/synthesis.py allow.
use saltyrtc_server_python.Prelude.{
  ℕ, zero, suc, ◌≡◌, refl, ap, ◌∙◌, true, ◌||◌, Bool-cases, inl, inr, Option, none, some, List, [],
  ◌∷◌, drop, arith,
}
use saltyrtc_server_python.Exception
use saltyrtc_server_python.Exception.{Error, Result, ok, err}
use saltyrtc_server_python.Exec.{lift, ◌>>=◌}
use saltyrtc_server_python.Splice.Strings.{
  Template, exact, extended, never, one_of, Solver, add, checked, gt_checked, find_smaller,
  lt_template, gt_template, lt_constraint, le_constraint, gt_constraint, ge_constraint,
  ne_constraint,
}
use saltyrtc_server_python.Splice.Strings.Lexical.{lex_less, strip, IsSorted}
use saltyrtc_server_python.Splice.Strings.Bounds.{
  same, matches, any_matches, all_allow, all_allow-append, lt_template-below,
}

drop-nil : (n : ℕ) → drop {A = ℕ} n [] ≡ []
drop-nil zero = refl
drop-nil (suc n) = refl

module _ (charset : List ℕ) (refused : Error) where
  -- An assertion that was added asks for a match, and what was added before stays.
  added :
      (ts : List Template) (σ τ : Solver) (s : List ℕ)
      → add (one_of ts) σ ≡ (ok tt, τ)
      → all_allow charset τ s ≡ true
      → (all_allow charset σ s ≡ true) × (any_matches charset ts s ≡ true)
  added ts σ τ s run h = ground (arith, all_allow-append charset σ (one_of ts) s, run, h)

  lt_template-nil : (offset : ℕ) → lt_template charset [] offset ≡ ok (exact [])
  unfolding lt_template find_smaller
  lt_template-nil offset = rw (drop-nil offset) refl

  lt_template-at_most :
      (v : List ℕ) (offset : ℕ) (t : Template) (s : List ℕ)
      → IsSorted charset
      → lt_template charset v offset ≡ ok t
      → matches charset t s ≡ true
      → (lex_less s v || same v s) ≡ true
  lt_template-at_most (c ∷ cs) offset t s sorted run h =
      ap (λ b. b || same (c ∷ cs) s) (lt_template-below charset c cs offset t s sorted run h)
  lt_template-at_most [] offset t s sorted run h =
      let template : exact [] ≡ t = ground (arith, lt_template-nil offset, run) in
      let all : same [] s ≡ true = ap (λ z. matches charset z s) template ∙ h in
      ap (λ b. lex_less s [] || b) all ∙ ground arith

  pub lt_constraint-allows :
      (v : List ℕ) (offset : ℕ) (σ τ : Solver) (s : List ℕ)
      → IsSorted charset
      → lt_constraint charset refused v offset σ ≡ (ok tt, τ)
      → all_allow charset τ s ≡ true
      → (all_allow charset σ s ≡ true) × (lex_less s v ≡ true)
  unfolding lt_constraint any_matches
  lt_constraint-allows [] offset σ τ s sorted run h =
      absurd (ground (arith, all_allow-append charset σ never s, run, h))
  lt_constraint-allows (c ∷ cs) offset σ τ s sorted run h =
      go (lt_template charset (c ∷ cs) offset) refl run
    where
      go :
          (r : Result Template)
          → lt_template charset (c ∷ cs) offset ≡ r
          → (lift {S = Solver} r >>= λ t. add (one_of (t ∷ []))) σ ≡ (ok tt, τ)
          → (all_allow charset σ s ≡ true) × (lex_less s (c ∷ cs) ≡ true)
      go (err x) e run' = cc
      go (ok t) e run' =
          let (before, hit) = added (t ∷ []) σ τ s run' h in
          (before, lt_template-below charset c cs offset t s sorted e (ground (arith, hit)))

  pub le_constraint-allows :
      (v : List ℕ) (offset : ℕ) (σ τ : Solver) (s : List ℕ)
      → IsSorted charset
      → le_constraint charset refused v offset σ ≡ (ok tt, τ)
      → all_allow charset τ s ≡ true
      → (all_allow charset σ s ≡ true) × ((lex_less s v || same v s) ≡ true)
  unfolding le_constraint any_matches
  le_constraint-allows v offset σ τ s sorted run h = go (lt_template charset v offset) refl run
    where
      go :
          (r : Result Template)
          → lt_template charset v offset ≡ r
          → (lift {S = Solver} r >>= λ t. add (one_of (t ∷ exact v ∷ []))) σ ≡ (ok tt, τ)
          → (all_allow charset σ s ≡ true) × ((lex_less s v || same v s) ≡ true)
      go (err x) e run' = cc
      go (ok t) e run' =
          let (before, hit) = added (t ∷ exact v ∷ []) σ τ s run' h in
          (
            before,
            elim (Bool-cases (matches charset t s)) [
              | inl met ↦ lt_template-at_most v offset t s sorted e met
              | inr unmet ↦ ground (arith, hit, unmet)
            ],
          )

  gt_checked-ok :
      (v : List ℕ) (offset : ℕ) (t : Template)
      → gt_checked charset refused v offset ≡ ok t
      → gt_template charset v offset ≡ ok (some t)
  gt_checked-ok v offset t run = go (gt_template charset v offset) run
    where
      go :
          (r : Result (Option Template))
          → Exception.◌>>=◌ r (checked charset refused) ≡ ok t
          → r ≡ ok (some t)
      go (err x) run' = cc
      go (ok none) run' = cc
      go (ok (some u)) run' = cc

  pub gt_constraint-allows :
      (v : List ℕ) (offset : ℕ) (σ τ : Solver) (s : List ℕ)
      → IsSorted charset
      → gt_constraint charset refused v offset σ ≡ (ok tt, τ)
      → all_allow charset τ s ≡ true
      → (t : Template) × (gt_template charset v offset ≡ ok (some t))
        × (all_allow charset σ s ≡ true)
        × (matches charset t s ≡ true)
  unfolding gt_constraint any_matches
  gt_constraint-allows v offset σ τ s sorted run h =
      go (gt_checked charset refused v offset) refl run
    where
      go :
          (r : Result Template)
          → gt_checked charset refused v offset ≡ r
          → (lift {S = Solver} r >>= λ t. add (one_of (t ∷ []))) σ ≡ (ok tt, τ)
          → (t : Template) × (gt_template charset v offset ≡ ok (some t))
            × (all_allow charset σ s ≡ true)
            × (matches charset t s ≡ true)
      go (err x) e run' = cc
      go (ok t) e run' =
          let (before, hit) = added (t ∷ []) σ τ s run' h in
          (t, gt_checked-ok v offset t e, before, ground (arith, hit))

  pub ge_constraint-allows :
      (v : List ℕ) (offset : ℕ) (σ τ : Solver) (s : List ℕ)
      → IsSorted charset
      → ge_constraint charset refused v offset σ ≡ (ok tt, τ)
      → all_allow charset τ s ≡ true
      → (t : Template) × (gt_template charset v offset ≡ ok (some t))
        × (all_allow charset σ s ≡ true)
        × ((matches charset t s || same v s) ≡ true)
  unfolding ge_constraint any_matches
  ge_constraint-allows v offset σ τ s sorted run h =
      go (gt_checked charset refused v offset) refl run
    where
      go :
          (r : Result Template)
          → gt_checked charset refused v offset ≡ r
          → (lift {S = Solver} r >>= λ t. add (one_of (t ∷ exact v ∷ []))) σ ≡ (ok tt, τ)
          → (t : Template) × (gt_template charset v offset ≡ ok (some t))
            × (all_allow charset σ s ≡ true)
            × ((matches charset t s || same v s) ≡ true)
      go (err x) e run' = cc
      go (ok t) e run' =
          let (before, hit) = added (t ∷ exact v ∷ []) σ τ s run' h in
          (t, gt_checked-ok v offset t e, before, ground (arith, hit))

  -- The templates for a string that differs from the empty one allow the empty string.
  pub ne_constraint-nil :
      (offset : ℕ) (σ : Solver)
      → all_allow charset (ne_constraint charset refused [] offset σ).1 [] ≡ all_allow charset σ []
  unfolding ne_constraint gt_template any_matches strip
  ne_constraint-nil offset σ =
      rw (lt_template-nil offset)
        (all_allow-append charset σ (one_of (exact [] ∷ extended [] ∷ [])) [] ∙ ground arith)
