-- ===== src/Splice/Strings/Bounded.antt =====
-- A string that meets what `bounded_constraints` of saltyrtc/splice/synthesis.py adds to the solver
-- is within the bounds.
use saltyrtc_server_python.Prelude.{
  ℕ, zero, suc, ◌+◌, ◌≤◌, ◌<◌, ◌≡◌, refl, ap, ◌∙◌, Bool, true, false, ◌&&◌, ◌||◌, Bool-cases, inl,
  inr, Option, none, some, List, [], ◌∷◌, ◌++◌, length, take, drop, ◌==◌, arith,
}
use saltyrtc_server_python.Exception
use saltyrtc_server_python.Exception.{Error, Result, ok, err}
use saltyrtc_server_python.Exec.{◌>>◌, >>=-eq-ok}
use saltyrtc_server_python.Splice.Strings.{
  Template, exact, stepped, never, Solver, char_at, common_start, follows, gt_template, Search,
  unknown, exhausted, found, find_larger, larger_template, first_char, above, below,
  bounded_constraints,
}
use saltyrtc_server_python.Splice.Strings.Lexical.{lex_less, strip, IsSorted, started_below}
use saltyrtc_server_python.Splice.Strings.Allowed.{
  lt_constraint-allows, le_constraint-allows, gt_constraint-allows, ge_constraint-allows,
}
use saltyrtc_server_python.Splice.Strings.Bounds.{
  starts_in-cons, find_larger-found, same, same_sound, matches, all_allow, all_allow-append,
  gt_template-above,
}

strip_self : (o : ℕ) (v : List ℕ) → strip (take o v) v ≡ some (drop o v)
unfolding strip
strip_self zero v = refl
strip_self (suc o) [] = refl
strip_self (suc o) (c ∷ v) = ground (arith, strip_self o v)

strip-append : (v w : List ℕ) → strip (take (length v) v) (v ++ w) ≡ some w
unfolding strip
strip-append [] w = refl
strip-append (c ∷ v) w = ground (arith, strip-append v w)

pub char_at-length : (i a : ℕ) (v : List ℕ) → char_at i v ≡ some a → i + 1 ≤ length v
unfolding char_at
char_at-length i a [] e = cc
char_at-length zero a (c ∷ v) e = omega arith
char_at-length (suc i) a (c ∷ v) e = omega (arith, char_at-length i a v e)

-- A string starts with the first `offset` characters of `v`, or more.
abbrev pub Starts : List ℕ → ℕ → List ℕ → Type 0
Starts v offset s = (o : ℕ) × (rest : List ℕ) × (offset ≤ o) × (strip (take o v) s ≡ some rest)

pub follows-below :
    (o : Option ℕ) (o' : Option ℕ)
    → follows o o' ≡ true
    → (a : ℕ) × (b : ℕ) × (o ≡ some a) × (o' ≡ some b) × (a < b)
follows-below none o' h = cc
follows-below (some a) none h = cc
follows-below (some a) (some b) h = (a, b, refl, refl, ground (arith, h))

module _ (charset : List ℕ) where
  gt_template-Starts :
      (v : List ℕ) (offset : ℕ) (t : Template) (s : List ℕ)
      → offset ≤ length v
      → gt_template charset v offset ≡ ok (some t)
      → matches charset t s ≡ true
      → Starts v offset s
  unfolding gt_template
  gt_template-Starts [] offset t s short run h = (0, s, short, unfold strip in refl)
  gt_template-Starts (c ∷ cs) offset t s short run h =
      go (find_larger charset (drop offset v) offset) refl run
    where
      v : List ℕ
      v = c ∷ cs

      go :
          (r : Search)
          → find_larger charset (drop offset v) offset ≡ r
          → larger_template charset v r ≡ ok (some t)
          → Starts v offset s
      go unknown e run' = cc
      go exhausted e run' = last charset run'
        where
          last :
              (chars : List ℕ)
              → Exception.◌>>=◌ (first_char chars) (λ x. ok (some (exact (v ++ x ∷ []))))
                ≡ ok (some t)
              → Starts v offset s
          last [] run'' = cc
          last (x ∷ chars) run'' =
              let template : exact (v ++ x ∷ []) ≡ t = cc in
              let same_string =
                same_sound (v ++ x ∷ []) s (ap (λ z. matches charset z s) template ∙ h) in
              (
                length v,
                x ∷ [],
                short,
                ap (strip (take (length v) v)) same_string ∙ strip-append v (x ∷ []),
              )
      go (found o p) e run' =
          let template : stepped (take o v) (drop (p + 1) charset) ≡ t = cc in
          let (i, b, place, _, _) = find_larger-found charset (drop offset v) offset o p e in
          let (d, rest, starts, _) =
            starts_in-cons charset (drop (p + 1) charset) (strip (take o v) s)
              (ap (λ z. matches charset z s) template ∙ h) in
          (o, d ∷ rest, omega (arith, place), starts)

-- The string is below, or above, the bound, or is the bound if that is included.
abbrev pub at_most : Bool → List ℕ → List ℕ → Bool
at_most included upper s = lex_less s upper || (included && same upper s)

abbrev pub at_least : Bool → List ℕ → List ℕ → Bool
at_least included lower s = lex_less lower s || (included && same lower s)

module _ (charset : List ℕ) (refused : Error) where
  below-allows :
      (b : Bool) (v : List ℕ) (offset : ℕ) (σ τ : Solver) (s : List ℕ)
      → IsSorted charset
      → below charset refused b v offset σ ≡ (ok tt, τ)
      → all_allow charset τ s ≡ true
      → (all_allow charset σ s ≡ true) × (at_most b v s ≡ true)
  below-allows true v offset σ τ s sorted run h =
      le_constraint-allows charset refused v offset σ τ s sorted run h
  below-allows false v offset σ τ s sorted run h =
      let (before, less) = lt_constraint-allows charset refused v offset σ τ s sorted run h in
      (before, ground (arith, less))

  pub above-allows :
      (b : Bool) (v : List ℕ) (offset : ℕ) (σ τ : Solver) (s : List ℕ)
      → IsSorted charset
      → above charset refused b v offset σ ≡ (ok tt, τ)
      → all_allow charset τ s ≡ true
      → (all_allow charset σ s ≡ true) × (at_least b v s ≡ true)
  above-allows true v offset σ τ s sorted run h =
      let (t, e, before, hit) = ge_constraint-allows charset refused v offset σ τ s sorted run h in
      (
        before,
        elim (Bool-cases (matches charset t s)) [
          | inl met ↦ ap (λ b. b || same v s) (gt_template-above charset v offset t s sorted e met)
          | inr unmet ↦ ground (arith, hit, unmet)
        ],
      )
  above-allows false v offset σ τ s sorted run h =
      let (t, e, before, hit) = gt_constraint-allows charset refused v offset σ τ s sorted run h in
      (before, ap (λ b. b || false) (gt_template-above charset v offset t s sorted e hit))

  pub above-Starts :
      (b : Bool) (v : List ℕ) (offset : ℕ) (σ τ : Solver) (s : List ℕ)
      → IsSorted charset
      → offset ≤ length v
      → above charset refused b v offset σ ≡ (ok tt, τ)
      → all_allow charset τ s ≡ true
      → Starts v offset s
  above-Starts true v offset σ τ s sorted short run h =
      let (t, e, _, hit) = ge_constraint-allows charset refused v offset σ τ s sorted run h in
      elim (Bool-cases (matches charset t s)) [
        | inl met ↦ gt_template-Starts charset v offset t s short e met
        | inr unmet ↦
            let same_string = same_sound v s (ground (arith, hit, unmet)) in
            (
              offset,
              drop offset v,
              omega arith,
              ap (strip (take offset v)) same_string ∙ strip_self offset v,
            )
      ]
  above-Starts false v offset σ τ s sorted short run h =
      let (t, e, _, hit) = gt_constraint-allows charset refused v offset σ τ s sorted run h in
      gt_template-Starts charset v offset t s short e hit

  -- A string that meets all that the solver was told, after `bounded_constraints` returned, is
  -- above the lower bound and below the upper bound, or is a bound that is included. The charset
  -- is in the order of the code points.
  pub bounded_constraints-within :
      (upper lower : List ℕ) (include_upper include_lower : Bool) (σ τ : Solver) (s : List ℕ)
      → IsSorted charset
      → bounded_constraints charset refused upper lower include_upper include_lower σ ≡ (ok tt, τ)
      → all_allow charset τ s ≡ true
      → (at_least include_lower lower s ≡ true) × (at_most include_upper upper s ≡ true)
  unfolding bounded_constraints
  bounded_constraints-within upper lower iu il σ τ s sorted run h =
      elim (Bool-cases ((pos == length upper) && (length upper == length lower))) [
        | inl equal ↦ absurd (ground (arith, all_allow-append charset σ never s, equal, run, h))
        | inr apart ↦ elim (Bool-cases (follows (char_at pos lower) (char_at pos upper))) [
          | inl next ↦
              let run' : above charset refused il lower (pos + 1) σ ≡ (ok tt, τ) =
                ground (arith, apart, next, run) in
              let (a, b, e, f, less) = follows-below (char_at pos lower) (char_at pos upper) next in
              let (o, rest, far, starts) =
                above-Starts il lower (pos + 1) σ τ s sorted (char_at-length pos a lower e) run'
                  h in
              (
                (above-allows il lower (pos + 1) σ τ s sorted run' h).1,
                ap (λ z. z || (iu && same upper s))
                    (started_below o a b lower upper s rest e f less far starts),
              )
          | inr other ↦
              let run' : (below charset refused iu upper pos >> above charset refused il lower pos)
                    σ
                  ≡ (ok tt, τ) =
                ground (arith, apart, other, run) in
              let (_, t, first, second) =
                >>=-eq-ok (below charset refused iu upper pos)
                  (λ _. above charset refused il lower pos) σ τ run' in
              let (before, large) = above-allows il lower pos t τ s sorted second h in
              (large, (below-allows iu upper pos σ t s sorted first before).1)
        ]
      ]
    where
      pos : ℕ
      pos = common_start upper lower
