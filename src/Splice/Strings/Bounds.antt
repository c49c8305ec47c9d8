-- ===== src/Splice/Strings/Bounds.antt =====
-- The strings that `StrSynthesizer` of saltyrtc/splice/synthesis.py allows are within the bounds.
use saltyrtc_server_python.Prelude.{
  ℕ, zero, suc, ◌+◌, ◌-◌, ◌≡◌, refl, ap, sym, ◌∙◌, Bool, true, false, ◌&&◌, ◌||◌, Bool-cases, inl,
  inr, Option, none, some, List, [], ◌∷◌, ◌++◌, length, take, drop, contains, leb, arith,
}
use saltyrtc_server_python.Exception
use saltyrtc_server_python.Exception.{Error, Result, ok, err}
use saltyrtc_server_python.Splice.Strings.{
  Template, exact, stepped, extended, Assertion, never, one_of, Solver, position, char_at,
  find_smaller, smaller_template, lt_template, Search, unknown, exhausted, found, find_larger,
  larger_template, gt_template, first_char,
}
use saltyrtc_server_python.Splice.Strings.Lexical.{
  lex_less, strip, IsSorted, position-take, position-drop, stepped_below, stepped_above,
  shorter_below, longer_above,
}

abbrev pub same : List ℕ → List ℕ → Bool
same t s = elim (strip t s) [ none ↦ false | some rest ↦ elim rest [ [] ↦ true | c ∷ cs ↦ false ] ]

pub same_sound : (t s : List ℕ) → same t s ≡ true → s ≡ t
unfolding strip
same_sound [] [] h = refl
same_sound [] (d ∷ s) h = cc
same_sound (c ∷ t) [] h = cc
same_sound (c ∷ t) (d ∷ s) h = ground (arith, same_sound t s)

char_at-drop : (i k : ℕ) (v : List ℕ) → char_at i (drop k v) ≡ char_at (k + i) v
unfolding char_at
char_at-drop i zero v = ap (λ n. char_at n v) (omega arith)
char_at-drop i (suc k) [] = refl
char_at-drop i (suc k) (c ∷ v) = char_at-drop i k v ∙ ground arith

module _ (charset : List ℕ) where
  unfoldable pub all_in : List ℕ → Bool
  all_in [] = true
  all_in (c ∷ cs) = contains c charset && all_in cs

  abbrev pub starts_in : List ℕ → Option (List ℕ) → Bool
  starts_in chars none = false
  starts_in chars (some []) = false
  starts_in chars (some (c ∷ rest)) = contains c chars && all_in rest

  -- The string matches the regular expression.
  abbrev pub matches : Template → List ℕ → Bool
  matches (exact t) s = same t s
  matches (stepped p chars) s = starts_in chars (strip p s)
  matches (extended p) s = starts_in charset (strip p s)

  unfoldable pub any_matches : List Template → List ℕ → Bool
  any_matches [] s = false
  any_matches (t ∷ ts) s = matches t s || any_matches ts s

  abbrev pub allows : Assertion → List ℕ → Bool
  allows never s = false
  allows (one_of ts) s = any_matches ts s

  -- The string is a solution of what was added to the solver.
  unfoldable pub all_allow : Solver → List ℕ → Bool
  all_allow [] s = true
  all_allow (a ∷ as') s = allows a s && all_allow as' s

  pub all_allow-append :
      (as' : Solver) (a : Assertion) (s : List ℕ)
      → all_allow (as' ++ a ∷ []) s ≡ (all_allow as' s && allows a s)
  unfolding all_allow
  all_allow-append [] a s = ground arith
  all_allow-append (b ∷ as') a s = ground (arith, all_allow-append as' a s)

  -- Where a loop over the characters breaks: at a character, whose position is known.
  abbrev pub IsPlace : List ℕ → ℕ → ℕ → ℕ → Type 0
  IsPlace xs k o p =
      (i : ℕ) × (b : ℕ) × (o ≡ k + i) × (char_at i xs ≡ some b) × (position b charset ≡ some p)

  next-IsPlace : (c : ℕ) (xs : List ℕ) (k o p : ℕ) → IsPlace xs (suc k) o p → IsPlace (c ∷ xs) k o p
  unfolding char_at
  next-IsPlace c xs k o p (i, b, e, f, g) = (suc i, b, omega (arith, e), f, g)

  find_smaller-found :
      (xs : List ℕ) (k o p : ℕ) → find_smaller charset xs k ≡ ok (some (o, p)) → IsPlace xs k o p
  unfolding find_smaller char_at
  find_smaller-found [] k o p h = cc
  find_smaller-found (c ∷ xs) k o p h =
      go (position c charset) refl
        (λ later. next-IsPlace c xs k o p (find_smaller-found xs (suc k) o p later))
    where
      go :
          (q : Option ℕ)
          → position c charset ≡ q
          → (find_smaller charset xs (suc k) ≡ ok (some (o, p)) → IsPlace (c ∷ xs) k o p)
          → IsPlace (c ∷ xs) k o p
      go none e rec = absurd (ground (arith, e, h))
      go (some zero) e rec = rec (ground (arith, e, h))
      go (some (suc q)) e rec = (0, c, ground (arith, e, h), refl, ground (arith, e, h))

  pub find_larger-found :
      (xs : List ℕ) (k o p : ℕ) → find_larger charset xs k ≡ found o p → IsPlace xs k o p
  unfolding find_larger char_at
  find_larger-found [] k o p h = cc
  find_larger-found (c ∷ xs) k o p h =
      go (position c charset) refl
        (λ later. next-IsPlace c xs k o p (find_larger-found xs (suc k) o p later))
    where
      go :
          (q : Option ℕ)
          → position c charset ≡ q
          → (find_larger charset xs (suc k) ≡ found o p → IsPlace (c ∷ xs) k o p)
          → IsPlace (c ∷ xs) k o p
      go none e rec = absurd (ground (arith, e, h))
      go (some q) e rec = elim (Bool-cases (leb (length charset) (q + 1))) [
        | inl last ↦ rec (ground (arith, e, h, last))
        | inr free ↦ (0, c, ground (arith, e, h, free), refl, ground (arith, e, h, free))
      ]

  pub starts_in-cons :
      (chars : List ℕ) (o : Option (List ℕ))
      → starts_in chars o ≡ true
      → (d : ℕ) × (rest : List ℕ) × (o ≡ some (d ∷ rest)) × (contains d chars ≡ true)
  starts_in-cons chars none h = cc
  starts_in-cons chars (some []) h = cc
  starts_in-cons chars (some (d ∷ rest)) h = (d, rest, refl, ground (arith, h))

  -- The place where the loop breaks, in the whole string.
  abbrev pub IsPlaceOf : List ℕ → ℕ → ℕ → Type 0
  IsPlaceOf v o p = (b : ℕ) × (char_at o v ≡ some b) × (position b charset ≡ some p)

  whole-IsPlaceOf : (v : List ℕ) (k o p : ℕ) → IsPlace (drop k v) k o p → IsPlaceOf v o p
  whole-IsPlaceOf v k o p (i, b, e, f, g) =
      (b, ap (λ n. char_at n v) e ∙ sym (char_at-drop i k v) ∙ f, g)

  stepped-below :
      (v s : List ℕ) (o p : ℕ)
      → IsSorted charset
      → IsPlaceOf v o p
      → matches (stepped (take o v) (take p charset)) s ≡ true
      → lex_less s v ≡ true
  stepped-below v s o p sorted (b, f, g) h =
      let (d, rest, e, m) = starts_in-cons (take p charset) (strip (take o v) s) h in
      stepped_below o b d v s rest f e (position-take charset b d p sorted g m)

  stepped-above :
      (v s : List ℕ) (o p : ℕ)
      → IsSorted charset
      → IsPlaceOf v o p
      → matches (stepped (take o v) (drop (p + 1) charset)) s ≡ true
      → lex_less v s ≡ true
  stepped-above v s o p sorted (b, f, g) h =
      let (d, rest, e, m) = starts_in-cons (drop (p + 1) charset) (strip (take o v) s) h in
      let same_place : suc p ≡ p + 1 = omega arith in
      let m' : contains d (drop (suc p) charset) ≡ true =
        ap (λ n. contains d (drop n charset)) same_place ∙ m in
      stepped_above o b d v s rest f e (position-drop charset b d p sorted g m')

  pub lt_template-below :
      (c : ℕ) (cs : List ℕ) (offset : ℕ) (t : Template) (s : List ℕ)
      → IsSorted charset
      → lt_template charset (c ∷ cs) offset ≡ ok t
      → matches t s ≡ true
      → lex_less s (c ∷ cs) ≡ true
  unfolding lt_template
  lt_template-below c cs offset t s sorted run h =
      go (find_smaller charset (drop offset v) offset) refl run
    where
      v : List ℕ
      v = c ∷ cs

      go :
          (r : Result (Option (ℕ × ℕ)))
          → find_smaller charset (drop offset v) offset ≡ r
          → Exception.◌>>=◌ r (λ z. ok (smaller_template charset v z)) ≡ ok t
          → lex_less s v ≡ true
      go (err x) e run' = cc
      go (ok none) e run' =
          let template : exact (take (length v - 1) v) ≡ t = cc in
          let all_but_last : length v - 1 ≡ length cs = omega arith in
          let same_string =
            same_sound (take (length v - 1) v) s (ap (λ z. matches z s) template ∙ h) in
          ap (λ z. lex_less z v) (same_string ∙ ap (λ n. take n v) all_but_last)
          ∙ shorter_below c cs
      go (ok (some (o, p))) e run' =
          stepped-below v s o p sorted
            (whole-IsPlaceOf v offset o p (find_smaller-found (drop offset v) offset o p e))
            (ground (arith, run', h))

  -- A template of `_gt_constraint` only matches strings above the bound.
  pub gt_template-above :
      (v : List ℕ) (offset : ℕ) (t : Template) (s : List ℕ)
      → IsSorted charset
      → gt_template charset v offset ≡ ok (some t)
      → matches t s ≡ true
      → lex_less v s ≡ true
  unfolding gt_template lex_less
  gt_template-above [] offset t [] sorted run h =
      let template : extended [] ≡ t = cc in
      let none_matches : matches (extended []) [] ≡ true = ap (λ z. matches z []) template ∙ h in
      unfold strip in absurd (ground (arith, none_matches))
  gt_template-above [] offset t (d ∷ s) sorted run h = refl
  gt_template-above (c ∷ cs) offset t s sorted run h =
      go (find_larger charset (drop offset v) offset) refl run
    where
      v : List ℕ
      v = c ∷ cs

      go :
          (r : Search)
          → find_larger charset (drop offset v) offset ≡ r
          → larger_template charset v r ≡ ok (some t)
          → lex_less v s ≡ true
      go unknown e run' = cc
      go exhausted e run' = last charset run'
        where
          last :
              (chars : List ℕ)
              → Exception.◌>>=◌ (first_char chars) (λ x. ok (some (exact (v ++ x ∷ []))))
                ≡ ok (some t)
              → lex_less v s ≡ true
          last [] run'' = cc
          last (x ∷ chars) run'' =
              let template : exact (v ++ x ∷ []) ≡ t = cc in
              let same_string = same_sound (v ++ x ∷ []) s (ap (λ z. matches z s) template ∙ h) in
              ap (λ z. lex_less v z) same_string ∙ longer_above x v
      go (found o p) e run' =
          let template : stepped (take o v) (drop (p + 1) charset) ≡ t = cc in
          stepped-above v s o p sorted
            (whole-IsPlaceOf v offset o p (find_larger-found (drop offset v) offset o p e))
            (ap (λ z. matches z s) template ∙ h)
