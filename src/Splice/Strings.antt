-- ===== src/Splice/Strings.antt =====
-- `StrSynthesizer` of saltyrtc/splice/synthesis.py.
--
-- A string is the list of its code points. What is added to the z3 solver are regular expressions,
-- of the three shapes of `Template`. `refused` is what z3 raises for an argument that is not one.
pub mod Lexical
pub mod Bounds
pub mod Allowed
pub mod Bounded
pub mod Prefixed
pub mod Sharing
pub mod Fixed
pub mod Tests
use saltyrtc_server_python.Prelude.{
  ℕ, zero, suc, ◌+◌, ◌-◌, ◌≡◌, Bool, true, false, not, ◌&&◌, ◌||◌, Option, none, some, List, [],
  ◌∷◌, ◌++◌, length, take, drop, contains, leb, ltb, ◌==◌, if◌then◌else◌,
}
use saltyrtc_server_python.Exception.{Error, Result, ok, err, value_error, index_error}
use saltyrtc_server_python.Exec.{Exec, pure, raise, lift, modify, continue, ◌>>=◌, ◌>>◌}
use saltyrtc_server_python.Exception as exception

-- The fixed string; a fixed string, then one of the characters, then any characters of the charset;
-- a fixed string, then at least one character of the charset.
pub data Template : Type 0 where
  exact : List ℕ → Template
  stepped : List ℕ → List ℕ → Template
  extended : List ℕ → Template

-- `solver.add(False)`, or that the string matches one of the templates.
pub data Assertion : Type 0 where
  never : Assertion
  one_of : List Template → Assertion

abbrev pub Solver : Type 0
Solver = List Assertion

abbrev pub add : Assertion → Exec Solver (Unit {0})
add a = modify (λ s. s ++ a ∷ [])

-- `self._charset.find(c)`, where -1 is `none`.
unfoldable pub position : ℕ → List ℕ → Option ℕ
position c [] = none
position c (d ∷ ds) =
    let later = position c ds in
    if d == c then some 0 else elim later [ none ↦ none | some p ↦ some (suc p) ]

-- `s[i]`, where it is there.
unfoldable pub char_at : ℕ → List ℕ → Option ℕ
char_at i [] = none
char_at zero (c ∷ cs) = some c
char_at (suc i) (c ∷ cs) = char_at i cs

abbrev pub first_char : List ℕ → Result ℕ
first_char [] = err index_error
first_char (c ∷ cs) = ok c

-- The number of characters at the start that two strings share.
unfoldable pub common_start : List ℕ → List ℕ → ℕ
common_start [] ys = 0
common_start (x ∷ xs) [] = 0
common_start (x ∷ xs) (y ∷ ys) = let later = common_start xs ys in if x == y then suc later else 0

abbrev pub follows : Option ℕ → Option ℕ → Bool
follows (some lower) (some upper) = (lower + 1) == upper
follows _ _ = false

-- What the loop of `_gt_constraint` finds.
pub data Search : Type 0 where
  unknown exhausted : Search
  found : ℕ → ℕ → Search

module _ (charset : List ℕ) where
  -- The loop of `_lt_constraint`, from the characters at `offset` on: where it breaks, and the
  -- position of the character there.
  unfoldable pub find_smaller : List ℕ → ℕ → Result (Option (ℕ × ℕ))
  unfolding position
  find_smaller [] offset = ok none
  find_smaller (c ∷ rest) offset =
      let later = find_smaller rest (suc offset) in
      elim (position c charset) [
        | none ↦ err value_error
        | some p ↦ if p == 0 then later else ok (some (offset, p))
      ]

  abbrev pub smaller_template : List ℕ → Option (ℕ × ℕ) → Template
  smaller_template value none = exact (take (length value - 1) value)
  smaller_template value (some (offset, p)) = stepped (take offset value) (take p charset)

  -- `_lt_constraint`
  unfoldable pub lt_template : List ℕ → ℕ → Result Template
  unfolding find_smaller
  lt_template value offset =
      exception.◌>>=◌ (find_smaller (drop offset value) offset)
        (λ found. ok (smaller_template value found))

  unfoldable pub find_larger : List ℕ → ℕ → Search
  unfolding position
  find_larger [] offset = exhausted
  find_larger (c ∷ rest) offset =
      let later = find_larger rest (suc offset) in
      elim (position c charset) [
        | none ↦ unknown
        | some p ↦ if leb (length charset) (p + 1) then later else found offset p
      ]

  -- `none` is the `ValueError` that is returned, not raised.
  abbrev pub larger_template : List ℕ → Search → Result (Option Template)
  larger_template value unknown = ok none
  larger_template value exhausted =
      exception.◌>>=◌ (first_char charset) (λ c. ok (some (exact (value ++ c ∷ []))))
  larger_template value (found offset p) =
      ok (some (stepped (take offset value) (drop (p + 1) charset)))

  -- `_gt_constraint`
  unfoldable pub gt_template : List ℕ → ℕ → Result (Option Template)
  unfolding find_larger
  gt_template [] offset = ok (some (extended []))
  gt_template (c ∷ cs) offset = larger_template (c ∷ cs) (find_larger (drop offset (c ∷ cs)) offset)

  module _ (refused : Error) where
    abbrev pub checked : Option Template → Result Template
    checked none = err refused
    checked (some t) = ok t

    abbrev pub gt_checked : List ℕ → ℕ → Result Template
    gt_checked value offset = exception.◌>>=◌ (gt_template value offset) checked

    -- The constraints with their optional offset, which is 0 if it is not given.
    unfoldable pub lt_constraint : List ℕ → ℕ → Exec Solver (Unit {0})
    unfolding lt_template
    lt_constraint [] offset = add never
    lt_constraint (c ∷ cs) offset = do t ← lift (lt_template (c ∷ cs) offset); add (one_of (t ∷ []))

    unfoldable pub le_constraint : List ℕ → ℕ → Exec Solver (Unit {0})
    unfolding lt_template
    le_constraint value offset = do
      t ← lift (lt_template value offset)
      add (one_of (t ∷ exact value ∷ []))

    unfoldable pub gt_constraint : List ℕ → ℕ → Exec Solver (Unit {0})
    unfolding gt_template
    gt_constraint value offset = do t ← lift (gt_checked value offset); add (one_of (t ∷ []))

    unfoldable pub ge_constraint : List ℕ → ℕ → Exec Solver (Unit {0})
    unfolding gt_template
    ge_constraint value offset = do
      t ← lift (gt_checked value offset)
      add (one_of (t ∷ exact value ∷ []))

    unfoldable pub ne_constraint : List ℕ → ℕ → Exec Solver (Unit {0})
    unfolding lt_template gt_template
    ne_constraint value offset = do
      t ← lift (lt_template value offset)
      u ← lift (gt_checked value offset)
      add (one_of (t ∷ u ∷ []))

    abbrev pub above : Bool → List ℕ → ℕ → Exec Solver (Unit {0})
    above true lower offset = ge_constraint lower offset
    above false lower offset = gt_constraint lower offset

    abbrev pub below : Bool → List ℕ → ℕ → Exec Solver (Unit {0})
    below true upper offset = le_constraint upper offset
    below false upper offset = lt_constraint upper offset

    -- `bounded_constraints`
    unfoldable pub bounded_constraints : List ℕ → List ℕ → Bool → Bool → Exec Solver (Unit {0})
    unfolding lt_constraint le_constraint gt_constraint ge_constraint common_start char_at
    bounded_constraints upper lower include_upper include_lower =
        let pos = common_start upper lower in
        if (pos == length upper) && (length upper == length lower)
        then add never
        else if follows (char_at pos lower) (char_at pos upper)
        then above include_lower lower (pos + 1)
        else (do below include_upper upper pos; above include_lower lower pos)
