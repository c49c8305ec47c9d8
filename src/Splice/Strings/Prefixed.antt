-- ===== src/Splice/Strings/Prefixed.antt =====
-- `StrSynthesizer.xeq_constraint` of saltyrtc/splice/synthesis.py: a string with the first
-- characters of another one, between two bounds.
use saltyrtc_server_python.Prelude.{
  ℕ, ◌+◌, Bool, false, ◌&&◌, Option, none, some, List, [], ◌∷◌, length, take, bytes_eq, leb, ◌==◌,
  if◌then◌else◌,
}
use saltyrtc_server_python.Exception.{Error, index_error}
use saltyrtc_server_python.Exec.{Exec, pure, raise, ◌>>◌}
use saltyrtc_server_python.Splice.Strings.{
  Solver, one_of, extended, add, char_at, lt_constraint, gt_constraint, bounded_constraints,
}

-- An empty bound is as none.
abbrev pub given : Option (List ℕ) → Option (List ℕ)
given none = none
given (some []) = none
given (some (c ∷ cs)) = some (c ∷ cs)

-- The bound has the first characters of the value.
unfoldable pub shares : ℕ → List ℕ → List ℕ → Bool
shares fixed_length value bound =
    leb fixed_length (length bound) && bytes_eq (take fixed_length value) (take fixed_length bound)

abbrev pub sharing : ℕ → List ℕ → Option (List ℕ) → Option (List ℕ)
sharing fixed_length value none = none
sharing fixed_length value (some bound) =
    if shares fixed_length value bound then some bound else none

module _ (charset : List ℕ) (refused : Error) where
  -- The bounds if nothing is fixed.
  abbrev pub add_plain : Option (List ℕ) → Option (List ℕ) → Exec Solver (Unit {0})
  add_plain (some upper) (some lower) = bounded_constraints charset refused upper lower false false
  add_plain (some upper) none = lt_constraint charset refused upper 0
  add_plain none (some lower) = gt_constraint charset refused lower 0
  add_plain none none = pure tt

  -- Two bounds, with their characters after the fixed ones.
  abbrev pub add_apart : ℕ → List ℕ → List ℕ → Option ℕ → Option ℕ → Exec Solver (Unit {0})
  add_apart fixed_length upper lower (some a) (some b) =
      if (a + 1) == b then gt_constraint charset refused lower (fixed_length + 1) else (do
        lt_constraint charset refused upper fixed_length
        gt_constraint charset refused lower fixed_length)
  add_apart fixed_length upper lower _ _ = raise index_error

  -- The bounds that share the fixed characters.
  abbrev pub add_sharing : ℕ → Option (List ℕ) → Option (List ℕ) → Exec Solver (Unit {0})
  add_sharing fixed_length (some upper) (some lower) =
      add_apart fixed_length upper lower (char_at fixed_length lower) (char_at fixed_length upper)
  add_sharing fixed_length (some upper) none = lt_constraint charset refused upper fixed_length
  add_sharing fixed_length none (some lower) = gt_constraint charset refused lower fixed_length
  add_sharing fixed_length none none = pure tt

  -- `xeq_constraint`
  unfoldable pub xeq_constraint :
      List ℕ → ℕ → Option (List ℕ) → Option (List ℕ) → Exec Solver (Unit {0})
  unfolding shares lt_constraint gt_constraint bounded_constraints char_at
  xeq_constraint value fixed_length upper lower =
      if fixed_length == 0 then add_plain (given upper) (given lower) else (do
        add_sharing fixed_length (sharing fixed_length value (given upper))
            (sharing fixed_length value (given lower))
        add (one_of (extended (take fixed_length value) ∷ [])))
