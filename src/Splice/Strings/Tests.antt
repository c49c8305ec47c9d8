-- ===== src/Splice/Strings/Tests.antt =====
-- Strings of the letters A to F.
use saltyrtc_server_python.Prelude.{some, ℕ, ◌≡◌, refl, true, false, List, [], ◌∷◌, arith}
use saltyrtc_server_python.Exception.{attribute_error}
use saltyrtc_server_python.Splice.Strings.{Solver, bounded_constraints}
use saltyrtc_server_python.Splice.Strings.Lexical.{IsSorted, lex_less, strip}
use saltyrtc_server_python.Splice.Strings.Bounds.{starts_in, all_allow, any_matches, all_in}
use saltyrtc_server_python.Splice.Strings.Bounded.{at_most, at_least, bounded_constraints-within}
use saltyrtc_server_python.Splice.Strings.Prefixed.{xeq_constraint}
use saltyrtc_server_python.Splice.Strings.Fixed.{xeq_constraint-within}

abbrev letters : List ℕ
letters = 65 ∷ 66 ∷ 67 ∷ 68 ∷ 69 ∷ 70 ∷ []

letters-IsSorted : IsSorted letters
letters-IsSorted = (
  (λ d e. ground arith),
  (
    (λ d e. ground arith),
    (
      (λ d e. ground arith),
      ((λ d e. ground arith), ((λ d e. ground arith), ((λ d e. ground arith), tt))),
    ),
  ),
)

abbrev nothing_yet : Solver
nothing_yet = []

abbrev told : Solver
told =
    (bounded_constraints letters attribute_error (66 ∷ 69 ∷ []) (66 ∷ 65 ∷ 70 ∷ []) true false
      nothing_yet).1

-- Between BAF and BE is BCA.
bounded_constraints-within_example :
    (at_least false (66 ∷ 65 ∷ 70 ∷ []) (66 ∷ 67 ∷ 65 ∷ []) ≡ true)
    × (at_most true (66 ∷ 69 ∷ []) (66 ∷ 67 ∷ 65 ∷ []) ≡ true)
unfolding bounded_constraints all_allow strip any_matches all_in
bounded_constraints-within_example =
    bounded_constraints-within letters attribute_error (66 ∷ 69 ∷ []) (66 ∷ 65 ∷ 70 ∷ []) true false
      nothing_yet told (66 ∷ 67 ∷ 65 ∷ []) letters-IsSorted refl refl

-- BCA begins as BCC does, and is between BA and BCD.
xeq_constraint-within_example :
    (starts_in letters letters (strip (66 ∷ 67 ∷ []) (66 ∷ 67 ∷ 65 ∷ [])) ≡ true)
    × (lex_less (66 ∷ 67 ∷ 65 ∷ []) (66 ∷ 67 ∷ 68 ∷ []) ≡ true)
    × (lex_less (66 ∷ 65 ∷ []) (66 ∷ 67 ∷ 65 ∷ []) ≡ true)
unfolding xeq_constraint all_allow strip any_matches all_in lex_less
xeq_constraint-within_example =
    xeq_constraint-within letters attribute_error (66 ∷ 67 ∷ 67 ∷ []) 2 (some (66 ∷ 67 ∷ 68 ∷ []))
      (some (66 ∷ 65 ∷ [])) nothing_yet
      (xeq_constraint letters attribute_error (66 ∷ 67 ∷ 67 ∷ []) 2 (some (66 ∷ 67 ∷ 68 ∷ []))
        (some (66 ∷ 65 ∷ [])) nothing_yet).1
      (66 ∷ 67 ∷ 65 ∷ []) letters-IsSorted (λ e. ground arith) (omega arith) refl refl refl refl
