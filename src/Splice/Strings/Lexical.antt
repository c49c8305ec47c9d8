-- ===== src/Splice/Strings/Lexical.antt =====
-- The order of strings, and where a string that starts like another one stands in it.
use saltyrtc_server_python.Prelude.{
  ℕ, zero, suc, ◌+◌, ◌≤◌, ◌<◌, ◌≡◌, refl, Bool, true, false, ◌&&◌, ◌||◌, Option, none, some, List,
  [], ◌∷◌, ◌++◌, length, take, drop, contains, ltb, ◌==◌, if◌then◌else◌, arith,
}
use saltyrtc_server_python.Splice.Strings.{position, char_at, common_start}

-- `s < t` of two strings, in the order of the code points
unfoldable pub lex_less : List ℕ → List ℕ → Bool
lex_less s [] = false
lex_less [] (y ∷ ys) = true
lex_less (x ∷ xs) (y ∷ ys) = ltb x y || ((x == y) && lex_less xs ys)

-- What follows the string `p` at the start of `s`.
unfoldable pub strip : List ℕ → List ℕ → Option (List ℕ)
strip [] s = some s
strip (c ∷ p) [] = none
strip (c ∷ p) (d ∷ s) = if c == d then strip p s else none

-- The characters of the charset are in the order of their code points.
abbrev pub IsSorted : List ℕ → Type 0
IsSorted [] = Unit
IsSorted (c ∷ cs) = ((d : ℕ) → contains d cs ≡ true → c < d) × IsSorted cs

position-contains : (cs : List ℕ) (c p : ℕ) → position c cs ≡ some p → contains c cs ≡ true
unfolding position
position-contains [] c p e = cc
position-contains (x ∷ cs) c zero e = ground arith
position-contains (x ∷ cs) c (suc p) e = ground (arith, position-contains cs c p)

pub position-take :
    (cs : List ℕ) (c d p : ℕ)
    → IsSorted cs
    → position c cs ≡ some p
    → contains d (take p cs) ≡ true
    → d < c
unfolding position
position-take [] c d p s e h = cc
position-take (x ∷ cs) c d zero s e h = ground arith
position-take (x ∷ cs) c d (suc p) s e h =
    ground (arith, position-take cs c d p s.1, position-contains cs c p, s.0 c)

pub position-drop :
    (cs : List ℕ) (c d p : ℕ)
    → IsSorted cs
    → position c cs ≡ some p
    → contains d (drop (suc p) cs) ≡ true
    → c < d
unfolding position
position-drop [] c d p s e h = cc
position-drop (x ∷ cs) c d zero s e h = ground (arith, s.0 d)
position-drop (x ∷ cs) c d (suc p) s e h = ground (arith, position-drop cs c d p s.1)

pub stepped_below :
    (i b c : ℕ) (v s rest : List ℕ)
    → char_at i v ≡ some b
    → strip (take i v) s ≡ some (c ∷ rest)
    → c < b
    → lex_less s v ≡ true
unfolding char_at strip lex_less
stepped_below i b c [] s rest e m h = ground arith
stepped_below zero b c (x ∷ v) s rest e m h = ground arith
stepped_below (suc i) b c (x ∷ v) [] rest e m h = ground arith
stepped_below (suc i) b c (x ∷ v) (y ∷ s) rest e m h = ground (arith, stepped_below i b c v s rest)

pub stepped_above :
    (i b c : ℕ) (v s rest : List ℕ)
    → char_at i v ≡ some b
    → strip (take i v) s ≡ some (c ∷ rest)
    → b < c
    → lex_less v s ≡ true
unfolding char_at strip lex_less
stepped_above i b c [] s rest e m h = ground arith
stepped_above zero b c (x ∷ v) s rest e m h = ground arith
stepped_above (suc i) b c (x ∷ v) [] rest e m h = ground arith
stepped_above (suc i) b c (x ∷ v) (y ∷ s) rest e m h = ground (arith, stepped_above i b c v s rest)

-- To leave out the last character makes a string smaller, and to append one makes it larger.
pub shorter_below : (x : ℕ) (v : List ℕ) → lex_less (take (length v) (x ∷ v)) (x ∷ v) ≡ true
unfolding lex_less
shorter_below x [] = refl
shorter_below x (y ∷ v) = ground (arith, shorter_below y v)

pub longer_above : (c : ℕ) (v : List ℕ) → lex_less v (v ++ c ∷ []) ≡ true
unfolding lex_less
longer_above c [] = refl
longer_above c (x ∷ v) = ground (arith, longer_above c v)

-- A string that starts as `lower` does, through the place where `upper` has a larger character, is
-- below `upper`.
pub started_below :
    (o a b : ℕ) (lower upper s rest : List ℕ)
    → char_at (common_start upper lower) lower ≡ some a
    → char_at (common_start upper lower) upper ≡ some b
    → a < b
    → common_start upper lower + 1 ≤ o
    → strip (take o lower) s ≡ some rest
    → lex_less s upper ≡ true
unfolding char_at common_start strip lex_less
started_below o a b lower [] s rest e f h k m = ground arith
started_below o a b [] (y ∷ upper) s rest e f h k m = ground arith
started_below zero a b (x ∷ lower) (y ∷ upper) s rest e f h k m = absurd (omega arith)
started_below (suc o) a b (x ∷ lower) (y ∷ upper) [] rest e f h k m = ground arith
started_below (suc o) a b (x ∷ lower) (y ∷ upper) (z ∷ s) rest e f h k m =
    ground (arith, started_below o a b lower upper s rest)
