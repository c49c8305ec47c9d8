-- ===== src/Splice/Strings/Sharing.antt =====
-- Bounds that share the first characters of a string, or do not: what a string that has these
-- characters is to them.
use saltyrtc_server_python.Prelude.{
  ℕ, zero, suc, ◌≤◌, ◌<◌, ◌≡◌, refl, Bool, true, false, ◌||◌, some, List, [], ◌∷◌, length, take,
  bytes_eq, arith,
}
use saltyrtc_server_python.Splice.Strings.{char_at, common_start}
use saltyrtc_server_python.Splice.Strings.Lexical.{lex_less, strip}
use saltyrtc_server_python.Splice.Strings.Prefixed.{shares}

abbrev pub lex_leq : List ℕ → List ℕ → Bool
lex_leq s t = lex_less s t || bytes_eq s t

pub shares_below :
    (n : ℕ) (value upper s rest : List ℕ)
    → n ≤ length value
    → shares n value upper ≡ false
    → lex_leq value upper ≡ true
    → strip (take n value) s ≡ some rest
    → lex_less s upper ≡ true
unfolding shares lex_less strip
shares_below zero value upper s rest n h l e = ground (arith, h)
shares_below (suc n) [] upper s rest m h l e = absurd (omega arith)
shares_below (suc n) (x ∷ v) [] s rest m h l e = cc
shares_below (suc n) (x ∷ v) (y ∷ u) [] rest m h l e = cc
shares_below (suc n) (x ∷ v) (y ∷ u) (z ∷ s) rest m h l e =
    ground (arith, shares_below n v u s rest, m, h, l, e)

pub shares_above :
    (n : ℕ) (value lower s rest : List ℕ)
    → n ≤ length value
    → shares n value lower ≡ false
    → lex_leq lower value ≡ true
    → strip (take n value) s ≡ some rest
    → lex_less lower s ≡ true
unfolding shares lex_less strip
shares_above zero value lower s rest n h l e = ground (arith, h)
shares_above (suc n) [] lower s rest m h l e = absurd (omega arith)
shares_above (suc n) (x ∷ v) lower [] rest m h l e = cc
shares_above (suc n) (x ∷ v) [] (z ∷ s) rest m h l e = refl
shares_above (suc n) (x ∷ v) (y ∷ u) (z ∷ s) rest m h l e =
    ground (arith, shares_above n v u s rest, m, h, l, e)

pub common_start-shares :
    (n a b : ℕ) (value upper lower : List ℕ)
    → shares n value upper ≡ true
    → shares n value lower ≡ true
    → char_at n lower ≡ some a
    → char_at n upper ≡ some b
    → a < b
    → common_start upper lower ≡ n
unfolding shares char_at common_start
common_start-shares n a b v [] lower p q e f h = ground (arith, f)
common_start-shares n a b v (x ∷ u) [] p q e f h = ground (arith, e)
common_start-shares zero a b v (x ∷ u) (y ∷ l) p q e f h = ground (arith, e, f, h)
common_start-shares (suc n) a b [] (x ∷ u) (y ∷ l) p q e f h = ground (arith, p)
common_start-shares (suc n) a b (z ∷ v) (x ∷ u) (y ∷ l) p q e f h =
    ground (arith, common_start-shares n a b v u l, p, q, e, f, h)
