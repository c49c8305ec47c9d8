-- ===== src/Splice/Taint/Bits.antt =====
-- The bits of a union of taints, and of the taint of a user.
use Prim.Native.Nat.{max, digits, bit_or-bitwise}
use saltyrtc_server_python.Prelude.{
  ℕ, zero, suc, ◌+◌, ◌*◌, ◌/◌, ◌%◌, ◌^◌, ◌≤◌, ◌≡◌, refl, sym, ap, ◌∙◌, false, ◌||◌, arith, ◌==◌,
}
use saltyrtc_server_python.Splice.Taint.{max_users, get_taint_from_id, union, bit, carries}

pub bit-zero : (i : ℕ) → bit i 0 ≡ false
unfolding bit
bit-zero zero = refl
bit-zero (suc i) = bit-zero i

max_odd : (x y : ℕ) → ((max (x % 2) (y % 2)) == 1) ≡ (((x % 2) == 1) || ((y % 2) == 1))
max_odd x y = ground arith

last_digit : (h x y : ℕ) → (h * 2 + max (x % 2) (y % 2)) % 2 ≡ max (x % 2) (y % 2)
last_digit h x y = ground arith

other_digits : (h x y : ℕ) → (h * 2 + max (x % 2) (y % 2)) / 2 ≡ h
other_digits h x y = ground arith

bit-digits : (i n a b : ℕ) → a ≤ n → bit i (digits (λ b. b) max n a b) ≡ (bit i a || bit i b)
unfolding bit
bit-digits i zero zero b h = ap (λ z. z || bit i b) (sym (bit-zero i))
bit-digits i zero (suc a) b h = absurd (omega arith)
bit-digits i (suc n) zero b h = ap (λ z. z || bit i b) (sym (bit-zero i))
bit-digits zero (suc n) (suc a) b h =
    ap (λ z. z == 1) (last_digit (digits (λ b. b) max n (suc a / 2) (b / 2)) (suc a) b)
    ∙ max_odd (suc a) b
bit-digits (suc i) (suc n) (suc a) b h =
    ap (bit i) (other_digits (digits (λ b. b) max n (suc a / 2) (b / 2)) (suc a) b)
    ∙ bit-digits i n (suc a / 2) (b / 2) (omega arith)

pub bit-union : (i a b : ℕ) → bit i (union a b) ≡ (bit i a || bit i b)
unfolding union
bit-union i a b = ap (bit i) (bit_or-bitwise a b) ∙ bit-digits i a a b (omega arith)

bit-power : (i j : ℕ) → bit i (2 ^ j) ≡ (i == j)
unfolding bit
bit-power zero zero = refl
bit-power (suc i) zero = bit-zero i ∙ ground arith
bit-power zero (suc j) = ground arith
bit-power (suc i) (suc j) = ap (bit i) (omega arith) ∙ bit-power i j ∙ ground arith

-- The taint of a user is carried exactly for the users with the same number modulo `max_users`.
pub get_taint_from_id-carries :
    (u v : ℕ) → carries v (get_taint_from_id u) ≡ ((v % max_users) == (u % max_users))
unfolding get_taint_from_id
get_taint_from_id-carries u v = bit-power (v % max_users) (u % max_users)
