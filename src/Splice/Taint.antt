-- ===== src/Splice/Taint.antt =====
-- The taints of saltyrtc/splice/identity.py: an integer with one bit for each user, of which there
-- are at most `max_users`.
pub mod Bits
use Prim.Native.Nat.{bit_or}
use saltyrtc_server_python.Prelude.{
  ℕ, zero, suc, ◌+◌, ◌*◌, ◌/◌, ◌%◌, ◌^◌, ◌≤◌, ◌≡◌, refl, Bool, ◌||◌, Option, none, some, arith,
  ◌==◌,
}

abbrev pub max_users : ℕ
max_users = 63

abbrev pub empty_taint : ℕ
empty_taint = 0

-- `TaintSource`
pub record TaintSource : Type 0 where
  pub current_user_id : Option ℕ
  pub current_user_taint : ℕ

unfoldable pub get_taint_from_id : ℕ → ℕ
get_taint_from_id uid = 2 ^ (uid % max_users)

abbrev pub set_current_user_taint : ℕ → TaintSource → TaintSource
set_current_user_taint taint s = record s { current_user_taint = taint }

unfoldable pub set_taint_from_id : ℕ → TaintSource → TaintSource
set_taint_from_id uid s = set_current_user_taint (2 ^ (uid % max_users)) s

unfoldable pub set_current_user_id : ℕ → TaintSource → TaintSource
unfolding set_taint_from_id
set_current_user_id uid s = set_taint_from_id uid (record s { current_user_id = some uid })

-- An address is the number of an IPv4 address and a port.
unfoldable pub taint_id_from_addr : ℕ × ℕ → ℕ
unfolding get_taint_from_id
taint_id_from_addr (ip, port) = get_taint_from_id (ip + port)

unfoldable pub taint_id_from_websocket : ℕ × ℕ → ℕ
unfolding get_taint_from_id
taint_id_from_websocket (ip, port) = get_taint_from_id port

-- `taint_1 | taint_2`
unfoldable pub union : ℕ → ℕ → ℕ
union taint_1 taint_2 = bit_or taint_1 taint_2

-- Digit `i` of the taint is one.
unfoldable pub bit : ℕ → ℕ → Bool
bit zero t = (t % 2) == 1
bit (suc i) t = bit i (t / 2)

-- The taint has the bit of the user.
abbrev pub carries : ℕ → ℕ → Bool
carries uid t = bit (uid % max_users) t
