-- ===== src/Exception.antt =====
-- The exceptions of saltyrtc/server/exception.py, with the built-in ones that the server's code
-- raises itself or lets through. Up to Python 3.7 `CancelledError` is one of them. A function without state that may raise returns a `Result`.
use saltyrtc_server_python.Prelude.{ℕ, Bool, true, false}

pub data Error : Type 0 where
  internal_error path_error slots_full_error server_key_error : Error
  message_flow_error ping_timeout_error message_error downgrade_error : Error
  disconnected : ℕ → Error
  value_error key_error index_error type_error attribute_error assertion_error : Error
  cancelled_error : Error

pub data Result {ℓ} (A : Type ℓ) : Type ℓ where
  ok : A → Result A
  err : Error → Result A

-- `raise MessageError(...) from exc` where the call may only raise `ValueError`.
abbrev pub value_error_as {ℓ} : {A : Type ℓ} → Error → Result A → Result A
value_error_as e (ok a) = ok a
value_error_as e (err value_error) = err e
value_error_as e (err x) = err x

infixl 5 ◌>>=◌ ◌>>◌
-- The rest of a function, which is left out if an exception was raised before it.
module _ {ℓ κ} {A : Type ℓ} {B : Type κ} where
  abbrev pub ◌>>=◌ : Result A → (A → Result B) → Result B
  ◌>>=◌ (err e) rest = err e
  ◌>>=◌ (ok a) rest = rest a

module _ {κ} {B : Type κ} where
  abbrev pub ◌>>◌ : Result (Unit {0}) → Result B → Result B
  ◌>>◌ check rest = check >>= λ _. rest

-- `if not test: raise e`
abbrev pub guard : Bool → Error → Result (Unit {0})
guard test e = elim test [ true ↦ ok tt | false ↦ err e ]
