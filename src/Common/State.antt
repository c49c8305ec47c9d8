-- ===== src/Common/State.antt =====
-- `ClientState`, `CloseCode` and `DropReason` of saltyrtc/server/common.py.
use saltyrtc_server_python.Prelude.{
  ℕ, ◌+◌, ◌≡◌, ℤ, pos, Bool, true, false, Option, some, arith, ◌==◌, if◌then◌else◌, refl,
}
use saltyrtc_server_python.Exception.{Result, ok, err, value_error}

pub data ClientState : Type 0 where
  restricted authenticated dropped : ClientState

pub data CloseCode : Type 0 where
  going_away subprotocol_error path_full_error protocol_error internal_error handover : CloseCode
  drop_by_initiator initiator_could_not_decrypt no_shared_tasks invalid_key timeout : CloseCode

pub data DropReason : Type 0 where
  protocol_error internal_error drop_by_initiator initiator_could_not_decrypt : DropReason

abbrev pub state_value : ClientState → ℕ
state_value restricted = 1
state_value authenticated = 2
state_value dropped = 3

-- `ClientState(n)`
abbrev pub client_state : ℕ → Result ClientState
client_state n =
    if n == 1
    then ok restricted
    else if n == 2
    then ok authenticated
    else if n == 3
    then ok dropped
    else err value_error

-- `ClientState.next`
unfoldable pub next : ClientState → Result ClientState
next s = client_state (state_value s + 1)

abbrev pub state_eq : ClientState → ClientState → Bool
state_eq restricted restricted = true
state_eq authenticated authenticated = true
state_eq dropped dropped = true
state_eq _ _ = false

abbrev pub close_code_value : CloseCode → ℕ
close_code_value going_away = 1001
close_code_value subprotocol_error = 1002
close_code_value path_full_error = 3000
close_code_value CloseCode.protocol_error = 3001
close_code_value CloseCode.internal_error = 3002
close_code_value handover = 3003
close_code_value CloseCode.drop_by_initiator = 3004
close_code_value CloseCode.initiator_could_not_decrypt = 3005
close_code_value no_shared_tasks = 3006
close_code_value invalid_key = 3007
close_code_value timeout = 3008

-- `CloseCode(n)`
unfoldable pub close_code : ℕ → Result CloseCode
close_code n =
    if n == 1001
    then ok going_away
    else if n == 1002
    then ok subprotocol_error
    else if n == 3000
    then ok path_full_error
    else if n == 3001
    then ok CloseCode.protocol_error
    else if n == 3002
    then ok CloseCode.internal_error
    else if n == 3003
    then ok handover
    else if n == 3004
    then ok CloseCode.drop_by_initiator
    else if n == 3005
    then ok CloseCode.initiator_could_not_decrypt
    else if n == 3006
    then ok no_shared_tasks
    else if n == 3007
    then ok invalid_key
    else if n == 3008
    then ok timeout
    else err value_error

abbrev pub drop_reason_value : DropReason → ℕ
drop_reason_value DropReason.protocol_error = 3001
drop_reason_value DropReason.internal_error = 3002
drop_reason_value DropReason.drop_by_initiator = 3004
drop_reason_value DropReason.initiator_could_not_decrypt = 3005

abbrev reason_of : Option ℤ → Result DropReason
reason_of (some (pos n)) =
    if n == 3001
    then ok DropReason.protocol_error
    else if n == 3002
    then ok DropReason.internal_error
    else if n == 3004
    then ok DropReason.drop_by_initiator
    else if n == 3005
    then ok DropReason.initiator_could_not_decrypt
    else err value_error
reason_of _ = err value_error

-- `DropReason(value)`, at the integer that the value is equal to, if any
unfoldable pub drop_reason : Option ℤ → Result DropReason
drop_reason z = reason_of z

abbrev pub default_drop_reason : DropReason
default_drop_reason = DropReason.drop_by_initiator

-- The states in order, with no way back and no step skipped.
pub next_order : (s t : ClientState) → next s ≡ ok t → state_value t ≡ state_value s + 1
unfolding next
next_order s t h = ground arith

pub next-dropped : next dropped ≡ err value_error
unfolding next
next-dropped = refl

-- `CloseCode(message.reason)` of the initiator's receive loop: the code of the same number.
pub close_code-drop_reason :
    (r : DropReason)
    → (c : CloseCode) × (close_code (drop_reason_value r) ≡ ok c)
      × (close_code_value c ≡ drop_reason_value r)
unfolding close_code
close_code-drop_reason DropReason.protocol_error = (CloseCode.protocol_error, refl, refl)
close_code-drop_reason DropReason.internal_error = (CloseCode.internal_error, refl, refl)
close_code-drop_reason DropReason.drop_by_initiator = (CloseCode.drop_by_initiator, refl, refl)
close_code-drop_reason DropReason.initiator_could_not_decrypt =
    (CloseCode.initiator_could_not_decrypt, refl, refl)
