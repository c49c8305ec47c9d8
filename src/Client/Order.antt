-- ===== src/Client/Order.antt =====
-- The order of a client's states (`ClientState` and `PathClient.state`, `PathClient.authenticate`).
use saltyrtc_server_python.Prelude.{ℕ, ◌+◌, ◌≡◌, arith, ◌==◌, if◌then◌else◌}
use saltyrtc_server_python.Exception.{ok, err, value_error}
use saltyrtc_server_python.Common.State.{ClientState, authenticated, state_value}
use saltyrtc_server_python.Client.{Client, set_state, authenticate}

-- A client's state is set exactly to the one that follows; any other update raises `ValueError`
-- and changes nothing.
pub set_state_lem :
    (s : ClientState) (c : Client)
    → set_state s c ≡ (
        if state_value s == state_value c.state + 1
        then (ok tt, record c { state = s })
        else (err value_error, c))
unfolding set_state
set_state_lem s c = ground arith

-- A client is authenticated once: only a restricted client takes the state and the id, and a
-- refusal leaves it as it was.
pub authenticate_lem :
    (id : ℕ) (c : Client)
    → authenticate id c ≡ (
        if state_value c.state == 1
        then (ok tt, record c { state = authenticated; id = id })
        else (err value_error, c))
unfolding authenticate
authenticate_lem id c = ground arith
