-- ===== src/Server/Closing.antt =====
-- `ServerProtocol.handler` of saltyrtc/server/server.py: with which close code a connection ends,
-- and what the event `disconnected` reports.
use saltyrtc_server_python.Prelude.{
  ℕ, ◌≡◌, refl, Bool, true, false, Option, none, some, ◌⊎◌, inl, inr, if◌then◌else◌,
}
use saltyrtc_server_python.Exception.{
  Error, err, internal_error, slots_full_error, server_key_error, ping_timeout_error, disconnected,
  message_error, message_flow_error, downgrade_error, path_error,
}
use saltyrtc_server_python.Common.State.{
  CloseCode, close_code_value, timeout, path_full_error, invalid_key, protocol_error,
}
use saltyrtc_server_python.Client.{Client}
use saltyrtc_server_python.Message.Payload.{ClientAuth}
use saltyrtc_server_python.Server.Authentication.{
  Settings, handle_client_auth, IsRefusal, handle_client_auth-error,
}

-- The exceptions that are a `SignalingError`.
unfoldable pub is_signaling_error : Error → Bool
is_signaling_error internal_error = true
is_signaling_error path_error = true
is_signaling_error slots_full_error = true
is_signaling_error server_key_error = true
is_signaling_error message_flow_error = true
is_signaling_error ping_timeout_error = true
is_signaling_error message_error = true
is_signaling_error downgrade_error = true
is_signaling_error _ = false

abbrev internal : CloseCode
internal = CloseCode.internal_error

-- The code that the server closes the connection with; a connection that is closed already has
-- none.
unfoldable pub close_code_of : Error → Option CloseCode
unfolding is_signaling_error
close_code_of (disconnected reason) = none
close_code_of ping_timeout_error = some timeout
close_code_of slots_full_error = some path_full_error
close_code_of server_key_error = some invalid_key
close_code_of internal_error = some internal
close_code_of e = if is_signaling_error e then some protocol_error else some internal

-- The code that the event reports.
unfoldable pub reported : Error → ℕ
unfolding is_signaling_error
reported (disconnected reason) = reason
reported ping_timeout_error = close_code_value timeout
reported slots_full_error = close_code_value path_full_error
reported server_key_error = close_code_value invalid_key
reported internal_error = close_code_value internal
reported e =
    if is_signaling_error e then close_code_value protocol_error else close_code_value internal

abbrev Told : Error → Type 0
Told e =
    ((close_code_of e ≡ some protocol_error) × (reported e ≡ close_code_value protocol_error))
    ⊎ ((close_code_of e ≡ some invalid_key) × (reported e ≡ close_code_value invalid_key))

told : (e : Error) → IsRefusal e → Told e
unfolding close_code_of reported
told e (inl h) = rw h (inl (refl, refl))
told e (inr (inl h)) = rw h (inl (refl, refl))
told e (inr (inr h)) = rw h (inr (refl, refl))

-- A client whose authentication is refused is told that it broke the protocol, or that the key it
-- asked for is not the server's; it is never told of an internal error. What the client is told is
-- what the event reports.
pub handle_client_auth-close_code_of :
    (s : Settings) (a : ClientAuth) (c d : Client) (e : Error)
    → handle_client_auth s a c ≡ (err e, d)
    → ((close_code_of e ≡ some protocol_error) × (reported e ≡ close_code_value protocol_error))
      ⊎ ((close_code_of e ≡ some invalid_key) × (reported e ≡ close_code_value invalid_key))
handle_client_auth-close_code_of s a c d e h = told e (handle_client_auth-error s a c d e h)
