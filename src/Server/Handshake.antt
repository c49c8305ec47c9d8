-- ===== src/Server/Handshake.antt =====
-- The handshake of saltyrtc/server/server.py: `handshake`, `handshake_initiator` and
-- `handshake_responder`.
--
-- At an `await` another task may run. What is modelled is the run in which none does: the messages
-- that are received, and the answers of the transport library, are arguments.
pub mod Admission
pub mod Responding
use saltyrtc_server_python.Prelude.{
  pos, ℕ, ◌+◌, ◌≡◌, Bool, true, false, not, Option, none, some, List, [], ◌∷◌, ◌++◌, Bytes, length,
  if◌then◌else◌,
}
use saltyrtc_server_python.Exception.{
  Error, Result, ok, err, message_flow_error, internal_error, key_error,
}
use saltyrtc_server_python.Exec.{
  Exec, pure, raise, lift, gets, modify, ensure, continue, ◌>>=◌, ◌>>◌,
}
use saltyrtc_server_python.Common.Address.{
  AddressType, initiator, responder, initiator_address, responder_address,
}
use saltyrtc_server_python.Common.State.{drop_by_initiator}
use saltyrtc_server_python.Value.{int}
use saltyrtc_server_python.Client.{Client, server_key, set_client_key, cookie_in}
use saltyrtc_server_python.Message.Library.{Library}
use saltyrtc_server_python.Message.Payload.{ClientAuth}
use saltyrtc_server_python.Message.Incoming.{Incoming, hello, auth}
use saltyrtc_server_python.Message.Outgoing.{
  create_server_hello, create_server_auth, create_new_initiator, create_new_responder,
}
use saltyrtc_server_python.SignalingPath.{
  set_initiator, add_responder, get_initiator, get_responder, get_responder_ids,
}
use saltyrtc_server_python.Server.Authentication.{Settings, Keys, handle_client_auth}
use saltyrtc_server_python.Server.Exchange.{
  Exchange, Sendable, cooked, Received, on_path, on_connection, of_client, enqueue_send,
  enqueue_to_responders, drop_client, send, receive,
}

-- `len(self._server.keys) > 0`
abbrev has_keys : Keys → Bool
has_keys [] = false
has_keys (k ∷ ks) = true

abbrev pub drop_previous : Option ℕ → Exec Exchange (Unit {0})
drop_previous none = pure tt
drop_previous (some previous_initiator) = drop_client previous_initiator drop_by_initiator

-- `handshake_initiator` from the point where the client is authenticated, up to the server-auth
unfoldable pub admit_initiator : ℕ → Exec Exchange (Unit {0})
unfolding set_initiator drop_client get_responder_ids enqueue_to_responders
admit_initiator r = do
  previous_initiator ← on_path (set_initiator r)
  drop_previous previous_initiator
  responder_ids ← on_path get_responder_ids
  enqueue_to_responders create_new_initiator responder_ids

-- `path.get_initiator()`, where a `KeyError` is no initiator
abbrev pub no_key_error : Result ℕ → Result (Option ℕ)
no_key_error (ok q) = ok (some q)
no_key_error (err key_error) = ok none
no_key_error (err e) = err e

abbrev pub present_initiator : Exec Exchange (Option ℕ)
present_initiator x = let (result, x') = on_path get_initiator x in (no_key_error result, x')

abbrev pub announce_responder : ℕ → Option ℕ → Exec Exchange (Unit {0})
announce_responder id none = pure tt
announce_responder id (some q) = modify (enqueue_send q (create_new_responder id))

abbrev pub is_present : Option ℕ → Bool
is_present none = false
is_present (some q) = true

abbrev pub greet : ℕ → Option ℕ → Exec Exchange (ℕ × Bool)
greet id q = do announce_responder id q; pure (id, is_present q)

-- `handshake_responder` from the point where the client is authenticated, up to the server-auth; it
-- returns the assigned address, and whether an initiator is connected.
unfoldable pub admit_responder : ℕ → Exec Exchange (ℕ × Bool)
unfolding add_responder get_initiator
admit_responder r = do id ← on_path (add_responder r); q ← present_initiator; greet id q

abbrev set_type : ℕ → AddressType → Exec Exchange (Unit {0})
set_type r type = on_connection r (of_client (modify (λ c. record c { type = some type })))

module _ (lib : Library) (s : Settings) where
  -- `handshake_initiator`
  unfoldable pub handshake_initiator : ℕ → ClientAuth → Option ℕ → Exec Exchange (Unit {0})
  unfolding handle_client_auth admit_initiator get_responder_ids cookie_in create_server_auth send
  handshake_initiator r client_auth answer = do
    on_connection r (of_client (handle_client_auth s client_auth))
    admit_initiator r
    responder_ids ← on_path get_responder_ids
    client_cookie ← on_connection r (of_client cookie_in)
    server_auth ← lift (
        create_server_auth initiator_address client_cookie (has_keys s.keys) none
          (some responder_ids))
    send lib r (cooked server_auth) answer

  -- `handshake_responder`, from the second message on
  unfoldable pub authenticate_responder : ℕ → ClientAuth → Option ℕ → Exec Exchange (Unit {0})
  unfolding handle_client_auth admit_responder responder_address cookie_in create_server_auth send
  authenticate_responder r client_auth answer = do
    on_connection r (of_client (handle_client_auth s client_auth))
    admitted ← admit_responder r
    id ← gets (λ x. (x.connections r).client.id)
    address ← lift (responder_address (int (pos id)))
    client_cookie ← on_connection r (of_client cookie_in)
    server_auth ←
        lift (create_server_auth address client_cookie (has_keys s.keys) (some admitted.1) none)
    send lib r (cooked server_auth) answer

  abbrev expect_client_auth : ℕ → Incoming → Option ℕ → Exec Exchange (Unit {0})
  expect_client_auth r (auth client_auth) answer = authenticate_responder r client_auth answer
  expect_client_auth r _ answer = raise message_flow_error

  -- `handshake_responder`
  unfoldable pub handshake_responder : ℕ → Bytes → Received → Option ℕ → Exec Exchange (Unit {0})
  unfolding set_client_key receive authenticate_responder
  handshake_responder r client_public_key received answer = do
    on_connection r (of_client (set_client_key client_public_key))
    message ← receive lib r received
    expect_client_auth r message answer

  abbrev after_first : ℕ → Incoming → Received → Option ℕ → Exec Exchange (Unit {0})
  after_first r (auth client_auth) received answer = do
    set_type r initiator
    handshake_initiator r client_auth answer
  after_first r (hello client_public_key) received answer = do
    set_type r responder
    handshake_responder r client_public_key received answer
  after_first r _ received answer = raise message_flow_error

  -- `handshake`: the first message, and what the transport library answers to the server-hello and
  -- to the server-auth. The second message is only received from a responder.
  unfoldable pub handshake :
      ℕ → Option ℕ → Received → Received → Option ℕ → Exec Exchange (Unit {0})
  unfolding server_key create_server_hello send receive handshake_initiator handshake_responder
  handshake r hello_answer first second answer = do
    key ← on_connection r (of_client server_key)
    send lib r (cooked (create_server_hello (lib.public_key key))) hello_answer
    message ← receive lib r first
    after_first r message second answer
