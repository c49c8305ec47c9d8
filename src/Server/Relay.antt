-- ===== src/Server/Relay.antt =====
-- The receive loops of saltyrtc/server/server.py, `relay_message`, and what the end of a client's
-- handler sends to the others.
--
-- A round of a loop is a function of the message that was received. `relay_message` waits for the
-- task that sends to the destination: `relay_outcome` is what it does when the wait ends.
pub mod Delivery
pub mod Dropping
pub mod Leaving
pub mod Loop
pub mod Tests
use saltyrtc_server_python.Prelude.{
  ℕ, ◌+◌, ◌-◌, ◌≡◌, Bool, true, false, not, Option, none, some, List, [], ◌∷◌, ◌++◌, Bytes, length,
  take, drop, pos, if◌then◌else◌,
}
use saltyrtc_server_python.Exception.{
  Error, Result, ok, err, message_flow_error, value_error, key_error,
}
use saltyrtc_server_python.Exec.{
  Exec, pure, raise, lift, gets, modify, ensure, continue, ◌>>=◌, ◌>>◌,
}
use saltyrtc_server_python.Value.{int}
use saltyrtc_server_python.Common.Address.{
  AddressType, initiator, responder, initiator_address, responder_address,
}
use saltyrtc_server_python.Common.State.{
  DropReason, CloseCode, close_code, drop_reason_value, authenticated, state_eq,
}
use saltyrtc_server_python.Common.Validate.{cookie_length, nonce_length}
use saltyrtc_server_python.JobQueue.{coroutine, task}
use saltyrtc_server_python.Message.Incoming.{Incoming, relay, drop_request}
use saltyrtc_server_python.Message.Outgoing.{Outgoing, create_send_error, create_disconnected}
use saltyrtc_server_python.SignalingPath.{get_initiator, get_responder, get_responder_ids, empty}
use saltyrtc_server_python.Server.Exchange.{
  Exchange, Sendable, relayed, sending, on_path, schedule, enqueue_send, enqueue_to_responders,
  drop_client,
}

-- A lookup of a client whose `KeyError` is no client.
abbrev absent_as_none : Result ℕ → Result (Option ℕ)
absent_as_none (ok q) = ok (some q)
absent_as_none (err key_error) = ok none
absent_as_none (err e) = err e

abbrev pub find_client : Exec Exchange ℕ → Exec Exchange (Option ℕ)
find_client m x = let (result, x') = m x in (absent_as_none result, x')

-- The part of the nonce after the cookie, by which a message is told from the others.
abbrev pub message_id : Bytes → Bytes
message_id packet = take (nonce_length - cookie_length) (drop cookie_length packet)

-- `send_error_message`. The id of a client is in the range of `ClientAddress`, which then returns
-- it.
unfoldable pub send_error_message : ℕ → Bytes → Exec Exchange (Unit {0})
unfolding create_send_error schedule
send_error_message r packet = do
  address ← gets (λ x. (x.connections r).client.id)
  modify (enqueue_send r (create_send_error address (message_id packet)))

-- `relay_message`, up to the wait
unfoldable pub relay_message : ℕ → Option ℕ → Bytes → Exec Exchange (Unit {0})
unfolding send_error_message schedule
relay_message r none packet = send_error_message r packet
relay_message r (some q) packet = modify (schedule task q (sending (relayed packet)))

-- How the wait for the task ends.
pub data Outcome : Type 0 where
  sent timed_out failed cancelled : Outcome

-- `relay_message` returns, or raises the `CancelledError` of the wait again.
pub data Ending : Type 0 where
  returned reraised : Ending

-- The end of `relay_message`
unfoldable pub relay_outcome : ℕ → Bytes → Outcome → Exec Exchange Ending
unfolding send_error_message
relay_outcome r packet sent = pure returned
relay_outcome r packet timed_out = do send_error_message r packet; pure returned
relay_outcome r packet failed = do send_error_message r packet; pure returned
relay_outcome r packet cancelled = do
  over ← gets (λ x. (x.connections r).tasks.have_result)
  if over then pure reraised else (do send_error_message r packet; pure returned)

abbrev drop_found : DropReason → Option ℕ → Exec Exchange (Unit {0})
drop_found reason none = pure tt
drop_found reason (some q) = do
  code ← lift (close_code (drop_reason_value reason))
  drop_client q code

-- A round of `initiator_receive_loop`
unfoldable pub initiator_round : ℕ → Incoming → Exec Exchange (Unit {0})
unfolding responder_address get_responder relay_message drop_client
initiator_round r (relay source destination packet) = do
  address ← lift (responder_address (int (pos destination)))
  q ← find_client (on_path (get_responder address))
  relay_message r q packet
initiator_round r (drop_request id reason) = do
  q ← find_client (on_path (get_responder id))
  drop_found reason q
initiator_round r _ = raise message_flow_error

-- A round of `responder_receive_loop`
unfoldable pub responder_round : ℕ → Incoming → Exec Exchange (Unit {0})
unfolding get_initiator relay_message
responder_round r (relay source destination packet) = do
  q ← find_client (on_path get_initiator)
  relay_message r q packet
responder_round r _ = raise message_flow_error

abbrev pub announce_to_initiator : ℕ → Option ℕ → Exec Exchange (Unit {0})
announce_to_initiator r none = pure tt
announce_to_initiator r (some q) = do
  id ← gets (λ x. (x.connections r).client.id)
  address ← lift (responder_address (int (pos id)))
  modify (enqueue_send q (create_disconnected initiator_address address))

abbrev pub announce_leaving : ℕ → Option AddressType → Exec Exchange (Unit {0})
announce_leaving r (some initiator) = do
  responder_ids ← on_path get_responder_ids
  enqueue_to_responders (λ id. create_disconnected id initiator_address) responder_ids
announce_leaving r (some responder) = do
  q ← find_client (on_path get_initiator)
  announce_to_initiator r q
announce_leaving r _ = pure tt

-- `ServerProtocol.handler`, from the end of the job queue on, up to the wait for the connection to
-- be closed
unfoldable pub announce_disconnected : ℕ → Exec Exchange (Unit {0})
unfolding empty responder_address enqueue_to_responders get_initiator
announce_disconnected r = do
  path ← gets (λ x. x.path)
  client ← gets (λ x. (x.connections r).client)
  if empty path
      then pure tt
      else (if state_eq client.state authenticated then announce_leaving r client.type else pure tt)
