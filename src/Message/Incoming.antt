-- ===== src/Message/Incoming.antt =====
-- `IncomingMessage.unpack` of saltyrtc/server/message.py.
use saltyrtc_server_python.Prelude.{
  ℕ, pos, Bool, true, false, not, ◌&&◌, Option, none, some, Bytes, bytes_eq, length, take, drop,
  ltb, ◌==◌, if◌then◌else◌,
}
use saltyrtc_server_python.Exception
use saltyrtc_server_python.Exception.{
  Error, Result, ok, err, message_error, message_flow_error, value_error_as,
}
use saltyrtc_server_python.Exec.{Exec, pure, raise, lift, gets, ensure, ◌>>=◌, ◌>>◌}
use saltyrtc_server_python.Value.{text, Value, int, Fields, get}
use saltyrtc_server_python.Common.Address.{
  server, address, client_address, type_of, type_eq, initiator_address,
}
use saltyrtc_server_python.Common.State.{DropReason, authenticated, state_eq}
use saltyrtc_server_python.Common.Validate.{nonce_length, data_length_min}
use saltyrtc_server_python.Client.{Client, box, valid_cookie, p2p_allowed}
use saltyrtc_server_python.Client.Sequence.{receive_csn}
use saltyrtc_server_python.Message.Nonce.{Header, unpack_header}
use saltyrtc_server_python.Message.Library.{Library}
use saltyrtc_server_python.Message.Payload.{
  MessageType, type_name, client_hello, client_auth, drop_responder, ClientAuth, message_type,
  client_hello_from, client_auth_from, drop_responder_from, unpack_payload, payload_fields,
}

-- The messages that `unpack` returns: the three incoming classes, and `RelayMessage` with its
-- source, its destination and the packet.
pub data Incoming : Type 0 where
  hello : Bytes → Incoming
  auth : ClientAuth → Incoming
  drop_request : ℕ → DropReason → Incoming
  relay : ℕ → ℕ → Bytes → Incoming

abbrev pub is_to_server : Header → Bool
is_to_server h = type_eq (type_of h.destination) server

-- The checks of a message to the server: the cookie, then the sequence number.
unfoldable pub check_counters : Header → Exec Client (Unit {0})
unfolding valid_cookie receive_csn
check_counters h = do valid ← valid_cookie h.cookie; ensure valid message_error; receive_csn h.csn

-- The part of `_unpack_nonce` that only reads the client: the unpacked header, and the validation
-- of the addresses.
unfoldable pub check_addresses : Bytes → Client → Result Header
unfolding address p2p_allowed
check_addresses packet c = Exception.◌>>=◌ (unpack_header (take nonce_length packet)) (λ h.
    Exception.◌>>=◌ (value_error_as message_error (address (int (pos h.source)))) (λ source.
      Exception.◌>>=◌ (value_error_as message_error (address (int (pos h.destination))))
        (λ destination.
          if not (is_to_server h) && not (p2p_allowed (type_of destination) c)
          then err message_flow_error
          else if source == c.id
          then ok (record h { source = source; destination = destination })
          else err message_error)))

-- `IncomingMessage._unpack_nonce`; the header stands for the nonce, the source and the
-- destination that it returns.
unfoldable pub unpack_nonce : Bytes → Exec Client Header
unfolding check_addresses
unpack_nonce packet = do
  h ← (λ c. (check_addresses packet c, c))
  if is_to_server h then check_counters h else pure tt
  pure h

-- `try: ... except MessageError: pass`
abbrev pub attempt_result {ℓ} : {A : Type ℓ} → Result A → Result (Option A)
attempt_result (ok a) = ok (some a)
attempt_result (err message_error) = ok none
attempt_result (err e) = err e

abbrev pub attempt {ℓ} : {S A : Type ℓ} → Exec S A → Exec S (Option A)
attempt m s = let (r, s') = m s in (attempt_result r, s')

abbrev pub or_message_error {ℓ} : {A : Type ℓ} → Option A → Result A
or_message_error none = err message_error
or_message_error (some a) = ok a

-- `a == b` on the enum.
abbrev pub message_type_eq : MessageType → MessageType → Bool
message_type_eq a b = bytes_eq (type_name a) (type_name b)

abbrev pub is_expected : Option MessageType → MessageType → Bool
is_expected none type = true
is_expected (some expected) type = message_type_eq type expected

-- `client.state == ClientState.authenticated and client.type is not None`
abbrev pub is_authenticated : Client → Bool
is_authenticated c = state_eq c.state authenticated && elim c.type [ none ↦ false | some t ↦ true ]

-- The message from the payload: by the client's state, the type and the source.
unfoldable pub create : Bool → ℕ → MessageType → Fields → Result Incoming
unfolding client_hello_from client_auth_from drop_responder_from
create false source client_hello fields =
    Exception.◌>>=◌ (client_hello_from fields) (λ key. ok (hello key))
create false source client_auth fields =
    Exception.◌>>=◌ (client_auth_from fields) (λ a. ok (auth a))
create true source drop_responder fields =
    if source == initiator_address
    then Exception.◌>>=◌ (drop_responder_from fields) (λ (id, reason). ok (drop_request id reason))
    else err message_flow_error
create _ source type fields = err message_flow_error

-- A message to another client, whose addresses must be client addresses.
unfoldable pub relay_of : Header → Bytes → Result Incoming
unfolding client_address
relay_of h packet = Exception.◌>>=◌ (client_address (int (pos h.source))) (λ source.
    Exception.◌>>=◌ (client_address (int (pos h.destination)))
      (λ destination. ok (relay source destination packet)))

module _ (lib : Library) where
  -- `IncomingMessage._decrypt_payload`
  unfoldable pub decrypt_payload : Bytes → Bytes → Exec Client Bytes
  unfolding box
  decrypt_payload nonce content = do
    keys ← box
    lift (or_message_error (lib.decrypt keys nonce content))

  unfoldable pub decrypt_and_unpack : Bytes → Bytes → Exec Client Value
  unfolding decrypt_payload
  decrypt_and_unpack nonce content = do
    raw ← decrypt_payload nonce content
    lift (unpack_payload (lib.unpackb raw))

  -- The payload of a client that is not authenticated, with the type that it must have: first as
  -- client-auth (encrypted), then as client-hello (plain).
  unfoldable pub first_payload : Bytes → Bytes → Exec Client (MessageType × Value)
  unfolding decrypt_and_unpack
  first_payload nonce content = do
    decrypted ← attempt (decrypt_and_unpack nonce content)
    elim decrypted [
      | some payload ↦ pure (client_auth, payload)
      | none ↦ (do
        plain ← attempt (lift (unpack_payload (lib.unpackb content)))
        elim plain [ some payload ↦ pure (client_hello, payload) | none ↦ raise message_error ])
    ]

  -- The payload of a message to the server, with the type that it must have, if any.
  unfoldable pub server_payload : Bool → Bytes → Bytes → Exec Client (Option MessageType × Value)
  unfolding first_payload decrypt_and_unpack
  server_payload false nonce content = do
    (expected, payload) ← first_payload nonce content
    pure (some expected, payload)
  server_payload true nonce content = do
    payload ← decrypt_and_unpack nonce content
    pure (none, payload)

  -- A message to the server.
  unfoldable pub unpack_server : Header → Bytes → Exec Client Incoming
  unpack_server h packet = do
    known ← gets is_authenticated
    (expected, payload) ← server_payload known (take nonce_length packet) (drop nonce_length packet)
    fields ← lift (payload_fields payload)
    type ← lift (value_error_as message_error (message_type (get (text "type") fields)))
    ensure (is_expected expected type) message_error
    lift (create known h.source type fields)

  -- Decrypt if the message is directed at us, or return a relay message to be sent to a client.
  unfoldable pub route : Bytes → Header → Exec Client Incoming
  route packet h = if is_to_server h then unpack_server h packet else lift (relay_of h packet)

  -- `IncomingMessage.unpack`
  unfoldable pub unpack : Bytes → Exec Client Incoming
  unfolding route
  unpack packet =
      if ltb (length packet) data_length_min
      then raise message_error
      else (do h ← unpack_nonce packet; route packet h)
