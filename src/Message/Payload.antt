-- ===== src/Message/Payload.antt =====
-- The incoming message classes of saltyrtc/server/message.py: the check of an unpacked payload and
-- `from_payload`. A message holds the fields that its properties return.
use saltyrtc_server_python.Prelude.{
  ℕ, ◌+◌, ℤ, pos, negsuc, Bool, Option, none, some, List, [], ◌∷◌, Bytes, bytes_eq, length, ltb,
  if◌then◌else◌,
}
use saltyrtc_server_python.Exception.{
  Error, Result, ok, err, message_error, type_error, index_error, value_error, ◌>>=◌, ◌>>◌,
}
use saltyrtc_server_python.Value.{
  Text, text, Value, nil, str, bin, arr, dict, Items, empty, item, Fields, get, as_int,
}
use saltyrtc_server_python.Common.State.{DropReason}
use saltyrtc_server_python.Common.Validate.{
  validate_public_key, validate_cookie, validate_subprotocols, validate_ping_interval,
  validate_responder_id, validate_drop_reason,
}

-- `MessageType` of saltyrtc/server/common.py
pub data MessageType : Type 0 where
  server_hello client_hello client_auth server_auth new_responder new_initiator : MessageType
  drop_responder send_error disconnected : MessageType

abbrev pub type_name : MessageType → Text
type_name server_hello = text "server-hello"
type_name client_hello = text "client-hello"
type_name client_auth = text "client-auth"
type_name server_auth = text "server-auth"
type_name new_responder = text "new-responder"
type_name new_initiator = text "new-initiator"
type_name drop_responder = text "drop-responder"
type_name send_error = text "send-error"
type_name disconnected = text "disconnected"

abbrev pub message_types : List MessageType
message_types =
    server_hello ∷ client_hello ∷ client_auth ∷ server_auth ∷ new_responder ∷ new_initiator
    ∷ drop_responder ∷ send_error ∷ disconnected ∷ []

named : Text → List MessageType → Result MessageType
named t [] = err value_error
named t (m ∷ ms) = if bytes_eq t (type_name m) then ok m else named t ms

-- `MessageType(value)`
unfoldable pub message_type : Value → Result MessageType
unfolding named
message_type (str t) = named t message_types
message_type _ = err value_error

pub record ClientAuth : Type 0 where
  pub server_cookie : Bytes
  pub subprotocols : List Text
  pub ping_interval : Option ℕ
  pub server_key : Option Bytes

-- `ClientHelloMessage.from_payload`
unfoldable pub client_hello_from : Fields → Result Bytes
unfolding validate_public_key
client_hello_from payload = validate_public_key (get (text "key") payload)

-- `if value is not None: validate(value)`
unfoldable pub optional {ℓ} : {A : Type ℓ} → (Value → Result A) → Value → Result (Option A)
optional validate nil = ok none
optional validate v = do a ← validate v; ok (some a)

-- `ClientAuthMessage.from_payload`
unfoldable pub client_auth_from : Fields → Result ClientAuth
unfolding validate_cookie validate_subprotocols validate_ping_interval validate_public_key optional
client_auth_from payload = do
  cookie ← validate_cookie (get (text "your_cookie") payload)
  subprotocols ← validate_subprotocols (get (text "subprotocols") payload)
  ping_interval ← optional validate_ping_interval (get (text "ping_interval") payload)
  server_key ← optional validate_public_key (get (text "your_key") payload)
  ok (record {
    server_cookie = cookie;
    subprotocols = subprotocols;
    ping_interval = ping_interval;
    server_key = server_key;
  })

-- `DropResponderMessage.from_payload`
unfoldable pub drop_responder_from : Fields → Result (ℕ × DropReason)
unfolding validate_responder_id validate_drop_reason
drop_responder_from payload = do
  id ← validate_responder_id (get (text "id") payload)
  reason ← validate_drop_reason (get (text "reason") payload)
  ok (id, reason)

-- `unpacked[i]` for an integer `i`, in a sequence of `n` entries
abbrev in_range : ℕ → ℤ → Bool
in_range n (pos i) = ltb i n
in_range n (negsuc i) = ltb i n

unfoldable pub size : Items → ℕ
size empty = 0
size (item v rest) = size rest + 1

index_items : ℕ → Items → Result (Unit {0})
index_items n empty = ok tt
index_items n (item v rest) =
    let more = index_items n rest in
    elim (as_int v) [
      | none ↦ err type_error
      | some i ↦ if in_range n i then more else err index_error
    ]

-- The loop `for unpacked_key in unpacked: unpacked[unpacked_key] = ...` of `_unpack_payload`. It
-- keeps the value, and raises where `unpacked` is no dictionary: no iterable, a text or bytes
-- with no assignment, or a list that is indexed by its own entries.
unfoldable pub taint_values : Value → Result (Unit {0})
unfolding size index_items
taint_values (dict fields) = ok tt
taint_values (arr items) = index_items (size items) items
taint_values (str []) = ok tt
taint_values (bin []) = ok tt
taint_values (bin (b ∷ bs)) = if ltb b (length (b ∷ bs)) then err type_error else err index_error
taint_values _ = err type_error

abbrev type_error_as {ℓ} : {A : Type ℓ} → Error → Result A → Result A
type_error_as e (ok a) = ok a
type_error_as e (err type_error) = err e
type_error_as e (err x) = err x

-- `IncomingMessage._unpack_payload`, from what `umsgpack.unpackb` returns
unfoldable pub unpack_payload : Option Value → Result Value
unfolding taint_values
unpack_payload none = err message_error
unpack_payload (some v) = type_error_as message_error (do taint_values v; ok v)

-- `payload.get('type')` of the payload, whose `AttributeError` is raised again as `MessageError`
unfoldable pub payload_fields : Value → Result Fields
payload_fields (dict fields) = ok fields
payload_fields _ = err message_error
