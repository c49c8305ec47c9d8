-- ===== src/Message/Outgoing.antt =====
-- The outgoing message classes of saltyrtc/server/message.py: `create`, and `OutgoingMessage.pack`.
use saltyrtc_server_python.Prelude.{
  ℕ, pos, Bool, true, false, Option, none, some, List, [], ◌∷◌, ◌++◌, Bytes, if◌then◌else◌,
}
use saltyrtc_server_python.Exception.{Result, ok, err, message_error, message_flow_error}
use saltyrtc_server_python.Exec.{Exec, pure, raise, lift, gets, ensure, ◌>>=◌, ◌>>◌}
use saltyrtc_server_python.Value.{
  Text, Value, is_key, text, int, str, bin, arr, dict, bool, Items, Fields, field, end, item,
}
use saltyrtc_server_python.Common.Address.{server_address, initiator_address}
use saltyrtc_server_python.Common.State.{authenticated, state_eq}
use saltyrtc_server_python.Client.{
  Client, box, sign_box, server_key, cookie_out, csn_out, increment_csn_out,
}
use saltyrtc_server_python.Client.Counter.{Csn, csn, overflow_sentinel}
use saltyrtc_server_python.Message.Nonce.{pack_header}
use saltyrtc_server_python.Message.Library.{Library}
use saltyrtc_server_python.Message.Incoming.{or_message_error}
use saltyrtc_server_python.Message.Payload.{
  MessageType, type_name, server_hello, server_auth, new_responder, new_initiator, send_error,
  disconnected,
}

-- All of them have the server's address as their source.
pub record Outgoing : Type 0 where
  pub type : MessageType
  pub encrypted : Bool
  pub destination : ℕ
  pub fields : Fields
  pub sign_keys : Bool

abbrev typed : MessageType → Fields → Fields
typed type = field (str (text "type")) (str (type_name type))

abbrev message : MessageType → ℕ → Fields → Outgoing
message type destination fields = record {
  type = type;
  encrypted = true;
  destination = destination;
  fields = typed type fields;
  sign_keys = false;
}

-- `ServerHelloMessage.create`
unfoldable pub create_server_hello : Bytes → Outgoing
create_server_hello server_public_key =
    record (message server_hello server_address
      (field (str (text "key")) (bin server_public_key) end)) { encrypted = false }

abbrev ids : List ℕ → Items
ids [] = Items.empty
ids (id ∷ rest) = item (int (pos id)) (ids rest)

abbrev auth_fields : Option Bool → Option (List ℕ) → Result Fields
auth_fields (some connected) (some responder_ids) = err message_error
auth_fields (some connected) none =
    ok (field (str (text "initiator_connected")) (bool connected) end)
auth_fields none (some responder_ids) =
    ok (field (str (text "responders")) (arr (ids responder_ids)) end)
auth_fields none none = ok end

-- `ServerAuthMessage.create`
unfoldable pub create_server_auth :
    ℕ → Bytes → Bool → Option Bool → Option (List ℕ) → Result Outgoing
create_server_auth destination client_cookie sign_keys initiator_connected responder_ids =
    elim (auth_fields initiator_connected responder_ids) [
      | err e ↦ err e
      | ok fields ↦
          ok
            (record (message server_auth destination
              (field (str (text "your_cookie")) (bin client_cookie) fields)) {
                sign_keys = sign_keys;
              })
    ]

-- `NewInitiatorMessage.create`
unfoldable pub create_new_initiator : ℕ → Outgoing
create_new_initiator destination = message new_initiator destination end

-- `NewResponderMessage.create`
unfoldable pub create_new_responder : ℕ → Outgoing
create_new_responder responder_id =
    message new_responder initiator_address (field (str (text "id")) (int (pos responder_id)) end)

-- `SendErrorMessage.create`
unfoldable pub create_send_error : ℕ → Bytes → Outgoing
create_send_error destination message_id =
    message send_error destination (field (str (text "id")) (bin message_id) end)

-- `DisconnectedMessage.create`
unfoldable pub create_disconnected : ℕ → ℕ → Outgoing
create_disconnected destination client_id =
    message disconnected destination (field (str (text "id")) (int (pos client_id)) end)

abbrev pack_at : ℕ → Csn → Exec Client Bytes
pack_at destination overflow_sentinel = raise message_flow_error
pack_at destination (csn n) = do
  cookie ← cookie_out
  nonce ← lift (
      pack_header
        (record { cookie = cookie; source = server_address; destination = destination; csn = n }))
  increment_csn_out
  pure nonce

-- `OutgoingMessage._pack_nonce`
unfoldable pub pack_nonce : ℕ → Exec Client Bytes
unfolding pack_header cookie_out csn_out increment_csn_out
pack_nonce destination = do number ← csn_out; pack_at destination number

module _ (lib : Library) where
  -- `sign_keys` of saltyrtc/server/common.py
  unfoldable pub sign_keys : Bytes → Exec Client Bytes
  unfolding server_key sign_box
  sign_keys nonce = do
    key ← server_key
    client_key ← gets (λ c. c.client_key)
    keys ← sign_box
    lift (or_message_error (lib.encrypt keys nonce (lib.public_key key ++ client_key)))

  -- `payload[key] = value`: a new key is the last one.
  unfoldable with_item : Text → Value → Fields → Fields
  with_item key value end = field (str key) value end
  with_item key value (field k v rest) =
      let later = with_item key value rest in
      if is_key key k then field k value rest else field k v later

  -- `prepare_payload`
  unfoldable pub prepare_payload : Outgoing → Bytes → Exec Client Fields
  unfolding sign_keys with_item
  prepare_payload m nonce =
      if m.sign_keys
      then (do
        signed ← sign_keys nonce
        pure (with_item (text "signed_keys") (bin signed) m.fields))
      else pure m.fields

  -- `OutgoingMessage._encrypt_payload`, with the guard of `pack`
  unfoldable pub encrypt_payload : Bool → Bytes → Bytes → Exec Client Bytes
  unfolding box
  encrypt_payload false nonce raw_payload = pure raw_payload
  encrypt_payload true nonce raw_payload = do
    ready ← gets (λ c. state_eq c.state authenticated)
    ensure ready message_flow_error
    keys ← box
    lift (or_message_error (lib.encrypt keys nonce raw_payload))

  unfoldable pub seal : Outgoing → Bytes → Exec Client Bytes
  unfolding prepare_payload encrypt_payload
  seal m nonce = do
    fields ← prepare_payload m nonce
    raw_payload ← lift (or_message_error (lib.packb (dict fields)))
    payload ← encrypt_payload m.encrypted nonce raw_payload
    pure (nonce ++ payload)

  -- `OutgoingMessage.pack`
  unfoldable pub pack : Outgoing → Exec Client Bytes
  unfolding pack_nonce seal
  pack m = do nonce ← pack_nonce m.destination; seal m nonce

  -- Messages that are packed for a client, one after the other.
  unfoldable pub pack_all : List Outgoing → Exec Client (List Bytes)
  unfolding pack
  pack_all [] = pure []
  pack_all (m ∷ ms) = do packet ← pack m; packets ← pack_all ms; pure (packet ∷ packets)
