-- ===== src/Common/Validate.antt =====
-- The `validate_*` functions of saltyrtc/server/common.py. A validator that the source calls for
-- its exception, before it casts the field, returns the field at the type of the cast.
use saltyrtc_server_python.Prelude.{
  ℕ, ℤ, pos, negsuc, Option, none, some, List, [], ◌∷◌, length, Bytes, ◌==◌, if◌then◌else◌,
}
use saltyrtc_server_python.Exception.{Result, ok, err, message_error, value_error_as, ◌>>=◌}
use saltyrtc_server_python.Value.{
  Text, Value, nil, str, arr, Items, empty, item, as_int, numeric, as_bytes,
}
use saltyrtc_server_python.Common.Address.{responder_address}
use saltyrtc_server_python.Common.State.{DropReason, default_drop_reason, drop_reason}

abbrev pub key_length : ℕ
key_length = 32

abbrev pub nonce_length : ℕ
nonce_length = 24

abbrev pub cookie_length : ℕ
cookie_length = 16

abbrev pub data_length_min : ℕ
data_length_min = 25

abbrev bytes_of_length : ℕ → Option Bytes → Result Bytes
bytes_of_length n none = err message_error
bytes_of_length n (some b) = if length b == n then ok b else err message_error

unfoldable pub validate_public_key : Value → Result Bytes
validate_public_key key = bytes_of_length key_length (as_bytes key)

unfoldable pub validate_cookie : Value → Result Bytes
validate_cookie cookie = bytes_of_length cookie_length (as_bytes cookie)

unfoldable pub validate_subprotocol : Value → Result Text
validate_subprotocol (str t) = ok t
validate_subprotocol _ = err message_error

unfoldable pub validate_items : Items → Result (List Text)
unfolding validate_subprotocol
validate_items empty = ok []
validate_items (item v rest) = do t ← validate_subprotocol v; ts ← validate_items rest; ok (t ∷ ts)

unfoldable pub validate_subprotocols : Value → Result (List Text)
unfolding validate_items
validate_subprotocols (arr items) = validate_items items
validate_subprotocols _ = err message_error

unfoldable pub validate_responder_id : Value → Result ℕ
unfolding responder_address
validate_responder_id id = value_error_as message_error (responder_address id)

abbrev interval_of : Option ℤ → Result ℕ
interval_of none = err message_error
interval_of (some (negsuc n)) = err message_error
interval_of (some (pos n)) = ok n

unfoldable pub validate_ping_interval : Value → Result ℕ
validate_ping_interval ping_interval = interval_of (as_int ping_interval)

unfoldable pub validate_drop_reason : Value → Result DropReason
unfolding drop_reason
validate_drop_reason nil = ok default_drop_reason
validate_drop_reason reason = value_error_as message_error (drop_reason (numeric reason))
