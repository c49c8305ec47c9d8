-- ===== src/Common/Address.antt =====
-- The address classes of saltyrtc/server/common.py. An address is the number that it stands for.
use saltyrtc_server_python.Prelude.{
  ℕ, ◌≤◌, ◌≡◌, ◌↔◌, ℤ, pos, negsuc, Bool, true, false, Option, none, some, arith, leb, ◌==◌,
  if◌then◌else◌,
}
use saltyrtc_server_python.Exception.{Result, ok, err, value_error, ◌>>=◌}
use saltyrtc_server_python.Value.{Value, as_int}

pub data AddressType : Type 0 where
  server initiator responder : AddressType

-- `a == b` on the enum.
abbrev pub type_eq : AddressType → AddressType → Bool
type_eq server server = true
type_eq initiator initiator = true
type_eq responder responder = true
type_eq _ _ = false

abbrev pub server_address : ℕ
server_address = 0x00

abbrev pub initiator_address : ℕ
initiator_address = 0x01

-- `Address.type`
unfoldable pub type_of : ℕ → AddressType
type_of a = if a == 0x00 then server else if a == 0x01 then initiator else responder

abbrev address_of : Option ℤ → Result ℕ
address_of none = err value_error
address_of (some (negsuc n)) = err value_error
address_of (some (pos n)) = if leb n 0xff then ok n else err value_error

-- `Address.__new__`
unfoldable pub address : Value → Result ℕ
address value = address_of (as_int value)

-- `ClientAddress.__new__`
unfoldable pub client_address : Value → Result ℕ
unfolding address
client_address value = do a ← address value; if a == server_address then err value_error else ok a

-- `ResponderAddress.__new__`
unfoldable pub responder_address : Value → Result ℕ
unfolding client_address
responder_address value = do
  a ← client_address value
  if a == initiator_address then err value_error else ok a

pub responder_address_int :
    (n : ℕ)
    → responder_address (Value.int (pos n))
      ≡ (if leb 2 n then (if leb n 0xff then ok n else err value_error) else err value_error)
unfolding responder_address
responder_address_int n = ground arith

-- A value is a responder's address exactly if it is an integer from 0x02 to 0xff, and the address
-- is that integer.
pub responder_address_iff :
    (v : Value) (n : ℕ)
    → (responder_address v ≡ ok n) ↔ ((as_int v ≡ some (pos n)) × (2 ≤ n) × (n ≤ 255))
unfolding responder_address
responder_address_iff v n = ground arith
