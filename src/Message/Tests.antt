-- ===== src/Message/Tests.antt =====
-- Messages of saltyrtc/server/message.py, with a library that does not encrypt.
use saltyrtc_server_python.Prelude.{
  ℕ, ◌≤◌, ◌^◌, ◌≡◌, refl, none, some, [], ◌∷◌, ◌++◌, map, Bytes, length, take, arith,
}
use saltyrtc_server_python.Exception.{ok}
use saltyrtc_server_python.Value.{text, Value, str, bin, dict, field, end, get}
use saltyrtc_server_python.Common.Address.{type_of}
use saltyrtc_server_python.Client.{new}
use saltyrtc_server_python.Client.Tests.{newcomer, key_of, cookie_of}
use saltyrtc_server_python.Client.Counter.{increment_csn}
use saltyrtc_server_python.Message.Nonce.{
  Header, IsHeader, pack_header, unpack_header, unpack_header-pack_header, pack_header-injective,
}
use saltyrtc_server_python.Message.Library.{Library}
use saltyrtc_server_python.Message.Payload.{unpack_payload, payload_fields, message_type}
use saltyrtc_server_python.Message.Incoming.{
  hello, unpack, unpack_nonce, check_counters, unpack_server, server_payload, create,
}
use saltyrtc_server_python.Message.Guarantees.{IsAddressed, From, unpack-From}
use saltyrtc_server_python.Message.Outgoing.{Outgoing, create_server_hello, pack_all}
use saltyrtc_server_python.Message.Freshness.{headers, pack_all-headers}

abbrev client_hello_payload : Value
client_hello_payload = dict (
    field (str (text "type")) (str (text "client-hello"))
      (field (str (text "key")) (bin (key_of 3)) end))

abbrev pub plain : Library
plain = record {
  encrypt = λ keys nonce content. some content;
  decrypt = λ keys nonce content. none;
  public_key = λ key. key;
  packb = λ payload. some (1 ∷ []);
  unpackb = λ raw. some client_hello_payload;
}

abbrev first_packet : Bytes
first_packet = cookie_of 5 ++ (0 ∷ 0 ∷ 0 ∷ 0 ∷ 0 ∷ 0 ∷ 0 ∷ 77 ∷ 1 ∷ [])

newcomer-IsAddressed : IsAddressed newcomer
unfolding new
newcomer-IsAddressed = record { restricted_id = λ e. refl; client_id = λ n. absurd (n refl) }

unpack-From_example : From first_packet newcomer (hello (key_of 3))
unfolding unpack new unpack_nonce unpack_header type_of check_counters unpack_server server_payload
    unpack_payload payload_fields message_type get create
unpack-From_example =
    unpack-From plain first_packet newcomer (unpack plain first_packet newcomer).1
      (hello (key_of 3)) newcomer-IsAddressed refl

abbrev greeting : Outgoing
greeting = create_server_hello (key_of 1)

abbrev sent : ℕ → Bytes
sent n = cookie_of 9 ++ (0 ∷ 0 ∷ 0 ∷ 0 ∷ 0 ∷ 0 ∷ 0 ∷ n ∷ 1 ∷ [])

pack_all-headers_example :
    (map (λ p. unpack_header (take 24 p)) (sent 41 ∷ sent 42 ∷ [])
      ≡ headers (cookie_of 9) 41 (greeting ∷ greeting ∷ []))
    × (43 ≤ 2 ^ 48)
unfolding create_server_hello pack_all new increment_csn
pack_all-headers_example =
    pack_all-headers plain (greeting ∷ greeting ∷ []) 41 (sent 41 ∷ sent 42 ∷ []) newcomer
      (pack_all plain (greeting ∷ greeting ∷ []) newcomer).1 refl (omega arith) refl
      (omega arith, (omega arith, tt)) refl

abbrev a_header : Header
a_header = record { cookie = cookie_of 5; source = 1; destination = 2; csn = 2 ^ 40 }

a_header-IsHeader : IsHeader a_header
a_header-IsHeader = record {
  cookie_length = refl;
  source_byte = omega arith;
  destination_byte = omega arith;
  csn_bits = omega arith;
}

unpack_header-pack_header_example :
    (b : Bytes) × (pack_header a_header ≡ ok b) × (length b ≡ 24) × (unpack_header b ≡ ok a_header)
unpack_header-pack_header_example = unpack_header-pack_header a_header a_header-IsHeader

pack_header-injective_example : a_header ≡ a_header
pack_header-injective_example =
    pack_header-injective a_header a_header a_header-IsHeader a_header-IsHeader refl
