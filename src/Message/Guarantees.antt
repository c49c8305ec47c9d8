-- ===== src/Message/Guarantees.antt =====
-- What `IncomingMessage.unpack` of saltyrtc/server/message.py ensures of the addresses and of the
-- kind of a message.
use saltyrtc_server_python.Prelude.{
  ℕ, ◌≤◌, ◌≡◌, ◌≢◌, ◌⊎◌, refl, inl, inr, Bool, true, false, some, Bytes, length, Bool-cases, arith,
  ltb, ap, if◌then◌else◌,
}
use saltyrtc_server_python.Exception.{Result, ok, err}
use saltyrtc_server_python.Exec.{Exec, ◌>>=◌, ◌>>◌, pure, >>=-eq-ok}
use saltyrtc_server_python.Value.{Fields}
use saltyrtc_server_python.Common.Address.{server, type_of}
use saltyrtc_server_python.Common.State.{restricted, authenticated}
use saltyrtc_server_python.Common.Validate.{data_length_min}
use saltyrtc_server_python.Client.{Client, p2p_allowed}
use saltyrtc_server_python.Message.Nonce.{Header}
use saltyrtc_server_python.Message.Library.{Library}
use saltyrtc_server_python.Message.Payload.{MessageType}
use saltyrtc_server_python.Message.Incoming.{
  Incoming, hello, auth, drop_request, relay, check_addresses, check_counters, unpack_nonce, unpack,
  create, relay_of, is_to_server, unpack_server, route, is_authenticated,
}

-- A client has the server's address until it is authenticated, and a client's address from then on.
pub record IsAddressed (c : Client) : Type 0 where
  pub restricted_id : c.state ≡ restricted → c.id ≡ 0
  pub client_id : c.state ≢ restricted → (1 ≤ c.id) × (c.id ≤ 255)

unpack_nonce_addresses :
    (packet : Bytes) (c c' : Client) {h : Header}
    → unpack_nonce packet c ≡ (ok h, c')
    → (h.source ≡ c.id)
      × (h.destination ≤ 255)
      × ((type_of h.destination ≡ server) ⊎ (p2p_allowed (type_of h.destination) c ≡ true))
unfolding unpack_nonce
unpack_nonce_addresses packet c c' e = ground arith

-- What `_unpack_nonce` promises of the addresses that it returns.
pub record Addresses (c : Client) (h : Header) : Type 0 where
  pub own_source : h.source ≡ c.id
  pub to_server_only : c.state ≡ restricted → (h.source ≡ 0) × (h.destination ≡ 0)
  pub between_clients :
      h.destination ≢ 0
      → (1 ≤ h.source)
        × (h.source ≤ 255)
        × (1 ≤ h.destination)
        × (h.destination ≤ 255)
        × (c.state ≡ authenticated)
        × (c.type ≢ some (type_of h.destination))

-- The source of a message is the address of the client that sent it. A client that is not
-- authenticated sends from the server's address to the server only. A message to anyone else goes
-- between two addresses of clients, from an authenticated client to one of another type.
pub unpack_nonce-Addresses :
    (packet : Bytes) (c c' : Client) (h : Header)
    → IsAddressed c
    → unpack_nonce packet c ≡ (ok h, c')
    → Addresses c h
unfolding p2p_allowed type_of
unpack_nonce-Addresses packet c c' h v e = record {
  own_source = (unpack_nonce_addresses packet c c' e).0;
  to_server_only = λ r. ground (arith, unpack_nonce_addresses packet c c' e, v.restricted_id r);
  between_clients = λ n. ground (arith, unpack_nonce_addresses packet c c' e, v.client_id);
}

relay_of_ok :
    (h : Header) (packet : Bytes) (m : Incoming)
    → relay_of h packet ≡ ok m
    → (m ≡ relay h.source h.destination packet) × (1 ≤ h.source) × (1 ≤ h.destination)
unfolding relay_of
relay_of_ok h packet m e = ground arith

-- What the server knows of a message to it, by the way that it was made.
abbrev Made : Bool → ℕ → Incoming → Type 0
Made known source (hello key) = (known ≡ false) × (length key ≡ 32)
Made known source (auth a) = (known ≡ false) × (length a.server_cookie ≡ 16)
Made known source (drop_request id reason) = (known ≡ true) × (source ≡ 1) × (2 ≤ id) × (id ≤ 255)
Made known source (relay s d p) = ⊥

create-Made :
    (known : Bool) (source : ℕ) (type : MessageType) (fields : Fields) (m : Incoming)
    → create known source type fields ≡ ok m
    → Made known source m
unfolding create
create-Made known source type fields (hello key) e = ground arith
create-Made known source type fields (auth a) e = ground arith
create-Made known source type fields (drop_request id reason) e = ground arith
create-Made known source type fields (relay s d p) e = ground arith

module _ (lib : Library) where
  unpack_server-Made :
      (h : Header) (packet : Bytes) (c c' : Client) (m : Incoming)
      → unpack_server lib h packet c ≡ (ok m, c')
      → Made (is_authenticated c) h.source m
  unfolding unpack_server
  unpack_server-Made h packet c c' m e = grind (arith, create-Made)

abbrev Same : Client → Client → Type 0
Same c d = (d.state ≡ c.state) × (d.type ≡ c.type) × (d.id ≡ c.id) × (d.client_key ≡ c.client_key)

check_counters_keeps : (h : Header) (c : Client) → Same c (check_counters h c).1
unfolding check_counters
check_counters_keeps h c = ground arith

abbrev with_header : Result Header → Exec Client Header
with_header r = do h ← (λ c. (r, c)); if is_to_server h then check_counters h else pure tt; pure h

-- `_unpack_nonce` changes the cookies and the sequence number only.
unpack_nonce_keeps : (packet : Bytes) (c : Client) → Same c (unpack_nonce packet c).1
unfolding unpack_nonce
unpack_nonce_keeps packet c = elim (check_addresses packet c) as (λ r. Same c (with_header r c).1) [
  | ok h ↦ ground (arith, check_counters_keeps h c)
  | err e ↦ ground arith
]

-- What `unpack` promises of a message.
abbrev pub From : Bytes → Client → Incoming → Type 0
From packet c (hello key) = (is_authenticated c ≡ false) × (length key ≡ 32)
From packet c (auth a) = (is_authenticated c ≡ false) × (length a.server_cookie ≡ 16)
From packet c (drop_request id reason) =
    (is_authenticated c ≡ true) × (c.id ≡ 1) × (2 ≤ id) × (id ≤ 255)
From packet c (relay source destination p) =
    (c.state ≡ authenticated)
    × (source ≡ c.id)
    × (1 ≤ destination)
    × (destination ≤ 255)
    × (c.type ≢ some (type_of destination))
    × (p ≡ packet)

relay-From :
    (h : Header) (packet : Bytes) (c : Client) (m : Incoming)
    → Addresses c h
    → is_to_server h ≡ false
    → relay_of h packet ≡ ok m
    → From packet c m
unfolding type_of
relay-From h packet c m a other e =
    let (eq, _, _) = relay_of_ok h packet m e in
    let b = a.between_clients (λ z. ground arith) in rw eq (b.4, a.own_source, b.2, b.3, b.5, refl)

module _ (lib : Library) where
  unpack_ok :
      (packet : Bytes) (c c' : Client) (m : Incoming)
      → unpack lib packet c ≡ (ok m, c')
      → (h : Header) × (d : Client) × (unpack_nonce packet c ≡ (ok h, d))
        × (route lib packet h d ≡ (ok m, c'))
  unfolding unpack
  unpack_ok packet c c' m e = elim (Bool-cases (ltb (length packet) data_length_min)) [
    | inl short ↦ absurd (ground arith)
    | inr long ↦ >>=-eq-ok (unpack_nonce packet) (route lib packet) c c' (rw long at e)
  ]

  Made-From :
      (source : ℕ) (packet : Bytes) (c d : Client) (m : Incoming)
      → source ≡ c.id
      → Same c d
      → Made (is_authenticated d) source m
      → From packet c m
  Made-From source packet c d (hello key) p k e = ground arith
  Made-From source packet c d (auth a) p k e = ground arith
  Made-From source packet c d (drop_request id reason) p k e = ground arith
  Made-From source packet c d (relay s t q) p k e = absurd e

  route-From :
      (h : Header) (packet : Bytes) (c d c' : Client) (m : Incoming)
      → Addresses c h
      → Same c d
      → route lib packet h d ≡ (ok m, c')
      → From packet c m
  unfolding route
  route-From h packet c d c' m a k e = elim (Bool-cases (is_to_server h)) [
    | inl here ↦
        Made-From h.source packet c d m a.own_source k
          (unpack_server-Made lib h packet d c' m (rw here at e))
    | inr there ↦ relay-From h packet c m a there (ground arith)
  ]

  -- Which messages a client can send: a client that is not authenticated can send client-hello,
  -- with a key of 32 bytes, and client-auth, with a cookie of 16 bytes, only. The initiator alone
  -- can drop a responder, and names an address of a responder. A relay message carries the address
  -- of its sender, who is authenticated, goes unchanged to a client's address of another type, and
  -- never to the sender's own type.
  pub unpack-From :
      (packet : Bytes) (c c' : Client) (m : Incoming)
      → IsAddressed c
      → unpack lib packet c ≡ (ok m, c')
      → From packet c m
  unpack-From packet c c' m v e =
      let (h, d, e₁, e₂) = unpack_ok packet c c' m e in
      route-From h packet c d c' m (unpack_nonce-Addresses packet c d h v e₁)
        (rw (ap (λ (p : Result Header × Client). p.1) e₁) at (unpack_nonce_keeps packet c)) e₂
