-- ===== src/Message/Freshness.antt =====
-- The nonces of the packets that are packed for one client (`OutgoingMessage.pack` of
-- saltyrtc/server/message.py): each one is used once.
use saltyrtc_server_python.Prelude.{
  ℕ, ◌+◌, ◌≤◌, ◌<◌, ◌^◌, ◌%◌, ◌≡◌, refl, ap, ◌∙◌, Bool, Bool-cases, true, false, some, List, [],
  ◌∷◌, ◌++◌, Bytes, length, map, sym, take, take-append, ◌==◌, arith, All, inl, inr,
}
use saltyrtc_server_python.Exception.{Result, ok, err, message_flow_error}
use saltyrtc_server_python.Exec.{Exec, continue, lift, ◌>>=◌, >>=-eq-ok}
use saltyrtc_server_python.Client.{
  Client, box, sign_box, server_key, server_permanent_key, cookie_out, csn_out, increment_csn_out,
  or_draw,
}
use saltyrtc_server_python.Client.Cookie.{own_cookie}
use saltyrtc_server_python.Client.Counter.{
  Csn, csn, overflow_sentinel, increment_csn, increment_csn_lem,
}
use saltyrtc_server_python.Common.Address.{server_address}
use saltyrtc_server_python.Value.{dict}
use saltyrtc_server_python.Message.Nonce.{
  Header, IsHeader, pack_header, unpack_header, unpack_header-pack_header, ok-injective,
}
use saltyrtc_server_python.Message.Library.{Library}
use saltyrtc_server_python.Message.Incoming.{or_message_error}
use saltyrtc_server_python.Message.Outgoing.{
  Outgoing, pack_nonce, sign_keys, prepare_payload, encrypt_payload, seal, pack, pack_all,
}

-- What the next nonce for a client is made of.
abbrev pub own_csn : Client → Csn
own_csn c = or_draw c.csn_out (csn (c.entropy.number % 2 ^ 32))

-- Two clients that agree on the next nonce.
abbrev Same : Client → Client → Type 0
Same c d = (own_cookie c ≡ own_cookie d) × (own_csn c ≡ own_csn d)

box_keeps : (c : Client) → Same c (box c).1
unfolding box server_key
box_keeps c = ground arith

sign_box_keeps : (c : Client) → Same c (sign_box c).1
unfolding sign_box server_permanent_key
sign_box_keeps c = ground arith

>>=-keeps :
    {A B : Type 0} (m : Exec Client A) (f : A → Exec Client B) (c : Client)
    → Same c (m c).1
    → ((a : A) (d : Client) → Same d (f a d).1)
    → Same c ((m >>= f) c).1
>>=-keeps {A} {B} m f c h k = go (m c) h
  where
    go : (p : Result A × Client) → Same c p.1 → Same c (continue p.0 f p.1).1
    go (ok a, d) h = (h.0 ∙ (k a d).0, h.1 ∙ (k a d).1)
    go (err e, d) h = h

abbrev header : Client → ℕ → ℕ → Header
header c destination n = record {
  cookie = own_cookie c;
  source = server_address;
  destination = destination;
  csn = n;
}

pack_nonce-ok :
    (destination n : ℕ) (nonce : Bytes) (c d : Client)
    → own_csn c ≡ csn n
    → pack_nonce destination c ≡ (ok nonce, d)
    → (pack_header (header c destination n) ≡ ok nonce)
      × (own_csn d ≡ increment_csn (csn n))
      × (own_cookie d ≡ own_cookie c)
unfolding pack_nonce cookie_out csn_out increment_csn_out
pack_nonce-ok destination n nonce c d e h =
    let r = pack_header (header c destination n) in ground arith

pack_nonce-overflow :
    (destination : ℕ) (c : Client)
    → own_csn c ≡ overflow_sentinel
    → (pack_nonce destination c).0 ≡ err message_flow_error
unfolding pack_nonce csn_out
pack_nonce-overflow destination c e = rw e refl

-- The headers of packets that are numbered from `n` on.
abbrev pub headers : Bytes → ℕ → List Outgoing → List (Result Header)
headers cookie n [] = []
headers cookie n (m ∷ ms) =
    ok (record { cookie = cookie; source = server_address; destination = m.destination; csn = n })
    ∷ headers cookie (n + 1) ms

module _ (lib : Library) where
  sign_keys_keeps : (nonce : Bytes) (c : Client) → Same c (sign_keys lib nonce c).1
  unfolding sign_keys server_key
  sign_keys_keeps nonce c =
      let k = sign_box_keeps (record c {
        server_session_key = some (or_draw c.server_session_key c.entropy.session_key);
      }) in
      ground arith

  encrypt_keeps :
      (e : Bool) (nonce raw : Bytes) (c : Client) → Same c (encrypt_payload lib e nonce raw c).1
  unfolding encrypt_payload
  encrypt_keeps false nonce raw c = (refl, refl)
  encrypt_keeps true nonce raw c = let k = box_keeps c in ground arith

  prepare_keeps :
      (m : Outgoing) (nonce : Bytes) (c : Client) → Same c (prepare_payload lib m nonce c).1
  unfolding prepare_payload
  prepare_keeps m nonce c = let k = sign_keys_keeps nonce c in ground arith

  seal_keeps : (m : Outgoing) (nonce : Bytes) (c : Client) → Same c (seal lib m nonce c).1
  unfolding seal
  seal_keeps m nonce c =
      >>=-keeps (prepare_payload lib m nonce) _ c (prepare_keeps m nonce c) λ fields d.
        >>=-keeps (lift (or_message_error (lib.packb (dict fields)))) _ d (refl, refl)
          λ raw e.
            >>=-keeps (encrypt_payload lib m.encrypted nonce raw) _ e
              (encrypt_keeps m.encrypted nonce raw e) λ payload f. (refl, refl)

  seal-ok :
      (m : Outgoing) (nonce packet : Bytes) (c d : Client)
      → seal lib m nonce c ≡ (ok packet, d)
      → (payload : Bytes) × (packet ≡ nonce ++ payload)
  unfolding seal
  seal-ok m nonce packet c d h =
      let (fields, c₁, e₁, h₁) = >>=-eq-ok (prepare_payload lib m nonce) _ c d h in
      let (raw, c₂, e₂, h₂) =
        >>=-eq-ok (lift (or_message_error (lib.packb (dict fields)))) _ c₁ d h₁ in
      let (payload, c₃, e₃, h₃) = >>=-eq-ok (encrypt_payload lib m.encrypted nonce raw) _ c₂ d h₂ in
      (payload, ground arith)

  -- A packet that was packed, from the number `n`: a nonce and a payload; and what comes next.
  pack-ok :
      (m : Outgoing) (n : ℕ) (packet : Bytes) (c d : Client)
      → own_csn c ≡ csn n
      → pack lib m c ≡ (ok packet, d)
      → (nonce : Bytes) × (payload : Bytes) × (packet ≡ nonce ++ payload)
        × (pack_header (header c m.destination n) ≡ ok nonce)
        × (own_csn d ≡ increment_csn (csn n))
        × (own_cookie d ≡ own_cookie c)
  unfolding pack
  pack-ok m n packet c d e h =
      let (nonce, c₁, e₁, h₁) = >>=-eq-ok (pack_nonce m.destination) (seal lib m) c d h in
      let (payload, shape) = seal-ok m nonce packet c₁ d h₁ in
      let (made, next, cookie) = pack_nonce-ok m.destination n nonce c c₁ e e₁ in
      let kept = seal_keeps m nonce c₁ in
      let last : (seal lib m nonce c₁).1 ≡ d = ap (λ (p : Result Bytes × Client). p.1) h₁ in
      let csns = ap own_csn last in
      let cookies = ap own_cookie last in (nonce, payload, shape, made, ground arith, ground arith)

  pack_all-overflow :
      (ms : List Outgoing) (packets : List Bytes) (c d : Client)
      → own_csn c ≡ overflow_sentinel
      → pack_all lib ms c ≡ (ok packets, d)
      → (ms ≡ []) × (packets ≡ [])
  unfolding pack_all pack
  pack_all-overflow [] packets c d e h = (refl, ground arith)
  pack_all-overflow (m ∷ ms) packets c d e h =
      let (packet, c₁, e₁, _) = >>=-eq-ok (pack lib m) _ c d h in
      let (nonce, c₂, e₂, _) = >>=-eq-ok (pack_nonce m.destination) (seal lib m) c c₁ e₁ in
      let never = pack_nonce-overflow m.destination c e in absurd (ground arith)

  pack_all_cons :
      (m : Outgoing) (ms : List Outgoing) (packets : List Bytes) (c d : Client)
      → pack_all lib (m ∷ ms) c ≡ (ok packets, d)
      → (packet : Bytes) × (rest : List Bytes) × (c₁ : Client) × (packets ≡ packet ∷ rest)
        × (pack lib m c ≡ (ok packet, c₁))
        × (pack_all lib ms c₁ ≡ (ok rest, d))
  unfolding pack_all
  pack_all_cons m ms packets c d h =
      let (packet, c₁, e₁, h₁) = >>=-eq-ok (pack lib m) _ c d h in
      let (rest, c₂, e₂, h₂) = >>=-eq-ok (pack_all lib ms) _ c₁ d h₁ in
      (packet, rest, c₁, ground arith, e₁, ground arith)

  packet-header :
      (m : Outgoing) (n : ℕ) (packet nonce payload : Bytes) (c : Client)
      → n < 2 ^ 48
      → length (own_cookie c) ≡ 16
      → m.destination < 256
      → packet ≡ nonce ++ payload
      → pack_header (header c m.destination n) ≡ ok nonce
      → unpack_header (take 24 packet) ≡ ok (header c m.destination n)
  packet-header m n packet nonce payload c small cookie dest shape made =
      let valid : IsHeader (header c m.destination n) = record {
        cookie_length = cookie;
        source_byte = ground arith;
        destination_byte = dest;
        csn_bits = small;
      } in
      let (b, e, long, back) = unpack_header-pack_header (header c m.destination n) valid in
      let same : nonce ≡ b = ok-injective (sym made ∙ e) in
      rw (shape, same, take-append 24 b payload long) back

  -- The packets that are packed for one client carry nonces of the server's own cookie, the
  -- server's address, the receiver's address, and a number that grows by one from packet to packet
  -- and stays below 2 ^ 48: no nonce is used twice.
  pub pack_all-headers :
      (ms : List Outgoing) (n : ℕ) (packets : List Bytes) (c d : Client)
      → own_csn c ≡ csn n
      → n < 2 ^ 48
      → length (own_cookie c) ≡ 16
      → All (λ m. m.destination < 256) ms
      → pack_all lib ms c ≡ (ok packets, d)
      → (map (λ p. unpack_header (take 24 p)) packets ≡ headers (own_cookie c) n ms)
        × (n + length ms ≤ 2 ^ 48)
  pack_all-headers [] n packets c d e small cookie dests h =
      (unfold pack_all in ground arith, ground arith)
  pack_all-headers (m ∷ ms) n packets c d e small cookie dests h =
      let (packet, rest, c₁, list, first, others) = pack_all_cons m ms packets c d h in
      let (nonce, payload, shape, made, next, kept) = pack-ok m n packet c c₁ e first in
      let here = packet-header m n packet nonce payload c small cookie dests.0 shape made in
      elim (Bool-cases (n + 1 == 2 ^ 48)) [
        | inl last ↦
            let over : own_csn c₁ ≡ overflow_sentinel =
              rw last at (next ∙ increment_csn_lem n small) in
            let (none_left, none_packed) = pack_all-overflow ms rest c₁ d over others in
            (
              rw (list, none_packed, none_left, here) refl,
              omega (arith, ap length none_left, small),
            )
        | inr more ↦
            let csn₁ : own_csn c₁ ≡ csn (n + 1) = rw more at (next ∙ increment_csn_lem n small) in
            let (a, b) =
              pack_all-headers ms (n + 1) rest c₁ d csn₁ (ground arith) (ap length kept ∙ cookie)
                dests.1 others in
            (rw (list, here, a, kept) refl, omega (arith, b))
      ]
