-- ===== src/Message/Nonce.antt =====
-- The 24 bytes of a nonce: what `struct` packs and unpacks under the formats `!16s2B6s` and `!Q`
-- in `OutgoingMessage._pack_nonce` and `IncomingMessage._unpack_nonce` of
-- saltyrtc/server/message.py.
use saltyrtc_server_python.Prelude.{
  ℕ, zero, suc, ◌+◌, ◌*◌, ◌/◌, ◌%◌, ◌^◌, ◌<◌, ◌≡◌, refl, ap, sym, ◌∙◌, [], ◌∷◌, ◌++◌, Bytes, length,
  take, drop, take-append, drop-append, length-append, ◌==◌, ltb, if◌then◌else◌, arith,
}
use saltyrtc_server_python.Exception.{Result, ok, err, message_error, ◌>>◌, guard}

-- The last `k` bytes of a number, the most significant first.
unfoldable pub be_bytes : ℕ → ℕ → Bytes
be_bytes zero n = []
be_bytes (suc k) n = n / 256 ^ k % 256 ∷ be_bytes k n

unfoldable pub be_value : ℕ → Bytes → ℕ
be_value acc [] = acc
be_value acc (b ∷ bs) = be_value (acc * 256 + b) bs

-- The format `16s`: cut or padded with zeros.
unfoldable pub fixed : ℕ → Bytes → Bytes
fixed zero bs = []
fixed (suc k) [] = 0 ∷ fixed k []
fixed (suc k) (b ∷ bs) = b ∷ fixed k bs

pub record Header : Type 0 where
  pub cookie : Bytes
  pub source : ℕ
  pub destination : ℕ
  pub csn : ℕ

-- `struct.pack(NONCE_FORMATTER, cookie, source, destination, struct.pack('!Q', csn)[2:])`, whose
-- `struct.error` is raised again as `MessageError`.
unfoldable pub pack_header : Header → Result Bytes
unfolding be_bytes fixed
pack_header h = do
  guard (ltb h.csn (2 ^ 64)) message_error
  guard (ltb h.source 256) message_error
  guard (ltb h.destination 256) message_error
  ok (fixed 16 h.cookie ++ (h.source ∷ h.destination ∷ drop 2 (be_bytes 8 h.csn)))

abbrev header_of : Bytes → Bytes → Result Header
header_of cookie (s ∷ d ∷ number) =
    ok (record { cookie = cookie; source = s; destination = d; csn = be_value 0 (0 ∷ 0 ∷ number) })
header_of cookie _ = err message_error

-- `struct.unpack(NONCE_FORMATTER, nonce)`, and `struct.unpack('!Q', b'\x00\x00' + csn_in)`
unfoldable pub unpack_header : Bytes → Result Header
unfolding be_value
unpack_header nonce =
    if length nonce == 24 then header_of (take 16 nonce) (drop 16 nonce) else err message_error

pub length-fixed : (k : ℕ) (bs : Bytes) → length (fixed k bs) ≡ k
unfolding fixed
length-fixed zero bs = refl
length-fixed (suc k) [] = ap suc (length-fixed k [])
length-fixed (suc k) (b ∷ bs) = ap suc (length-fixed k bs)

fixed_of_length : (k : ℕ) (bs : Bytes) → length bs ≡ k → fixed k bs ≡ bs
unfolding fixed
fixed_of_length zero [] h = refl
fixed_of_length zero (b ∷ bs) h = absurd (omega arith)
fixed_of_length (suc k) [] h = absurd (omega arith)
fixed_of_length (suc k) (b ∷ bs) h = ap (◌∷◌ b) (fixed_of_length k bs (omega arith))

-- A number of 48 bits is told by its last six bytes.
number_roundtrip : (n : ℕ) → n < 2 ^ 48 → be_value 0 (0 ∷ 0 ∷ drop 2 (be_bytes 8 n)) ≡ n
unfolding be_bytes be_value
number_roundtrip n h = omega arith

-- What a header's fields hold: a cookie of 16 bytes, two bytes, and a number of 48 bits.
pub record IsHeader (h : Header) : Type 0 where
  pub cookie_length : length h.cookie ≡ 16
  pub source_byte : h.source < 256
  pub destination_byte : h.destination < 256
  pub csn_bits : h.csn < 2 ^ 48

packed : Header → Bytes
packed h = h.cookie ++ (h.source ∷ h.destination ∷ drop 2 (be_bytes 8 h.csn))

pack_header_ok : (h : Header) → IsHeader h → pack_header h ≡ ok (packed h)
unfolding pack_header packed
pack_header_ok h v =
    rw (fixed_of_length 16 h.cookie v.cookie_length)
      (ground (arith, v.source_byte, v.destination_byte, v.csn_bits))

length-packed : (h : Header) → IsHeader h → length (packed h) ≡ 24
unfolding packed be_bytes
length-packed h v = omega (
  arith,
  length-append h.cookie (h.source ∷ h.destination ∷ drop 2 (be_bytes 8 h.csn)),
  v.cookie_length,
)

unpack_header-packed : (h : Header) → IsHeader h → unpack_header (packed h) ≡ ok h
unfolding unpack_header
unpack_header-packed h v = rw (length-packed h v) (
    unfold packed be_bytes be_value in
    rw (take-append 16 h.cookie _ v.cookie_length, drop-append 16 h.cookie _ v.cookie_length)
      (ap (λ n. ok (record h { csn = n })) (number_roundtrip h.csn v.csn_bits)))

-- A header of a 16 byte cookie, two addresses and a number of 48 bits is packed into 24 bytes,
-- and they are unpacked into the same header.
pub unpack_header-pack_header :
    (h : Header)
    → IsHeader h
    → (b : Bytes) × (pack_header h ≡ ok b) × (length b ≡ 24) × (unpack_header b ≡ ok h)
unpack_header-pack_header h v =
    (packed h, pack_header_ok h v, length-packed h v, unpack_header-packed h v)

pub ok-injective {ℓ} : {A : Type ℓ} {a b : A} → ok a ≡ ok b → a ≡ b
ok-injective h = cc

-- Two headers with one nonce are the same header.
pub pack_header-injective :
    (h k : Header) → IsHeader h → IsHeader k → pack_header h ≡ pack_header k → h ≡ k
pack_header-injective h k v w e = ok-injective (
    sym (unpack_header-packed h v)
    ∙ ap unpack_header (ok-injective (sym (pack_header_ok h v) ∙ e ∙ pack_header_ok k w))
    ∙ unpack_header-packed k w)
