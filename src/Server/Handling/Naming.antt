-- ===== src/Server/Handling/Naming.antt =====
-- The name that the events give to a path: it leads back to the path.
use saltyrtc_server_python.Prelude.{
  Bool, ◌&&◌, ℕ, ◌*◌, ◌/◌, ◌%◌, ◌<◌, ◌≡◌, refl, true, some, [], ◌∷◌, Bytes, length, leb, arith, ap,
}
use saltyrtc_server_python.Common.Validate.{key_length}
use saltyrtc_server_python.Server.Connection.{digit, unhexlify, initiator_key, Reads}
use saltyrtc_server_python.Server.Handling.{hex_digit, hexlify}

-- Every element is a byte.
unfoldable pub are_bytes : Bytes → Bool
are_bytes [] = true
are_bytes (b ∷ bs) = leb b 255 && are_bytes bs

digit-hex_digit : (n : ℕ) → n < 16 → digit (hex_digit n) ≡ some n
unfolding digit
digit-hex_digit n h = ground (arith, h)

unhexlify-hexlify : (bs : Bytes) → are_bytes bs ≡ true → unhexlify (hexlify bs) ≡ some bs
unfolding hexlify unhexlify are_bytes
unhexlify-hexlify [] h = refl
unhexlify-hexlify (b ∷ bs) h =
    rw
      (
        digit-hex_digit (b / 16) (ground (arith, h)),
        digit-hex_digit (b % 16) (omega arith),
        unhexlify-hexlify bs (ground (arith, h)),
      )
      (ap (λ x. some (x ∷ bs)) (omega arith))

length-hexlify : (bs : Bytes) → length (hexlify bs) ≡ length bs * 2
unfolding hexlify
length-hexlify [] = refl
length-hexlify (b ∷ bs) = omega (arith, length-hexlify bs)

-- The path that an event names, after the slash of an address, is read by a new connection as the
-- key that the path was made for.
pub Reads-hexlify :
    (slash : ℕ) (key : Bytes)
    → length key ≡ key_length
    → are_bytes key ≡ true
    → Reads (slash ∷ hexlify key) key
unfolding initiator_key
Reads-hexlify slash key l h =
    let twice : length (hexlify key) ≡ 64 = omega (arith, length-hexlify key, l) in
    rw (twice, unhexlify-hexlify key h) refl
