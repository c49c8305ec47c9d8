-- ===== src/Message/Library.antt =====
-- What messages take from `libnacl` and `umsgpack`, which are not part of the repository. A
-- failure is `none`: a `ValueError` of `encrypt`, a `ValueError` or `CryptError` of `decrypt`, a
-- `PackException` of `packb`, and an `UnpackException` of `unpackb`.
use saltyrtc_server_python.Prelude.{Bytes, Option}
use saltyrtc_server_python.Value.{Value}

-- A box is the pair of a secret key and a public key; `encrypt` and `decrypt` take the box, the
-- nonce and the data; `public_key` is `SecretKey.pk`.
pub record Library : Type 0 where
  pub encrypt : Bytes × Bytes → Bytes → Bytes → Option Bytes
  pub decrypt : Bytes × Bytes → Bytes → Bytes → Option Bytes
  pub public_key : Bytes → Bytes
  pub packb : Value → Option Bytes
  pub unpackb : Bytes → Option Value
