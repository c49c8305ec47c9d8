-- ===== src/Server/Authentication.antt =====
-- `_handle_client_auth`, `_validate_cookie` and `_validate_subprotocol` of `ServerProtocol` in
-- saltyrtc/server/server.py.
--
-- The server's keys are the pairs of a public and a secret key, in the order of the `OrderedDict`.
use saltyrtc_server_python.Prelude.{
  ℕ, ◌≡◌, ◌≢◌, ap, Bool, true, false, ◌⊎◌, Option, none, some, List, [], ◌∷◌, Bytes, bytes_eq,
  bytes_eq_sound, if◌then◌else◌, arith,
}
use saltyrtc_server_python.Exception.{
  Error, ok, err, message_error, downgrade_error, server_key_error,
}
use saltyrtc_server_python.Exec.{Exec, pure, raise, modify, ensure, ◌>>=◌, ◌>>◌}
use saltyrtc_server_python.Value.{Text}
use saltyrtc_server_python.Message.Payload.{ClientAuth}
use saltyrtc_server_python.Client.{
  Client, cookie_out, set_keep_alive_interval, set_server_permanent_key, or_draw,
}
use saltyrtc_server_python.Server.Subprotocol.{select_subprotocol}

abbrev pub Keys : Type 0
Keys = List (Bytes × Bytes)

-- `self._server.keys.get(key)`
unfoldable pub key_pair : Bytes → Keys → Option Bytes
key_pair k [] = none
key_pair k ((p, s) ∷ keys) = if bytes_eq k p then some s else key_pair k keys

-- `Server.subprotocols` and the sub-protocol that was chosen when the connection was made.
pub record Settings : Type 0 where
  pub keys : Keys
  pub subprotocols : List Text
  pub subprotocol : Text
  pub iteration : List Text → List Text

unfoldable pub validate_cookie : Bytes → Bytes → Exec Client (Unit {0})
validate_cookie expected_cookie actual_cookie =
    ensure (bytes_eq expected_cookie actual_cookie) message_error

abbrev is_chosen : Option Text → Text → Bool
is_chosen none subprotocol = false
is_chosen (some chosen) subprotocol = bytes_eq chosen subprotocol

unfoldable pub validate_subprotocol : Settings → List Text → Exec Client (Unit {0})
unfolding select_subprotocol
validate_subprotocol s client_subprotocols =
    ensure
      (is_chosen (select_subprotocol s.iteration client_subprotocols s.subprotocols) s.subprotocol)
      downgrade_error

abbrev set_interval : Option ℕ → Client → Client
set_interval none c = c
set_interval (some interval) c = set_keep_alive_interval interval c

abbrev use_key : Option Bytes → Exec Client (Unit {0})
use_key none = raise server_key_error
use_key (some key) = modify (set_server_permanent_key key)

-- The permanent key that the client wants to use, or the primary one.
abbrev choose_key : Keys → Option Bytes → Exec Client (Unit {0})
choose_key [] (some requested) = raise server_key_error
choose_key (k ∷ ks) (some requested) = use_key (key_pair requested (k ∷ ks))
choose_key [] none = pure tt
choose_key ((p, s) ∷ ks) none = modify (set_server_permanent_key s)

unfoldable pub handle_client_auth : Settings → ClientAuth → Exec Client (Unit {0})
unfolding cookie_out validate_cookie validate_subprotocol set_keep_alive_interval
handle_client_auth s client_auth = do
  own ← cookie_out
  validate_cookie client_auth.server_cookie own
  validate_subprotocol s client_auth.subprotocols
  modify (set_interval client_auth.ping_interval)
  choose_key s.keys client_auth.server_key

-- The key that a client uses: the one it asked for, or the first one.
abbrev pub Uses : Keys → Option Bytes → Client → Type 0
Uses keys (some requested) c =
    (key_pair requested keys ≢ none) × (c.server_permanent_key ≡ key_pair requested keys)
Uses ((p, s) ∷ keys) none c = c.server_permanent_key ≡ some s
Uses [] none c = Unit

choose_key-Uses :
    (keys : Keys) (o : Option Bytes) (c d : Client)
    → choose_key keys o c ≡ (ok tt, d)
    → Uses keys o d
unfolding set_server_permanent_key
choose_key-Uses [] (some r) c d h = cc
choose_key-Uses ((p, s) ∷ keys) (some r) c d h = ground arith
choose_key-Uses [] none c d h = tt
choose_key-Uses ((p, s) ∷ keys) none c d h = ground arith

is_chosen_sound : (o : Option Text) (t : Text) → is_chosen o t ≡ true → o ≡ some t
is_chosen_sound none t h = cc
is_chosen_sound (some x) t h = ap some (bytes_eq_sound x t h)

-- Where the authentication of a client is accepted, the client has sent back the server's own
-- cookie, the sub-protocol in use is the one that would be chosen from the client's list, and the
-- client uses the key that it asked for, which the server has, or else the server's first key.
pub handle_client_auth-ok :
    (s : Settings) (a : ClientAuth) (c d : Client)
    → handle_client_auth s a c ≡ (ok tt, d)
    → (a.server_cookie ≡ or_draw c.cookie_out c.entropy.cookie)
      × (select_subprotocol s.iteration a.subprotocols s.subprotocols ≡ some s.subprotocol)
      × Uses s.keys a.server_key d
unfolding handle_client_auth
handle_client_auth-ok s a c d h =
    let own = or_draw c.cookie_out c.entropy.cookie in
    let chosen = select_subprotocol s.iteration a.subprotocols s.subprotocols in
    let c' = set_interval a.ping_interval (record c { cookie_out = some own }) in
    let same = bytes_eq_sound a.server_cookie own in
    let right = is_chosen_sound chosen s.subprotocol in
    let uses = choose_key-Uses s.keys a.server_key c' d in ground arith

-- The exceptions of an authentication that is refused.
abbrev pub IsRefusal : Error → Type 0
IsRefusal e = (e ≡ message_error) ⊎ (e ≡ downgrade_error) ⊎ (e ≡ server_key_error)

choose_key-error :
    (keys : Keys) (o : Option Bytes) (c d : Client) (e : Error)
    → choose_key keys o c ≡ (err e, d)
    → e ≡ server_key_error
unfolding set_server_permanent_key
choose_key-error [] (some r) c d e h = cc
choose_key-error ((p, s) ∷ keys) (some r) c d e h = ground arith
choose_key-error [] none c d e h = cc
choose_key-error ((p, s) ∷ keys) none c d e h = cc

pub handle_client_auth-error :
    (s : Settings) (a : ClientAuth) (c d : Client) (e : Error)
    → handle_client_auth s a c ≡ (err e, d)
    → IsRefusal e
unfolding handle_client_auth
handle_client_auth-error s a c d e h =
    let own = or_draw c.cookie_out c.entropy.cookie in
    let c' = set_interval a.ping_interval (record c { cookie_out = some own }) in
    let wrong_key = choose_key-error s.keys a.server_key c' d e in ground arith
