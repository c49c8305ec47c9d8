-- ===== src/Client.antt =====
-- `PathClient` of saltyrtc/server/protocol.py: its fields and the methods that read or change them
-- without the network. `close` and `drop` are in Connection; `send`, `receive` and `ping` use the
-- transport library and are not modelled.
--
-- What the source draws from `os.urandom` and from `libnacl.public.SecretKey()` on the first use
-- of a property is in `entropy`, and a property is set from there when it is first read.
pub mod Counter
pub mod Order
pub mod Sequence
pub mod Cookie
pub mod Tests
use saltyrtc_server_python.Prelude.{
  ℕ, ◌+◌, ◌/◌, ◌%◌, ◌^◌, ◌≡◌, Bool, true, false, not, ◌&&◌, Option, none, some, Bytes, bytes_eq,
  ◌==◌, leb, if◌then◌else◌,
}
use saltyrtc_server_python.Exception.{
  Result, ok, err, value_error, internal_error, message_error, message_flow_error,
}
use saltyrtc_server_python.Exec.{
  Exec, pure, raise, lift, gets, modify, ensure, continue, ◌>>=◌, ◌>>◌,
}
use saltyrtc_server_python.Common.Address.{AddressType, type_eq, server_address}
use saltyrtc_server_python.Common.State.{
  ClientState, restricted, authenticated, dropped, next, state_eq,
}
use Counter.{Csn, csn, overflow_sentinel, increment_csn}

pub record Entropy : Type 0 where
  pub session_key : Bytes
  pub cookie : Bytes
  pub number : ℕ

-- `keep_alive_interval` is in seconds.
pub record Client : Type 0 where
  pub state : ClientState
  pub client_key : Bytes
  pub server_permanent_key : Option Bytes
  pub server_session_key : Option Bytes
  pub cookie_out : Option Bytes
  pub cookie_in : Option Bytes
  pub csn_out : Option Csn
  pub csn_in : Option Csn
  pub box : Option (Bytes × Bytes)
  pub sign_box : Option (Bytes × Bytes)
  pub id : ℕ
  pub keep_alive_interval : ℕ
  pub type : Option AddressType
  pub keep_alive_pings : ℕ
  pub entropy : Entropy

abbrev pub keep_alive_interval_min : ℕ
keep_alive_interval_min = 1

abbrev pub keep_alive_interval_default : ℕ
keep_alive_interval_default = 3600

-- `PathClient.__init__`
unfoldable pub new : Bytes → Entropy → Client
new initiator_key entropy = record {
  state = restricted;
  client_key = initiator_key;
  server_permanent_key = none;
  server_session_key = none;
  cookie_out = none;
  cookie_in = none;
  csn_out = none;
  csn_in = none;
  box = none;
  sign_box = none;
  id = server_address;
  keep_alive_interval = keep_alive_interval_default;
  type = none;
  keep_alive_pings = 0;
  entropy = entropy;
}

-- The `state` property's setter.
abbrev enter : Result ClientState → ClientState → Exec Client (Unit {0})
enter (ok n) state c =
    if state_eq state n then (ok tt, record c { state = state }) else (err value_error, c)
enter (err e) state c = (err e, c)

unfoldable pub set_state : ClientState → Exec Client (Unit {0})
unfolding next
set_state state c = enter (next c.state) state c

-- The `keep_alive_interval` property's setter.
unfoldable pub set_keep_alive_interval : ℕ → Client → Client
set_keep_alive_interval interval c =
    if leb keep_alive_interval_min interval then record c { keep_alive_interval = interval } else c

-- `or_draw o draw`: the property, and what a read of it stores.
abbrev pub or_draw {ℓ} : {A : Type ℓ} → Option A → A → A
or_draw none draw = draw
or_draw (some a) draw = a

unfoldable pub server_key : Exec Client Bytes
server_key c =
    let key = or_draw c.server_session_key c.entropy.session_key in
    (ok key, record c { server_session_key = some key })

abbrev or_internal_error {ℓ} : {A : Type ℓ} → Option A → Result A
or_internal_error none = err internal_error
or_internal_error (some a) = ok a

unfoldable pub server_permanent_key : Exec Client Bytes
server_permanent_key c = (or_internal_error c.server_permanent_key, c)

unfoldable pub set_server_permanent_key : Bytes → Client → Client
set_server_permanent_key key c = record c { server_permanent_key = some key }

-- A `libnacl.public.Box` is the pair of the secret key and the public key that it is made of.
unfoldable pub box : Exec Client (Bytes × Bytes)
unfolding server_key
box c = elim c.box [
  | some b ↦ (ok b, c)
  | none ↦
      (do
        key ← server_key
        public_key ← gets (λ d. d.client_key)
        modify (λ d. record d { box = some (key, public_key) })
        pure (key, public_key))
        c
]

unfoldable pub sign_box : Exec Client (Bytes × Bytes)
unfolding server_permanent_key
sign_box c = elim c.sign_box [
  | some b ↦ (ok b, c)
  | none ↦
      (do
        key ← server_permanent_key
        public_key ← gets (λ d. d.client_key)
        modify (λ d. record d { sign_box = some (key, public_key) })
        pure (key, public_key))
        c
]

unfoldable pub cookie_out : Exec Client Bytes
cookie_out c =
    let cookie = or_draw c.cookie_out c.entropy.cookie in
    (ok cookie, record c { cookie_out = some cookie })

unfoldable pub cookie_in : Exec Client Bytes
cookie_in c = (or_internal_error c.cookie_in, c)

-- The trailing 32 bits of the first number are random, the leading 16 bits are 0.
unfoldable pub csn_out : Exec Client Csn
csn_out c =
    let number = or_draw c.csn_out (csn (c.entropy.number % 2 ^ 32)) in
    (ok number, record c { csn_out = some number })

unfoldable pub csn_in : Exec Client Csn
csn_in c = (or_internal_error c.csn_in, c)

unfoldable pub increment_csn_out : Exec Client (Unit {0})
unfolding csn_out
increment_csn_out = do
  number ← csn_out
  modify (λ c. record c { csn_out = some (increment_csn number) })

unfoldable pub increment_csn_in : Exec Client (Unit {0})
unfolding csn_in
increment_csn_in = do
  number ← csn_in
  modify (λ c. record c { csn_in = some (increment_csn number) })

unfoldable pub set_client_key : Bytes → Exec Client (Unit {0})
unfolding server_key
set_client_key public_key = do
  modify (λ c. record c { client_key = public_key })
  key ← server_key
  modify (λ c. record c { box = some (key, public_key) })

unfoldable pub authenticate : ℕ → Exec Client (Unit {0})
unfolding set_state
authenticate id = do set_state authenticated; modify (λ c. record c { id = id })

abbrev check_cookie : Option Bytes → Bytes → Exec Client Bool
check_cookie none received = do
  own ← cookie_out
  if bytes_eq received own
      then pure false
      else (do modify (λ c. record c { cookie_in = some received }); pure true)
check_cookie (some expected) received = pure (bytes_eq received expected)

unfoldable pub valid_cookie : Bytes → Exec Client Bool
unfolding cookie_out
valid_cookie received c = check_cookie c.cookie_in received c

abbrev check_csn : Option Csn → ℕ → Result (Unit {0})
check_csn none number = err internal_error
check_csn (some overflow_sentinel) number = err message_flow_error
check_csn (some (csn expected)) number = if number == expected then ok tt else err message_error

-- The first number is stored if its leading 16 bits are 0: `csn_in & 0xffff00000000 != 0` tests
-- the bits 32 to 47.
abbrev first_csn : Option Csn → ℕ → Exec Client (Unit {0})
first_csn none number = do
  ensure ((number / 2 ^ 32) % 2 ^ 16 == 0) message_error
  modify (λ c. record c { csn_in = some (csn number) })
first_csn (some _) number = pure tt

unfoldable pub validate_csn_in : ℕ → Exec Client (Unit {0})
validate_csn_in number c =
    (do
      first_csn c.csn_in number
      expected ← gets (λ d. d.csn_in)
      lift (check_csn expected number))
      c

unfoldable pub p2p_allowed : AddressType → Client → Bool
p2p_allowed destination_type c =
    state_eq c.state authenticated
    && not (elim c.type [ none ↦ false | some t ↦ type_eq t destination_type ])
