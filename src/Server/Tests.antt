-- ===== src/Server/Tests.antt =====
-- A server of one key and one sub-protocol, and connections to it.
use saltyrtc_server_python.Prelude.{ℕ, ◌≡◌, refl, none, some, [], ◌∷◌, arith}
use saltyrtc_server_python.Exception.{err, value_error}
use saltyrtc_server_python.Value.{Text, text}
use saltyrtc_server_python.Client.{new}
use saltyrtc_server_python.Client.Tests.{newcomer, key_of, cookie_of}
use saltyrtc_server_python.Message.Payload.{ClientAuth}
use saltyrtc_server_python.SignalingPath.{empty, add_pending}
use saltyrtc_server_python.Server.Subprotocol.{
  has, select_subprotocol, select_subprotocol-IsChoice, IsChoice,
}
use saltyrtc_server_python.Server.Authentication.{
  Settings, key_pair, handle_client_auth, handle_client_auth-ok, Uses,
}
use saltyrtc_server_python.Server.Paths.{Paths, IsValid, clean, get-IsValid, get}
use saltyrtc_server_python.Server.Connection.{
  Hub, initiator_key, get_path_client, get_path_client-clean,
}

abbrev protocol : Text
protocol = text "v1.saltyrtc.org"

abbrev settings : Settings
settings = record {
  keys = (key_of 1, key_of 2) ∷ [];
  subprotocols = protocol ∷ [];
  subprotocol = protocol;
  iteration = λ s. s;
}

abbrev request : ℕ → ClientAuth
request n = record {
  server_cookie = cookie_of n;
  subprotocols = text "other" ∷ protocol ∷ [];
  ping_interval = none;
  server_key = some (key_of 1);
}

select_subprotocol-IsChoice_example :
    IsChoice
      (text "other" ∷ protocol ∷ [])
      (protocol ∷ [])
      protocol
      (select_subprotocol (λ s. s) (text "other" ∷ protocol ∷ []) (protocol ∷ []))
unfolding has
select_subprotocol-IsChoice_example =
    select_subprotocol-IsChoice (λ s. s) (λ s ss. refl) (text "other" ∷ protocol ∷ [])
      (protocol ∷ []) protocol refl refl

handle_client_auth-ok_example :
    (cookie_of 9 ≡ cookie_of 9)
    × (select_subprotocol (λ s. s) (text "other" ∷ protocol ∷ []) (protocol ∷ []) ≡ some protocol)
    × Uses
        ((key_of 1, key_of 2) ∷ [])
        (some (key_of 1))
        (handle_client_auth settings (request 9) newcomer).1
unfolding handle_client_auth new key_pair
handle_client_auth-ok_example =
    handle_client_auth-ok settings (request 9) newcomer
      (handle_client_auth settings (request 9) newcomer).1 refl

abbrev pub no_paths : Paths
no_paths = record {
  number = 0;
  paths = [];
  objects = λ n. saltyrtc_server_python.SignalingPath.new [] 0;
}

pub no_paths-IsValid : IsValid no_paths
no_paths-IsValid = (tt, λ b n found. absurd (ground arith))

abbrev pub hub : Hub
hub = record { paths = no_paths; clients = λ r. newcomer }

abbrev used : Hub
used = record { paths = (get (key_of 0x11) no_paths).1; clients = λ r. newcomer }

abbrev pub ws_address : Text
ws_address = text "/1111111111111111111111111111111111111111111111111111111111111111"

get_path_client-clean_example :
    (get_path_client ws_address 2 newcomer.entropy (record used { paths = clean 1 used.paths })).0
    ≡ err value_error
unfolding initiator_key get empty
get_path_client-clean_example =
    get_path_client-clean ws_address (key_of 0x11) 1 2 newcomer.entropy used refl
      (get-IsValid (key_of 0x11) no_paths no_paths-IsValid) refl refl
