-- ===== src/Server/Accepting.antt =====
-- A new connection: `Server.handler` and `ServerProtocol.__init__` of saltyrtc/server/server.py. A
-- request of the deletion of objects, which `Server.handler` also takes, is left out.
--
-- `r` is the client object that is made for the connection, `entropy` its random numbers. What the
-- transport library chose as the sub-protocol is an argument.
use saltyrtc_server_python.Prelude.{
  Bytes, ◌⊎◌, ℕ, ◌≡◌, refl, Bool, true, false, Option, none, some, ◌++◌, contains, bytes_eq,
  bytes_eq_sound, if_cases, map, if◌then◌else◌, arith, Bool-cases, inl, inr,
}
use saltyrtc_server_python.Exception.{Result, ok, err, path_error}
use saltyrtc_server_python.Exec.{Exec, pure, raise, modify, ◌>>◌}
use saltyrtc_server_python.Value.{Text, text}
use saltyrtc_server_python.Common.State.{
  CloseCode, close_code_value, going_away, subprotocol_error, protocol_error,
}
use saltyrtc_server_python.Client.{Entropy}
use saltyrtc_server_python.SignalingPath.Dict.{contains-add}
use saltyrtc_server_python.Server.Paths.{IsValid}
use saltyrtc_server_python.Server.Connection.{
  Hub, get_path_client, Reads, IsAccepted, get_path_client-IsAccepted, get_path_client-path_error,
}
use saltyrtc_server_python.Server.Events.{
  disconnected, Server, get_callbacks, register, raise_event, notify_disconnected,
}

-- `SubProtocol.saltyrtc_v1`
abbrev pub saltyrtc_v1 : Text
saltyrtc_v1 = text "v1.saltyrtc.org"

pub record Host : Type 0 where
  pub server : Server
  pub hub : Hub

-- A connection is closed with a code, or its protocol works on the path of a number.
pub data Verdict : Type 0 where
  closes : CloseCode → Verdict
  works : ℕ → Verdict

abbrev on_server : (Server → Server) → Exec Host (Unit {0})
on_server f = modify (λ h. record h { server = f h.server })

-- The close code is also what the event `disconnected` reports, without a path.
unfoldable pub close_with : CloseCode → Exec Host Verdict
unfolding notify_disconnected
close_with code = do
  on_server (notify_disconnected none (close_code_value code))
  pure (closes code)

abbrev begin : ℕ → Result ℕ → Exec Host Verdict
begin r (ok n) = do on_server (register r); pure (works n)
begin r (err path_error) = close_with protocol_error
begin r (err e) = raise e

-- `ServerProtocol.__init__`, with what its handler task does if there is no path
unfoldable pub init_protocol : Text → ℕ → Entropy → Exec Host Verdict
unfolding get_path_client register close_with
init_protocol ws_path r entropy h =
    let (result, hub) = get_path_client ws_path r entropy h.hub in
    begin r result (record h { hub = hub })

abbrev is_saltyrtc_v1 : Option Text → Bool
is_saltyrtc_v1 none = false
is_saltyrtc_v1 (some p) = bytes_eq p saltyrtc_v1

-- `Server.handler`
unfoldable pub handler : Option Text → Text → ℕ → Entropy → Exec Host Verdict
unfolding init_protocol close_with
handler subprotocol ws_path r entropy h =
    if h.server.close_task
    then (ok (closes going_away), h)
    else if is_saltyrtc_v1 subprotocol
    then init_protocol ws_path r entropy h
    else close_with subprotocol_error h

-- What comes of a connection: it is served on a path, it is closed with a code, or an exception is
-- raised.
unfoldable pub IsHandled : Option Text → Text → ℕ → Host → Result Verdict × Host → Type 0
IsHandled subprotocol ws_path r h (ok (works n), h') =
    (h.server.close_task ≡ false)
    × (subprotocol ≡ some saltyrtc_v1)
    × ((key : Bytes) × Reads ws_path key × IsAccepted key n r h'.hub)
    × (contains r h'.server.protocols ≡ true)
    × (h'.server.calls ≡ h.server.calls)
IsHandled subprotocol ws_path r h (ok (closes code), h') =
    (h'.hub ≡ h.hub)
    × (h'.server.protocols ≡ h.server.protocols)
    × (((h.server.close_task ≡ true) × (code ≡ going_away) × (h'.server ≡ h.server))
        ⊎ ((h.server.close_task ≡ false)
            × (h'.server.calls
                ≡ h.server.calls
                  ++ map
                      (λ callback. record {
                        callback = callback;
                        event = disconnected;
                        path = none;
                        close_code = some (close_code_value code);
                      })
                      (get_callbacks disconnected h.server.events).0)))
IsHandled subprotocol ws_path r h (err e, h') =
    (h.server.close_task ≡ false) × (subprotocol ≡ some saltyrtc_v1) × (h'.server ≡ h.server)

init_protocol-IsHandled :
    (ws_path : Text) (r : ℕ) (entropy : Entropy) (h : Host)
    → IsValid h.hub.paths
    → h.server.close_task ≡ false
    → IsHandled (some saltyrtc_v1) ws_path r h (init_protocol ws_path r entropy h)
unfolding init_protocol IsHandled
init_protocol-IsHandled ws_path r entropy h valid idle =
    go (get_path_client ws_path r entropy h.hub) refl
  where
    go :
        (o : Result ℕ × Hub)
        → get_path_client ws_path r entropy h.hub ≡ o
        → IsHandled (some saltyrtc_v1) ws_path r h (begin r o.0 (record h { hub = o.1 }))
    go (ok n, hub) e = (
      idle,
      refl,
      get_path_client-IsAccepted ws_path n r entropy h.hub hub valid e,
      ground (arith, contains-add r r h.server.protocols),
      unfold register in refl,
    )
    go (err path_error, hub) e = (
      get_path_client-path_error ws_path r entropy h.hub hub e,
      unfold notify_disconnected raise_event in refl,
      inr (idle, unfold notify_disconnected raise_event in refl),
    )
    go (err x, hub) e = (idle, refl, refl)

closing_IsHandled :
    (subprotocol : Option Text) (ws_path : Text) (r : ℕ) (h : Host)
    → h.server.close_task ≡ true
    → IsHandled subprotocol ws_path r h (ok (closes going_away), h)
unfolding IsHandled
closing_IsHandled subprotocol ws_path r h closing = (refl, refl, inl (closing, refl, refl))

refuse-IsHandled :
    (subprotocol : Option Text) (ws_path : Text) (r : ℕ) (h : Host)
    → h.server.close_task ≡ false
    → IsHandled subprotocol ws_path r h (close_with subprotocol_error h)
unfolding IsHandled close_with notify_disconnected raise_event
refuse-IsHandled subprotocol ws_path r h idle = (refl, refl, inr (idle, refl))

handler_idle :
    (subprotocol : Option Text) (ws_path : Text) (r : ℕ) (entropy : Entropy) (h : Host)
    → IsValid h.hub.paths
    → h.server.close_task ≡ false
    → IsHandled subprotocol ws_path r h (
        if is_saltyrtc_v1 subprotocol
        then init_protocol ws_path r entropy h
        else close_with subprotocol_error h)
handler_idle none ws_path r entropy h valid idle = refuse-IsHandled none ws_path r h idle
handler_idle (some p) ws_path r entropy h valid idle = elim (Bool-cases (bytes_eq p saltyrtc_v1)) [
  | inl same ↦
      rw (same, bytes_eq_sound p saltyrtc_v1 same)
        (init_protocol-IsHandled ws_path r entropy h valid idle)
  | inr other ↦ rw other (refuse-IsHandled (some p) ws_path r h idle)
]

-- A connection is served only if the server is not being closed, the sub-protocol is the one of the
-- server and the address is the hexadecimal form of a key: then its protocol is registered, and its
-- client waits as pending on the attached path of this key. Any other connection leaves the paths,
-- the clients and the registered protocols as they were, and is closed: when the server is being
-- closed, silently, and otherwise with a code that the event of the disconnection reports to every
-- callback. The exceptions that are raised change nothing of the server.
pub handler-IsHandled :
    (subprotocol : Option Text) (ws_path : Text) (r : ℕ) (entropy : Entropy) (h : Host)
    → IsValid h.hub.paths
    → IsHandled subprotocol ws_path r h (handler subprotocol ws_path r entropy h)
unfolding handler
handler-IsHandled subprotocol ws_path r entropy h valid =
    if_cases (IsHandled subprotocol ws_path r h) h.server.close_task
      (closing_IsHandled subprotocol ws_path r h)
      (handler_idle subprotocol ws_path r entropy h valid)
