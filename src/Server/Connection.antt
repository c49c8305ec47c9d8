-- ===== src/Server/Connection.antt =====
-- `ServerProtocol.get_path_client` of saltyrtc/server/server.py: the path and the client of a new
-- connection.
use saltyrtc_server_python.Prelude.{
  ℕ, ◌+◌, ◌*◌, ◌-◌, ◌≡◌, refl, true, ◌&&◌, Option, none, some, [], ◌∷◌, Bytes, length, contains, ap,
  ◌∙◌, ◌==◌, leb, if◌then◌else◌, arith,
}
use saltyrtc_server_python.Exception.{Result, ok, err, path_error, value_error, ◌>>◌, guard}
use saltyrtc_server_python.Value.{Text}
use saltyrtc_server_python.Common.Validate.{key_length}
use saltyrtc_server_python.Client.{Client, Entropy}
use saltyrtc_server_python.Common.State.{restricted}
use saltyrtc_server_python.Common.Address.{server_address}
use saltyrtc_server_python.SignalingPath.Dict.{contains-add}
use saltyrtc_server_python.SignalingPath.{empty, add_pending, update}
use saltyrtc_server_python.Server.Paths.{
  Paths, get, clean, get-clean, IsValid, get-IsValid, get-found, str_of, find, store,
}

abbrev pub path_length : ℕ
path_length = key_length * 2

-- The value of a hexadecimal digit.
unfoldable pub digit : ℕ → Option ℕ
digit c =
    if leb 48 c && leb c 57
    then some (c - 48)
    else if leb 97 c && leb c 102
    then some (c - 87)
    else if leb 65 c && leb c 70
    then some (c - 55)
    else none

abbrev pair : Option ℕ → Option ℕ → Option Bytes → Option Bytes
pair (some h) (some l) (some bs) = some ((16 * h + l) ∷ bs)
pair _ _ _ = none

-- `binascii.unhexlify`; `none` is a `binascii.Error`.
unfoldable pub unhexlify : Text → Option Bytes
unfolding digit
unhexlify [] = some []
unhexlify (c ∷ []) = none
unhexlify (c ∷ d ∷ cs) = pair (digit c) (digit d) (unhexlify cs)

abbrev tail : Text → Text
tail [] = []
tail (c ∷ cs) = cs

abbrev or_path_error : Option Bytes → Result Bytes
or_path_error none = err path_error
or_path_error (some key) = ok key

-- The initiator's key in the path of the connection's address, which begins with a `/`.
unfoldable pub initiator_key : Text → Result Bytes
unfolding unhexlify
initiator_key ws_path =
    let initiator_key_hex = tail ws_path in
    guard (length initiator_key_hex == path_length) path_error
    >> or_path_error (unhexlify initiator_key_hex)

-- The paths and the clients of a server.
pub record Hub : Type 0 where
  pub paths : Paths
  pub clients : ℕ → Client

-- `path.add_pending(client)` on the path of a number.
abbrev attach : ℕ → ℕ → Hub → Result ℕ × Hub
attach n r h =
    let (result, w) = add_pending r (record { path = h.paths.objects n; clients = h.clients }) in
    (
      result >> ok n,
      record {
        paths = record h.paths { objects = store h.paths.objects n w.path };
        clients = w.clients;
      },
    )

-- `r` is the new client object; the number of its path is returned.
abbrev connect : Result Bytes → ℕ → Entropy → Hub → Result ℕ × Hub
connect (err e) r entropy h = (err e, h)
connect (ok key) r entropy h =
    let (n, paths) = get key h.paths in
    attach n r (record {
      paths = paths;
      clients = update h.clients r (saltyrtc_server_python.Client.new key entropy);
    })

unfoldable pub get_path_client : Text → ℕ → Entropy → Hub → Result ℕ × Hub
unfolding initiator_key
get_path_client ws_path r entropy h = connect (initiator_key ws_path) r entropy h

-- A key is read from its hexadecimal digits.
abbrev pub Reads : Text → Bytes → Type 0
Reads ws_path key = initiator_key ws_path ≡ ok key

-- Once a path has become empty and was cleaned, no client can connect to it any more: a later
-- connection with the same key gets the path that was detached, and ends with a `ValueError`, which
-- `ServerProtocol.__init__` does not expect.
pub get_path_client-clean :
    (ws_path : Text) (key : Bytes) (n r : ℕ) (entropy : Entropy) (h : Hub)
    → Reads ws_path key
    → IsValid h.paths
    → find (str_of key) h.paths.paths ≡ some n
    → empty (h.paths.objects n) ≡ true
    → (get_path_client ws_path r entropy (record h { paths = clean n h.paths })).0 ≡ err value_error
unfolding get_path_client add_pending
get_path_client-clean ws_path key n r entropy h reads valid found vacant =
    let (same, detached) = get-clean key n h.paths valid.0 found vacant in
    rw reads (rw (same, detached) refl)

-- What holds of a connection that is accepted on the path of number `n`.
abbrev pub IsAccepted : Bytes → ℕ → ℕ → Hub → Type 0
IsAccepted key n r h =
    (find (str_of key) h.paths.paths ≡ some n)
    × ((h.paths.objects n).initiator_key ≡ key)
    × ((h.paths.objects n).attached ≡ true)
    × (contains r (h.paths.objects n).pending ≡ true)
    × ((h.clients r).state ≡ restricted)
    × ((h.clients r).id ≡ server_address)

attach-IsAccepted :
    (key : Bytes) (n m r : ℕ) (h h' : Hub)
    → find (str_of key) h.paths.paths ≡ some n
    → (h.paths.objects n).initiator_key ≡ key
    → (h.clients r).state ≡ restricted
    → (h.clients r).id ≡ server_address
    → attach n r h ≡ (ok m, h')
    → IsAccepted key m r h'
unfolding add_pending
attach-IsAccepted key n m r h h' found right state id e =
    let added = contains-add r r (h.paths.objects n).pending in ground arith

new-state :
    (key : Bytes) (entropy : Entropy)
    → (saltyrtc_server_python.Client.new key entropy).state ≡ restricted
unfolding saltyrtc_server_python.Client.new
new-state key entropy = refl

new-id :
    (key : Bytes) (entropy : Entropy)
    → (saltyrtc_server_python.Client.new key entropy).id ≡ server_address
unfolding saltyrtc_server_python.Client.new
new-id key entropy = refl

-- A connection that is accepted has a path in the address that is the hexadecimal form of a key,
-- and its client waits as pending, unauthenticated and without an address of its own, on the
-- attached path of this key.
pub get_path_client-IsAccepted :
    (ws_path : Text) (n r : ℕ) (entropy : Entropy) (h h' : Hub)
    → IsValid h.paths
    → get_path_client ws_path r entropy h ≡ (ok n, h')
    → (key : Bytes) × Reads ws_path key × IsAccepted key n r h'
unfolding get_path_client
get_path_client-IsAccepted ws_path n r entropy h h' valid e = go (initiator_key ws_path) refl e
  where
    go :
        (k : Result Bytes)
        → initiator_key ws_path ≡ k
        → connect k r entropy h ≡ (ok n, h')
        → (key : Bytes) × Reads ws_path key × IsAccepted key n r h'
    go (err x) reads e = cc
    go (ok key) reads e =
        let (m, paths) = get key h.paths in
        let found : find (str_of key) paths.paths ≡ some m = get-found key h.paths in
        let clients = update h.clients r (saltyrtc_server_python.Client.new key entropy) in
        let right = ((get-IsValid key h.paths valid).1 key m found).1 in
        let here : clients r ≡ saltyrtc_server_python.Client.new key entropy = ground arith in
        (
          key,
          reads,
          attach-IsAccepted key m n r (record { paths = paths; clients = clients }) h' found right
              (ap (λ c. c.state) here ∙ new-state key entropy)
              (ap (λ c. c.id) here ∙ new-id key entropy) e,
        )

-- Where there is no path for a connection, nothing was changed.
pub get_path_client-path_error :
    (ws_path : Text) (r : ℕ) (entropy : Entropy) (h h' : Hub)
    → get_path_client ws_path r entropy h ≡ (err path_error, h')
    → h' ≡ h
unfolding get_path_client add_pending
get_path_client-path_error ws_path r entropy h h' e = go (initiator_key ws_path) e
  where
    go : (k : Result Bytes) → connect k r entropy h ≡ (err path_error, h') → h' ≡ h
    go (err x) e = ground (arith, e)
    go (ok key) e = ground (arith, e)
