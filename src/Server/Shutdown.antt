-- ===== src/Server/Shutdown.antt =====
-- `ServerProtocol.close` of saltyrtc/server/server.py, and the loop over the protocols with which
-- `_close_after_all_protocols_closed` begins. A protocol is the reference of its client.
-- The protocols of a server are on many paths; these are the ones whose clients are on one path.
use saltyrtc_server_python.Prelude.{
  ℕ, ◌≡◌, ◌≢◌, refl, ap, ◌∙◌, Bool-cases, inl, inr, true, List, [], ◌∷◌, contains, length, arith,
}
use saltyrtc_server_python.Exception.{Result, ok, err, value_error, key_error}
use saltyrtc_server_python.Exec.{Exec, pure, ◌>>◌}
use saltyrtc_server_python.Common.State.{CloseCode, going_away, authenticated}
use saltyrtc_server_python.Client.{Client}
use saltyrtc_server_python.Connection.{drop}
use saltyrtc_server_python.Connection.Dropping.{drop-left}
use saltyrtc_server_python.SignalingPath.{World, remove_client}
use saltyrtc_server_python.SignalingPath.Dict.{remove}
use saltyrtc_server_python.SignalingPath.Validity.{remove_client_lem, remove_slot_lem}
use saltyrtc_server_python.Server.Exchange.{Exchange, drop_client, set_connection, world_of}
use saltyrtc_server_python.Server.Relay.{announce_disconnected}

-- Both exceptions of `_drop_client` are ignored.
abbrev pub ignored : Result (Unit {0}) → Result (Unit {0})
ignored (ok u) = ok u
ignored (err key_error) = ok tt
ignored (err value_error) = ok tt
ignored (err e) = err e

-- `ServerProtocol.close`
unfoldable pub close_protocol : CloseCode → ℕ → Exec Exchange (Unit {0})
unfolding drop_client
close_protocol code r x = let (result, y) = drop_client r code x in (ignored result, y)

-- The loop over the protocols
unfoldable pub close_protocols : List ℕ → Exec Exchange (Unit {0})
unfolding close_protocol
close_protocols [] = pure tt
close_protocols (r ∷ rs) = do close_protocol going_away r; close_protocols rs

-- What `remove_client` may raise, and that it leaves the clients as they are.
pub remove_client_keeps :
    (r : ℕ) (w : World)
    → (ignored (remove_client r w).0 ≡ ok tt) × ((remove_client r w).1.clients ≡ w.clients)
remove_client_keeps r w = ground (
  arith,
  remove_client_lem r w,
  remove_slot_lem r (w.clients r).id
      (record w { path = record w.path { pending = remove r w.pending } }),
)

close_protocol_lem :
    (code : CloseCode) (r : ℕ) (x : Exchange)
    → let (result, y) = close_protocol code r x in
      (result ≡ ok tt)
      × ((y.connections r).client.state ≢ authenticated)
      × ((o : ℕ)
          → (x.connections o).client.state ≢ authenticated
          → (y.connections o).client.state ≢ authenticated)
unfolding close_protocol drop_client
close_protocol_lem code r x =
    let (fine, left) = drop-left code (length x.scheduled) (x.connections r) in
    let d = (drop code (length x.scheduled) (x.connections r)).1 in
    let w = world_of (set_connection r d x) in
    let (silent, keep) = remove_client_keeps r w in
    let client : (o : ℕ) → (remove_client r w).1.clients o ≡ w.clients o =
      λ o. ap (λ (f : ℕ → Client). f o) keep in
    rw fine (
      silent,
      (λ e. ground (arith, client r, left, e)),
      (λ o n e. ground (arith, client o, left, n, e)),
    )

close_protocols_keep :
    (rs : List ℕ) (x : Exchange) (o : ℕ)
    → (x.connections o).client.state ≢ authenticated
    → ((close_protocols rs x).1.connections o).client.state ≢ authenticated
unfolding close_protocols
close_protocols_keep [] x o n = n
close_protocols_keep (r ∷ rs) x o n =
    let (fine, left, kept) = close_protocol_lem going_away r x in
    rw fine (close_protocols_keep rs (close_protocol going_away r x).1 o (kept o n))

close_protocols_ok : (rs : List ℕ) (x : Exchange) → (close_protocols rs x).0 ≡ ok tt
unfolding close_protocols
close_protocols_ok [] x = refl
close_protocols_ok (r ∷ rs) x =
    let (fine, _, _) = close_protocol_lem going_away r x in
    rw fine (close_protocols_ok rs (close_protocol going_away r x).1)

close_protocols_left :
    (rs : List ℕ) (x : Exchange) (r : ℕ)
    → contains r rs ≡ true
    → ((close_protocols rs x).1.connections r).client.state ≢ authenticated
unfolding close_protocols
close_protocols_left [] x r h = cc
close_protocols_left (q ∷ rs) x r h =
    let (fine, left, kept) = close_protocol_lem going_away q x in
    rw fine (elim (Bool-cases (contains r rs)) [
      | inl later ↦ close_protocols_left rs (close_protocol going_away q x).1 r later
      | inr last ↦ close_protocols_keep rs (close_protocol going_away q x).1 r (
          let same : q ≡ r = ground (arith, h, last) in
          let y = (close_protocol going_away q x).1 in
          λ e. left (ap (λ n. (y.connections n).client.state) same ∙ e))
    ])

announce_nothing :
    (r : ℕ) (x : Exchange)
    → (x.connections r).client.state ≢ authenticated
    → announce_disconnected r x ≡ (ok tt, x)
unfolding announce_disconnected
announce_nothing r x n = ground (arith, n)

-- The loop over the protocols when the server is closed never fails, whatever state the path is
-- in: the exceptions of `_drop_client` are ignored. After it, none of the clients is authenticated
-- any more, so that the end of a client's handler tells nobody that it has disconnected.
pub close_protocols-announce_disconnected :
    (rs : List ℕ) (x : Exchange) (r : ℕ)
    → contains r rs ≡ true
    → let (result, y) = close_protocols rs x in
      (result ≡ ok tt)
      × ((y.connections r).client.state ≢ authenticated)
      × (announce_disconnected r y ≡ (ok tt, y))
close_protocols-announce_disconnected rs x r h =
    let left = close_protocols_left rs x r h in
    (close_protocols_ok rs x, left, announce_nothing r (close_protocols rs x).1 left)
