-- ===== src/Server/Relay/Leaving.antt =====
-- What the end of a client's handler tells the others.
use saltyrtc_server_python.Prelude.{ℕ, ◌≡◌, true, false, some, arith}
use saltyrtc_server_python.Exception.{ok}
use saltyrtc_server_python.Common.Address.{AddressType, initiator_address}
use saltyrtc_server_python.Common.State.{authenticated}
use saltyrtc_server_python.Message.Outgoing.{Outgoing, create_disconnected}
use saltyrtc_server_python.SignalingPath.{empty}
use saltyrtc_server_python.SignalingPath.Validity.{IsValid}
use saltyrtc_server_python.Server.Exchange.{Exchange, world_of}
use saltyrtc_server_python.Server.Exchange.Announcing.{
  IsAnnounced, Has-all, enqueue_to_all, enqueue_to_responders-IsAnnounced,
}
use saltyrtc_server_python.Server.Relay.{announce_disconnected, announce_leaving}

announce_disconnected_lem :
    (r : ℕ) (x : Exchange)
    → empty x.path ≡ false
    → (x.connections r).client.state ≡ authenticated
    → announce_disconnected r x ≡ announce_leaving r (x.connections r).client.type x
unfolding announce_disconnected
announce_disconnected_lem r x e s = ground (arith, e, s)

-- When an authenticated initiator leaves a path that is in use, a disconnected message with its
-- address is scheduled for every responder, in the order of the dictionary, and nothing else is;
-- the path and the clients that are not in a slot are not changed.
pub announce_disconnected-initiator :
    (r : ℕ) (x : Exchange)
    → IsValid (world_of x)
    → x.path.attached ≡ true
    → empty x.path ≡ false
    → (x.connections r).client.state ≡ authenticated
    → (x.connections r).client.type ≡ some AddressType.initiator
    → let (result, y) = announce_disconnected r x in
      (result ≡ ok tt)
      × IsAnnounced (λ id. create_disconnected id initiator_address) x.path.responders x y
announce_disconnected-initiator r x v a e s t =
    let create : ℕ → Outgoing = λ id. create_disconnected id initiator_address in
    rw (announce_disconnected_lem r x e s, t, enqueue_to_all create x a)
      (enqueue_to_responders-IsAnnounced create x.path.responders x a
        (Has-all x.path.responders v.distinct))
