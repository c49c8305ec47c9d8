-- ===== src/Server/Relay/Tests.antt =====
-- An initiator, client 5, and a responder, client 6 in slot 3, that exchange messages, and client
-- 4, which waits.
use saltyrtc_server_python.Prelude.{
  List, ◌≢◌, ℕ, ◌≤◌, ◌≡◌, refl, true, false, some, [], ◌∷◌, ◌++◌, Bytes, arith, ◌==◌, if◌then◌else◌,
}
use saltyrtc_server_python.Exception.{ok, disconnected}
use saltyrtc_server_python.Common.Address.{AddressType, initiator_address}
use saltyrtc_server_python.Common.State.{
  authenticated, DropReason, close_code_value, drop_by_initiator,
}
use saltyrtc_server_python.Client.{p2p_allowed}
use saltyrtc_server_python.JobQueue as queue
use saltyrtc_server_python.JobQueue.{coroutine, task, job, final, open'}
use saltyrtc_server_python.Tasks as tasks
use saltyrtc_server_python.Tasks.Tests.{new-IsValid}
use saltyrtc_server_python.Message.Incoming.{relay, drop_request}
use saltyrtc_server_python.Message.Outgoing.{create_new_initiator}
use saltyrtc_server_python.Message.Guarantees.{IsAddressed}
use saltyrtc_server_python.SignalingPath.Dict.{lookup}
use saltyrtc_server_python.SignalingPath.Validity.{IsValid}
use saltyrtc_server_python.SignalingPath.Tests.{occupied}
use saltyrtc_server_python.Server.Exchange.{
  Exchange, Received, packet, closed, relayed, sending, world_of,
}
use saltyrtc_server_python.Server.Exchange.Announcing.{to_responders, jobs_of}
use saltyrtc_server_python.Server.Handshake.{admit_initiator, admit_responder}
use saltyrtc_server_python.Server.Handshake.Admission.{admit_initiator-announces, farewell}
use saltyrtc_server_python.Server.Relay.{initiator_round, announce_disconnected}
use saltyrtc_server_python.Server.Relay.Delivery.{IsQueued, initiator_round-delivers}
use saltyrtc_server_python.Client.Tests.{cookie_of}
use saltyrtc_server_python.Message.Tests.{plain}
use saltyrtc_server_python.Server.Relay.{Outcome, sent, timed_out}
use saltyrtc_server_python.Server.Relay.Loop.{
  IsUntouched, responder_receive_loop, responder_receive_loop-IsUntouched,
}
use saltyrtc_server_python.Server.Shutdown.{close_protocols, close_protocols-announce_disconnected}
use saltyrtc_server_python.Server.Relay.Dropping.{IsDropped, initiator_round-drops}
use saltyrtc_server_python.Server.Handshake.Responding.{admit_responder-announces, greeting}

abbrev type_of : ℕ → AddressType
type_of r = if r == 5 then AddressType.initiator else AddressType.responder

abbrev pub meeting : ℕ → Exchange
meeting slot = record {
  path = (occupied slot).path;
  connections = λ r. record {
    client = record ((occupied slot).clients r) { type = some (type_of r) };
    jobs = queue.new;
    tasks = tasks.new;
    closed = 0;
  };
  scheduled = [];
  delivered = [];
}

abbrev greetings : Bytes
greetings = 1 ∷ 2 ∷ 3 ∷ []

initiator_round-delivers_example :
    let (result, y) = initiator_round 5 (relay 1 3 greetings) (meeting 3) in
    (result ≡ ok tt) × IsQueued task 6 (sending (relayed greetings)) (meeting 3) y
unfolding lookup queue.new
initiator_round-delivers_example =
    initiator_round-delivers 5 1 3 6 greetings (meeting 3) refl (omega arith) (omega arith) refl
      refl

addressed : (slot r : ℕ) → 2 ≤ slot → slot ≤ 255 → IsAddressed ((world_of (meeting slot)).clients r)
unfolding saltyrtc_server_python.Client.new
addressed slot r low high = record { restricted_id = ground arith; client_id = ground arith }

pub meeting-IsValid : (slot : ℕ) → 2 ≤ slot → slot ≤ 255 → IsValid (world_of (meeting slot))
unfolding lookup saltyrtc_server_python.Client.new
meeting-IsValid slot low high = record {
  addressed = λ r. addressed slot r low high;
  pending_restricted = ground arith;
  initiator_id = ground arith;
  slot_id = ground arith;
  distinct = (refl, tt);
}

initiator_round-drops_example :
    let (result, y) = initiator_round 5 (drop_request 3 DropReason.drop_by_initiator) (meeting 3) in
    (result ≡ ok tt) × IsDropped 6 3 3004 (meeting 3) y
unfolding lookup queue.new
initiator_round-drops_example =
    initiator_round-drops 5 6 3 DropReason.drop_by_initiator (meeting 3)
      (meeting-IsValid 3 (omega arith) (omega arith)) refl refl refl (ground arith) new-IsValid

admit_initiator-announces_example :
    let (result, y) = admit_initiator 4 (meeting 3) in
    (result ≡ ok tt)
    × (y.path.initiator ≡ some 4)
    × (y.path.responders ≡ (3, 6) ∷ [])
    × ((y.connections 4).client.state ≡ authenticated)
    × ((y.connections 4).client.id ≡ initiator_address)
    × (y.scheduled ≡ ([] ++ farewell (some 5)) ++ to_responders create_new_initiator ((3, 6) ∷ []))
    × ((q : ℕ)
        → some 5 ≡ some q
        → p2p_allowed AddressType.responder (y.connections q).client ≡ false)
    × ((q : ℕ)
        → some 5 ≡ some q
        → ((meeting 3).connections q).jobs.state ≡ open'
        → (y.connections q).jobs.queue
          ≡ ((meeting 3).connections q).jobs.queue
            ++ job (coroutine 0) ∷ final (disconnected (close_code_value drop_by_initiator)) ∷ [])
    × ((o : ℕ)
        → some 5 ≢ some o
        → ((meeting 3).connections o).jobs.state ≡ open'
        → (y.connections o).jobs.queue
          ≡ ((meeting 3).connections o).jobs.queue
            ++ jobs_of o 1 (to_responders create_new_initiator ((3, 6) ∷ [])))
unfolding queue.new
admit_initiator-announces_example =
    admit_initiator-announces 4 (meeting 3) (meeting-IsValid 3 (omega arith) (omega arith)) refl
      refl

admit_responder-announces_example :
    let (result, y) = admit_responder 4 (meeting 3) in
    (result ≡ ok (3, true))
    × (lookup 3 y.path.responders ≡ some 4)
    × (y.path.initiator ≡ some 5)
    × ((y.connections 4).client.state ≡ authenticated)
    × ((y.connections 4).client.id ≡ 3)
    × (y.scheduled ≡ greeting 3 (some 5))
    × ((q : ℕ)
        → some 5 ≡ some q
        → ((meeting 3).connections q).jobs.state ≡ open'
        → (y.connections q).jobs.queue
          ≡ ((meeting 3).connections q).jobs.queue ++ job (coroutine 0) ∷ [])
unfolding queue.new
admit_responder-announces_example =
    admit_responder-announces 4 (meeting 3) (meeting-IsValid 3 (omega arith) (omega arith)) refl
      refl (omega arith)

close_protocols-announce_disconnected_example :
    let (result, y) = close_protocols (5 ∷ 6 ∷ 4 ∷ []) (meeting 3) in
    (result ≡ ok tt)
    × ((y.connections 6).client.state ≢ authenticated)
    × (announce_disconnected 6 y ≡ (ok tt, y))
close_protocols-announce_disconnected_example =
    close_protocols-announce_disconnected (5 ∷ 6 ∷ 4 ∷ []) (meeting 3) 6 refl

-- The cookie, the source 3, the destination 1, the sequence number 1, and the data.
abbrev from_responder : Bytes
from_responder = cookie_of 5 ++ (3 ∷ 1 ∷ 0 ∷ 0 ∷ 0 ∷ 0 ∷ 0 ∷ 1 ∷ greetings)

abbrev rounds : List (Received × Outcome)
rounds =
    (packet from_responder, sent) ∷ (packet from_responder, timed_out) ∷ (closed 1001, sent) ∷ []

responder_receive_loop-IsUntouched_example :
    IsUntouched 4 (meeting 3) (responder_receive_loop plain 6 rounds (meeting 3)).1
responder_receive_loop-IsUntouched_example =
    responder_receive_loop-IsUntouched plain 6 4 rounds (meeting 3) (λ e. ground arith)
      (λ e. ground arith)
