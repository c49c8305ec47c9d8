-- ===== src/Server/Relay/Dropping.antt =====
-- What a drop-responder request of the initiator does to the responder and to the others.
use saltyrtc_server_python.Prelude.{
  ℕ, ◌≡◌, ◌≢◌, refl, true, false, none, some, [], ◌∷◌, ◌++◌, length, arith, ◌==◌, if◌then◌else◌,
}
use saltyrtc_server_python.Exception.{ok, disconnected}
use saltyrtc_server_python.Common.State.{
  DropReason, CloseCode, drop_reason_value, close_code, close_code-drop_reason,
}
use saltyrtc_server_python.Common.Address.{AddressType}
use saltyrtc_server_python.Client.{p2p_allowed}
use saltyrtc_server_python.Connection.{drop}
use saltyrtc_server_python.Connection.Dropping.{drop_lem, drop-state}
use saltyrtc_server_python.JobQueue.Count.{Counts}
use saltyrtc_server_python.Tasks.Result as Tasks
use saltyrtc_server_python.Tasks.Result.{stopping}
use saltyrtc_server_python.JobQueue.{coroutine, job, final, open'}
use saltyrtc_server_python.Message.Incoming.{drop_request}
use saltyrtc_server_python.SignalingPath.Dict.{lookup, erase, remove, lookup-erase}
use saltyrtc_server_python.SignalingPath.Validity.{IsValid, remove_client_lem, remove_slot_lem}
use saltyrtc_server_python.Server.Exchange.{
  Exchange, closing, world_of, set_connection, drop_client,
}
use saltyrtc_server_python.Server.Relay.{initiator_round}

-- The exchange after a responder in the slot `id` was dropped.
abbrev without_responder : ℕ → ℕ → CloseCode → Exchange → Exchange
without_responder q id code x =
    set_connection q (drop code (length x.scheduled) (x.connections q)).1 (record x {
      path = record x.path {
        pending = remove q x.path.pending;
        responders = erase id x.path.responders;
      };
      scheduled = x.scheduled ++ (q, closing code) ∷ [];
    })

drop_client-responder :
    (q id : ℕ) (code : CloseCode) (x : Exchange)
    → IsValid (world_of x)
    → x.path.attached ≡ true
    → lookup id x.path.responders ≡ some q
    → drop_client q code x ≡ (ok tt, without_responder q id code x)
unfolding drop_client
drop_client-responder q id code x v a found =
    let (here, low, high, known) = v.slot_id id q found in
    let (fine, state, same) = drop-state code (length x.scheduled) (x.connections q) known in
    let w = world_of (set_connection q (drop code (length x.scheduled) (x.connections q)).1 x) in
    ground (
      arith,
      remove_client_lem q w,
      remove_slot_lem q id
          (record w { path = record w.path { pending = remove q w.path.pending } }),
    )

initiator_round-drop :
    (r q id : ℕ) (reason : DropReason) (code : CloseCode) (x : Exchange)
    → x.path.attached ≡ true
    → lookup id x.path.responders ≡ some q
    → close_code (drop_reason_value reason) ≡ ok code
    → initiator_round r (drop_request id reason) x ≡ drop_client q code x
unfolding initiator_round saltyrtc_server_python.SignalingPath.get_responder
initiator_round-drop r q id reason code x a found e = ground (arith, e)

-- What the client is and what happens to the others, when a responder was dropped.
pub record IsDropped (q id number : ℕ) (x y : Exchange) : Type 0 where
  pub slot :
      (i : ℕ) → lookup i y.path.responders ≡ (if id == i then none else lookup i x.path.responders)
  pub initiator : y.path.initiator ≡ x.path.initiator
  pub silent : p2p_allowed AddressType.initiator (y.connections q).client ≡ false
  pub stopping : stopping (y.connections q).tasks.tasks ≡ true
  pub queue :
      (y.connections q).jobs.queue
      ≡ (x.connections q).jobs.queue
        ++ job (coroutine (length x.scheduled)) ∷ final (disconnected number) ∷ []
  pub others : (o : ℕ) → o ≢ q → y.connections o ≡ x.connections o

-- A drop-responder request for a responder that is on the path succeeds: the slot of the responder
-- is free, the other slots keep their clients, the responder can no longer relay to the initiator,
-- its tasks were asked to stop, its queue ends with the closing of the connection under the number
-- of the reason, after the jobs that were pending, and no other client is changed.
pub initiator_round-drops :
    (r q id : ℕ) (reason : DropReason) (x : Exchange)
    → IsValid (world_of x)
    → x.path.attached ≡ true
    → lookup id x.path.responders ≡ some q
    → (x.connections q).jobs.state ≡ open'
    → Counts (x.connections q).jobs
    → Tasks.IsValid (x.connections q).tasks
    → let (result, y) = initiator_round r (drop_request id reason) x in
      (result ≡ ok tt) × IsDropped q id (drop_reason_value reason) x y
initiator_round-drops r q id reason x v a found h k t =
    let (code, e, number) = close_code-drop_reason reason in
    let c = x.connections q in
    let (fine, silent, stopped, queue, kept, counts) =
      drop_lem code (length x.scheduled) AddressType.initiator c h k t in
    let d = (drop code (length x.scheduled) c).1 in
    rw (initiator_round-drop r q id reason code x a found e) (
      rw (drop_client-responder q id code x v a found) (
        refl,
        record {
          slot = λ i. lookup-erase id i x.path.responders v.distinct;
          initiator = refl;
          silent = ground (arith, silent);
          stopping = ground (arith, stopped);
          queue = ground (arith, queue, number);
          others = λ o n. ground (arith, n);
        },
      ))
