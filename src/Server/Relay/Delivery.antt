-- ===== src/Server/Relay/Delivery.antt =====
-- What a round of the receive loops does to the other clients of the path.
use saltyrtc_server_python.Prelude.{
  ℕ, ◌≤◌, ◌≡◌, ◌≢◌, refl, true, none, some, [], ◌∷◌, ◌++◌, Bytes, length, arith,
}
use saltyrtc_server_python.Exception.{ok}
use saltyrtc_server_python.Common.Address.{AddressType}
use saltyrtc_server_python.JobQueue.{Job, coroutine, task, job, final, open'}
use saltyrtc_server_python.Message.Incoming.{Incoming, relay}
use saltyrtc_server_python.Message.Outgoing.{create_send_error}
use saltyrtc_server_python.SignalingPath.Dict.{lookup}
use saltyrtc_server_python.Server.Exchange.{
  Exchange, Activity, relayed, cooked, sending, schedule, enqueue_send,
}
use saltyrtc_server_python.Server.Relay.{initiator_round, responder_round, message_id}

-- `y` is `x` with one activity more, whose job is at the end of the open queue of `q`.
pub record IsQueued (j : ℕ → Job) (q : ℕ) (a : Activity) (x y : Exchange) : Type 0 where
  pub path : y.path ≡ x.path
  pub delivered : y.delivered ≡ x.delivered
  pub scheduled : y.scheduled ≡ x.scheduled ++ (q, a) ∷ []
  pub queue :
      (y.connections q).jobs.queue
      ≡ (x.connections q).jobs.queue ++ job (j (length x.scheduled)) ∷ []
  pub client : (y.connections q).client ≡ (x.connections q).client
  pub others : (o : ℕ) → o ≢ q → y.connections o ≡ x.connections o

pub schedule-IsQueued :
    (j : ℕ → Job) (q : ℕ) (a : Activity) (x : Exchange)
    → (x.connections q).jobs.state ≡ open'
    → IsQueued j q a x (schedule j q a x)
unfolding schedule saltyrtc_server_python.JobQueue.enqueue
schedule-IsQueued j q a x h = record {
  path = refl;
  delivered = refl;
  scheduled = refl;
  queue = ground (arith, h);
  client = ground arith;
  others = λ o n. ground (arith, n);
}

-- A responder at the destination
pub initiator_round-found :
    (r source destination q : ℕ) (packet : Bytes) (x : Exchange)
    → x.path.attached ≡ true
    → 2 ≤ destination
    → destination ≤ 255
    → lookup destination x.path.responders ≡ some q
    → initiator_round r (relay source destination packet) x
      ≡ (ok tt, schedule task q (sending (relayed packet)) x)
unfolding initiator_round saltyrtc_server_python.Server.Relay.relay_message
    saltyrtc_server_python.Common.Address.responder_address
    saltyrtc_server_python.SignalingPath.get_responder
initiator_round-found r source destination q packet x a low high found = ground arith

pub initiator_round-missing :
    (r source destination : ℕ) (packet : Bytes) (x : Exchange)
    → x.path.attached ≡ true
    → 2 ≤ destination
    → destination ≤ 255
    → lookup destination x.path.responders ≡ none
    → initiator_round r (relay source destination packet) x ≡ (
      ok tt,
      enqueue_send r (create_send_error (x.connections r).client.id (message_id packet)) x,
    )
unfolding initiator_round saltyrtc_server_python.Server.Relay.relay_message
    saltyrtc_server_python.Server.Relay.send_error_message
    saltyrtc_server_python.Common.Address.responder_address
    saltyrtc_server_python.SignalingPath.get_responder
initiator_round-missing r source destination packet x a low high missing = ground arith

-- A message of the initiator to a responder that is on the path goes into the open queue of that
-- responder, as the packet that was received; no other client, the path and what was delivered are
-- not changed.
pub initiator_round-delivers :
    (r source destination q : ℕ) (packet : Bytes) (x : Exchange)
    → x.path.attached ≡ true
    → 2 ≤ destination
    → destination ≤ 255
    → lookup destination x.path.responders ≡ some q
    → (x.connections q).jobs.state ≡ open'
    → let (result, y) = initiator_round r (relay source destination packet) x in
      (result ≡ ok tt) × IsQueued task q (sending (relayed packet)) x y
initiator_round-delivers r source destination q packet x a low high found h =
    rw (initiator_round-found r source destination q packet x a low high found)
      (refl, schedule-IsQueued task q (sending (relayed packet)) x h)

-- A message of the initiator to a responder that is not on the path is answered with a send-error,
-- which has the message's id and goes into the queue of the initiator; nothing goes to anyone else.
pub initiator_round-reports :
    (r source destination : ℕ) (packet : Bytes) (x : Exchange)
    → x.path.attached ≡ true
    → 2 ≤ destination
    → destination ≤ 255
    → lookup destination x.path.responders ≡ none
    → (x.connections r).jobs.state ≡ open'
    → let (result, y) = initiator_round r (relay source destination packet) x in
      let error = create_send_error (x.connections r).client.id (message_id packet) in
      (result ≡ ok tt) × IsQueued coroutine r (sending (cooked error)) x y
initiator_round-reports r source destination packet x a low high missing h =
    let error = create_send_error (x.connections r).client.id (message_id packet) in
    rw (initiator_round-missing r source destination packet x a low high missing)
      (refl, schedule-IsQueued coroutine r (sending (cooked error)) x h)

pub schedule-others :
    (j : ℕ → Job) (q : ℕ) (a : Activity) (x : Exchange) (o : ℕ)
    → o ≢ q
    → ((schedule j q a x).connections o ≡ x.connections o) × ((schedule j q a x).path ≡ x.path)
unfolding schedule
schedule-others j q a x o n = (ground (arith, n), refl)

-- A responder reaches nobody but the initiator: whatever it sends, a round of its receive loop
-- leaves the path and every client but itself and the initiator as they are.
pub responder_round-isolated :
    (r o : ℕ) (m : Incoming) (x : Exchange)
    → o ≢ r
    → x.path.initiator ≢ some o
    → let y = (responder_round r m x).1 in (y.connections o ≡ x.connections o) × (y.path ≡ x.path)
unfolding responder_round saltyrtc_server_python.Server.Relay.relay_message
    saltyrtc_server_python.Server.Relay.send_error_message
    saltyrtc_server_python.SignalingPath.get_initiator schedule
responder_round-isolated r o m x n i = ground (arith, n, i)
