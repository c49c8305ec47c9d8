-- ===== src/Server/Handshake/Responding.antt =====
-- What the path, the new responder and the other clients are after a responder was admitted.
use saltyrtc_server_python.Prelude.{
  ℕ, ◌≤◌, ◌≡◌, refl, true, Option, none, some, List, [], ◌∷◌, ◌++◌, sym, ap, append_nil, contains,
  length, arith,
}
use saltyrtc_server_python.Exception.{ok}
use saltyrtc_server_python.Exec.{continue, ◌>>=◌}
use saltyrtc_server_python.JobQueue.{coroutine, job, open', enqueue}
use saltyrtc_server_python.Common.State.{authenticated}
use saltyrtc_server_python.Message.Outgoing.{create_new_responder}
use saltyrtc_server_python.SignalingPath.{World, or_key_error, get_initiator}
use saltyrtc_server_python.SignalingPath.Dict.{lookup, lookup-insert}
use saltyrtc_server_python.SignalingPath.Validity.{IsValid, with_responder}
use saltyrtc_server_python.SignalingPath.Occupancy.{add_responder_ok, next_slot}
use saltyrtc_server_python.Server.Exchange.{
  Exchange, Activity, sending, cooked, world_of, with_world, schedule,
}
use saltyrtc_server_python.Server.Handshake.{
  admit_responder, present_initiator, announce_responder, greet, is_present, no_key_error,
}

-- The initiator, if there is one, gets to know of a new responder.
abbrev pub greeting : ℕ → Option ℕ → List (ℕ × Activity)
greeting id none = []
greeting id (some q) = (q, sending (cooked (create_new_responder id))) ∷ []

abbrev seated : ℕ → Exchange → Exchange
seated r x = with_world (with_responder (next_slot (world_of x)) r (world_of x)) x

get_initiator_attached :
    (w : World) → w.path.attached ≡ true → get_initiator w ≡ (or_key_error w.path.initiator, w)
unfolding get_initiator
get_initiator_attached w a = ground (arith, a)

present_initiator_lem :
    (id : ℕ) (x : Exchange)
    → x.path.attached ≡ true
    → (present_initiator >>= greet id) x ≡ greet id x.path.initiator x
present_initiator_lem id x a = rw (get_initiator_attached (world_of x) a) (go x.path.initiator)
  where
    go : (o : Option ℕ) → continue (no_key_error (or_key_error o)) (greet id) x ≡ greet id o x
    go none = refl
    go (some q) = refl

greeting_lem :
    (id r : ℕ) (o : Option ℕ) (x : Exchange)
    → let (result, y) = announce_responder id o x in
      (result ≡ ok tt)
      × (y.path ≡ x.path)
      × (y.scheduled ≡ x.scheduled ++ greeting id o)
      × ((y.connections r).client ≡ (x.connections r).client)
      × ((q : ℕ)
          → o ≡ some q
          → (x.connections q).jobs.state ≡ open'
          → (y.connections q).jobs.queue
            ≡ (x.connections q).jobs.queue ++ job (coroutine (length x.scheduled)) ∷ [])
unfolding schedule enqueue
greeting_lem id r none x =
    (refl, refl, sym (append_nil x.scheduled), refl, (λ q e h. ground (arith, e)))
greeting_lem id r (some q) x = (refl, refl, refl, ground arith, (λ p e h. ground (arith, e, h)))

admit_responder_lem :
    (r : ℕ) (x : Exchange)
    → IsValid (world_of x)
    → x.path.attached ≡ true
    → contains r x.path.pending ≡ true
    → next_slot (world_of x) ≤ 255
    → let id = next_slot (world_of x) in
      admit_responder r x ≡ greet id x.path.initiator (seated r x)
unfolding admit_responder
admit_responder_lem r x v a p free =
    rw (add_responder_ok r (world_of x) v a p free)
      (present_initiator_lem (next_slot (world_of x)) (seated r x) a)

-- A client that is admitted as responder, when it waits on a path that is in use and the next slot
-- is an address, is authenticated under that slot and stands in it; the initiator stays, and is the
-- only one that a message is scheduled for: the new-responder message with that slot, whose
-- coroutine is at the end of the queue of the initiator if this queue is open. The answer is the
-- slot, and whether there is an initiator.
pub admit_responder-announces :
    (r : ℕ) (x : Exchange)
    → IsValid (world_of x)
    → x.path.attached ≡ true
    → contains r x.path.pending ≡ true
    → next_slot (world_of x) ≤ 255
    → let (result, y) = admit_responder r x in
      let id = next_slot (world_of x) in
      (result ≡ ok (id, is_present x.path.initiator))
      × (lookup id y.path.responders ≡ some r)
      × (y.path.initiator ≡ x.path.initiator)
      × ((y.connections r).client.state ≡ authenticated)
      × ((y.connections r).client.id ≡ id)
      × (y.scheduled ≡ x.scheduled ++ greeting id x.path.initiator)
      × ((q : ℕ)
          → x.path.initiator ≡ some q
          → (x.connections q).jobs.state ≡ open'
          → (y.connections q).jobs.queue
            ≡ (x.connections q).jobs.queue ++ job (coroutine (length x.scheduled)) ∷ [])
admit_responder-announces r x v a p free =
    let id = next_slot (world_of x) in
    let (fine, path, scheduled, client, queued) = greeting_lem id r x.path.initiator (seated r x) in
    let found = lookup-insert id id r x.path.responders in
    rw (admit_responder_lem r x v a p free) (
      rw fine (
        refl,
        ground (arith, path, found),
        ap (λ q. q.initiator) path,
        ground (arith, client),
        ground (arith, client),
        scheduled,
        queued,
      ))
