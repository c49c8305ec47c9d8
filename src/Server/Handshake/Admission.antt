-- ===== src/Server/Handshake/Admission.antt =====
-- What the path, the new client and the other clients are after a client was admitted.
use saltyrtc_server_python.Prelude.{
  ℕ, ◌≡◌, ◌≢◌, refl, true, false, Option, none, some, List, [], ◌∷◌, ◌++◌, ◌∙◌, sym, ap, append_nil,
  contains, length, arith,
}
use mathlib.Core.Path.{ap₂}
use saltyrtc_server_python.Exception.{ok, disconnected}
use saltyrtc_server_python.JobQueue.{coroutine, job, final, open'}
use saltyrtc_server_python.Common.State.{
  drop_by_initiator, close_code_value, restricted, authenticated,
}
use saltyrtc_server_python.Common.Address.{AddressType, initiator_address}
use saltyrtc_server_python.Client.{p2p_allowed}
use saltyrtc_server_python.Connection.{drop}
use saltyrtc_server_python.Connection.Dropping.{drop-state, drop-silent, drop_queue}
use saltyrtc_server_python.Message.Outgoing.{create_new_initiator}
use saltyrtc_server_python.SignalingPath.Dict.{keys, remove}
use saltyrtc_server_python.SignalingPath.Validity.{
  IsValid, with_initiator, remove_client_lem, remove_slot_lem,
}
use saltyrtc_server_python.SignalingPath.Occupancy.{set_initiator_ok}
use saltyrtc_server_python.Server.Exchange.{
  Exchange, Activity, closing, world_of, with_world, set_connection, enqueue_to_responders,
  drop_client,
}
use saltyrtc_server_python.Server.Exchange.Announcing.{
  Has-all, to_responders, jobs_of, enqueue_to_all, enqueue_to_responders-IsAnnounced,
}
use saltyrtc_server_python.Server.Handshake.{admit_initiator, drop_previous}

-- The exchange after the previous initiator was dropped, when it has been replaced already.
abbrev pub after_drop : Option ℕ → Exchange → Exchange
after_drop none x = x
after_drop (some q) x =
    set_connection q (drop drop_by_initiator (length x.scheduled) (x.connections q)).1 (record x {
      path = record x.path { pending = remove q x.path.pending };
      scheduled = x.scheduled ++ (q, closing drop_by_initiator) ∷ [];
    })

pub drop_client-previous :
    (r q : ℕ) (x : Exchange)
    → x.path.attached ≡ true
    → x.path.initiator ≡ some r
    → q ≢ r
    → (x.connections q).client.id ≡ 1
    → (x.connections q).client.state ≢ restricted
    → drop_client q drop_by_initiator x ≡ (ok tt, after_drop (some q) x)
unfolding drop_client
drop_client-previous r q x a i n here known =
    let (fine, state, same) =
      drop-state drop_by_initiator (length x.scheduled) (x.connections q) known in
    let d = (drop drop_by_initiator (length x.scheduled) (x.connections q)).1 in
    let w = world_of (set_connection q d x) in
    ground (
      arith,
      remove_client_lem q w,
      remove_slot_lem q 1 (record w { path = record w.path { pending = remove q w.path.pending } }),
    )

-- The exchange when `r` has become the initiator.
abbrev pub promoted : ℕ → Exchange → Exchange
promoted r x = with_world (with_initiator r (world_of x)) x

pub drop_previous_lem :
    (r : ℕ) (x : Exchange)
    → IsValid (world_of x)
    → x.path.attached ≡ true
    → contains r x.path.pending ≡ true
    → drop_previous x.path.initiator (promoted r x)
      ≡ (ok tt, after_drop x.path.initiator (promoted r x))
drop_previous_lem r x v a p = go x.path.initiator refl
  where
    go :
        (o : Option ℕ)
        → x.path.initiator ≡ o
        → drop_previous o (promoted r x) ≡ (ok tt, after_drop o (promoted r x))
    go none e = refl
    go (some q) e =
        let (here, known) = v.initiator_id q e in
        let n : q ≢ r = λ same. ground (arith, v.pending_restricted r p, known) in
        drop_client-previous r q (promoted r x) a refl n (ground (arith, n, here))
          (ground (arith, n, known))

-- The previous initiator is closed.
abbrev pub farewell : Option ℕ → List (ℕ × Activity)
farewell none = []
farewell (some q) = (q, closing drop_by_initiator) ∷ []

pub after_drop_lem :
    (o : Option ℕ) (x : Exchange)
    → let y = after_drop o x in
      (y.path.attached ≡ x.path.attached)
      × (y.path.initiator ≡ x.path.initiator)
      × (y.path.responders ≡ x.path.responders)
      × (y.scheduled ≡ x.scheduled ++ farewell o)
      × ((i : ℕ) → o ≢ some i → (y.connections i).client ≡ (x.connections i).client)
      × ((i : ℕ) → o ≡ some i → p2p_allowed AddressType.responder (y.connections i).client ≡ false)
after_drop_lem none x =
    (refl, refl, refl, sym (append_nil x.scheduled), (λ i n. refl), (λ i e. ground arith))
after_drop_lem (some q) x = (
  refl,
  refl,
  refl,
  refl,
  (λ i n. ground (arith, n)),
  (λ i e. ground (
    arith,
    drop-silent drop_by_initiator (length x.scheduled) AddressType.responder (x.connections q),
  )),
)

-- The queue of the previous initiator, and those of the other clients.
after_drop-previous :
    (o : Option ℕ) (q : ℕ) (x : Exchange)
    → o ≡ some q
    → (x.connections q).jobs.state ≡ open'
    → let y = after_drop o x in
      ((y.connections q).jobs.state ≢ open')
      × ((y.connections q).jobs.queue
          ≡ (x.connections q).jobs.queue
            ++ job (coroutine (length x.scheduled))
              ∷ final (disconnected (close_code_value drop_by_initiator))
              ∷ [])
after_drop-previous none q x e h = ground (arith, e)
after_drop-previous (some p) q x e h =
    let c = x.connections p in
    let (shut, ends) = drop_queue drop_by_initiator (length x.scheduled) c (ground (arith, e, h)) in
    (ground (arith, e, shut), ground (arith, e, ends))

after_drop-others :
    (o : Option ℕ) (q : ℕ) (x : Exchange)
    → o ≢ some q
    → ((after_drop o x).connections q).jobs ≡ (x.connections q).jobs
after_drop-others none q x n = refl
after_drop-others (some p) q x n = ground (arith, n)

pub admit_initiator_lem :
    (r : ℕ) (x : Exchange)
    → IsValid (world_of x)
    → x.path.attached ≡ true
    → contains r x.path.pending ≡ true
    → let y = after_drop x.path.initiator (promoted r x) in
      admit_initiator r x ≡ enqueue_to_responders create_new_initiator (keys y.path.responders) y
unfolding admit_initiator
admit_initiator_lem r x v a p =
    let y = after_drop x.path.initiator (promoted r x) in
    let (attached, _, same, _, _, _) = after_drop_lem x.path.initiator (promoted r x) in
    rw (set_initiator_ok r (world_of x) v a p, drop_previous_lem r x v a p)
      (enqueue_to_all create_new_initiator y (attached ∙ a))

-- A client that is admitted as initiator, when it waits on a path that is in use, is the initiator
-- from then on, authenticated under its address. The responders stay in their slots. The closing of
-- the connection of the previous initiator is scheduled first, and that client cannot relay to a
-- responder any more: if its queue was open, the closing and the final job are at the end of it,
-- behind the pending jobs. Then a new-initiator message is scheduled for every responder, and
-- nothing else is: the open queue of every client but the previous initiator ends with exactly the
-- new-initiator messages to this client.
pub admit_initiator-announces :
    (r : ℕ) (x : Exchange)
    → IsValid (world_of x)
    → x.path.attached ≡ true
    → contains r x.path.pending ≡ true
    → let (result, y) = admit_initiator r x in
      (result ≡ ok tt)
      × (y.path.initiator ≡ some r)
      × (y.path.responders ≡ x.path.responders)
      × ((y.connections r).client.state ≡ authenticated)
      × ((y.connections r).client.id ≡ initiator_address)
      × (y.scheduled
          ≡ (x.scheduled ++ farewell x.path.initiator)
            ++ to_responders create_new_initiator x.path.responders)
      × ((q : ℕ)
          → x.path.initiator ≡ some q
          → p2p_allowed AddressType.responder (y.connections q).client ≡ false)
      × ((q : ℕ)
          → x.path.initiator ≡ some q
          → (x.connections q).jobs.state ≡ open'
          → (y.connections q).jobs.queue
            ≡ (x.connections q).jobs.queue
              ++ job (coroutine (length x.scheduled))
                ∷ final (disconnected (close_code_value drop_by_initiator))
                ∷ [])
      × ((o : ℕ)
          → x.path.initiator ≢ some o
          → (x.connections o).jobs.state ≡ open'
          → (y.connections o).jobs.queue
            ≡ (x.connections o).jobs.queue
              ++ jobs_of o
                  (length (x.scheduled ++ farewell x.path.initiator))
                  (to_responders create_new_initiator x.path.responders))
admit_initiator-announces r x v a p =
    let z = after_drop x.path.initiator (promoted r x) in
    let (attached, initiator, responders, scheduled, kept, silent) =
      after_drop_lem x.path.initiator (promoted r x) in
    let present = Has-all x.path.responders v.distinct in
    let (fine, all) =
      enqueue_to_responders-IsAnnounced create_new_initiator z.path.responders z (attached ∙ a)
        (rw responders present) in
    let other : x.path.initiator ≢ some r =
      λ e. ground (arith, v.initiator_id r e, v.pending_restricted r p) in
    rw (admit_initiator_lem r x v a p) (
      fine,
      ap (λ q. q.initiator) all.path ∙ initiator,
      ap (λ q. q.responders) all.path ∙ responders,
      ground (arith, all.client r, kept r other),
      ground (arith, all.client r, kept r other),
      ground (arith, all.scheduled, scheduled, responders),
      (λ q e. ground (arith, all.client q, silent q e)),
      (λ q e h.
          let (shut, ends) = after_drop-previous x.path.initiator q (promoted r x) e h in
          all.kept q shut ∙ ends),
      (λ o n h.
          let same = after_drop-others x.path.initiator o (promoted r x) n in
          all.queued o (ap (λ j. j.state) same ∙ h)
          ∙ ap₂ (λ es xs. es ++ xs) (ap (λ j. j.queue) same)
              (ap₂ (λ n m. jobs_of o n (to_responders create_new_initiator m)) (ap length scheduled)
                responders)),
    )
