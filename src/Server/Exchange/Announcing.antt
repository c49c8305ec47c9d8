-- ===== src/Server/Exchange/Announcing.antt =====
-- The loop that adds a message to the queue of every responder of a path.
use saltyrtc_server_python.Prelude.{
  ℕ, suc, ◌≡◌, ◌≢◌, refl, true, false, some, length, length-append, ◌==◌, if◌then◌else◌, List, [],
  ◌∷◌, ◌++◌, ◌∙◌, sym, append_nil, append_cons, map, contains, arith,
}
use saltyrtc_server_python.Exception.{ok}
use saltyrtc_server_python.JobQueue.{enqueue, Entry, coroutine, job, open'}
use saltyrtc_server_python.Message.Outgoing.{Outgoing}
use saltyrtc_server_python.SignalingPath.{get_responder, get_responder_ids}
use saltyrtc_server_python.Exec.{◌>>=◌}
use saltyrtc_server_python.SignalingPath.Dict.{Slots, lookup, keys, Distinct}
use saltyrtc_server_python.Server.Exchange.{
  Exchange, Activity, on_path, cooked, sending, schedule, enqueue_send, enqueue_to_responders,
}

-- The dictionary has the entries of the list.
abbrev Has : Slots → Slots → Type 0
Has s [] = Unit
Has s ((i, q) ∷ m) = (lookup i s ≡ some q) × Has s m

Has-cons : (i q : ℕ) (s m : Slots) → contains i (keys m) ≡ false → Has s m → Has ((i, q) ∷ s) m
unfolding lookup
Has-cons i q s [] h k = tt
Has-cons i q s ((j, r) ∷ m) h k = (ground (arith, k.0), Has-cons i q s m (ground arith) k.1)

pub Has-all : (m : Slots) → Distinct (keys m) → Has m m
unfolding lookup
Has-all [] d = tt
Has-all ((i, q) ∷ m) d = (ground arith, Has-cons i q m m d.0 (Has-all m d.1))

-- The activities that are scheduled for the responders, in the order of the dictionary.
abbrev pub to_responders : (ℕ → Outgoing) → Slots → List (ℕ × Activity)
to_responders create = map (λ e. (e.1, sending (cooked (create e.0))))

-- The jobs of one client among activities whose places begin at `n`.
unfoldable pub jobs_of : ℕ → ℕ → List (ℕ × Activity) → List Entry
jobs_of o n [] = []
jobs_of o n ((q, a) ∷ activities) =
    if q == o
    then job (coroutine n) ∷ jobs_of o (suc n) activities
    else jobs_of o (suc n) activities

pub record IsAnnounced (create : ℕ → Outgoing) (m : Slots) (x y : Exchange) : Type 0 where
  pub path : y.path ≡ x.path
  pub delivered : y.delivered ≡ x.delivered
  pub scheduled : y.scheduled ≡ x.scheduled ++ to_responders create m
  pub client : (o : ℕ) → (y.connections o).client ≡ (x.connections o).client
  pub queued :
      (o : ℕ)
      → (x.connections o).jobs.state ≡ open'
      → (y.connections o).jobs.queue
        ≡ (x.connections o).jobs.queue ++ jobs_of o (length x.scheduled) (to_responders create m)
  pub kept :
      (o : ℕ)
      → (x.connections o).jobs.state ≢ open'
      → (y.connections o).jobs.queue ≡ (x.connections o).jobs.queue
  pub others : (o : ℕ) → contains o (map (λ e. e.1) m) ≡ false → y.connections o ≡ x.connections o

enqueue-step :
    (create : ℕ → Outgoing) (i q : ℕ) (ids : List ℕ) (x : Exchange)
    → x.path.attached ≡ true
    → lookup i x.path.responders ≡ some q
    → enqueue_to_responders create (i ∷ ids) x
      ≡ enqueue_to_responders create ids (enqueue_send q (create i) x)
unfolding enqueue_to_responders get_responder
enqueue-step create i q ids x a h = ground (arith, a, h)

schedule-client :
    (q : ℕ) (a : Activity) (x : Exchange) (o : ℕ)
    → ((schedule coroutine q a x).connections o).client ≡ (x.connections o).client
unfolding schedule
schedule-client q a x o = ground arith

schedule-state :
    (q : ℕ) (a : Activity) (x : Exchange) (o : ℕ)
    → ((schedule coroutine q a x).connections o).jobs.state ≡ (x.connections o).jobs.state
unfolding schedule enqueue
schedule-state q a x o = ground arith

schedule-kept :
    (q : ℕ) (a : Activity) (x : Exchange) (o : ℕ)
    → (x.connections o).jobs.state ≢ open'
    → ((schedule coroutine q a x).connections o).jobs.queue ≡ (x.connections o).jobs.queue
unfolding schedule enqueue
schedule-kept q a x o n = ground (arith, n)

-- What one message adds to the queue of a client, whether it is for this one or not.
schedule-queued :
    (q o : ℕ) (a : Activity) (x : Exchange) (more : List (ℕ × Activity))
    → (x.connections o).jobs.state ≡ open'
    → let y = schedule coroutine q a x in
      (y.connections o).jobs.queue ++ jobs_of o (length y.scheduled) more
      ≡ (x.connections o).jobs.queue ++ jobs_of o (length x.scheduled) ((q, a) ∷ more)
unfolding schedule enqueue jobs_of
schedule-queued q o a x more h =
    let next : length (x.scheduled ++ (q, a) ∷ []) ≡ suc (length x.scheduled) =
      omega (arith, length-append x.scheduled ((q, a) ∷ [])) in
    ground (
      arith,
      h,
      next,
      append_cons (x.connections o).jobs.queue (job (coroutine (length x.scheduled)))
          (jobs_of o (suc (length x.scheduled)) more),
    )

-- If the dictionary of the path has the entries, the loop over their addresses succeeds, and a
-- message to each of them is scheduled.
pub enqueue_to_responders-IsAnnounced :
    (create : ℕ → Outgoing) (m : Slots) (x : Exchange)
    → x.path.attached ≡ true
    → Has x.path.responders m
    → let (result, y) = enqueue_to_responders create (keys m) x in
      (result ≡ ok tt) × IsAnnounced create m x y
unfolding schedule enqueue_to_responders
enqueue_to_responders-IsAnnounced create [] x a h = (
  refl,
  record {
    path = refl;
    delivered = refl;
    scheduled = sym (append_nil x.scheduled);
    client = λ o. refl;
    queued = λ o h. unfold jobs_of in sym (append_nil (x.connections o).jobs.queue);
    kept = λ o h. refl;
    others = λ o n. refl;
  },
)
enqueue_to_responders-IsAnnounced create ((i, q) ∷ m) x a h =
    let x' = enqueue_send q (create i) x in
    let (fine, rest) = enqueue_to_responders-IsAnnounced create m x' a h.1 in
    rw (enqueue-step create i q (keys m) x a h.0) (
      fine,
      record {
        path = rest.path;
        delivered = rest.delivered;
        scheduled =
            rest.scheduled
            ∙ append_cons x.scheduled (q, sending (cooked (create i))) (to_responders create m);
        client = λ o. rest.client o ∙ schedule-client q (sending (cooked (create i))) x o;
        queued = λ o h.
            rest.queued o (schedule-state q (sending (cooked (create i))) x o ∙ h)
            ∙ schedule-queued q o (sending (cooked (create i))) x (to_responders create m) h;
        kept = λ o n.
            rest.kept o (λ h. n (sym (schedule-state q (sending (cooked (create i))) x o) ∙ h))
            ∙ schedule-kept q (sending (cooked (create i))) x o n;
        others = λ o n. ground (arith, rest.others o);
      },
    )

-- The addresses of the loop are read from the path.
pub enqueue_to_all :
    (create : ℕ → Outgoing) (x : Exchange)
    → x.path.attached ≡ true
    → (on_path get_responder_ids >>= enqueue_to_responders create) x
      ≡ enqueue_to_responders create (keys x.path.responders) x
unfolding get_responder_ids
enqueue_to_all create x a = rw a refl
