-- ===== src/Server/Handling/Entering.antt =====
-- How the handshake of a client ends, and what is started then.
use saltyrtc_server_python.Prelude.{
  ℕ, ◌≡◌, refl, ap, ◌∙◌, Bool, true, false, some, List, [], ◌∷◌, length, arith,
}
use saltyrtc_server_python.Exception.{Error, ok, err}
use saltyrtc_server_python.Common.Address.{AddressType, server, initiator, responder}
use saltyrtc_server_python.JobQueue as queue
use saltyrtc_server_python.JobQueue.{not_started, getting}
use saltyrtc_server_python.JobQueue.Count.{Counts, IsHealthy, cancel-Fine, cancel-runner}
use saltyrtc_server_python.Tasks as tasks
use saltyrtc_server_python.Tasks.{Tasks}
use saltyrtc_server_python.Server.Exchange.{Exchange}
use saltyrtc_server_python.Server.Events.{
  Server, notify_initiator_connected, notify_responder_connected,
}
use saltyrtc_server_python.Value.{Text}
use saltyrtc_server_python.Server.Handling.{
  Site, Loop, initiator_receive_loop, responder_receive_loop, keep_alive_loop, enter, start_client,
  abort_client,
}

-- A client whose handshake has just ended: nothing of it was started.
abbrev pub IsFresh : ℕ → Exchange → Type 0
IsFresh r x =
    ((x.connections r).tasks ≡ tasks.new)
    × ((x.connections r).jobs.runner ≡ not_started)
    × Counts (x.connections r).jobs
    × IsHealthy (x.connections r).jobs

-- What starting a client comes to.
start_client_lem :
    (r : ℕ) (loops : List Loop) (x : Exchange)
    → (x.connections r).jobs.runner ≡ not_started
    → (x.connections r).tasks.started ≡ false
    → let c = x.connections r in
      let (result, y) = start_client r loops x in
      (result ≡ ok tt)
      × (y.path ≡ x.path)
      × (y.connections r ≡ record c {
        jobs = record c.jobs { runner = getting };
        tasks = (tasks.start (length loops) c.tasks).1;
      })
unfolding start_client queue.start tasks.start
start_client_lem r loops x waiting fresh = ground (arith, waiting, fresh)

-- What aborting one comes to.
abort_client_lem :
    (r : ℕ) (e : Error) (x : Exchange)
    → Counts (x.connections r).jobs
    → IsHealthy (x.connections r).jobs
    → let c = x.connections r in
      let (result, y) = abort_client r e x in
      (result ≡ ok tt)
      × (y.path ≡ x.path)
      × (y.connections r ≡ record c {
        jobs = (queue.cancel e c.jobs).1;
        tasks = tasks.cancel (tasks.result e) c.tasks;
      })
unfolding abort_client
abort_client_lem r e x counts healthy =
    let (fine, count) = cancel-Fine e (x.connections r).jobs healthy counts in
    rw fine (ground arith)

abbrev aborted : Error → Tasks
aborted e = (tasks.start 0 (tasks.cancel (tasks.result e) tasks.new)).1

aborted_lem :
    (e : Error)
    → ((aborted e).result_future ≡ some e)
      × ((aborted e).tasks ≡ [])
      × ((tasks.cancel (tasks.result e) tasks.new).started ≡ false)
unfolding tasks.start tasks.cancel tasks.new
aborted_lem e = (refl, refl, refl)

-- After a handshake that failed, the result of the tasks of the client is the error of the
-- handshake, and no task is started; no event is raised, and the path is as it was.
pub enter-aborted :
    (r : ℕ) (e : Error) (s : Site)
    → IsFresh r s.exchange
    → let (result, t) = enter r (err e) s in
      let c = t.exchange.connections r in
      (result ≡ ok [])
      × (c.tasks.result_future ≡ some e)
      × (c.tasks.tasks ≡ [])
      × (t.server ≡ s.server)
      × (t.exchange.path ≡ s.exchange.path)
unfolding enter
enter-aborted r e s (fresh, waiting, counts, healthy) =
    let (ran, path, conn) = abort_client_lem r e s.exchange counts healthy in
    let x = (abort_client r e s.exchange).1 in
    let (future, none', idle) = aborted_lem e in
    let cancelled = λ (t : Tasks). tasks.cancel (tasks.result e) t in
    let (started, path', conn') =
      start_client_lem r [] x
        (ap (λ c. c.jobs.runner) conn
          ∙ cancel-runner e (s.exchange.connections r).jobs healthy counts
          ∙ waiting)
        (ap (λ c. c.tasks.started) conn ∙ ap (λ t. (cancelled t).started) fresh ∙ idle) in
    let after : ((start_client r [] x).1.connections r).tasks ≡ aborted e =
      ap (λ c. c.tasks) conn'
      ∙ ap (λ c. (tasks.start 0 c.tasks).1) conn
      ∙ ap (λ t. (tasks.start 0 (cancelled t)).1) fresh in
    rw (ran, started)
      (
        refl,
        ap (λ t. t.result_future) after ∙ future,
        ap (λ t. t.tasks) after ∙ none',
        refl,
        path' ∙ path,
      )

-- The event of a client that is admitted.
abbrev pub admission : AddressType → Text → Server → Server
admission initiator path = notify_initiator_connected path
admission _ path = notify_responder_connected path

-- The receive loop for the type of a client, and the keep-alive loop.
abbrev pub loops_of : AddressType → Bool → List Loop
loops_of initiator true = initiator_receive_loop ∷ keep_alive_loop ∷ []
loops_of responder true = responder_receive_loop ∷ keep_alive_loop ∷ []
loops_of _ _ = []
