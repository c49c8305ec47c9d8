-- ===== src/Connection/Dropping.antt =====
-- What `PathClient.drop` of saltyrtc/server/protocol.py does to a client, to its jobs and to its
-- tasks.
use saltyrtc_server_python.Prelude.{
  ℕ, ◌≡◌, ◌≢◌, refl, true, false, [], ◌∷◌, ◌++◌, append_cons, arith,
}
use saltyrtc_server_python.Exception.{ok, disconnected}
use saltyrtc_server_python.Common.Address.{AddressType}
use saltyrtc_server_python.Common.State.{CloseCode, close_code_value, restricted, authenticated}
use saltyrtc_server_python.Client.{Client, set_state, p2p_allowed}
use saltyrtc_server_python.JobQueue.{JobQueue, coroutine, job, final, open', closed, put_jobs, stop}
use saltyrtc_server_python.JobQueue.Count.{Counts, stop-Counts}
use saltyrtc_server_python.JobQueue.Drain.{close_lem}
use saltyrtc_server_python.Tasks.{Tasks, Reason, future, cancel}
use saltyrtc_server_python.Tasks.Result.{IsValid, cancel-IsValid, stopping}
use saltyrtc_server_python.Connection.{Connection, drop, mark_dropped}

mark_dropped_lem :
    (t : AddressType) (c : Client)
    → let (result, d) = mark_dropped c in (result ≡ ok tt) × (p2p_allowed t d ≡ false)
unfolding set_state p2p_allowed
mark_dropped_lem t c = ground arith

cancel_marks : (r : Reason) (s : Tasks) → (cancel r s).cancelled ≡ true
unfolding cancel
cancel_marks r s = ground arith

cancel-stopping : (r : Reason) (s : Tasks) → IsValid s → stopping (cancel r s).tasks ≡ true
cancel-stopping r s v =
    let (remaining, none_yet, known, cancelled, asked, _, _) = cancel-IsValid r s v in
    asked (cancelled (cancel_marks r s))

stop_one :
    (n code : ℕ) (q : JobQueue)
    → let p = stop (disconnected code) (coroutine n ∷ []) (record q { state = closed }) in
      (p.queue ≡ q.queue ++ job (coroutine n) ∷ final (disconnected code) ∷ [])
      × (p.cancelled ≡ q.cancelled)
unfolding stop put_jobs
stop_one n code q = (append_cons q.queue (job (coroutine n)) (final (disconnected code) ∷ []), refl)

-- To drop a client with an open job queue never fails. The client cannot relay messages to any
-- other client from then on, all of its tasks that still run were asked to stop, and its pending
-- jobs are not cancelled: they stay in the queue, and are followed by the closing of the connection
-- and by the final job with the close code. The count of the unfinished jobs is kept.
pub drop_lem :
    (code : CloseCode) (n : ℕ) (t : AddressType) (c : Connection)
    → c.jobs.state ≡ open'
    → Counts c.jobs
    → IsValid c.tasks
    → let (result, d) = drop code n c in
      (result ≡ ok tt)
      × (p2p_allowed t d.client ≡ false)
      × (stopping d.tasks.tasks ≡ true)
      × (d.jobs.queue
          ≡ c.jobs.queue ++ job (coroutine n) ∷ final (disconnected (close_code_value code)) ∷ [])
      × (d.jobs.cancelled ≡ c.jobs.cancelled)
      × Counts d.jobs
unfolding drop
drop_lem code n t c s h v =
    let r = disconnected (close_code_value code) in
    let (fine, silent) = mark_dropped_lem t c.client in
    let (queue, kept) = stop_one n (close_code_value code) c.jobs in
    rw (close_lem r (coroutine n ∷ []) c.jobs s) (
      fine,
      silent,
      cancel-stopping (future c.closed) c.tasks v,
      queue,
      kept,
      stop-Counts r (coroutine n ∷ []) (record c.jobs { state = closed }) h,
    )

-- What the closing of the connection adds to an open queue.
pub drop_queue :
    (code : CloseCode) (n : ℕ) (c : Connection)
    → c.jobs.state ≡ open'
    → let d = (drop code n c).1 in
      (d.jobs.state ≢ open')
      × (d.jobs.queue
          ≡ c.jobs.queue ++ job (coroutine n) ∷ final (disconnected (close_code_value code)) ∷ [])
unfolding drop stop put_jobs
drop_queue code n c s =
    let r = disconnected (close_code_value code) in
    rw (close_lem r (coroutine n ∷ []) c.jobs s)
      ((λ e. ground (arith, e)), append_cons c.jobs.queue (job (coroutine n)) (final r ∷ []))

-- Who a client is stays the same when it is dropped, and it does not wait to be authenticated.
pub drop-state :
    (code : CloseCode) (n : ℕ) (c : Connection)
    → c.client.state ≢ restricted
    → let (result, d) = drop code n c in
      (result ≡ ok tt) × (d.client.state ≢ restricted) × (d.client.id ≡ c.client.id)
unfolding drop set_state
drop-state code n c s = ground (arith, s)

pub drop-silent :
    (code : CloseCode) (n : ℕ) (t : AddressType) (c : Connection)
    → p2p_allowed t (drop code n c).1.client ≡ false
unfolding drop
drop-silent code n t c = (mark_dropped_lem t c.client).1

pub drop-left :
    (code : CloseCode) (n : ℕ) (c : Connection)
    → let (result, d) = drop code n c in (result ≡ ok tt) × (d.client.state ≢ authenticated)
unfolding drop set_state
drop-left code n c = ground arith
