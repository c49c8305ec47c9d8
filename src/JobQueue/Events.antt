-- ===== src/JobQueue/Events.antt =====
-- Whatever may happen to a job queue, and what it does to the count of unfinished entries.
use saltyrtc_server_python.Prelude.{Bool, true, false, some, List, [], ◌∷◌, ◌==◌, if◌then◌else◌}
use saltyrtc_server_python.Exception.{Error}
use saltyrtc_server_python.Exec.{Exec, modify}
use saltyrtc_server_python.JobQueue.{
  Job, coroutine, task, not_started, JobQueue, enqueue, close, cancel_all, cancel, start, run_get,
  run_returned, run_cancelled, run_interrupted, run_failed, run_callback,
}
use saltyrtc_server_python.JobQueue.Count.{Cancellable, Unfailed, IsHealthy}

-- What happens to a job queue: the calls of its methods, and the steps of its runner and of the
-- event loop. `join_cancelled` is what `join` does when it is cancelled; with `breaks` a task ends with
-- an exception, whether or not the runner awaits it.
pub data Event : Type 0 where
  enqueues : Job → Event
  closes : Error → List Job → Event
  cancels : Error → Event
  starts gets returns interrupts calls_back join_cancelled runner_cancelled : Event
  fails : Error → Event
  breaks : Job → Error → Event

abbrev job_eq : Job → Job → Bool
job_eq (coroutine n) (coroutine m) = n == m
job_eq (task n) (task m) = n == m
job_eq _ _ = false

unfoldable pub step : Event → Exec JobQueue (Unit {0})
step (enqueues j) = enqueue j
step (closes r js) = close r js
step (cancels r) = cancel r
step starts = start
step gets = run_get
step returns = run_returned
step interrupts = modify run_interrupted
step calls_back = run_callback
step join_cancelled = cancel_all
step runner_cancelled = modify run_cancelled
step (fails e) = run_failed e
step (breaks j e) =
    modify (λ q. record q { failures = λ i. if job_eq i j then some e else q.failures i })

-- A start of a runner that has been started.
abbrev pub is_restart : Event → JobQueue → Bool
is_restart starts q = elim q.runner [ not_started ↦ false | _ ↦ true ]
is_restart _ q = false

-- The tasks that an event may cancel have not failed: those in the queue and the one that the runner
-- awaits, when the queue is cancelled; those behind the job that raises an exception; and those that
-- come with a call.
abbrev pub IsReady : Event → JobQueue → Type 0
IsReady (enqueues j) q = Cancellable q.failures (j ∷ [])
IsReady (closes r js) q = Cancellable q.failures js
IsReady (cancels r) q = IsHealthy q
IsReady join_cancelled q = IsHealthy q
IsReady (fails e) q = Unfailed q.failures q.queue
IsReady _ q = Unit
