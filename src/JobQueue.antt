-- ===== src/JobQueue.antt =====
-- `JobQueue` of saltyrtc/server/task.py, with `cancel_awaitable` of saltyrtc/server/util.py.
--
-- The queue is the `asyncio.Queue` of the source: its entries, and the number of entries that
-- `task_done` was not called for yet. A done-callback on a task is called by the event loop
-- later: `callbacks` are the tasks whose callback `_job_done` is still to be called. The runner
-- task is where `_run` waits: for an entry, or for a job. `failures` is what the event loop knows of
-- the tasks: the exception of the task of a job that has ended with one. A coroutine has a task from
-- the time at which the runner awaits it. `cancelled`, `processed` and `results` record what was
-- cancelled, awaited by the runner and handed to the result handler, in order.
pub mod Count
pub mod Events
pub mod Drain
pub mod Failing
pub mod Breaking
pub mod Tests
use saltyrtc_server_python.Prelude.{
  ℕ, zero, suc, ◌+◌, ◌≡◌, Bool, true, false, Option, none, some, List, [], ◌∷◌, ◌++◌, leb,
  if◌then◌else◌,
}
use saltyrtc_server_python.Exception.{Error, Result, ok, err, internal_error}
use saltyrtc_server_python.Exec.{Exec, pure, raise, modify, continue, ◌>>=◌, ◌>>◌}

pub data Job : Type 0 where
  coroutine task : ℕ → Job

pub data Entry : Type 0 where
  job : Job → Entry
  final : Error → Entry

pub data JobQueueState : Type 0 where
  open' closed cancelled' completed : JobQueueState

abbrev pub state_value : JobQueueState → ℕ
state_value open' = 1
state_value closed = 2
state_value cancelled' = 3
state_value completed = 4

pub data Runner : Type 0 where
  not_started getting done : Runner
  awaiting : Job → Runner

pub record JobQueue : Type 0 where
  pub state : JobQueueState
  pub queue : List Entry
  pub unfinished : ℕ
  pub active : Option Job
  pub runner : Runner
  pub callbacks : List Job
  pub failures : Job → Option Error
  pub cancelled : List Job
  pub processed : List Job
  pub results : List Error

-- `JobQueue.__init__`
unfoldable pub new : JobQueue
new = record {
  state = open';
  queue = [];
  unfinished = 0;
  active = none;
  runner = not_started;
  callbacks = [];
  failures = λ j. none;
  cancelled = [];
  processed = [];
  results = [];
}

-- `self._queue.put_nowait(entry)`
abbrev pub put : Entry → JobQueue → JobQueue
put e q = record q { queue = q.queue ++ e ∷ []; unfinished = q.unfinished + 1 }

-- `self._queue.task_done()`, whose `ValueError` is raised again as `InternalError`
abbrev task_done : ℕ → JobQueue → Result (Unit {0}) × JobQueue
task_done zero q = (err internal_error, q)
task_done (suc n) q = (ok tt, record q { unfinished = n })

unfoldable pub job_done : Exec JobQueue (Unit {0})
job_done q = task_done q.unfinished q

abbrev pub note_cancelled : Job → JobQueue → JobQueue
note_cancelled j q = record q { cancelled = q.cancelled ++ j ∷ [] }

-- `cancel_awaitable` for a task: a task that is running is cancelled, one that has returned or was
-- cancelled is ignored, and the exception of one that has failed is raised again, by the call of
-- `task.result()`.
abbrev pub cancel_task : Job → Exec JobQueue (Unit {0})
cancel_task j q = elim (q.failures j) [ none ↦ (ok tt, note_cancelled j q) | some e ↦ (err e, q) ]

-- `cancel_awaitable(job, log)`
abbrev pub cancel_awaitable : Job → Exec JobQueue (Unit {0})
cancel_awaitable (coroutine n) = modify (note_cancelled (coroutine n))
cancel_awaitable (task n) = cancel_task (task n)

-- `cancel_awaitable(job, log, done_cb=self._job_done)`: the callback of a coroutine is called at
-- once, the one of a task when the task is done.
unfoldable pub cancel_job : Job → Exec JobQueue (Unit {0})
cancel_job (coroutine n) = do cancel_awaitable (coroutine n); job_done
cancel_job (task n) = do
  cancel_awaitable (task n)
  modify (λ q. record q { callbacks = q.callbacks ++ task n ∷ [] })

unfoldable pub enqueue : Job → Exec JobQueue (Unit {0})
enqueue j q = elim q.state [ open' ↦ (ok tt, put (job j) q) | _ ↦ cancel_awaitable j q ]

unfoldable pub put_jobs : List Job → JobQueue → JobQueue
put_jobs [] q = q
put_jobs (j ∷ js) q = put_jobs js (put (job j) q)

unfoldable pub cancel_awaitables : List Job → Exec JobQueue (Unit {0})
cancel_awaitables [] = pure tt
cancel_awaitables (j ∷ js) = do cancel_awaitable j; cancel_awaitables js

-- `JobQueue._stop`
unfoldable pub stop : Error → List Job → JobQueue → JobQueue
stop result jobs q = put (final result) (put_jobs jobs q)

unfoldable pub close : Error → List Job → Exec JobQueue (Unit {0})
close result jobs q =
    if leb (state_value closed) (state_value q.state)
    then cancel_awaitables jobs q
    else (ok tt, stop result jobs (record q { state = closed }))

-- One entry of the queue that `_cancel` takes out.
unfoldable pub cancel_entry : Entry → Exec JobQueue (Unit {0})
unfolding cancel_job job_done
cancel_entry (job j) = cancel_job j
cancel_entry (final r) = job_done

-- The loop of `_cancel` over the entries of the queue.
unfoldable pub drain : List Entry → Exec JobQueue (Unit {0})
drain [] = pure tt
drain (e ∷ es) = do modify (λ q. record q { queue = es }); cancel_entry e; drain es

-- The active job is the task that the runner awaits.
abbrev pub cancel_active : Exec JobQueue (Unit {0})
cancel_active q = elim q.active [
  | none ↦ (ok tt, q)
  | some j ↦ (do cancel_task j; modify (λ p. record p { active = none })) q
]

abbrev pub mark_cancelled : JobQueue → JobQueue
mark_cancelled q =
    if leb (state_value cancelled') (state_value q.state)
    then q
    else record q { state = cancelled' }

-- `JobQueue._cancel`
unfoldable pub cancel_all : Exec JobQueue (Unit {0})
cancel_all = do modify mark_cancelled; cancel_active; (λ q. drain q.queue q)

unfoldable pub cancel : Error → Exec JobQueue (Unit {0})
unfolding stop
cancel result q =
    if leb (state_value cancelled') (state_value q.state)
    then (ok tt, q)
    else (do cancel_all; modify (stop result [])) q

unfoldable pub start : Exec JobQueue (Unit {0})
start q = elim q.runner [
  | not_started ↦ (ok tt, record q { runner = getting })
  | _ ↦ (err internal_error, q)
]

abbrev finish : Error → List Entry → Exec JobQueue (Unit {0})
finish r es = do
  modify (λ q. record q { queue = es; state = completed })
  job_done
  modify (λ q. record q { results = q.results ++ r ∷ []; runner = done })

abbrev take_entry : List Entry → Exec JobQueue (Unit {0})
take_entry [] = pure tt
take_entry (final r ∷ es) = finish r es
take_entry (job j ∷ es) = modify (λ q. record q {
  queue = es;
  active = some j;
  runner = awaiting j;
  processed = q.processed ++ j ∷ [];
})

-- `_run` gets the next entry: it stops at the final job and awaits any other. At an empty queue
-- it waits.
unfoldable pub run_get : Exec JobQueue (Unit {0})
unfolding job_done
run_get q = elim q.runner [ getting ↦ take_entry q.queue q | _ ↦ (ok tt, q) ]

-- The runner is cancelled while it waits for an entry.
unfoldable pub run_cancelled : JobQueue → JobQueue
run_cancelled q = elim q.runner [ getting ↦ record q { runner = done } | _ ↦ q ]

-- `future.add_done_callback(self._job_done)`
abbrev pub job_callback : Job → JobQueue → JobQueue
job_callback j q = record q { active = none; runner = getting; callbacks = q.callbacks ++ j ∷ [] }

-- The awaited job returns.
unfoldable pub run_returned : Exec JobQueue (Unit {0})
unfolding job_done
run_returned q = elim q.runner [
  | awaiting j ↦ (do modify (λ p. record p { active = none; runner = getting }); job_done) q
  | _ ↦ (ok tt, q)
]

abbrev pub interrupt_at : Runner → JobQueue → JobQueue
interrupt_at (awaiting j) q = job_callback j q
interrupt_at _ q = q

-- The awaited job raises `CancelledError`.
unfoldable pub run_interrupted : JobQueue → JobQueue
run_interrupted q = interrupt_at q.runner q

abbrev pub fail_at : Runner → Error → Exec JobQueue (Unit {0})
fail_at (awaiting j) e = do
  modify (λ p. record p { active = none })
  cancel e
  modify (λ p. job_callback j (record p { results = p.results ++ e ∷ [] }))
fail_at _ e = pure tt

-- The awaited job raises another exception: all pending jobs are cancelled, and the exception is
-- handed to the result handler.
unfoldable pub run_failed : Error → Exec JobQueue (Unit {0})
run_failed e q = fail_at q.runner e q

abbrev call_first : List Job → Exec JobQueue (Unit {0})
call_first [] = pure tt
call_first (j ∷ js) = do modify (λ p. record p { callbacks = js }); job_done

-- The event loop calls the next done-callback.
unfoldable pub run_callback : Exec JobQueue (Unit {0})
unfolding job_done
run_callback q = call_first q.callbacks q
