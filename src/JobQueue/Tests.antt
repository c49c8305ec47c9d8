-- ===== src/JobQueue/Tests.antt =====
-- A job queue of saltyrtc/server/task.py with a job and a runner.
use saltyrtc_server_python.Prelude.{◌≡◌, refl, none, some, [], ◌∷◌}
use saltyrtc_server_python.Exception.{Error, ok, disconnected, ping_timeout_error}
use saltyrtc_server_python.JobQueue.{
  coroutine, task, job, cancelled', Runner, getting, JobQueue, new, close, cancel,
}
use saltyrtc_server_python.JobQueue.Drain.{Served, serve, all_return, close-serve}
use saltyrtc_server_python.JobQueue.Failing.{IsStuck, cancel-IsStuck}

abbrev waiting : JobQueue
waiting = record new { queue = job (coroutine 1) ∷ []; unfinished = 1; runner = getting }

abbrev at_work : JobQueue
at_work = record new {
  unfinished = 1;
  active = some (task 2);
  runner = Runner.awaiting (task 2);
  failures = λ j. some (disconnected 1006);
}

close-serve_example : Served (coroutine 1 ∷ task 2 ∷ []) (disconnected 1001) waiting (
    serve
      (all_return (coroutine 1 ∷ task 2 ∷ []))
      (close (disconnected 1001) (task 2 ∷ []) waiting).1)
unfolding new
close-serve_example =
    close-serve (disconnected 1001) (coroutine 1 ∷ []) (task 2 ∷ []) waiting refl refl refl refl

-- A relay task that has failed is between two coroutines.
abbrev broken : JobQueue
broken = record new {
  queue = job (coroutine 1) ∷ job (task 2) ∷ job (coroutine 3) ∷ [];
  unfinished = 3;
  runner = getting;
  failures = λ j. elim j [ task n ↦ some (disconnected 1006) | coroutine n ↦ none ];
}

cancel-IsStuck_example :
    IsStuck
      (disconnected 1006)
      (job (coroutine 3) ∷ [])
      (record broken { state = cancelled' })
      (cancel ping_timeout_error broken)
    × ((r' : Error)
        → cancel r' (cancel ping_timeout_error broken).1
          ≡ (ok tt, (cancel ping_timeout_error broken).1))
unfolding new
cancel-IsStuck_example =
    cancel-IsStuck ping_timeout_error (disconnected 1006) 2 (job (coroutine 1) ∷ [])
      (job (coroutine 3) ∷ []) broken refl refl refl (refl, tt) refl refl
