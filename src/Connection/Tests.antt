-- ===== src/Connection/Tests.antt =====
-- An authenticated client of saltyrtc/server/protocol.py that is dropped with a job in its queue.
use saltyrtc_server_python.Prelude.{◌≡◌, refl, true, false, [], ◌∷◌}
use saltyrtc_server_python.Exception.{ok, disconnected}
use saltyrtc_server_python.Common.Address.{responder}
use saltyrtc_server_python.Common.State.{authenticated, drop_by_initiator}
use saltyrtc_server_python.Client.{p2p_allowed}
use saltyrtc_server_python.Client.Tests.{newcomer}
use saltyrtc_server_python.JobQueue
use saltyrtc_server_python.JobQueue.{coroutine, task, job, final, getting}
use saltyrtc_server_python.JobQueue.Count.{Counts}
use saltyrtc_server_python.Tasks
use saltyrtc_server_python.Tasks.Result.{stopping, starts, step, step-IsValid}
use saltyrtc_server_python.Tasks.Tests.{new-IsValid}
use saltyrtc_server_python.Connection.{Connection, drop}
use saltyrtc_server_python.Connection.Dropping.{drop_lem}

abbrev dropper : Connection
dropper = record {
  client = record newcomer { state = authenticated; id = 1 };
  jobs = record JobQueue.new { queue = job (task 1) ∷ []; unfinished = 1; runner = getting };
  tasks = step (starts 2) Tasks.new;
  closed = 7;
}

drop_lem_example :
    let (result, d) = drop drop_by_initiator 5 dropper in
    (result ≡ ok tt)
    × (p2p_allowed responder d.client ≡ false)
    × (stopping d.tasks.tasks ≡ true)
    × (d.jobs.queue ≡ job (task 1) ∷ job (coroutine 5) ∷ final (disconnected 3004) ∷ [])
    × (d.jobs.cancelled ≡ [])
    × Counts d.jobs
unfolding JobQueue.new
drop_lem_example =
    drop_lem drop_by_initiator 5 responder dropper refl refl
      (step-IsValid (starts 2) Tasks.new new-IsValid)
