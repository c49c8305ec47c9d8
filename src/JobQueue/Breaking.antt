-- ===== src/JobQueue/Breaking.antt =====
-- A job that raises an exception when `JobQueue._run` awaits it: the pending jobs are cancelled, and
-- the runner comes to its end.
use saltyrtc_server_python.Prelude.{◌≡◌, some, List, [], ◌∷◌, ◌++◌}
use saltyrtc_server_python.JobQueue.{Job, Entry, awaiting, JobQueue, mark_cancelled, cancel_active}

abbrev Kept : JobQueue → JobQueue → Type 0
Kept q p = (p.processed ≡ q.processed) × (p.results ≡ q.results)

-- The runner has taken the job.
abbrev taken : Job → List Entry → JobQueue → JobQueue
taken j es q = record q {
  queue = es;
  active = some j;
  runner = awaiting j;
  processed = q.processed ++ j ∷ [];
}
