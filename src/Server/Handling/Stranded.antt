-- ===== src/Server/Handling/Stranded.antt =====
-- A client whose job queue holds a task that has failed: `handle_client` of saltyrtc/server/server.py
-- does not come to take the client off the path.
use saltyrtc_server_python.Prelude.{ℕ, ◌≡◌, refl, false, some, none, List, ◌∷◌, ◌++◌, leb}
use saltyrtc_server_python.Exception.{Error, err}
use saltyrtc_server_python.JobQueue as queue
use saltyrtc_server_python.JobQueue.{task, Entry, job, cancelled', state_value}
use saltyrtc_server_python.JobQueue.Count.{Counts, Unfailed, active_failure}
use saltyrtc_server_python.JobQueue.Failing.{cancel-IsStuck}
use saltyrtc_server_python.Server.Exchange.{world_of}
use saltyrtc_server_python.Server.Handling.{Site, end_client}
use saltyrtc_server_python.Server.Handling.Leaving.{same_world}

-- When the tasks of a client have ended, and its job queue, which was not cancelled yet, holds a
-- task that has failed, the first one that has, and the job that is awaited has not, then
-- `handle_client` raises the exception of that task in place of the result, and the client stays on
-- the path: the path, the states of all clients and the dictionary of the paths are as they were.
pub end_client-stranded :
    (r n : ℕ) (e f : Error) (before after : List Entry) (s : Site)
    → let q = (s.exchange.connections r).jobs in
      leb (state_value cancelled') (state_value q.state) ≡ false
      → active_failure q.failures q.active ≡ none
      → q.queue ≡ before ++ job (task n) ∷ after
      → Unfailed q.failures before
      → q.failures (task n) ≡ some f
      → Counts q
      → let (result, t) = end_client r e s in
        (result ≡ err f)
        × (world_of t.exchange ≡ world_of s.exchange)
        × (t.paths ≡ s.paths)
        × (t.server ≡ s.server)
unfolding end_client
end_client-stranded r n e f before after s live idle same u fails counts =
    let c = s.exchange.connections r in
    let (stuck, again) = cancel-IsStuck e f n before after c.jobs live idle same u fails counts in
    let d = record c { jobs = (queue.cancel e c.jobs).1 } in
    let kept = same_world r d s.exchange refl in rw stuck.raised (refl, kept, refl, refl)
