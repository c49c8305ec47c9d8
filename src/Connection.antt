-- ===== src/Connection.antt =====
-- A client with its job queue and its tasks, and `PathClient.close` and `PathClient.drop` of
-- saltyrtc/server/protocol.py. The connection is closed by the transport library.
pub mod Dropping
pub mod Tests
use saltyrtc_server_python.Prelude.{ℕ, ◌≡◌, Bool, true, false, Option, List, [], ◌∷◌, if◌then◌else◌}
use saltyrtc_server_python.Exception.{Result, ok, err, disconnected}
use saltyrtc_server_python.Exec.{Exec}
use saltyrtc_server_python.Common.State.{
  CloseCode, close_code_value, authenticated, dropped, state_eq,
}
use saltyrtc_server_python.Client.{Client, set_state}
use saltyrtc_server_python.JobQueue
use saltyrtc_server_python.JobQueue.{JobQueue, coroutine}
use saltyrtc_server_python.Tasks
use saltyrtc_server_python.Tasks.{Tasks, future}

-- `closed` stands for `_connection_closed_future`.
pub record Connection : Type 0 where
  pub client : Client
  pub jobs : JobQueue
  pub tasks : Tasks
  pub closed : ℕ

-- `PathClient.close`, up to the call of the transport library. No job comes with the closing of the
-- queue, so that there is nothing to cancel, and the closing raises nothing.
unfoldable pub close : ℕ → Connection → Connection
close code c = record c {
  jobs = (saltyrtc_server_python.JobQueue.close (disconnected code) [] c.jobs).1;
}

abbrev pub mark_dropped : Exec Client (Unit {0})
mark_dropped c = if state_eq c.state authenticated then set_state dropped c else (ok tt, c)

-- `n` is the coroutine of `close`, which the job queue runs after the pending jobs. A queue that is
-- closed already closes this coroutine, which raises nothing.
unfoldable pub drop : CloseCode → ℕ → Exec Connection (Unit {0})
drop code n c =
    let (result, client) = mark_dropped c.client in
    (
      result,
      record c {
        client = client;
        jobs =
            (saltyrtc_server_python.JobQueue.close (disconnected (close_code_value code))
              (coroutine n ∷ []) c.jobs).1;
        tasks = saltyrtc_server_python.Tasks.cancel (future c.closed) c.tasks;
      },
    )
