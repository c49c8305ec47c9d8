-- ===== src/Server/KeepAlive.antt =====
-- `ServerProtocol.keep_alive_loop` of saltyrtc/server/server.py, with `PathClient.ping` and
-- `wait_pong` of saltyrtc/server/protocol.py.
--
-- What the transport library answers to a ping is an argument: a future for the pong, or that the
-- connection is closed, with the code; and then what becomes of the future within the time that the
-- loop waits for it. The futures are not told apart. At each of its awaits the task of the loop can
-- be cancelled, while it sleeps, pings or waits.
-- A round of the loop has its answers; after the last one the loop sleeps.
pub mod Ending
use saltyrtc_server_python.Prelude.{ℕ, ◌+◌, Bool, true, false, List, [], ◌∷◌, ◌==◌, if◌then◌else◌}
use saltyrtc_server_python.Exception.{ok, err, ping_timeout_error, cancelled_error}
use saltyrtc_server_python.Exec.{Exec, pure, raise, modify, continue, ◌>>=◌, ◌>>◌}
use saltyrtc_server_python.Client.{Client}
use saltyrtc_server_python.Connection as connection
use saltyrtc_server_python.Connection.{Connection}
use saltyrtc_server_python.Server.Exchange.{Exchange, set_connection, close_jobs}

pub data Pong : Type 0 where
  answered timed_out cancelled_while_waiting : Pong
  closed_while_waiting : ℕ → Pong

pub data Ping : Type 0 where
  pinged : Pong → Ping
  closed_while_pinging : ℕ → Ping
  cancelled_while_pinging : Ping

pub data Round : Type 0 where
  slept : Ping → Round
  cancelled_while_sleeping : Round

-- `PathClient.ping`
unfoldable pub ping : ℕ → Ping → Exec Exchange Pong
unfolding connection.close
ping r (pinged pong) = pure pong
ping r (closed_while_pinging code) = close_jobs r code
ping r cancelled_while_pinging = raise cancelled_error

-- `PathClient.wait_pong`, within the time that `asyncio.wait_for` gives it.
unfoldable pub wait_pong : ℕ → Pong → Exec Exchange (Unit {0})
unfolding connection.close
wait_pong r answered = pure tt
wait_pong r timed_out = raise ping_timeout_error
wait_pong r (closed_while_waiting code) = close_jobs r code
wait_pong r cancelled_while_waiting = raise cancelled_error

abbrev count_ping : Connection → Connection
count_ping c = record c {
  client = record c.client { keep_alive_pings = c.client.keep_alive_pings + 1 };
}

-- One round of `keep_alive_loop`.
unfoldable pub keep_alive_round : ℕ → Round → Exec Exchange (Unit {0})
unfolding ping wait_pong
keep_alive_round r cancelled_while_sleeping = raise cancelled_error
keep_alive_round r (slept answer) = do
  pong ← ping r answer
  wait_pong r pong
  modify (λ x. set_connection r (count_ping (x.connections r)) x)

-- `keep_alive_loop`: `ok` while it is running.
unfoldable pub keep_alive_loop : ℕ → List Round → Exec Exchange (Unit {0})
unfolding keep_alive_round
keep_alive_loop r [] = pure tt
keep_alive_loop r (round ∷ rounds) = do keep_alive_round r round; keep_alive_loop r rounds
