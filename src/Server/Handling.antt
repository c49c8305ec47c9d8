-- ===== src/Server/Handling.antt =====
-- `ServerProtocol.handle_client` and `ServerProtocol.handler` of saltyrtc/server/server.py: what is
-- done with a client after its handshake, and when its tasks have ended.
--
-- The path of the client is in the exchange; it is also one of the objects of the dictionary, under
-- its number, and is written back there before the dictionary is cleaned. At an `await` another
-- task may run; what is modelled is the run in which none does: `enter` goes up to the wait for the
-- result of the tasks, and `leave` begins with this result. The wait for the job queue, and the one
-- for the connection to be closed, end.
pub mod Cleaning
pub mod Leaving
pub mod Initiator
pub mod Farewell
pub mod Stranded
pub mod Entering
pub mod Naming
pub mod Tests
use saltyrtc_server_python.Prelude.{
  ℕ, ◌+◌, ◌-◌, Bool, true, false, Option, none, some, List, [], ◌∷◌, ◌++◌, length, Bytes, ◌==◌, leb,
  ◌/◌, ◌%◌, if◌then◌else◌,
}
use saltyrtc_server_python.Exception.{Error, Result, ok, err, value_error}
use saltyrtc_server_python.Exec.{
  Exec, pure, raise, lift, gets, modify, ensure, continue, ◌>>=◌, ◌>>◌,
}
use saltyrtc_server_python.Value.{Text}
use saltyrtc_server_python.Common.Address.{AddressType, initiator, responder}
use saltyrtc_server_python.Common.State.{CloseCode, close_code_value}
use saltyrtc_server_python.JobQueue as queue
use saltyrtc_server_python.JobQueue.{JobQueue}
use saltyrtc_server_python.Tasks as tasks
use saltyrtc_server_python.Tasks.{Tasks}
use saltyrtc_server_python.Connection as connection
use saltyrtc_server_python.Connection.{Connection}
use saltyrtc_server_python.SignalingPath.{SignalingPath, has_client, remove_client}
use saltyrtc_server_python.Server.Paths.{Paths, store, clean}
use saltyrtc_server_python.Server.Exchange.{Exchange, on_path, on_connection, set_connection}
use saltyrtc_server_python.Server.Events.{
  Server, unregister, notify_initiator_connected, notify_responder_connected, notify_disconnected,
}
use saltyrtc_server_python.Server.Closing.{close_code_of, reported}
use saltyrtc_server_python.Server.Relay.{announce_disconnected}
use saltyrtc_server_python.Server.Shutdown.{ignored}

pub record Site : Type 0 where
  pub server : Server
  pub paths : Paths
  pub exchange : Exchange

abbrev pub on_exchange : {A : Type 0} → Exec Exchange A → Exec Site A
on_exchange m s = let (result, x) = m s.exchange in (result, record s { exchange = x })

abbrev pub on_server : {A : Type 0} → Exec Server A → Exec Site A
on_server m s = let (result, server) = m s.server in (result, record s { server = server })

abbrev pub of_jobs : {A : Type 0} → Exec JobQueue A → Exec Connection A
of_jobs m c = let (result, jobs) = m c.jobs in (result, record c { jobs = jobs })

abbrev pub of_tasks : {A : Type 0} → Exec Tasks A → Exec Connection A
of_tasks m c = let (result, tasks) = m c.tasks in (result, record c { tasks = tasks })

-- The hexadecimal digit of a value below 16.
abbrev pub hex_digit : ℕ → ℕ
hex_digit n = if leb n 9 then n + 48 else n + 87

-- `binascii.hexlify(data).decode('ascii')`
unfoldable pub hexlify : Bytes → Text
hexlify [] = []
hexlify (b ∷ bs) = hex_digit (b / 16) ∷ hex_digit (b % 16) ∷ hexlify bs

-- `handle_client`, if the handshake has failed with an exception
unfoldable pub abort_client : ℕ → Error → Exec Exchange (Unit {0})
unfolding queue.cancel tasks.cancel
abort_client r e = do
  on_connection r (of_jobs (queue.cancel e))
  on_connection r (of_tasks (modify (tasks.cancel (tasks.result e))))

-- The coroutines of a client.
pub data Loop : Type 0 where
  initiator_receive_loop responder_receive_loop keep_alive_loop : Loop

-- The receive loop, if the client is still connected, after the event of the connection.
abbrev add_receive_loop : Option AddressType → Bool → Text → Exec Server (List Loop)
add_receive_loop (some initiator) is_connected path = do
  modify (notify_initiator_connected path)
  pure (if is_connected then initiator_receive_loop ∷ [] else [])
add_receive_loop (some responder) is_connected path = do
  modify (notify_responder_connected path)
  pure (if is_connected then responder_receive_loop ∷ [] else [])
add_receive_loop _ is_connected path = raise value_error

-- `handle_client`, if the handshake is completed: the set of the tasks is returned.
unfoldable pub admit_client : ℕ → Exec Site (List Loop)
unfolding has_client hexlify notify_initiator_connected notify_responder_connected
admit_client r = do
  is_connected ← on_exchange (on_path (has_client r))
  key ← gets (λ s. s.exchange.path.initiator_key)
  type ← gets (λ s. (s.exchange.connections r).client.type)
  loops ← on_server (add_receive_loop type is_connected (hexlify key))
  pure (if is_connected then loops ++ keep_alive_loop ∷ [] else loops)

abbrev after_handshake : ℕ → Result (Unit {0}) → Exec Site (List Loop)
after_handshake r (ok u) = admit_client r
after_handshake r (err e) = do on_exchange (abort_client r e); pure []

-- `client.jobs.start(client.tasks.cancel)` and `client.tasks.start(tasks)`
unfoldable pub start_client : ℕ → List Loop → Exec Exchange (Unit {0})
unfolding queue.start tasks.start
start_client r loops = do
  on_connection r (of_jobs queue.start)
  on_connection r (of_tasks (tasks.start (length loops)))

-- `handle_client` from the end of the handshake, up to the wait for the result of the tasks; the
-- loops that run then are returned.
unfoldable pub enter : ℕ → Result (Unit {0}) → Exec Site (List Loop)
unfolding abort_client admit_client start_client
enter r handshake = do
  loops ← after_handshake r handshake
  on_exchange (start_client r loops)
  pure loops

-- `path.remove_client(client)`, whose `KeyError` and `ValueError` are ignored.
unfoldable pub forget_client : ℕ → Exec Exchange (Unit {0})
unfolding remove_client
forget_client r x = let (result, y) = on_path (remove_client r) x in (ignored result, y)

-- `self._server.paths.clean(path)`
unfoldable pub clean_path : Site → Site
unfolding clean
clean_path s =
    let n = s.exchange.path.number in
    let paths = clean n (record s.paths { objects = store s.paths.objects n s.exchange.path }) in
    record s { paths = paths; exchange = record s.exchange { path = paths.objects n } }

-- `handle_client` from the result of the tasks, which it raises
unfoldable pub end_client : ℕ → Error → Exec Site (Unit {0})
unfolding queue.cancel forget_client clean_path
end_client r e = do
  on_exchange (on_connection r (of_jobs (queue.cancel e)))
  on_exchange (forget_client r)
  modify (λ s. if s.exchange.path.attached then clean_path s else s)
  raise e

-- `client.close(code)`, if the connection is not closed already
abbrev pub close_client : ℕ → Option CloseCode → Exec Exchange (Unit {0})
close_client r none = pure tt
close_client r (some code) =
    modify (λ x. set_connection r (connection.close (close_code_value code) (x.connections r)) x)

-- `handler` from the exception that `handle_client` has raised
unfoldable pub end_handler : ℕ → Error → Exec Site (Unit {0})
unfolding hexlify reported close_code_of notify_disconnected connection.close announce_disconnected
    unregister
end_handler r e = do
  key ← gets (λ s. s.exchange.path.initiator_key)
  on_server (modify (notify_disconnected (some (hexlify key)) (reported e)))
  on_exchange (close_client r (close_code_of e))
  on_exchange (announce_disconnected r)
  on_server (unregister r)

abbrev handle_exception : ℕ → Result (Unit {0}) → Exec Site (Unit {0})
handle_exception r (ok u) = pure tt
handle_exception r (err e) = end_handler r e

-- `handler` from the result of the tasks of its client
unfoldable pub leave : ℕ → Error → Exec Site (Unit {0})
unfolding end_client end_handler
leave r e s = let (result, t) = end_client r e s in handle_exception r result t
