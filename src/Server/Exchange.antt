-- ===== src/Server/Exchange.antt =====
-- The clients of a path with their connections, and what one of them does to the others:
-- `PathClient.send` and `receive` of saltyrtc/server/protocol.py, and `_drop_client` and the jobs
-- that saltyrtc/server/server.py adds to the queue of a client.
--
-- A coroutine or a task that is added to a queue is a number: its place in `scheduled`, where the
-- client that it belongs to stands, with what it does; whether a closed queue has refused it is seen
-- in the queue. `delivered` are the packets that the
-- transport library has taken, with their receivers. The transport library is not part of the
-- repository: what it answers is an argument, `none` for success, or the code of
-- `ConnectionClosed`.
pub mod Announcing
use saltyrtc_server_python.Prelude.{
  ℕ, ◌+◌, ◌≡◌, Bool, true, false, not, Option, none, some, List, [], ◌∷◌, ◌++◌, Bytes, length, ◌==◌,
  if◌then◌else◌,
}
use saltyrtc_server_python.Exception.{
  Error, Result, ok, err, disconnected, assertion_error, message_error,
}
use saltyrtc_server_python.Exec.{
  Exec, pure, raise, lift, gets, modify, ensure, continue, ◌>>=◌, ◌>>◌,
}
use saltyrtc_server_python.Common.State.{CloseCode, ClientState, restricted, authenticated, dropped}
use saltyrtc_server_python.Client.{Client}
use saltyrtc_server_python.JobQueue.{JobQueue, Job, coroutine, task, enqueue}
use saltyrtc_server_python.Connection as connection
use saltyrtc_server_python.Connection.{Connection, drop}
use saltyrtc_server_python.Message.Library.{Library}
use saltyrtc_server_python.Message.Incoming.{Incoming, unpack}
use saltyrtc_server_python.Message.Outgoing.{Outgoing, pack}
use saltyrtc_server_python.SignalingPath.{SignalingPath, World, get_responder, remove_client}

-- A message that is sent to a client: one of the server's, or one that is relayed.
pub data Sendable : Type 0 where
  cooked : Outgoing → Sendable
  relayed : Bytes → Sendable

pub data Activity : Type 0 where
  sending : Sendable → Activity
  closing : CloseCode → Activity

pub record Exchange : Type 0 where
  pub path : SignalingPath
  pub connections : ℕ → Connection
  pub scheduled : List (ℕ × Activity)
  pub delivered : List (ℕ × Bytes)

abbrev pub world_of : Exchange → World
world_of x = record { path = x.path; clients = λ q. (x.connections q).client }

abbrev pub with_world : World → Exchange → Exchange
with_world w x = record x {
  path = w.path;
  connections = λ q. record (x.connections q) { client = w.clients q };
}

-- A method of the path.
abbrev pub on_path {ℓ} : {A : Type ℓ} → (World → Result A × World) → Exchange → Result A × Exchange
on_path m x = let (result, w) = m (world_of x) in (result, with_world w x)

abbrev pub set_connection : ℕ → Connection → Exchange → Exchange
set_connection r c x = record x { connections = λ q. if r == q then c else x.connections q }

-- A method of the client `r`, or of its connection.
abbrev pub on_connection {ℓ} :
    {A : Type ℓ} → ℕ → (Connection → Result A × Connection) → Exchange → Result A × Exchange
on_connection r m x = let (result, c) = m (x.connections r) in (result, set_connection r c x)

abbrev pub of_client {ℓ} :
    {A : Type ℓ} → (Client → Result A × Client) → Connection → Result A × Connection
of_client m c = let (result, client) = m c.client in (result, record c { client = client })

-- A coroutine, or a task of it, is made and added to the queue of its client. It has only just been
-- made, so that it has not failed, and a closed queue cancels it without an exception.
unfoldable pub schedule : (ℕ → Job) → ℕ → Activity → Exchange → Exchange
unfolding enqueue
schedule job r activity x =
    let c = x.connections r in
    set_connection r (record c { jobs = (enqueue (job (length x.scheduled)) c.jobs).1 })
      (record x { scheduled = x.scheduled ++ (r, activity) ∷ [] })

-- `client.jobs.enqueue(client.send(message))`
abbrev pub enqueue_send : ℕ → Outgoing → Exchange → Exchange
enqueue_send r m = schedule coroutine r (sending (cooked m))

-- The loop over responders that the handshake and the end of a handler share: a message of the
-- server is made for each responder, and added to its queue.
unfoldable pub enqueue_to_responders : (ℕ → Outgoing) → List ℕ → Exec Exchange (Unit {0})
unfolding schedule get_responder
enqueue_to_responders create [] = pure tt
enqueue_to_responders create (id ∷ ids) = do
  r ← on_path (get_responder id)
  modify (enqueue_send r (create id))
  enqueue_to_responders create ids

-- `_drop_client`
unfoldable pub drop_client : ℕ → CloseCode → Exec Exchange (Unit {0})
unfolding drop remove_client
drop_client r code = do
  n ← gets (λ x. length x.scheduled)
  modify (λ x. record x { scheduled = x.scheduled ++ (r, closing code) ∷ [] })
  on_connection r (drop code n)
  on_path (remove_client r)

-- What the transport library receives: the bytes of a message, a text, or the closing.
pub data Received : Type 0 where
  packet : Bytes → Received
  text_message : Received
  closed : ℕ → Received

abbrev pub is_dropped : ClientState → Bool
is_dropped dropped = true
is_dropped _ = false

abbrev pub close_jobs {ℓ} : {A : Type ℓ} → ℕ → ℕ → Exchange → Result A × Exchange
close_jobs r code x =
    (err (disconnected code), set_connection r (connection.close code (x.connections r)) x)

module _ (lib : Library) where
  -- `message.pack(client)`; a relayed message is its packet.
  unfoldable pub pack_sendable : Sendable → Exec Client Bytes
  unfolding pack
  pack_sendable (cooked m) = pack lib m
  pack_sendable (relayed data') = pure data'

  abbrev deliver : ℕ → Bytes → Option ℕ → Exec Exchange (Unit {0})
  deliver r data' none = modify (λ x. record x { delivered = x.delivered ++ (r, data') ∷ [] })
  deliver r data' (some code) = close_jobs r code

  -- `PathClient.send`
  unfoldable pub send : ℕ → Sendable → Option ℕ → Exec Exchange (Unit {0})
  unfolding pack_sendable connection.close
  send r message answer = do
    data' ← on_connection r (of_client (pack_sendable message))
    deliver r data' answer

  -- The received data are unpacked, if they are bytes.
  abbrev pub unpack_received : ℕ → Received → Exec Exchange Incoming
  unpack_received r (packet data') = on_connection r (of_client (unpack lib data'))
  unpack_received r text_message = raise message_error
  unpack_received r (closed code) = close_jobs r code

  -- `PathClient.receive`
  unfoldable pub receive : ℕ → Received → Exec Exchange Incoming
  unfolding unpack connection.close
  receive r received = do
    state ← gets (λ x. (x.connections r).client.state)
    ensure (not (is_dropped state)) assertion_error
    unpack_received r received
