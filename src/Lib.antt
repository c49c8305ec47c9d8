-- ===== src/Lib.antt =====
-- The SaltyRTC signalling server of saltyrtc/server: a verification library.
--
-- Clients connect to a server on a path, which is named by the initiator's public key. A client
-- shakes hands with the server, becomes the initiator of the path or one of its responders, and
-- from then on sends messages that the server relays to another client of the path.
--
-- The parts and their files:
--
--   Prelude, Exception, Exec, Value   shared: numbers, lists, Boolean tests; the exceptions of
--       exception.py; functions and methods that may raise; the values of a payload.
--   Common     common.py: addresses, states, close codes, and the validation of fields.
--   Client     `PathClient` of protocol.py: keys, cookies, sequence numbers, states.
--   Message    message.py: `Nonce` is the layout of the nonce, `Payload` the incoming classes,
--       `Incoming` is `IncomingMessage.unpack`, `Outgoing` is `OutgoingMessage.pack`. Proofs are in
--       `Guarantees` and `Freshness`. `Library` is the parameter for libnacl and umsgpack.
--   SignalingPath   `Path` of protocol.py, with the store of the clients that it refers to. `Dict`
--       are its containers; `Validity`, `Invariant`, `Occupancy` and `Steps` are proofs.
--   JobQueue   `JobQueue` of task.py, with the steps of its runner and of the event loop, and
--       `cancel_awaitable` of util.py, which raises the exception of a task that has failed. Proofs
--       are in `Count`, `Events`, `Drain`, `Breaking` and `Failing`.
--   Tasks      `Tasks` of task.py, with the ends of the tasks and their callbacks as steps; `Result`
--       has the proofs.
--   Connection  a client with its job queue and its tasks; `PathClient.close` and `drop` of
--       protocol.py, with the proof in `Dropping`.
--   Server     server.py: `Subprotocol` is `select_subprotocol`, `Authentication` is
--       `_handle_client_auth`, `Closing` the close code of an exception, `Paths` the
--       dictionary of the paths, and `Connection` is `get_path_client`. `Exchange` has the
--       clients of a path with their connections, `PathClient.send` and `receive`, and
--       `_drop_client`; `Handshake` is `handshake` with its two halves; `Relay` has a round of
--       each receive loop, `relay_message`, and what the end of a handler tells the others,
--       and `Relay.Loop` the whole loop of a responder;
--       `Shutdown` is the loop that closes the protocols. `KeepAlive` is `keep_alive_loop`
--       with `PathClient.ping` and `wait_pong`; `Handling` is `handle_client` and `handler`
--       around the handshake and the tasks; `Events` is events.py and the registries of
--       `Server`; `Accepting` is `Server.handler` and `ServerProtocol.__init__`. Further
--       proofs are in `Exchange.Announcing`, `Handshake.Admission`, `Handshake.Responding`,
--       `Relay.Delivery`, `Relay.Dropping`, `Relay.Leaving`, `KeepAlive.Ending`,
--       `Events.Order`, and below `Handling`.
--   Splice     saltyrtc/splice, with which the server marks the data of a user and deletes it:
--       `Taint` is identity.py; `Tags` are the tags of objects, their construction, the
--       wrapper and the attached constraints of splice.py; `Constraints` is
--       `merge_constraints` of constraints.py, and `Grammar` its grammar and visitor, with
--       `concretize_and_merge_constraints` of server.py in its default mode; `HashTable` is the hash table of
--       hashtable.py, and `HashTable.Synthesizing` the synthesis of its keys; `Synthesis` is
--       `Synthesizer` of synthesis.py for integers, with the z3 solver as a parameter and `Order` as the
--       interface to its values; `Strings` is `StrSynthesizer`, with the regular expressions
--       as a data type. Further proofs are in `Taint.Bits`, `Tags.Reached`, `Tags.Arguments`,
--       `Tags.Conversion.Tracking`, `Tags.Deep`, `Conjunction`, `HashTable.Validity`,
--       `HashTable.Refinement`, and below `Synthesis`, `Strings` and `Grammar`.
--   Modules named Tests apply the results to concrete clients, paths, messages and queues.
--
-- How the code is modelled: a method that changes an object and may raise is a function from the
-- state to a result and the next state (`Exec`); what was written before an exception stays
-- written. A client is an object that a path and several protocols share, so a path holds
-- references, and the clients are a store. An `await` is a point between two steps. Numbers are
-- natural numbers, with the range checks and masks of the source written out; a byte string is a
-- list of numbers, and a text is the list of its code points. Random numbers and session keys that
-- the source draws on the first use are an input of the client. No loop of the model needs fuel:
-- all run over a list, and `serve` of JobQueue.Drain runs over the outcomes of the jobs.
--
-- Not modelled: the WebSocket library, asyncio, libnacl, umsgpack, z3 and arpeggio, which are
-- parameters or the order of the steps; logging, the command line, the start of the server, the
-- requests of a deletion; an interleaving at the awaits inside a handshake or a handler; the
-- paths but one, when the server closes its protocols; of Splice, the dependency graph, and with it
-- the mode in which the server merges constraints, the floats, the equation of the synthesizer of
-- strings, the decoration of classes, the tags of what is put in a data structure, and the
-- replacement of objects on the heap of the interpreter. The values of the server's models do not carry the tags of Splice. The
-- server is modelled as it runs with `__splice__ = True`, where this changes what it does.
pub mod Prelude
pub mod Exception
pub mod Exec
pub mod Value
pub mod Common
pub mod Client
pub mod Message
pub mod SignalingPath
pub mod JobQueue
pub mod Tasks
pub mod Connection
pub mod Splice
pub mod Server
