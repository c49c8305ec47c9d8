-- ===== src/Server/Events.antt =====
-- `Event` and `EventRegistry` of saltyrtc/server/events.py, and the methods of `Server` of
-- saltyrtc/server/server.py that register protocols and callbacks, and that raise events.
--
-- A callback is a number: what a callback does is not part of the repository. Raising an event
-- makes a task of each call; `calls` are the calls of the tasks, in the order in which they were
-- created. A protocol is the reference of its client.
pub mod Order
use saltyrtc_server_python.Prelude.{
  ℕ, Bool, true, false, Option, none, some, List, [], ◌∷◌, ◌++◌, map, contains, if◌then◌else◌,
}
use saltyrtc_server_python.Exception.{ok, key_error}
use saltyrtc_server_python.Exec.{Exec, modify, ensure, continue, gets, ◌>>=◌, ◌>>◌}
use saltyrtc_server_python.Value.{Text}
use saltyrtc_server_python.SignalingPath.Dict.{add, remove}

pub data Event : Type 0 where
  initiator_connected responder_connected disconnected : Event

abbrev pub event_eq : Event → Event → Bool
event_eq initiator_connected initiator_connected = true
event_eq responder_connected responder_connected = true
event_eq disconnected disconnected = true
event_eq _ _ = false

-- `EventRegistry`: its dictionary, whose missing keys are empty lists.
abbrev pub EventRegistry : Type 0
EventRegistry = List (Event × List ℕ)

-- `self.events[event].append(handler)`
unfoldable pub register_handler : Event → ℕ → EventRegistry → EventRegistry
register_handler event handler [] = (event, handler ∷ []) ∷ []
register_handler event handler ((e, handlers) ∷ events) =
    let rest = register_handler event handler events in
    if event_eq e event then (e, handlers ++ handler ∷ []) ∷ events else (e, handlers) ∷ rest

-- `self.events[event]`: a missing key is added to the dictionary.
unfoldable pub get_callbacks : Event → EventRegistry → List ℕ × EventRegistry
get_callbacks event [] = ([], (event, []) ∷ [])
get_callbacks event ((e, handlers) ∷ events) =
    let (found, rest) = get_callbacks event events in
    if event_eq e event then (handlers, (e, handlers) ∷ events) else (found, (e, handlers) ∷ rest)

-- A call of a callback: the path in hexadecimal form, and the close code of a disconnection.
pub record Call : Type 0 where
  pub callback : ℕ
  pub event : Event
  pub path : Option Text
  pub close_code : Option ℕ

-- `close_task` says that the server is being closed.
pub record Server : Type 0 where
  pub protocols : List ℕ
  pub close_task : Bool
  pub events : EventRegistry
  pub calls : List Call

unfoldable pub register : ℕ → Server → Server
unfolding add
register r s = record s { protocols = add r s.protocols }

unfoldable pub unregister : ℕ → Exec Server (Unit {0})
unfolding remove
unregister r = do
  protocols ← gets (λ s. s.protocols)
  ensure (contains r protocols) key_error
  modify (λ s. record s { protocols = remove r s.protocols })

unfoldable pub register_event_callback : Event → ℕ → Server → Server
unfolding register_handler
register_event_callback event callback s = record s {
  events = register_handler event callback s.events;
}

-- `_raise_event`
unfoldable pub raise_event : Event → Option Text → Option ℕ → Server → Server
unfolding get_callbacks
raise_event event path data' s =
    let (callbacks, events) = get_callbacks event s.events in
    record s {
      events = events;
      calls =
          s.calls
          ++ map
              (λ callback. record {
                callback = callback;
                event = event;
                path = path;
                close_code = data';
              })
              callbacks;
    }

unfoldable pub notify_initiator_connected : Text → Server → Server
unfolding raise_event
notify_initiator_connected path = raise_event initiator_connected (some path) none

unfoldable pub notify_responder_connected : Text → Server → Server
unfolding raise_event
notify_responder_connected path = raise_event responder_connected (some path) none

unfoldable pub notify_disconnected : Option Text → ℕ → Server → Server
unfolding raise_event
notify_disconnected path code = raise_event disconnected path (some code)

-- `Server.close`: only the first call makes the closing task.
unfoldable pub close : Server → Bool × Server
close s = if s.close_task then (false, s) else (true, record s { close_task = true })
