-- ===== src/Server/Handling/Tests.antt =====
-- A server with the path of `meeting`, whose initiator, client 5, leaves.
use saltyrtc_server_python.Prelude.{
  List, Bytes, bytes_eq, bytes_eq_sound, ◌≤◌, ℕ, ◌≡◌, refl, false, some, none, [], ◌∷◌, arith,
  if◌then◌else◌, map, ◌++◌,
}
use saltyrtc_server_python.Exception.{ok, err, ping_timeout_error, disconnected}
use saltyrtc_server_python.Client.Tests.{key_of, newcomer}
use saltyrtc_server_python.JobQueue as queue
use saltyrtc_server_python.JobQueue.{job, task}
use saltyrtc_server_python.Server.Events.{Event, Server, raise_event}
use saltyrtc_server_python.Server.Events.Order.{
  Action, act, registers, raises, registered, raise_event-registered,
}
use saltyrtc_server_python.Server.Accepting.{
  Host, handler, saltyrtc_v1, IsHandled, handler-IsHandled,
}
use saltyrtc_server_python.Server.Connection.{Reads}
use saltyrtc_server_python.Server.Paths.{str_of}
use saltyrtc_server_python.Server.Relay.Tests.{meeting, meeting-IsValid}
use saltyrtc_server_python.Server.Tests.{hub, no_paths-IsValid, ws_address}
use saltyrtc_server_python.Server.KeepAlive.{
  slept, pinged, answered, timed_out, closed_while_pinging, keep_alive_loop,
}
use saltyrtc_server_python.Server.KeepAlive.Ending.{IsEnded, ending, keep_alive_loop-IsEnded}
use saltyrtc_server_python.Server.Handling.{Site, hexlify, end_client, leave}
use saltyrtc_server_python.Server.Handling.Cleaning.{IsSound}
use saltyrtc_server_python.Server.Handling.Leaving.{IsLeft, end_client-IsLeft}
use saltyrtc_server_python.Server.Handling.Farewell.{IsFarewell, leave-IsFarewell}
use saltyrtc_server_python.Server.Handling.Naming.{are_bytes, Reads-hexlify}

-- Two callbacks are registered for disconnections.
abbrev server : Server
server = record {
  protocols = 5 ∷ 6 ∷ [];
  close_task = false;
  events = (Event.disconnected, 7 ∷ 8 ∷ []) ∷ [];
  calls = [];
}

abbrev site : Site
site = record {
  server = server;
  paths = record {
    number = 1;
    paths = (str_of (key_of 7), 1) ∷ [];
    objects = λ n. (meeting 3).path;
  };
  exchange = meeting 3;
}

only_key :
    (k b : Bytes) (n : ℕ) → (if bytes_eq k b then some 1 else none) ≡ some n → (n ≤ 1) × (k ≡ b)
only_key k b n h = ground (arith, bytes_eq_sound k b, h)

site-IsSound : IsSound site
site-IsSound = record {
  world = meeting-IsValid 3 (omega arith) (omega arith);
  dictionary = (tt, λ b n h. only_key (key_of 7) b n h);
  key = refl;
  detached = λ h. cc;
}

keep_alive_loop-IsEnded_example :
    IsEnded 5
      (2, some (disconnected 1001))
      (meeting 3)
      (keep_alive_loop 5
        (slept (pinged answered)
          ∷ slept (pinged answered)
          ∷ slept (closed_while_pinging 1001)
          ∷ slept (pinged timed_out)
          ∷ [])
        (meeting 3))
unfolding ending
keep_alive_loop-IsEnded_example =
    keep_alive_loop-IsEnded 5
      (slept (pinged answered)
        ∷ slept (pinged answered)
        ∷ slept (closed_while_pinging 1001)
        ∷ slept (pinged timed_out)
        ∷ [])
      (meeting 3)

end_client-IsLeft_example :
    let (result, t) = end_client 5 ping_timeout_error site in
    (result ≡ err ping_timeout_error) × IsLeft 5 site t
unfolding queue.new
end_client-IsLeft_example = end_client-IsLeft 5 ping_timeout_error site site-IsSound refl (refl, tt)

leave-IsFarewell_example :
    let (result, t) = leave 5 ping_timeout_error site in
    (result ≡ ok tt) × IsFarewell 5 ping_timeout_error site t
unfolding queue.new
leave-IsFarewell_example =
    leave-IsFarewell 5 ping_timeout_error site site-IsSound refl (refl, tt) refl refl refl refl refl
      refl

Reads-hexlify_example : Reads (47 ∷ hexlify (key_of 7)) (key_of 7)
unfolding are_bytes
Reads-hexlify_example = Reads-hexlify 47 (key_of 7) refl refl

abbrev idle : Server
idle = record { protocols = []; close_task = false; events = []; calls = [] }

-- What happened since the start of the server: two callbacks were registered for one event.
abbrev history : List Action
history =
    registers Event.disconnected 1
    ∷ raises Event.disconnected none (some 1002)
    ∷ registers Event.initiator_connected 2
    ∷ registers Event.disconnected 3
    ∷ []

raise_event-registered_example :
    let before = act history idle in
    let after = raise_event Event.disconnected none (some 3001) before in
    (after.calls
      ≡ before.calls
        ++ map
            (λ callback. record {
              callback = callback;
              event = Event.disconnected;
              path = none;
              close_code = some 3001;
            })
            (1 ∷ 3 ∷ []))
    × (after.protocols ≡ [])
    × (after.close_task ≡ false)
unfolding registered
raise_event-registered_example =
    raise_event-registered history idle Event.disconnected none (some 3001) refl

abbrev host : Host
host = record { server = idle; hub = hub }

handler-IsHandled_example :
    IsHandled
      (some saltyrtc_v1)
      ws_address
      2
      host
      (handler (some saltyrtc_v1) ws_address 2 newcomer.entropy host)
handler-IsHandled_example =
    handler-IsHandled (some saltyrtc_v1) ws_address 2 newcomer.entropy host no_paths-IsValid
