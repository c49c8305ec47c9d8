-- ===== src/Server/Handling/Farewell.antt =====
-- The handler of an initiator that leaves, from the result of its tasks to its end.
use saltyrtc_server_python.Prelude.{
  ℕ, ◌≡◌, ◌≢◌, refl, length, ap, ◌∙◌, Option, true, false, some, none, List, ◌++◌, contains, arith,
  map,
}
use mathlib.Core.Path.{ap₂}
use saltyrtc_server_python.Exception.{Error, ok}
use saltyrtc_server_python.Common.Address.{AddressType, initiator_address}
use saltyrtc_server_python.Common.State.{CloseCode, close_code_value, authenticated}
use saltyrtc_server_python.Message.Outgoing.{Outgoing, create_disconnected}
use saltyrtc_server_python.Connection as connection
use saltyrtc_server_python.JobQueue.{open'}
use saltyrtc_server_python.JobQueue.Count.{Counts, IsHealthy}
use saltyrtc_server_python.SignalingPath.{SignalingPath, is_empty, empty}
use saltyrtc_server_python.SignalingPath.Dict.{contains-remove, remove}
use saltyrtc_server_python.SignalingPath.Removal.{IsGone}
use saltyrtc_server_python.SignalingPath.Validity.{IsValid}
use saltyrtc_server_python.Server.Exchange.{Exchange, world_of}
use saltyrtc_server_python.Server.Exchange.Announcing.{to_responders, jobs_of}
use saltyrtc_server_python.Server.Events as events
use saltyrtc_server_python.Server.Closing.{reported, close_code_of}
use saltyrtc_server_python.Server.Relay.Leaving.{announce_disconnected-initiator}
use saltyrtc_server_python.Server.Relay.{announce_disconnected}
use saltyrtc_server_python.Server.Handling.{
  Site, end_client, hexlify, end_handler, leave, close_client,
}
use saltyrtc_server_python.Server.Handling.Cleaning.{IsSound}
use saltyrtc_server_python.Server.Handling.Leaving.{end_client-IsLeft, same_world}
use saltyrtc_server_python.Server.Handling.Initiator.{end_client-initiator, occupied_path}

-- The calls that the event of a disconnection adds.
abbrev pub calls_after : Error → SignalingPath → events.Server → List events.Call
calls_after e p s =
    s.calls
    ++ map
        (λ callback. record {
          callback = callback;
          event = events.disconnected;
          path = some (hexlify p.initiator_key);
          close_code = some (reported e);
        })
        (events.get_callbacks events.disconnected s.events).0

-- What the end of the handler of an initiator comes to.
pub record IsFarewell (r : ℕ) (e : Error) (s t : Site) : Type 0 where
  pub gone : IsGone r t.exchange.path
  pub vacant : t.exchange.path.initiator ≡ none
  pub responders : t.exchange.path.responders ≡ s.exchange.path.responders
  pub announced :
      t.exchange.scheduled
      ≡ s.exchange.scheduled
        ++ to_responders (λ id. create_disconnected id initiator_address) s.exchange.path.responders
  pub queued :
      (o : ℕ)
      → o ≢ r
      → (s.exchange.connections o).jobs.state ≡ open'
      → (t.exchange.connections o).jobs.queue
        ≡ (s.exchange.connections o).jobs.queue
          ++ jobs_of o (length s.exchange.scheduled) (
              to_responders
                (λ id. create_disconnected id initiator_address)
                s.exchange.path.responders)
  pub unregistered : contains r t.server.protocols ≡ false
  pub notified : t.server.calls ≡ calls_after e s.exchange.path s.server

close_client_lem :
    (r : ℕ) (o : Option CloseCode) (x : Exchange)
    → let (result, y) = close_client r o x in
      (result ≡ ok tt)
      × (y.scheduled ≡ x.scheduled)
      × (world_of y ≡ world_of x)
      × ((o : ℕ) → o ≢ r → y.connections o ≡ x.connections o)
close_client_lem r none x = (refl, refl, refl, (λ o n. refl))
close_client_lem r (some code) x =
    let c = connection.close (close_code_value code) (x.connections r) in
    (refl, refl, same_world r c x (unfold connection.close in refl), (λ o n. ground (arith, n)))

unregister_lem :
    (r : ℕ) (s : events.Server)
    → contains r s.protocols ≡ true
    → events.unregister r s ≡ (ok tt, record s { protocols = remove r s.protocols })
unfolding events.unregister
unregister_lem r s h = ground (arith, h)

-- The end of the handler of an initiator, which has left the path.
end_handler-initiator :
    (r : ℕ) (e : Error) (u : Site)
    → IsValid (world_of u.exchange)
    → u.exchange.path.attached ≡ true
    → is_empty u.exchange.path.responders ≡ false
    → (u.exchange.connections r).client.state ≡ authenticated
    → (u.exchange.connections r).client.type ≡ some AddressType.initiator
    → contains r u.server.protocols ≡ true
    → let (result, t) = end_handler r e u in
      (result ≡ ok tt)
      × (t.exchange.path ≡ u.exchange.path)
      × (t.exchange.scheduled
          ≡ u.exchange.scheduled
            ++ to_responders
                (λ id. create_disconnected id initiator_address)
                u.exchange.path.responders)
      × (contains r t.server.protocols ≡ false)
      × (t.server.calls ≡ calls_after e u.exchange.path u.server)
      × ((o : ℕ)
          → o ≢ r
          → (u.exchange.connections o).jobs.state ≡ open'
          → (t.exchange.connections o).jobs.queue
            ≡ (u.exchange.connections o).jobs.queue
              ++ jobs_of o (length u.exchange.scheduled) (
                  to_responders
                    (λ id. create_disconnected id initiator_address)
                    u.exchange.path.responders))
unfolding end_handler
end_handler-initiator r e u v a n s t p =
    let create : ℕ → Outgoing = λ id. create_disconnected id initiator_address in
    let path = some (hexlify u.exchange.path.initiator_key) in
    let server = events.notify_disconnected path (reported e) u.server in
    let (closed, scheduled, world, others) = close_client_lem r (close_code_of e) u.exchange in
    let y = (close_client r (close_code_of e) u.exchange).1 in
    let (told, announced) =
      announce_disconnected-initiator r y (rw world v) (ap (λ w. w.path.attached) world ∙ a)
        (ap (λ w. empty w.path) world ∙ occupied_path u.exchange.path n)
        (ap (λ w. (w.clients r).state) world ∙ s) (ap (λ w. (w.clients r).type) world ∙ t) in
    let here = ap (λ w. w.path) world in
    let z = (announce_disconnected r y).1 in
    let gone =
      unregister_lem r server (unfold events.notify_disconnected events.raise_event in p) in
    rw (closed, told, gone)
      (
        refl,
        announced.path ∙ here,
        announced.scheduled
            ∙ ap₂ (λ xs (p : SignalingPath). xs ++ to_responders create p.responders) scheduled
                here,
        ground (arith, contains-remove r r u.server.protocols),
        unfold events.notify_disconnected events.raise_event in refl,
        (λ o n h.
            announced.queued o (ap (λ c. c.jobs.state) (others o n) ∙ h)
            ∙ ap₂ (λ es xs. es ++ xs) (ap (λ c. c.jobs.queue) (others o n))
                (ap₂ (λ k (p : SignalingPath). jobs_of o k (to_responders create p.responders))
                  (ap length scheduled) here)),
      )

-- When an authenticated initiator of a sound path with responders ends, whatever the error, and no
-- task that its job queue awaits or holds has failed, its path is in use, the unfinished entries of
-- the queue are counted and its protocol is registered, then its handler returns after it has taken
-- the client off the path, so that the path has no initiator and the same responders, scheduled a
-- disconnected message for every responder in the order of the dictionary and nothing else, so that
-- the open queue of every other client ends with exactly the messages to this client, raised the
-- event of the disconnection with the path and the code of the error, and unregistered the
-- protocol.
pub leave-IsFarewell :
    (r : ℕ) (e : Error) (s : Site)
    → IsSound s
    → Counts (s.exchange.connections r).jobs
    → IsHealthy (s.exchange.connections r).jobs
    → s.exchange.path.attached ≡ true
    → s.exchange.path.initiator ≡ some r
    → is_empty s.exchange.path.responders ≡ false
    → (s.exchange.connections r).client.state ≡ authenticated
    → (s.exchange.connections r).client.type ≡ some AddressType.initiator
    → contains r s.server.protocols ≡ true
    → let (result, t) = leave r e s in (result ≡ ok tt) × IsFarewell r e s t
unfolding leave
leave-IsFarewell r e s v counts healthy a i n state type p =
    let (ended, left) = end_client-IsLeft r e s v counts healthy in
    let u = (end_client r e s).1 in
    let (path, scheduled, client, jobs) = end_client-initiator r e s v counts healthy a i n in
    let (fine, same, announced, unregistered, notified, queued) =
      end_handler-initiator r e u left.sound.world (ap (λ p. p.attached) path ∙ a)
        (ap (λ p. is_empty p.responders) path ∙ n) (ap (λ c. c.state) (client r) ∙ state)
        (ap (λ c. c.type) (client r) ∙ type) (ap (λ s. contains r s.protocols) left.server ∙ p) in
    rw ended (
      fine,
      record {
        gone = rw same left.gone;
        vacant = ap (λ p. p.initiator) (same ∙ path);
        responders = ap (λ p. p.responders) (same ∙ path);
        announced =
            announced
            ∙ ap₂
                (λ xs (p : SignalingPath).
                  xs ++ to_responders (λ id. create_disconnected id initiator_address) p.responders)
                scheduled path;
        queued = λ o n' h.
            queued o n' (ap (λ j. j.state) (jobs o n') ∙ h)
            ∙ ap₂ (λ es xs. es ++ xs) (ap (λ j. j.queue) (jobs o n'))
                (ap₂
                  (λ k (p : SignalingPath).
                    jobs_of o k
                      (to_responders (λ id. create_disconnected id initiator_address) p.responders))
                  (ap length scheduled) path);
        unregistered = unregistered;
        notified = notified ∙ ap₂ (calls_after e) path left.server;
      },
    )
