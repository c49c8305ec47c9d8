-- ===== src/Server/Events/Order.antt =====
-- Which callbacks are called when an event is raised, and in which order.
use saltyrtc_server_python.Prelude.{
  ℕ, ◌≡◌, refl, ap, ◌∙◌, sym, true, Option, List, [], ◌∷◌, ◌++◌, map, append_nil, append_cons,
  if◌then◌else◌, arith,
}
use saltyrtc_server_python.Value.{Text}
use saltyrtc_server_python.Server.Events.{
  Event, initiator_connected, responder_connected, disconnected, event_eq, EventRegistry,
  register_handler, get_callbacks, Server, register_event_callback, raise_event,
}

-- What a history of registrations and events comes to.
pub data Action : Type 0 where
  registers : Event → ℕ → Action
  raises : Event → Option Text → Option ℕ → Action

unfoldable pub act : List Action → Server → Server
unfolding register_event_callback raise_event
act [] s = s
act (registers event callback ∷ actions) s = act actions (register_event_callback event callback s)
act (raises event path data' ∷ actions) s = act actions (raise_event event path data' s)

-- The callbacks that were registered for an event.
unfoldable pub registered : Event → List Action → List ℕ
registered event [] = []
registered event (registers e callback ∷ actions) =
    let rest = registered event actions in if event_eq e event then callback ∷ rest else rest
registered event (raises e path data' ∷ actions) = registered event actions

same_event : (e f : Event) → event_eq e f ≡ true → e ≡ f
same_event initiator_connected initiator_connected h = refl
same_event responder_connected responder_connected h = refl
same_event disconnected disconnected h = refl
same_event initiator_connected responder_connected h = cc
same_event initiator_connected disconnected h = cc
same_event responder_connected initiator_connected h = cc
same_event responder_connected disconnected h = cc
same_event disconnected initiator_connected h = cc
same_event disconnected responder_connected h = cc

event_eq_refl : (e : Event) → event_eq e e ≡ true
event_eq_refl initiator_connected = refl
event_eq_refl responder_connected = refl
event_eq_refl disconnected = refl

get-register :
    (event e : Event) (handler : ℕ) (m : EventRegistry)
    → (get_callbacks event (register_handler e handler m)).0 ≡ (
        if event_eq e event
        then (get_callbacks event m).0 ++ handler ∷ []
        else (get_callbacks event m).0)
unfolding get_callbacks register_handler
get-register event e handler [] = ground arith
get-register event e handler ((f, handlers) ∷ m) =
    ground
      (arith, get-register event e handler m, same_event f e, same_event f event, event_eq_refl e)

-- Asking for the callbacks of an event changes the callbacks of none.
get-get :
    (event e : Event) (m : EventRegistry)
    → (get_callbacks event (get_callbacks e m).1).0 ≡ (get_callbacks event m).0
unfolding get_callbacks
get-get event e [] = ground arith
get-get event e ((f, handlers) ∷ m) = ground (arith, get-get event e m)

callbacks_of :
    (event : Event) (actions : List Action) (s : Server)
    → (get_callbacks event (act actions s).events).0
      ≡ (get_callbacks event s.events).0 ++ registered event actions
unfolding act registered
callbacks_of event [] s = sym (append_nil (get_callbacks event s.events).0)
callbacks_of event (registers e callback ∷ actions) s =
    let t = register_event_callback e callback s in
    let old = (get_callbacks event s.events).0 in
    let later = registered event actions in
    unfold register_event_callback in
    ground (
      arith,
      callbacks_of event actions t,
      get-register event e callback s.events,
      append_cons old callback later,
    )
callbacks_of event (raises e path data' ∷ actions) s =
    unfold raise_event in
    ground
      (arith, callbacks_of event actions (raise_event e path data' s), get-get event e s.events)

act_keeps :
    (actions : List Action) (s : Server)
    → ((act actions s).protocols ≡ s.protocols) × ((act actions s).close_task ≡ s.close_task)
unfolding act
act_keeps [] s = (refl, refl)
act_keeps (registers e callback ∷ actions) s =
    unfold register_event_callback in act_keeps actions (register_event_callback e callback s)
act_keeps (raises e path data' ∷ actions) s =
    unfold raise_event in act_keeps actions (raise_event e path data' s)

nothing : (event : Event) (rs : List ℕ) → (get_callbacks event []).0 ++ rs ≡ rs
unfolding get_callbacks
nothing event rs = refl

-- Of a registry without callbacks, the ones of an event are the ones that were registered since.
since_start :
    (event : Event) (actions : List Action) (s : Server)
    → s.events ≡ []
    → (get_callbacks event (act actions s).events).0 ≡ registered event actions
since_start event actions s h =
    callbacks_of event actions s
    ∙ ap (λ m. (get_callbacks event m).0 ++ registered event actions) h
    ∙ nothing event (registered event actions)

-- Whatever was registered and raised since the start of the server, raising an event calls exactly
-- the callbacks that were registered for this event, in the order of their registration and as
-- often as they were registered, with the path and the data of the event. The callbacks of other
-- events are not called, and the protocols are as they were.
pub raise_event-registered :
    (actions : List Action) (s : Server) (event : Event) (path : Option Text) (data' : Option ℕ)
    → s.events ≡ []
    → let before = act actions s in
      let after = raise_event event path data' before in
      (after.calls
        ≡ before.calls
          ++ map
              (λ callback. record {
                callback = callback;
                event = event;
                path = path;
                close_code = data';
              })
              (registered event actions))
      × (after.protocols ≡ s.protocols)
      × (after.close_task ≡ s.close_task)
unfolding raise_event
raise_event-registered actions s event path data' h =
    let (p, c) = act_keeps actions s in rw (since_start event actions s h) (refl, p, c)
