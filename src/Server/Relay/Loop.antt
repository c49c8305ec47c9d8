-- ===== src/Server/Relay/Loop.antt =====
-- `responder_receive_loop` of saltyrtc/server/server.py as a whole. What is received in a round,
-- and how the wait of `relay_message` ends then, are arguments; after the last of them the loop
-- waits.
use saltyrtc_server_python.Prelude.{
  ℕ, ◌≡◌, ◌≢◌, refl, ap, sym, ◌∙◌, Bool, not, true, false, Option, none, some, List, [], ◌∷◌, Bytes,
  arith, if_cases,
}
use saltyrtc_server_python.Exception.{Result, ok, err, assertion_error}
use saltyrtc_server_python.Exec.{Exec, pure, gets, ensure, continue, ◌>>=◌, ◌>>◌}
use saltyrtc_server_python.Connection as connection
use saltyrtc_server_python.Connection.{Connection}
use saltyrtc_server_python.Message.Library.{Library}
use saltyrtc_server_python.Message.Incoming.{Incoming, relay, unpack}
use saltyrtc_server_python.Server.Exchange.{
  Exchange, Received, is_dropped, packet, text_message, closed, receive, unpack_received,
  set_connection, schedule,
}
use saltyrtc_server_python.Server.Relay.{
  Outcome, sent, timed_out, failed, cancelled, Ending, returned, reraised, relay_outcome,
  responder_round, send_error_message,
}
use saltyrtc_server_python.Server.Relay.Delivery.{responder_round-isolated}

-- The end of `relay_message`, if there was a destination.
unfoldable pub end_relay : ℕ → Option ℕ → Incoming → Outcome → Exec Exchange Ending
unfolding relay_outcome
end_relay r (some q) (relay source destination data') outcome = relay_outcome r data' outcome
end_relay r _ message outcome = pure returned

abbrev go_on : Ending → Exec Exchange Ending → Exec Exchange Ending
go_on returned rest = rest
go_on reraised rest = pure reraised

module _ (lib : Library) where
  unfoldable pub responder_turn : ℕ → Received → Outcome → Exec Exchange Ending
  unfolding receive responder_round end_relay
  responder_turn r received outcome = do
    message ← receive lib r received
    q ← gets (λ x. x.path.initiator)
    responder_round r message
    end_relay r q message outcome

  -- `responder_receive_loop`: `returned` while it is running, `reraised` when it was cancelled.
  unfoldable pub responder_receive_loop : ℕ → List (Received × Outcome) → Exec Exchange Ending
  unfolding responder_turn
  responder_receive_loop r [] = pure returned
  responder_receive_loop r ((received, outcome) ∷ later) =
      let rest = responder_receive_loop r later in
      responder_turn r received outcome >>= λ ending. go_on ending rest

-- The path and the client `o` are as they were.
abbrev pub IsUntouched : ℕ → Exchange → Exchange → Type 0
IsUntouched o x y = (y.connections o ≡ x.connections o) × (y.path ≡ x.path)

after : (o : ℕ) (x y z : Exchange) → IsUntouched o x y → IsUntouched o y z → IsUntouched o x z
after o x y z (a, b) (c, d) = (c ∙ a, d ∙ b)

-- An action that leaves the path and the client as they are, and a second one after it.
continue-IsUntouched :
    {A B : Type 0} (o : ℕ) (x y : Exchange) (r : Result A) (f : A → Exec Exchange B)
    → IsUntouched o x y
    → ((a : A) → IsUntouched o y (f a y).1)
    → IsUntouched o x (continue r f y).1
continue-IsUntouched o x y (ok a) f h k = after o x y (f a y).1 h (k a)
continue-IsUntouched o x y (err e) f h k = h

send_error-IsUntouched :
    (r o : ℕ) (data' : Bytes) (x : Exchange)
    → o ≢ r
    → IsUntouched o x (send_error_message r data' x).1
unfolding send_error_message schedule
send_error-IsUntouched r o data' x n = (ground (arith, n), refl)

relay_outcome-IsUntouched :
    (r o : ℕ) (data' : Bytes) (outcome : Outcome) (x : Exchange)
    → o ≢ r
    → IsUntouched o x (relay_outcome r data' outcome x).1
unfolding relay_outcome
relay_outcome-IsUntouched r o data' sent x n = (refl, refl)
relay_outcome-IsUntouched r o data' timed_out x n = send_error-IsUntouched r o data' x n
relay_outcome-IsUntouched r o data' failed x n = send_error-IsUntouched r o data' x n
relay_outcome-IsUntouched r o data' cancelled x n =
    if_cases (λ (m : Exec Exchange Ending). IsUntouched o x (m x).1)
      (x.connections r).tasks.have_result (λ h. (refl, refl))
      (λ h. send_error-IsUntouched r o data' x n)

set_connection-IsUntouched :
    (r o : ℕ) (c : Connection) (x : Exchange) → o ≢ r → IsUntouched o x (set_connection r c x)
set_connection-IsUntouched r o c x n = (ground (arith, n), refl)

unpack_received-IsUntouched :
    (lib : Library) (r o : ℕ) (received : Received) (x : Exchange)
    → o ≢ r
    → IsUntouched o x (unpack_received lib r received x).1
unpack_received-IsUntouched lib r o (packet data') x n =
    let c = x.connections r in
    let (result, client) = unpack lib data' c.client in
    set_connection-IsUntouched r o (record c { client = client }) x n
unpack_received-IsUntouched lib r o text_message x n = (refl, refl)
unpack_received-IsUntouched lib r o (closed code) x n =
    set_connection-IsUntouched r o (connection.close code (x.connections r)) x n

receive-IsUntouched :
    (lib : Library) (r o : ℕ) (received : Received) (x : Exchange)
    → o ≢ r
    → IsUntouched o x (receive lib r received x).1
unfolding receive
receive-IsUntouched lib r o received x n = go (not (is_dropped (x.connections r).client.state))
  where
    go :
        (b : Bool)
        → IsUntouched o x ((ensure b assertion_error >> unpack_received lib r received) x).1
    go true = unpack_received-IsUntouched lib r o received x n
    go false = (refl, refl)

end_relay-IsUntouched :
    (r o : ℕ) (q : Option ℕ) (m : Incoming) (outcome : Outcome) (x : Exchange)
    → o ≢ r
    → IsUntouched o x (end_relay r q m outcome x).1
unfolding end_relay
end_relay-IsUntouched r o none m outcome x n = (refl, refl)
end_relay-IsUntouched r o (some q) (relay source destination data') outcome x n =
    relay_outcome-IsUntouched r o data' outcome x n
end_relay-IsUntouched r o (some q) _ outcome x n = (refl, refl)

module _ (lib : Library) where
  responder_turn-IsUntouched :
      (r o : ℕ) (received : Received) (outcome : Outcome) (x : Exchange)
      → o ≢ r
      → x.path.initiator ≢ some o
      → IsUntouched o x (responder_turn lib r received outcome x).1
  unfolding responder_turn
  responder_turn-IsUntouched r o received outcome x n i =
      let (got, y) = receive lib r received x in
      let here = receive-IsUntouched lib r o received x n in
      continue-IsUntouched o x y got
        (λ message. gets (λ x. x.path.initiator) >>= λ q.
          responder_round r message >> end_relay r q message outcome)
        here
        (λ message.
          let other =
            λ (e : y.path.initiator ≡ some o). i (ap (λ p. p.initiator) (sym here.1) ∙ e) in
          let (result, z) = responder_round r message y in
          continue-IsUntouched o y z result (λ u. end_relay r y.path.initiator message outcome)
            (responder_round-isolated r o message y n other)
            (λ u. end_relay-IsUntouched r o y.path.initiator message outcome z n))

  -- A responder reaches nobody but the initiator: whatever it receives from its client, and however
  -- the sending of its messages ends, its receive loop leaves the path and every client but itself
  -- and the initiator as they are.
  pub responder_receive_loop-IsUntouched :
      (r o : ℕ) (rounds : List (Received × Outcome)) (x : Exchange)
      → o ≢ r
      → x.path.initiator ≢ some o
      → IsUntouched o x (responder_receive_loop lib r rounds x).1
  unfolding responder_receive_loop
  responder_receive_loop-IsUntouched r o [] x n i = (refl, refl)
  responder_receive_loop-IsUntouched r o ((received, outcome) ∷ later) x n i =
      let (got, y) = responder_turn lib r received outcome x in
      let here = responder_turn-IsUntouched r o received outcome x n i in
      continue-IsUntouched o x y got (λ ending. go_on ending (responder_receive_loop lib r later))
        here
        (λ ending. on_ending ending y (
          responder_receive_loop-IsUntouched r o later y n
            (λ e. i (ap (λ p. p.initiator) (sym here.1) ∙ e))))
    where
      on_ending :
          (ending : Ending) (y : Exchange)
          → IsUntouched o y (responder_receive_loop lib r later y).1
          → IsUntouched o y (go_on ending (responder_receive_loop lib r later) y).1
      on_ending returned y h = h
      on_ending reraised y h = (refl, refl)
