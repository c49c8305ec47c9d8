-- ===== src/Server/KeepAlive/Ending.antt =====
-- How the keep-alive loop of a client ends.
use saltyrtc_server_python.Prelude.{
  ℕ, suc, ◌+◌, ◌≡◌, refl, Option, none, some, List, [], ◌∷◌, ◌==◌, if◌then◌else◌, arith,
}
use saltyrtc_server_python.Exception.{
  Error, Result, ok, err, disconnected, ping_timeout_error, cancelled_error,
}
use saltyrtc_server_python.Connection as connection
use saltyrtc_server_python.Connection.{Connection}
use saltyrtc_server_python.Server.Exchange.{Exchange}
use saltyrtc_server_python.Server.KeepAlive.{
  Round, slept, cancelled_while_sleeping, cancelled_while_pinging, cancelled_while_waiting, pinged,
  closed_while_pinging, answered, timed_out, closed_while_waiting, count_ping, keep_alive_round,
  keep_alive_loop,
}

-- How a round fails, if it does.
unfoldable pub failure : Round → Option Error
failure (slept (pinged answered)) = none
failure (slept (pinged timed_out)) = some ping_timeout_error
failure (slept (pinged (closed_while_waiting code))) = some (disconnected code)
failure (slept (closed_while_pinging code)) = some (disconnected code)
failure _ = some cancelled_error

-- The first failure, and the number of rounds before it.
unfoldable pub ending : List Round → ℕ × Option Error
unfolding failure
ending [] = (0, none)
ending (round ∷ rounds) =
    let (n, e) = ending rounds in elim (failure round) [ none ↦ (suc n, e) | some e ↦ (0, some e) ]

-- What is left of the connection: the pongs are counted, and the job queue is closed if the
-- connection is.
unfoldable pub counted : ℕ → Connection → Connection
counted n c = record c {
  client = record c.client { keep_alive_pings = c.client.keep_alive_pings + n };
}

abbrev closed_by : Option Error → Connection → Connection
closed_by (some (disconnected code)) c = connection.close code c
closed_by _ c = c

unfoldable pub outcome : Option Error → Result (Unit {0})
outcome none = ok tt
outcome (some e) = err e

-- A run of the loop that leaves only the connection of `r` changed.
unfoldable pub IsEnded : ℕ → ℕ × Option Error → Exchange → Result (Unit {0}) × Exchange → Type 0
unfolding counted outcome
IsEnded r (n, e) x (result, y) =
    (result ≡ outcome e)
    × (y.path ≡ x.path)
    × (y.scheduled ≡ x.scheduled)
    × (y.delivered ≡ x.delivered)
    × ((q : ℕ)
        → y.connections q
          ≡ (if r == q then closed_by e (counted n (x.connections q)) else x.connections q))

counted_none : (c : Connection) → counted 0 c ≡ c
unfolding counted
counted_none c = ground arith

counted_later : (n : ℕ) (c : Connection) → counted n (count_ping c) ≡ counted (suc n) c
unfolding counted
counted_later n c = ground arith

later-IsEnded :
    (r n : ℕ) (e : Option Error) (x : Exchange) (end' : Result (Unit {0}) × Exchange)
    → IsEnded r (n, e) (keep_alive_round r (slept (pinged answered)) x).1 end'
    → IsEnded r (suc n, e) x end'
unfolding IsEnded keep_alive_round
later-IsEnded r n e x end' (h0, h1, h2, h3, h4) =
    (h0, h1, h2, h3, λ q. ground (arith, h4 q, counted_later n (x.connections q)))

-- The keep-alive loop ends in the first round that fails, that is when the connection is closed, a
-- pong does not come in time, or the task is cancelled, with the error of this round; it runs on as
-- long as no round fails. Every round before the end is counted, and the job queue of the client is
-- closed if the connection is, and not if a pong is missing or the task is cancelled; nothing else is
-- changed, and the later rounds never happen.
pub keep_alive_loop-IsEnded :
    (r : ℕ) (rounds : List Round) (x : Exchange)
    → IsEnded r (ending rounds) x (keep_alive_loop r rounds x)
unfolding keep_alive_loop ending IsEnded
keep_alive_loop-IsEnded r [] x =
    (refl, refl, refl, refl, λ q. ground (arith, counted_none (x.connections q)))
keep_alive_loop-IsEnded r (slept (pinged answered) ∷ rounds) x =
    later-IsEnded r (ending rounds).0 (ending rounds).1 x
      (keep_alive_loop r (slept (pinged answered) ∷ rounds) x)
      (keep_alive_loop-IsEnded r rounds (keep_alive_round r (slept (pinged answered)) x).1)
keep_alive_loop-IsEnded r (slept (pinged timed_out) ∷ rounds) x =
    (refl, refl, refl, refl, λ q. ground (arith, counted_none (x.connections q)))
keep_alive_loop-IsEnded r (slept (pinged (closed_while_waiting code)) ∷ rounds) x =
    (refl, refl, refl, refl, λ q. ground (arith, counted_none (x.connections q)))
keep_alive_loop-IsEnded r (slept (closed_while_pinging code) ∷ rounds) x =
    (refl, refl, refl, refl, λ q. ground (arith, counted_none (x.connections q)))
keep_alive_loop-IsEnded r (slept (pinged cancelled_while_waiting) ∷ rounds) x =
    (refl, refl, refl, refl, λ q. ground (arith, counted_none (x.connections q)))
keep_alive_loop-IsEnded r (slept cancelled_while_pinging ∷ rounds) x =
    (refl, refl, refl, refl, λ q. ground (arith, counted_none (x.connections q)))
keep_alive_loop-IsEnded r (cancelled_while_sleeping ∷ rounds) x =
    (refl, refl, refl, refl, λ q. ground (arith, counted_none (x.connections q)))
