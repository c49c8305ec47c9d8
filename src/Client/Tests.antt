-- ===== src/Client/Tests.antt =====
-- A client that has just connected: the counters and the cookies of saltyrtc/server/protocol.py on
-- its first messages.
use saltyrtc_server_python.Prelude.{ℕ, ◌<◌, ◌≤◌, ◌^◌, ◌≡◌, ◌↔◌, refl, true, [], ◌∷◌, Bytes, arith}
use saltyrtc_server_python.Client.{Client, new}
use saltyrtc_server_python.Client.Sequence.{receive_csns, receive_csns_iff, succeeded, count_up}

abbrev pub key_of : ℕ → Bytes
key_of n =
    n ∷ n ∷ n ∷ n ∷ n ∷ n ∷ n ∷ n ∷ n ∷ n ∷ n ∷ n ∷ n ∷ n ∷ n ∷ n ∷ n ∷ n ∷ n ∷ n ∷ n ∷ n ∷ n ∷ n
    ∷ n ∷ n ∷ n ∷ n ∷ n ∷ n ∷ n ∷ n ∷ []

abbrev pub cookie_of : ℕ → Bytes
cookie_of n = n ∷ n ∷ n ∷ n ∷ n ∷ n ∷ n ∷ n ∷ n ∷ n ∷ n ∷ n ∷ n ∷ n ∷ n ∷ n ∷ []

abbrev pub newcomer : Client
newcomer = new (key_of 7) (record { session_key = key_of 8; cookie = cookie_of 9; number = 41 })

receive_csns_iff_example :
    (succeeded (receive_csns (5 ∷ 6 ∷ []) newcomer) ≡ true)
    ↔ ((5 < 2 ^ 32) × (6 ∷ [] ≡ count_up 6 1) × (7 ≤ 2 ^ 48))
unfolding new
receive_csns_iff_example = receive_csns_iff 5 (6 ∷ []) newcomer refl (omega arith)
