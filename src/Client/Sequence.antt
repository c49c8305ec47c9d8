-- ===== src/Client/Sequence.antt =====
-- The incoming sequence numbers: what `validate_csn_in` and `increment_csn_in`, called for each
-- message in turn as in `IncomingMessage._unpack_nonce`, let through.
use saltyrtc_server_python.Prelude.{
  ℕ, zero, suc, ◌+◌, ◌^◌, ◌≤◌, ◌<◌, ◌≡◌, ◌↔◌, refl, Bool, true, false, none, some, List, [], ◌∷◌,
  length, arith, ◌==◌, if◌then◌else◌, Bool-cases, inl, inr, leb, ◌⊎◌,
}
use saltyrtc_server_python.Exception.{Result, ok, err, message_error, message_flow_error}
use saltyrtc_server_python.Exec.{Exec, pure, ◌>>◌}
use saltyrtc_server_python.Client.{Client, validate_csn_in, increment_csn_in}
use saltyrtc_server_python.Client.Counter.{
  Csn, csn, overflow_sentinel, increment_csn, increment_csn_lem,
}

-- The two calls of `_unpack_nonce` for a message to the server.
unfoldable pub receive_csn : ℕ → Exec Client (Unit {0})
unfolding validate_csn_in increment_csn_in
receive_csn number = do validate_csn_in number; increment_csn_in

-- The messages of a connection, one after the other, until one is refused.
unfoldable pub receive_csns : List ℕ → Exec Client (Unit {0})
receive_csns [] = pure tt
receive_csns (n ∷ ns) = do receive_csn n; receive_csns ns

abbrev pub succeeded {ℓ} : {A S : Type ℓ} → Result A × S → Bool
succeeded (ok a, s) = true
succeeded (err e, s) = false

-- `n`, `n + 1`, …: as many numbers as asked for.
abbrev pub count_up : ℕ → ℕ → List ℕ
count_up n zero = []
count_up n (suc k) = n ∷ count_up (suc n) k

receive_csn_lem :
    (m n : ℕ) (c : Client)
    → c.csn_in ≡ some (csn n)
    → receive_csn m c ≡ (
        if m == n
        then (ok tt, record c { csn_in = some (increment_csn (csn n)) })
        else (err message_error, c))
unfolding receive_csn
receive_csn_lem m n c e = ground arith

receive_csn_overflow :
    (m : ℕ) (c : Client)
    → c.csn_in ≡ some overflow_sentinel
    → receive_csn m c ≡ (err message_flow_error, c)
unfolding receive_csn
receive_csn_overflow m c e = ground arith

receive_csn_first :
    (m : ℕ) (c : Client)
    → c.csn_in ≡ none
    → m < 2 ^ 48
    → receive_csn m c ≡ (
        if leb (2 ^ 32) m
        then (err message_error, c)
        else (ok tt, record c { csn_in = some (increment_csn (csn m)) }))
unfolding receive_csn
receive_csn_first m c e h = ground arith

receive_csns_cons :
    (m n : ℕ) (ns : List ℕ) (c : Client)
    → c.csn_in ≡ some (csn n)
    → receive_csns (m ∷ ns) c ≡ (
        if m == n
        then receive_csns ns (record c { csn_in = some (increment_csn (csn n)) })
        else (err message_error, c))
unfolding receive_csns
receive_csns_cons m n ns c e = rw (receive_csn_lem m n c e) (ground arith)

overflow_refuses :
    (m : ℕ) (ns : List ℕ) (c : Client)
    → c.csn_in ≡ some overflow_sentinel
    → receive_csns (m ∷ ns) c ≡ (err message_flow_error, c)
unfolding receive_csns
overflow_refuses m ns c e = rw (receive_csn_overflow m c e)

-- `ns` is let through from the expected number `n`.
abbrev Accepts : List ℕ → Csn → Client → Type 0
Accepts ns s c = succeeded (receive_csns ns (record c { csn_in = some s })) ≡ true

-- `ns` counts up from `n`, within the 48 bits of a number.
abbrev IsConsecutive : List ℕ → ℕ → Type 0
IsConsecutive ns n = (ns ≡ count_up n (length ns)) × (n + length ns ≤ 2 ^ 48)

-- The last number of the range is followed by nothing.
Accepts-last :
    (ns : List ℕ) (c : Client) → Accepts ns overflow_sentinel c ↔ IsConsecutive ns (2 ^ 48)
unfolding receive_csns
Accepts-last [] c = (λ _. (refl, omega arith), λ _. refl)
Accepts-last (m ∷ ns) c = (
  λ h. ground (arith, overflow_refuses m ns (record c { csn_in = some overflow_sentinel }) refl),
  λ h. absurd (omega arith),
)

Accepts-cons :
    (m n : ℕ) (ns : List ℕ) (c : Client)
    → Accepts ns (increment_csn (csn n)) c ↔ IsConsecutive ns (suc n)
    → Accepts (m ∷ ns) (csn n) c ↔ IsConsecutive (m ∷ ns) n
Accepts-cons m n ns c rest = elim (Bool-cases (m == n)) [
  | inl same ↦
      rw (receive_csns_cons m n ns (record c { csn_in = some (csn n) }) refl, same)
        (
          (λ h. let (l, b) = rest.0 h in (ground (arith, l), omega arith)),
          λ (l, b). rest.1 (ground arith, omega arith),
        )
  | inr other ↦
      rw (receive_csns_cons m n ns (record c { csn_in = some (csn n) }) refl, other)
        ((λ h. cc), λ (l, b). ground arith)
]

after_number :
    (n : ℕ)
    → n < 2 ^ 48
    → ((increment_csn (csn n) ≡ overflow_sentinel) × (suc n ≡ 2 ^ 48))
      ⊎ ((increment_csn (csn n) ≡ csn (suc n)) × (suc n < 2 ^ 48))
after_number n h = ground (arith, increment_csn_lem n h)

Accepts-iff :
    (ns : List ℕ) (n : ℕ) (c : Client) → n < 2 ^ 48 → Accepts ns (csn n) c ↔ IsConsecutive ns n
unfolding receive_csns
Accepts-iff [] n c h = (λ _. (refl, omega arith), λ _. refl)
Accepts-iff (m ∷ ns) n c h = Accepts-cons m n ns c (elim (after_number n h) [
  | inl (e, last) ↦ rw (e, last) (Accepts-last ns c)
  | inr (e, more) ↦ rw e (Accepts-iff ns (suc n) c more)
])

Accepts-after :
    (ns : List ℕ) (n : ℕ) (c : Client)
    → n < 2 ^ 48
    → Accepts ns (increment_csn (csn n)) c ↔ IsConsecutive ns (suc n)
Accepts-after ns n c h = elim (after_number n h) [
  | inl (e, last) ↦ rw (e, last) (Accepts-last ns c)
  | inr (e, more) ↦ rw e (Accepts-iff ns (suc n) c more)
]

-- From a client that has not sent a message yet, the server lets a sequence of messages through
-- exactly if their numbers count up by one from a first number below 2 ^ 32 and stay in 48 bits:
-- no number is accepted twice or skipped, and none after the last.
pub receive_csns_iff :
    (n : ℕ) (ns : List ℕ) (c : Client)
    → c.csn_in ≡ none
    → n < 2 ^ 48
    → (succeeded (receive_csns (n ∷ ns) c) ≡ true)
      ↔ ((n < 2 ^ 32) × (ns ≡ count_up (suc n) (length ns)) × (suc n + length ns ≤ 2 ^ 48))
unfolding receive_csns
receive_csns_iff n ns c e h =
    let rest = Accepts-after ns n c h in
    rw (receive_csn_first n c e h) (elim (Bool-cases (leb (2 ^ 32) n)) [
      | inl high ↦ rw high ((λ x. cc), λ (l, _, _). ground arith)
      | inr low ↦
          rw low ((λ x. let (s, b) = rest.0 x in (ground arith, s, b)), λ (_, s, b). rest.1 (s, b))
    ])
