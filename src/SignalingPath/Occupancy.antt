-- ===== src/SignalingPath/Occupancy.antt =====
-- Who holds a slot of a path: `Path.has_client`, and what `add_responder`, `set_initiator` and
-- `remove_client` do to the clients that are there already.
use saltyrtc_server_python.Prelude.{
  ℕ, ◌+◌, ◌≤◌, ◌≡◌, ◌≢◌, ◌↔◌, ◌⊎◌, refl, true, false, none, some, contains, length, arith, ◌==◌,
  leb, ltb, ◌&&◌, if◌then◌else◌, inl, inr,
}
use saltyrtc_server_python.Exception.{ok}
use saltyrtc_server_python.Common.State.{restricted}
use saltyrtc_server_python.SignalingPath.{
  World, set_initiator, add_responder, remove_client, has_client,
}
use saltyrtc_server_python.SignalingPath.Dict.{
  lookup, remove, keys, Distinct, lookup-insert, lookup-erase, insert-Distinct, lookup-none,
  length-insert, contains-insert,
}
use saltyrtc_server_python.SignalingPath.Validity.{
  IsValid, with_initiator, with_responder, set_initiator_lem, add_responder_lem, remove_client_lem,
  remove_slot_lem,
}

-- The client is the path's initiator or holds one of its slots.
abbrev pub IsRegistered : ℕ → World → Type 0
IsRegistered r w = (w.initiator ≡ some r) ⊎ ((i : ℕ) × (lookup i w.responders ≡ some r))

has_client_lem :
    (r : ℕ) (w : World)
    → w.attached ≡ true
    → (i : ℕ) → (w.clients r).id ≡ i
    → ((has_client r w).0 ≡ ok true) ↔ (
        ((i ≡ 1) × (w.initiator ≡ some r))
        ⊎ ((2 ≤ i) × (i ≤ 255) × (lookup i w.responders ≡ some r)))
unfolding has_client
has_client_lem r w h i e = ground arith

-- On a path that is in use, `has_client` finds exactly the initiator and the responders in a slot.
pub has_client_iff :
    (r : ℕ) (w : World)
    → IsValid w
    → w.attached ≡ true
    → ((has_client r w).0 ≡ ok true) ↔ IsRegistered r w
has_client_iff r w v h =
    let l = has_client_lem r w h _ refl in
    (
      (λ e. elim (l.0 e) [ inl (_, p) ↦ inl p | inr (_, _, p) ↦ inr ((w.clients r).id, p) ]),
      λ e. elim e [
        | inl p ↦ l.1 (inl ((v.initiator_id r p).0, p))
        | inr (i, p) ↦ l.1 (
            inr (
              ground (arith, v.slot_id i r p),
              ground (arith, v.slot_id i r p),
              ground (arith, v.slot_id i r p),
            ))
      ],
    )

pub set_initiator_ok :
    (r : ℕ) (w : World)
    → IsValid w
    → w.attached ≡ true
    → contains r w.pending ≡ true
    → set_initiator r w ≡ (ok w.initiator, with_initiator r w)
set_initiator_ok r w v a p = simp (set_initiator_lem r w v, a, p)

-- A client with the initiator's address that is not the initiator removes nobody.
remove_other_initiator :
    (r old : ℕ) (w : World)
    → w.attached ≡ true
    → (w.clients old).state ≢ restricted
    → (w.clients old).id ≡ 1
    → w.initiator ≡ some r
    → r ≢ old
    → (remove_client old w).1.initiator ≡ some r
remove_other_initiator r old w a s i h n = ground (
  arith,
  remove_client_lem old w,
  remove_slot_lem old 1 (record w { path = record w.path { pending = remove old w.pending } }),
)

-- A new initiator takes the place of the previous one, which is returned. When the previous one
-- removes itself later, the new one stays.
pub set_initiator_takeover :
    (r old : ℕ) (w : World)
    → IsValid w
    → w.attached ≡ true
    → contains r w.pending ≡ true
    → w.initiator ≡ some old
    → let (result, w') = set_initiator r w in
      (result ≡ ok (some old))
      × (w'.initiator ≡ some r)
      × ((remove_client old w').1.initiator ≡ some r)
set_initiator_takeover r old w v a p i = rw (set_initiator_ok r w v a p) (
  ground arith,
  refl,
  remove_other_initiator r old (with_initiator r w) a
      (λ e. ground (arith, v.initiator_id old i, v.pending_restricted r p))
      (ground (arith, v.initiator_id old i, v.pending_restricted r p)) refl
      (λ e. ground (arith, v.initiator_id old i, v.pending_restricted r p)),
)

-- The slot that `add_responder` computes: it counts the responders.
abbrev pub next_slot : World → ℕ
next_slot w = length w.responders + 2

pub add_responder_ok :
    (r : ℕ) (w : World)
    → IsValid w
    → w.attached ≡ true
    → contains r w.pending ≡ true
    → next_slot w ≤ 255
    → add_responder r w ≡ (ok (next_slot w), with_responder (next_slot w) r w)
add_responder_ok r w v a p h = simp (add_responder_lem r w v, a, p) (ground arith)

-- The removal of a client that has been authenticated clears the slot of its id.
remove_clears_slot :
    (old i : ℕ) (w : World)
    → w.attached ≡ true
    → (w.clients old).state ≢ restricted
    → (w.clients old).id ≡ i
    → 2 ≤ i
    → i ≤ 255
    → Distinct (keys w.responders)
    → lookup i (remove_client old w).1.responders ≡ none
remove_clears_slot old i w a s e h k d = ground (
  arith,
  remove_client_lem old w,
  remove_slot_lem old i (record w { path = record w.path { pending = remove old w.pending } }),
  lookup-erase i i w.responders d,
)

-- The slot that is counted may be taken, if a responder before it has left. The new responder then
-- replaces the one in the slot, which is still authenticated under the same address, and is no
-- longer found on the path; and when that one leaves, it takes the new responder off the path.
pub add_responder_evicts :
    (r old : ℕ) (w : World)
    → IsValid w
    → w.attached ≡ true
    → contains r w.pending ≡ true
    → lookup (next_slot w) w.responders ≡ some old
    → let (result, w') = add_responder r w in
      (result ≡ ok (next_slot w))
      × (lookup (next_slot w) w'.responders ≡ some r)
      × (w'.clients old ≡ w.clients old)
      × ((w'.clients old).id ≡ (w'.clients r).id)
      × ((has_client old w').0 ≢ ok true)
      × (lookup (next_slot w) (remove_client old w').1.responders ≡ none)
add_responder_evicts r old w v a p e =
    let taken = v.slot_id (next_slot w) old e in
    let other : old ≢ r = λ same. ground (arith, taken, v.pending_restricted r p) in
    let w' = with_responder (next_slot w) r w in
    let found = lookup-insert (next_slot w) (next_slot w) r w.responders in
    let place : (w'.clients old).id ≡ next_slot w = ground (arith, taken, other) in
    rw (add_responder_ok r w v a p taken.2) (
      refl,
      ground (arith, found),
      ground (arith, other),
      ground (arith, taken, other),
      (λ x. ground (arith, (has_client_lem old w' a (next_slot w) place).0 x, found, other)),
      remove_clears_slot old (next_slot w) w' a (λ x. ground (arith, taken, other)) place taken.1
          taken.2 (insert-Distinct (next_slot w) r w.responders v.distinct),
    )

-- The slots of a path that no responder has left: 0x02 up to the number of responders.
abbrev pub IsContiguous : World → Type 0
IsContiguous w = (i : ℕ) → contains i (keys w.responders) ≡ (leb 2 i && ltb i (next_slot w))

-- On a path that no responder has left, the assigned slot is free, the other slots keep their
-- responders, and the slots have no gap either afterwards.
pub add_responder_free :
    (r : ℕ) (w : World)
    → IsValid w
    → IsContiguous w
    → w.attached ≡ true
    → contains r w.pending ≡ true
    → next_slot w ≤ 255
    → let (result, w') = add_responder r w in
      (result ≡ ok (next_slot w))
      × (lookup (next_slot w) w.responders ≡ none)
      × ((j : ℕ)
          → lookup j w'.responders ≡ (if next_slot w == j then some r else lookup j w.responders))
      × IsContiguous w'
add_responder_free r w v g a p h =
    let unused : contains (next_slot w) (keys w.responders) ≡ false =
      ground (arith, g (next_slot w)) in
    rw (add_responder_ok r w v a p h) (
      refl,
      lookup-none (next_slot w) w.responders unused,
      (λ j. lookup-insert (next_slot w) j r w.responders),
      (λ j. ground (
        arith,
        g j,
        contains-insert (next_slot w) j r w.responders,
        length-insert (next_slot w) r w.responders,
        unused,
      )),
    )
