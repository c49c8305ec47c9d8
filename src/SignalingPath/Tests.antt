-- ===== src/SignalingPath/Tests.antt =====
-- A path with an initiator, a responder in a slot, and a client that waits.
use saltyrtc_server_python.Prelude.{
  ℕ, ◌≤◌, ◌≡◌, ◌≢◌, ◌↔◌, refl, true, none, some, [], ◌∷◌, arith, ◌==◌, if◌then◌else◌,
}
use saltyrtc_server_python.Exception.{ok}
use saltyrtc_server_python.Common.State.{authenticated}
use saltyrtc_server_python.Client.{Client}
use saltyrtc_server_python.Client.Tests.{newcomer, key_of}
use saltyrtc_server_python.Message.Guarantees.{IsAddressed}
use saltyrtc_server_python.SignalingPath.{
  World, has_client, set_initiator, add_responder, remove_client, add_pending,
}
use saltyrtc_server_python.SignalingPath.Dict.{lookup}
use saltyrtc_server_python.SignalingPath.Validity.{IsValid}
use saltyrtc_server_python.SignalingPath.Steps.{
  adds_pending, sets_initiator, removes_client, done, more, Steps-IsValid,
}
use saltyrtc_server_python.SignalingPath.Occupancy.{
  IsRegistered, IsContiguous, has_client_iff, set_initiator_takeover, add_responder_evicts,
}

-- Client 5 is the initiator, client 6 a responder, and all others have just connected.
abbrev clients : ℕ → ℕ → Client
clients slot r =
    if r == 5
    then record newcomer { state = authenticated; id = 1 }
    else if r == 6
    then record newcomer { state = authenticated; id = slot }
    else newcomer

-- The responder is in the slot `slot`, and client 4 waits.
abbrev pub occupied : ℕ → World
occupied slot = record {
  path = record {
    pending = 4 ∷ [];
    initiator = some 5;
    responders = (slot, 6) ∷ [];
    initiator_key = key_of 7;
    number = 1;
    attached = true;
  };
  clients = clients slot;
}

clients-IsAddressed : (slot r : ℕ) → 2 ≤ slot → slot ≤ 255 → IsAddressed (clients slot r)
unfolding saltyrtc_server_python.Client.new
clients-IsAddressed slot r low high = record {
  restricted_id = ground arith;
  client_id = ground arith;
}

pub occupied-IsValid : (slot : ℕ) → 2 ≤ slot → slot ≤ 255 → IsValid (occupied slot)
unfolding lookup saltyrtc_server_python.Client.new
occupied-IsValid slot low high = record {
  addressed = λ r. clients-IsAddressed slot r low high;
  pending_restricted = ground arith;
  initiator_id = ground arith;
  slot_id = ground arith;
  distinct = (refl, tt);
}

has_client_iff_example : ((has_client 6 (occupied 3)).0 ≡ ok true) ↔ IsRegistered 6 (occupied 3)
has_client_iff_example =
    has_client_iff 6 (occupied 3) (occupied-IsValid 3 (omega arith) (omega arith)) refl

set_initiator_takeover_example :
    let (result, w') = set_initiator 4 (occupied 3) in
    (result ≡ ok (some 5)) × (w'.initiator ≡ some 4) × ((remove_client 5 w').1.initiator ≡ some 4)
set_initiator_takeover_example =
    set_initiator_takeover 4 5 (occupied 3) (occupied-IsValid 3 (omega arith) (omega arith)) refl
      refl refl

add_responder_evicts_example :
    let (result, w') = add_responder 4 (occupied 3) in
    (result ≡ ok 3)
    × (lookup 3 w'.responders ≡ some 4)
    × (w'.clients 6 ≡ (occupied 3).clients 6)
    × ((w'.clients 6).id ≡ (w'.clients 4).id)
    × ((has_client 6 w').0 ≢ ok true)
    × (lookup 3 (remove_client 6 w').1.responders ≡ none)
unfolding lookup
add_responder_evicts_example =
    add_responder_evicts 4 6 (occupied 3) (occupied-IsValid 3 (omega arith) (omega arith)) refl refl
      refl

occupied-IsContiguous : IsContiguous (occupied 2)
occupied-IsContiguous = λ i. ground arith

-- Client 8 comes, client 4 becomes the initiator, and the previous one leaves.
abbrev takeover : World
takeover = (remove_client 5 (set_initiator 4 (add_pending 8 (occupied 3)).1).1).1

Steps-IsValid_example : IsValid takeover
unfolding saltyrtc_server_python.Client.new
Steps-IsValid_example =
    Steps-IsValid
      (more (adds_pending {w = occupied 3} 8 refl) (
        more (sets_initiator {w = (add_pending 8 (occupied 3)).1} 4)
          (more (removes_client {w = (set_initiator 4 (add_pending 8 (occupied 3)).1).1} 5) done)))
      (occupied-IsValid 3 (omega arith) (omega arith))
