-- ===== src/SignalingPath/Validity.antt =====
-- What holds of a path and of its clients between two calls of the methods of `Path`, and what
-- each method does, on every branch.
use saltyrtc_server_python.Prelude.{
  ℕ, ◌+◌, ◌≤◌, ◌≡◌, ◌≢◌, true, not, ◌&&◌, none, some, contains, length, arith, ◌==◌, leb,
  if◌then◌else◌,
}
use saltyrtc_server_python.Exception.{ok, err, value_error, key_error, slots_full_error}
use saltyrtc_server_python.Common.State.{state_eq, restricted, authenticated}
use saltyrtc_server_python.Message.Guarantees.{IsAddressed}
use saltyrtc_server_python.SignalingPath.{
  World, update, add_pending, set_initiator, add_responder, remove_client, remove_slot, is_none,
}
use saltyrtc_server_python.SignalingPath.Dict.{lookup, insert, erase, keys, add, remove, Distinct}

pub record IsValid (w : World) : Type 0 where
  pub addressed : (r : ℕ) → IsAddressed (w.clients r)
  pub pending_restricted : (r : ℕ) → contains r w.pending ≡ true → (w.clients r).state ≡ restricted
  pub initiator_id :
      (r : ℕ) → w.initiator ≡ some r → ((w.clients r).id ≡ 1) × ((w.clients r).state ≢ restricted)
  pub slot_id :
      (i r : ℕ)
      → lookup i w.responders ≡ some r
      → ((w.clients r).id ≡ i) × (2 ≤ i) × (i ≤ 255) × ((w.clients r).state ≢ restricted)
  pub distinct : Distinct (keys w.responders)

-- The path with `r` as its initiator, or in the slot `id`, authenticated and no longer pending.
abbrev pub with_initiator : ℕ → World → World
with_initiator r w = record {
  path = record w.path { pending = remove r w.pending; initiator = some r };
  clients = update w.clients r (record (w.clients r) { state = authenticated; id = 1 });
}

abbrev pub with_responder : ℕ → ℕ → World → World
with_responder id r w = record {
  path = record w.path { pending = remove r w.pending; responders = insert id r w.responders };
  clients = update w.clients r (record (w.clients r) { state = authenticated; id = id });
}

-- What `set_initiator` does to a valid path, on every branch.
pub set_initiator_lem :
    (r : ℕ) (w : World)
    → IsValid w
    → set_initiator r w ≡ (
        if w.attached
        then (if contains r w.pending
            then (ok w.initiator, with_initiator r w)
            else (err key_error, w))
        else (err value_error, w))
unfolding set_initiator
set_initiator_lem r w v = ground (arith, v.pending_restricted r)

pub add_responder_lem :
    (r : ℕ) (w : World)
    → IsValid w
    → add_responder r w ≡ (
        let id = length w.responders + 2 in
        if w.attached
        then (if leb id 255
            then (if contains r w.pending
                then (ok id, with_responder id r w)
                else (err key_error, w))
            else (err slots_full_error, w))
        else (err value_error, w))
unfolding add_responder
add_responder_lem r w v = ground (arith, v.pending_restricted r)

pub remove_slot_lem :
    (r id : ℕ) (w : World)
    → remove_slot r id w ≡ (
        if w.attached
        then (if id == 1
            then (elim w.initiator [
              | none ↦ (err key_error, w)
              | some q ↦
                  if q == r
                  then (ok tt, record w { path = record w.path { initiator = none } })
                  else (ok tt, w)
            ])
            else if leb 2 id && leb id 255 && not (is_none (lookup id w.responders))
            then (ok tt, record w { path = record w.path { responders = erase id w.responders } })
            else (err key_error, w))
        else if id == 1
        then (err value_error, w)
        else if leb 2 id && leb id 255 && not (is_none (lookup id w.responders))
        then (ok tt, record w { path = record w.path { responders = erase id w.responders } })
        else (err key_error, w))
unfolding remove_slot
remove_slot_lem r id w = ground arith

pub remove_client_lem :
    (r : ℕ) (w : World)
    → remove_client r w ≡ (
        let w' = record w { path = record w.path { pending = remove r w.pending } } in
        if w.attached
        then (if state_eq (w.clients r).state restricted
            then (if contains r w.pending then (ok tt, w') else (err key_error, w))
            else remove_slot r (w.clients r).id w')
        else (err value_error, w))
unfolding remove_client
remove_client_lem r w = ground arith

pub add_pending_lem :
    (r : ℕ) (w : World)
    → add_pending r w ≡ (
        if w.attached
        then (ok tt, record w { path = record w.path { pending = add r w.pending } })
        else (err value_error, w))
unfolding add_pending
add_pending_lem r w = ground arith
