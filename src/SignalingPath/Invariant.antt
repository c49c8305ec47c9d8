-- ===== src/SignalingPath/Invariant.antt =====
-- The methods of `Path` keep a path valid, whether they return or raise.
use saltyrtc_server_python.Prelude.{
  ℕ, ◌+◌, ◌≤◌, ◌≡◌, refl, true, not, ◌&&◌, Option, none, some, contains, length, arith, ◌==◌, leb,
  if◌then◌else◌, if_cases,
}
use saltyrtc_server_python.Exception.{Result, ok, err, key_error}
use saltyrtc_server_python.Common.State.{state_eq, restricted, authenticated}
use saltyrtc_server_python.Message.Guarantees.{IsAddressed}
use saltyrtc_server_python.SignalingPath.{
  World, update, add_pending, set_initiator, add_responder, remove_client, remove_slot, is_none,
}
use saltyrtc_server_python.SignalingPath.Dict.{
  lookup, erase, keys, add, remove, Distinct, lookup-insert, lookup-erase, insert-Distinct,
  contains-remove, contains-add, erase-Distinct,
}
use saltyrtc_server_python.SignalingPath.Validity.{
  IsValid, with_initiator, with_responder, set_initiator_lem, add_responder_lem, remove_slot_lem,
  remove_client_lem, add_pending_lem,
}

-- A restricted client is neither the initiator nor in a slot.
authenticated_IsValid :
    (r id : ℕ) (w : World)
    → IsValid w
    → 1 ≤ id
    → id ≤ 255
    → (q : ℕ)
    → IsAddressed (update w.clients r (record (w.clients r) { state = authenticated; id = id }) q)
authenticated_IsValid r id w v h k q = record {
  restricted_id = λ e. ground (arith, (v.addressed q).restricted_id);
  client_id = λ e. ground (arith, (v.addressed q).client_id);
}

abbrev Holds {ℓ} : {A : Type ℓ} → A × World → Type 0
Holds p = IsValid p.1

-- Making a client the initiator, whether it raises or not, leaves a valid path.
pub set_initiator-IsValid : (r : ℕ) (w : World) → IsValid w → IsValid (set_initiator r w).1
set_initiator-IsValid r w v = rw (set_initiator_lem r w v) (
    if_cases Holds w.attached (λ _. if_cases Holds (contains r w.pending) registered (λ _. v))
      (λ _. v))
  where
    registered : contains r w.pending ≡ true → IsValid (with_initiator r w)
    registered h = record {
      addressed = authenticated_IsValid r 1 w v (omega arith) (omega arith);
      pending_restricted =
          λ q k. ground (arith, v.pending_restricted q, contains-remove r q w.pending);
      initiator_id = λ q k. ground arith;
      slot_id = λ i q k. ground (arith, v.slot_id i q, v.pending_restricted r);
      distinct = v.distinct;
    }

-- Adding a responder, whether it raises or not, leaves a valid path.
pub add_responder-IsValid : (r : ℕ) (w : World) → IsValid w → IsValid (add_responder r w).1
add_responder-IsValid r w v = rw (add_responder_lem r w v) (
    if_cases Holds w.attached
      (λ _.
        if_cases Holds (leb (length w.responders + 2) 255)
          (λ free. if_cases Holds (contains r w.pending) (registered free) (λ _. v)) (λ _. v))
      (λ _. v))
  where
    registered :
        leb (length w.responders + 2) 255 ≡ true
        → contains r w.pending ≡ true
        → IsValid (with_responder (length w.responders + 2) r w)
    registered free h = record {
      addressed =
          authenticated_IsValid r (length w.responders + 2) w v (omega arith) (ground arith);
      pending_restricted =
          λ q k. ground (arith, v.pending_restricted q, contains-remove r q w.pending);
      initiator_id = λ q k. ground (arith, v.initiator_id q, v.pending_restricted r);
      slot_id = λ i q k. ground (
        arith,
        v.slot_id i q,
        v.pending_restricted r,
        lookup-insert (length w.responders + 2) i r w.responders,
      );
      distinct = insert-Distinct (length w.responders + 2) r w.responders v.distinct;
    }

-- Taking clients out of a path keeps what holds of it.
record Within (w' w : World) : Type 0 where
  clients : (r : ℕ) → w'.clients r ≡ w.clients r
  pending : (r : ℕ) → contains r w'.pending ≡ true → contains r w.pending ≡ true
  initiator : (r : ℕ) → w'.initiator ≡ some r → w.initiator ≡ some r
  slots : (i r : ℕ) → lookup i w'.responders ≡ some r → lookup i w.responders ≡ some r
  distinct : Distinct (keys w'.responders)

Within-IsValid : (w' w : World) → Within w' w → IsValid w → IsValid w'
Within-IsValid w' w k v = record {
  addressed = λ r. rw (k.clients r) (v.addressed r);
  pending_restricted = λ r h. rw (k.clients r) (v.pending_restricted r (k.pending r h));
  initiator_id = λ r h. rw (k.clients r) (v.initiator_id r (k.initiator r h));
  slot_id = λ i r h. rw (k.clients r) (v.slot_id i r (k.slots i r h));
  distinct = k.distinct;
}

without_pending :
    (r : ℕ) (w : World)
    → IsValid w
    → IsValid (record w { path = record w.path { pending = remove r w.pending } })
without_pending r w v =
    Within-IsValid _ w
      (record {
        clients = λ q. refl;
        pending = λ q h. ground (arith, contains-remove r q w.pending);
        initiator = λ q h. h;
        slots = λ i q h. h;
        distinct = v.distinct;
      })
      v

without_slot :
    (i : ℕ) (w : World)
    → IsValid w
    → IsValid (record w { path = record w.path { responders = erase i w.responders } })
without_slot i w v =
    Within-IsValid _ w
      (record {
        clients = λ q. refl;
        pending = λ q h. h;
        initiator = λ q h. h;
        slots = λ j q h. ground (arith, lookup-erase i j w.responders v.distinct);
        distinct = erase-Distinct i w.responders v.distinct;
      })
      v

without_initiator :
    (w : World) → IsValid w → IsValid (record w { path = record w.path { initiator = none } })
without_initiator w v =
    Within-IsValid _ w
      (record {
        clients = λ q. refl;
        pending = λ q h. h;
        initiator = λ q h. cc;
        slots = λ i q h. h;
        distinct = v.distinct;
      })
      v

remove_slot-IsValid : (r id : ℕ) (w : World) → IsValid w → IsValid (remove_slot r id w).1
remove_slot-IsValid r id w v = rw (remove_slot_lem r id w) (
    if_cases Holds w.attached
      (λ _. if_cases Holds (id == 1) (λ _. initiator w.initiator) (λ _. slot))
      (λ _. if_cases Holds (id == 1) (λ _. v) (λ _. slot)))
  where
    slot : Holds {A = Result (Unit {0})} (
        if leb 2 id && leb id 255 && not (is_none (lookup id w.responders))
        then (ok tt, record w { path = record w.path { responders = erase id w.responders } })
        else (err key_error, w))
    slot =
        if_cases Holds (leb 2 id && leb id 255 && not (is_none (lookup id w.responders)))
          (λ _. without_slot id w v) (λ _. v)

    initiator :
        (o : Option ℕ)
        → Holds {A = Result (Unit {0})} (elim o [
          | none ↦ (err key_error, w)
          | some q ↦
              if q == r
              then (ok tt, record w { path = record w.path { initiator = none } })
              else (ok tt, w)
        ])
    initiator none = v
    initiator (some q) = if_cases Holds (q == r) (λ _. without_initiator w v) (λ _. v)

-- Removing a client, whether it raises or not, leaves a valid path.
pub remove_client-IsValid : (r : ℕ) (w : World) → IsValid w → IsValid (remove_client r w).1
remove_client-IsValid r w v =
    let w' = record w { path = record w.path { pending = remove r w.pending } } in
    rw (remove_client_lem r w) (
      if_cases Holds w.attached
        (λ _.
          if_cases Holds (state_eq (w.clients r).state restricted)
            (λ _. if_cases Holds (contains r w.pending) (λ _. without_pending r w v) (λ _. v))
            (λ _. remove_slot-IsValid r (w.clients r).id w' (without_pending r w v)))
        (λ _. v))

-- Attaching a restricted client as pending, whether it raises or not, leaves a valid path.
pub add_pending-IsValid :
    (r : ℕ) (w : World) → (w.clients r).state ≡ restricted → IsValid w → IsValid (add_pending r w).1
add_pending-IsValid r w fresh v =
    rw (add_pending_lem r w) (if_cases Holds w.attached (λ _. waiting) (λ _. v))
  where
    waiting : IsValid (record w { path = record w.path { pending = add r w.pending } })
    waiting = record {
      addressed = v.addressed;
      pending_restricted =
          λ q h. ground (arith, v.pending_restricted q, contains-add r q w.pending);
      initiator_id = v.initiator_id;
      slot_id = v.slot_id;
      distinct = v.distinct;
    }
