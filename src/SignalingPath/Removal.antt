-- ===== src/SignalingPath/Removal.antt =====
-- What `Path.remove_client` leaves of a client.
use saltyrtc_server_python.Prelude.{ℕ, ◌≡◌, ◌≢◌, true, false, some, contains, arith}
use saltyrtc_server_python.SignalingPath.{SignalingPath, World, remove_client}
use saltyrtc_server_python.SignalingPath.Dict.{lookup, lookup-erase, contains-remove, remove}
use saltyrtc_server_python.SignalingPath.Validity.{IsValid, remove_client_lem, remove_slot_lem}

-- The path has no reference to the client.
pub record IsGone (r : ℕ) (p : SignalingPath) : Type 0 where
  pub pending : contains r p.pending ≡ false
  pub initiator : p.initiator ≢ some r
  pub responders : (id : ℕ) → lookup id p.responders ≢ some r

pub remove_client-IsGone :
    (r : ℕ) (w : World) → IsValid w → w.attached ≡ true → IsGone r (remove_client r w).1.path
remove_client-IsGone r w v a =
    let id = (w.clients r).id in
    let removed = remove_client_lem r w in
    let slot =
      remove_slot_lem r id (record w { path = record w.path { pending = remove r w.pending } }) in
    record {
      pending = ground (arith, removed, slot, contains-remove r r w.pending);
      initiator = λ h. ground (arith, removed, slot, v.initiator_id r, h);
      responders = λ i h.
          ground
            (arith, removed, slot, v.slot_id i r, lookup-erase id i w.responders v.distinct, h);
    }

pub remove_client_frame :
    (r : ℕ) (w : World)
    → let p = (remove_client r w).1.path in
      (p.attached ≡ w.attached) × (p.number ≡ w.number) × (p.initiator_key ≡ w.initiator_key)
remove_client_frame r w = ground (
  arith,
  remove_client_lem r w,
  remove_slot_lem r (w.clients r).id
      (record w { path = record w.path { pending = remove r w.pending } }),
)

pub remove_client-detached :
    (r : ℕ) (w : World) → w.attached ≡ false → (remove_client r w).1.path ≡ w.path
remove_client-detached r w h = ground (arith, remove_client_lem r w, h)
