-- ===== src/SignalingPath/Steps.antt =====
-- Any sequence of calls of the methods of `Path`.
use saltyrtc_server_python.Prelude.{ℕ, ◌≡◌}
use saltyrtc_server_python.Common.State.{restricted}
use saltyrtc_server_python.SignalingPath.{
  World, add_pending, set_initiator, add_responder, remove_client,
}
use saltyrtc_server_python.SignalingPath.Validity.{IsValid}
use saltyrtc_server_python.SignalingPath.Invariant.{
  set_initiator-IsValid, add_responder-IsValid, remove_client-IsValid, add_pending-IsValid,
}

-- A call leads from one world to the next, whether it returns or raises. A client is only added as
-- pending when it is new.
pub data Step : World → World → Type 0 where
  adds_pending : {w : World} (r : ℕ) → (w.clients r).state ≡ restricted → Step w (add_pending r w).1
  sets_initiator : {w : World} (r : ℕ) → Step w (set_initiator r w).1
  adds_responder : {w : World} (r : ℕ) → Step w (add_responder r w).1
  removes_client : {w : World} (r : ℕ) → Step w (remove_client r w).1

pub data Steps : World → World → Type 0 where
  done : {w : World} → Steps w w
  more : {w w' w'' : World} → Step w w' → Steps w' w'' → Steps w w''

Step-IsValid : {w w' : World} → Step w w' → IsValid w → IsValid w'
Step-IsValid (adds_pending {w} r new) v = add_pending-IsValid r w new v
Step-IsValid (sets_initiator {w} r) v = set_initiator-IsValid r w v
Step-IsValid (adds_responder {w} r) v = add_responder-IsValid r w v
Step-IsValid (removes_client {w} r) v = remove_client-IsValid r w v

-- Every world that is reached from a valid one by calls of the methods of the path is valid: all
-- pending clients are unauthenticated, the initiator has the initiator's address, a responder has
-- the address of its slot, and no slot is used twice. The calls may return or raise; a client that
-- is added as pending is new.
pub Steps-IsValid : {w w' : World} → Steps w w' → IsValid w → IsValid w'
Steps-IsValid done v = v
Steps-IsValid (more s rest) v = Steps-IsValid rest (Step-IsValid s v)
