-- ===== src/SignalingPath.antt =====
-- `Path` of saltyrtc/server/protocol.py: the clients of one signalling path.
--
-- A `PathClient` is an object that a path and several protocols share, so a client is a reference,
-- and `clients` is the store of the objects. `==` of two clients is the identity of the objects.
pub mod Dict
pub mod Validity
pub mod Invariant
pub mod Occupancy
pub mod Steps
pub mod Removal
pub mod Tests
use saltyrtc_server_python.Prelude.{
  ℕ, ◌+◌, ◌≡◌, pos, Bool, true, false, not, ◌&&◌, Option, none, some, List, [], ◌∷◌, Bytes,
  contains, length, ◌==◌, if◌then◌else◌,
}
use saltyrtc_server_python.Exception.{
  Error, Result, ok, err, value_error, key_error, slots_full_error, value_error_as,
}
use saltyrtc_server_python.Exec.{
  Exec, pure, raise, lift, gets, modify, ensure, continue, ◌>>=◌, ◌>>◌,
}
use saltyrtc_server_python.Value.{int}
use saltyrtc_server_python.Common.Address.{responder_address, initiator_address}
use saltyrtc_server_python.Common.State.{restricted, state_eq}
use saltyrtc_server_python.Client.{Client, authenticate}
use Dict.{Slots, lookup, insert, erase, keys, add, remove}

pub record SignalingPath : Type 0 where
  pub pending : List ℕ
  pub initiator : Option ℕ
  pub responders : Slots
  pub initiator_key : Bytes
  pub number : ℕ
  pub attached : Bool

pub record World : Type 0 where
  pub path : SignalingPath
  pub open path use *
  pub clients : ℕ → Client

-- `Path.__init__`, with `attached=True`
unfoldable pub new : Bytes → ℕ → SignalingPath
new initiator_key number = record {
  pending = [];
  initiator = none;
  responders = [];
  initiator_key = initiator_key;
  number = number;
  attached = true;
}

abbrev pub is_empty {ℓ} : {A : Type ℓ} → List A → Bool
is_empty [] = true
is_empty (x ∷ xs) = false

abbrev pub is_none {ℓ} : {A : Type ℓ} → Option A → Bool
is_none none = true
is_none (some a) = false

-- `Path.empty`
unfoldable pub empty : SignalingPath → Bool
empty p = is_empty p.pending && is_none p.initiator && is_empty p.responders

abbrev pub update : (ℕ → Client) → ℕ → Client → ℕ → Client
update f r c q = if r == q then c else f q

-- A method of the client that `r` refers to.
unfoldable pub on_client {ℓ} :
    {A : Type ℓ} → ℕ → (Client → Result A × Client) → World → Result A × World
on_client r m w = let (a, c) = m (w.clients r) in (a, record w { clients = update w.clients r c })

abbrev is_client : Option ℕ → ℕ → Bool
is_client none r = false
is_client (some q) r = q == r

-- `if not self.attached: raise ValueError(...)`
abbrev pub check_attached : Exec World (Unit {0})
check_attached w = ensure w.attached value_error w

abbrev set_path : (SignalingPath → SignalingPath) → Exec World (Unit {0})
set_path f = modify (λ w. record w { path = f w.path })

unfoldable pub add_pending : ℕ → Exec World (Unit {0})
unfolding add
add_pending r = do check_attached; set_path (λ p. record p { pending = add r p.pending })

-- The dictionary's lookup, whose `KeyError` is `none`.
abbrev responder_is : Result ℕ → Slots → ℕ → Bool
responder_is (ok id) slots r = is_client (lookup id slots) r
responder_is (err e) slots r = false

unfoldable pub has_client : ℕ → Exec World Bool
unfolding responder_address
has_client r = do
  check_attached
  id ← gets (λ w. (w.clients r).id)
  p ← gets (λ w. w.path)
  if id == initiator_address
      then pure (is_client p.initiator r)
      else pure (responder_is (responder_address (int (pos id))) p.responders r)

abbrev pub or_key_error {ℓ} : {A : Type ℓ} → Option A → Result A
or_key_error none = err key_error
or_key_error (some a) = ok a

unfoldable pub get_initiator : Exec World ℕ
get_initiator = do
  check_attached
  initiator ← gets (λ w. w.initiator)
  lift (or_key_error initiator)

-- `self._pending.remove(client)`
unfoldable pub remove_pending : ℕ → Exec World (Unit {0})
unfolding remove
remove_pending r = do
  pending ← gets (λ w. w.pending)
  ensure (contains r pending) key_error
  set_path (λ p. record p { pending = remove r p.pending })

-- The previous initiator is returned.
unfoldable pub set_initiator : ℕ → Exec World (Option ℕ)
unfolding remove_pending authenticate on_client
set_initiator r = do
  check_attached
  remove_pending r
  previous_initiator ← gets (λ w. w.initiator)
  set_path (λ p. record p { initiator = some r })
  on_client r (authenticate initiator_address)
  pure previous_initiator

unfoldable pub get_responder : ℕ → Exec World ℕ
get_responder id = do
  check_attached
  slots ← gets (λ w. w.responders)
  lift (or_key_error (lookup id slots))

unfoldable pub get_responder_ids : Exec World (List ℕ)
get_responder_ids = do check_attached; gets (λ w. keys w.responders)

-- The assigned slot is returned.
unfoldable pub add_responder : ℕ → Exec World ℕ
unfolding responder_address remove_pending insert authenticate on_client
add_responder r = do
  check_attached
  count ← gets (λ w. length w.responders)
  id ← lift (value_error_as slots_full_error (responder_address (int (pos (count + 0x02)))))
  remove_pending r
  set_path (λ p. record p { responders = insert id r p.responders })
  on_client r (authenticate id)
  pure id

-- `del self._responders[id_]`
abbrev delete_responder : ℕ → Exec World (Unit {0})
delete_responder id = do
  slots ← gets (λ w. w.responders)
  ensure (not (is_none (lookup id slots))) key_error
  set_path (λ p. record p { responders = erase id p.responders })

-- The removal of a client that has been authenticated, by its id.
unfoldable pub remove_slot : ℕ → ℕ → Exec World (Unit {0})
unfolding get_initiator responder_address lookup erase
remove_slot r id =
    if id == initiator_address
    then (do
      initiator ← get_initiator
      if initiator == r then set_path (λ p. record p { initiator = none }) else pure tt)
    else (do
      address ← lift (value_error_as key_error (responder_address (int (pos id))))
      delete_responder address)

-- A client that should not be pending is taken out all the same; the source logs an error.
unfoldable pub remove_client : ℕ → Exec World (Unit {0})
unfolding remove_pending
remove_client r = do
  check_attached
  client ← gets (λ w. w.clients r)
  if state_eq client.state restricted
      then remove_pending r
      else (do set_path (λ p. record p { pending = remove r p.pending }); remove_slot r client.id)

unfoldable pub clear : SignalingPath → SignalingPath
clear p = record p { pending = []; initiator = none; responders = [] }
