-- ===== src/SignalingPath/Dict.antt =====
-- The containers of a path: the dictionary of responders, in the order of insertion, and the set
-- of pending clients.
use saltyrtc_server_python.Prelude.{
  ℕ, ◌+◌, ◌≡◌, refl, true, false, Option, none, some, List, [], ◌∷◌, map, length, contains, arith,
  ◌==◌, if◌then◌else◌,
}

-- The responder at each address.
abbrev pub Slots : Type 0
Slots = List (ℕ × ℕ)

unfoldable pub lookup : ℕ → Slots → Option ℕ
lookup k [] = none
lookup k ((j, r) ∷ m) = if j == k then some r else lookup k m

unfoldable pub insert : ℕ → ℕ → Slots → Slots
insert k r [] = (k, r) ∷ []
insert k r ((j, q) ∷ m) = if j == k then (k, r) ∷ m else (j, q) ∷ insert k r m

-- `del d[k]`, where the key is there.
unfoldable pub erase : ℕ → Slots → Slots
erase k [] = []
erase k ((j, q) ∷ m) = if j == k then m else (j, q) ∷ erase k m

abbrev pub keys : Slots → List ℕ
keys = map (λ e. e.0)

-- The set of pending clients, without repetition.
unfoldable pub add : ℕ → List ℕ → List ℕ
add r rs = if contains r rs then rs else r ∷ rs

unfoldable pub remove : ℕ → List ℕ → List ℕ
remove r [] = []
remove r (x ∷ xs) = let rest = remove r xs in if x == r then rest else x ∷ rest

-- No key stands in the list twice.
abbrev pub Distinct : List ℕ → Type 0
Distinct [] = Unit
Distinct (x ∷ xs) = (contains x xs ≡ false) × Distinct xs

pub lookup-insert :
    (k j r : ℕ) (m : Slots) → lookup j (insert k r m) ≡ (if k == j then some r else lookup j m)
unfolding lookup insert
lookup-insert k j r [] = ground arith
lookup-insert k j r ((i, q) ∷ m) = ground (arith, lookup-insert k j r m)

pub lookup-none : (k : ℕ) (m : Slots) → contains k (keys m) ≡ false → lookup k m ≡ none
unfolding lookup
lookup-none k [] h = refl
lookup-none k ((j, r) ∷ m) h = ground (arith, lookup-none k m)

pub contains-lookup : (k : ℕ) (m : Slots) → lookup k m ≡ none → contains k (keys m) ≡ false
unfolding lookup
contains-lookup k [] h = refl
contains-lookup k ((j, r) ∷ m) h = ground (arith, contains-lookup k m)

pub lookup-erase :
    (k j : ℕ) (m : Slots)
    → Distinct (keys m)
    → lookup j (erase k m) ≡ (if k == j then none else lookup j m)
unfolding lookup erase
lookup-erase k j [] d = ground arith
lookup-erase k j ((i, q) ∷ m) d = ground (arith, lookup-erase k j m d.1, lookup-none k m)

pub contains-insert :
    (k j r : ℕ) (m : Slots)
    → contains j (keys (insert k r m)) ≡ (if j == k then true else contains j (keys m))
unfolding insert
contains-insert k j r [] = ground arith
contains-insert k j r ((i, q) ∷ m) = ground (arith, contains-insert k j r m)

contains-erase :
    (k j : ℕ) (m : Slots) → contains j (keys m) ≡ false → contains j (keys (erase k m)) ≡ false
unfolding erase
contains-erase k j [] h = refl
contains-erase k j ((i, q) ∷ m) h = ground (arith, contains-erase k j m)

pub insert-Distinct : (k r : ℕ) (m : Slots) → Distinct (keys m) → Distinct (keys (insert k r m))
unfolding insert
insert-Distinct k r [] d = ground arith
insert-Distinct k r ((j, q) ∷ m) d =
    ground (arith, insert-Distinct k r m d.1, contains-insert k j r m)

pub erase-Distinct : (k : ℕ) (m : Slots) → Distinct (keys m) → Distinct (keys (erase k m))
unfolding erase
erase-Distinct k [] d = tt
erase-Distinct k ((j, q) ∷ m) d = ground (arith, erase-Distinct k m d.1, contains-erase k j m)

pub length-insert :
    (k r : ℕ) (m : Slots)
    → length (insert k r m) ≡ (if contains k (keys m) then length m else length m + 1)
unfolding insert
length-insert k r [] = ground arith
length-insert k r ((j, q) ∷ m) = ground (arith, length-insert k r m)

pub contains-remove :
    (r q : ℕ) (xs : List ℕ) → contains q (remove r xs) ≡ (if q == r then false else contains q xs)
unfolding remove
contains-remove r q [] = ground arith
contains-remove r q (x ∷ xs) = ground (arith, contains-remove r q xs)

pub contains-add :
    (r q : ℕ) (xs : List ℕ) → contains q (add r xs) ≡ (if q == r then true else contains q xs)
unfolding add
contains-add r q xs = ground arith
