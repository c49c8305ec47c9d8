-- ===== src/Server/Paths.antt =====
-- `Paths` of saltyrtc/server/server.py, as it runs with `__splice__ = True` (which
-- saltyrtc/server/__init__.py sets).
--
-- A path is an object that the dictionary and the protocols share, so the dictionary holds the
-- number of a path, and `objects` is the store of the paths. A key of the dictionary is a value of
-- `bytes`, or the `str` of one: `str` of two `bytes` is the same only if they are, and a `str` is
-- never equal to a `bytes`.
use saltyrtc_server_python.Prelude.{
  ℕ, ◌+◌, ◌≡◌, refl, Bool, true, false, Option, none, some, List, [], ◌∷◌, Bytes, bytes_eq,
  bytes_eq_refl, arith, ◌==◌, if◌then◌else◌, ◌≤◌, sym, if_cases, bytes_eq_sound,
}
use saltyrtc_server_python.SignalingPath.{SignalingPath, new, empty, clear}

pub data Key : Type 0 where
  of_bytes str_of : Bytes → Key

abbrev key_eq : Key → Key → Bool
key_eq (of_bytes b) (of_bytes c) = bytes_eq b c
key_eq (str_of b) (str_of c) = bytes_eq b c
key_eq _ _ = false

pub record Paths : Type 0 where
  pub number : ℕ
  pub paths : List (Key × ℕ)
  pub objects : ℕ → SignalingPath

abbrev pub find : Key → List (Key × ℕ) → Option ℕ
find k [] = none
find k ((j, n) ∷ m) = if key_eq j k then some n else find k m

-- `del self.paths[key]`; `none` is a `KeyError`.
abbrev delete : Key → List (Key × ℕ) → Option (List (Key × ℕ))
delete k [] = none
delete k ((j, n) ∷ m) =
    let rest = delete k m in
    if key_eq j k then some m else elim rest [ none ↦ none | some m' ↦ some ((j, n) ∷ m') ]

abbrev pub store : (ℕ → SignalingPath) → ℕ → SignalingPath → ℕ → SignalingPath
store f n p m = if n == m then p else f m

abbrev create : Bytes → Paths → ℕ × Paths
create initiator_key s =
    let n = s.number + 1 in
    (
      n,
      record {
        number = n;
        paths = (str_of initiator_key, n) ∷ s.paths;
        objects = store s.objects n (new initiator_key n);
      },
    )

abbrev get_at : Option ℕ → Bytes → Paths → ℕ × Paths
get_at none initiator_key s = create initiator_key s
get_at (some n) initiator_key s = (n, s)

-- The number of the path, which is the path that is there or a new one.
unfoldable pub get : Bytes → Paths → ℕ × Paths
unfolding new
get initiator_key s = get_at (find (str_of initiator_key) s.paths) initiator_key s

abbrev or_same : Option (List (Key × ℕ)) → List (Key × ℕ) → List (Key × ℕ)
or_same none m = m
or_same (some m') m = m'

-- A missing key is logged.
unfoldable pub clean : ℕ → Paths → Paths
unfolding empty clear
clean n s =
    let p = s.objects n in
    if empty p
    then record s {
      paths = or_same (delete (of_bytes p.initiator_key) s.paths) s.paths;
      objects = store s.objects n (clear (record p { attached = false }));
    }
    else s

-- Every key of the dictionary is a `str`.
abbrev pub Named : List (Key × ℕ) → Type 0
Named [] = Unit
Named ((of_bytes b, n) ∷ m) = ⊥
Named ((str_of b, n) ∷ m) = Named m

delete-Named : (b : Bytes) (m : List (Key × ℕ)) → Named m → delete (of_bytes b) m ≡ none
delete-Named b [] h = refl
delete-Named b ((of_bytes c, n) ∷ m) h = elim h [ ]
delete-Named b ((str_of c, n) ∷ m) h = rw (delete-Named b m h) refl

-- Every key of the dictionary is a `str`, and the path at it is the path of this key.
abbrev pub IsValid : Paths → Type 0
IsValid s =
    Named s.paths
    × ((b : Bytes) (n : ℕ)
        → find (str_of b) s.paths ≡ some n
        → (n ≤ s.number) × ((s.objects n).initiator_key ≡ b))

same_bytes : (b c : Bytes) → bytes_eq b c ≡ true → c ≡ b
same_bytes b c h = sym (bytes_eq_sound b c h)

create-IsValid : (b : Bytes) (s : Paths) → IsValid s → IsValid (create b s).1
unfolding new
create-IsValid b s (named, right) =
    (named, λ c n found. let known = right c n in let same = same_bytes b c in ground arith)

get_at-IsValid : (o : Option ℕ) (b : Bytes) (s : Paths) → IsValid s → IsValid (get_at o b s).1
get_at-IsValid none b s h = create-IsValid b s h
get_at-IsValid (some n) b s h = h

pub get-IsValid : (b : Bytes) (s : Paths) → IsValid s → IsValid (get b s).1
unfolding get
get-IsValid b s h = get_at-IsValid (find (str_of b) s.paths) b s h

unfoldable pub clean_empty : ℕ → Paths → Paths
unfolding clear
clean_empty n s = record s {
  objects = store s.objects n (clear (record (s.objects n) { attached = false }));
}

-- What `clean` comes to: it never finds the path in the dictionary.
pub clean_lem :
    (n : ℕ) (s : Paths)
    → Named s.paths
    → clean n s ≡ (if empty (s.objects n) then clean_empty n s else s)
unfolding clean clean_empty
clean_lem n s named = rw (delete-Named (s.objects n).initiator_key s.paths named) refl

clean_empty-IsValid : (n : ℕ) (s : Paths) → IsValid s → IsValid (clean_empty n s)
unfolding clean_empty
clean_empty-IsValid n s (named, right) = (named, λ c m found. let known = right c m in ground arith)

pub clean-IsValid : (n : ℕ) (s : Paths) → IsValid s → IsValid (clean n s)
clean-IsValid n s h =
    rw (clean_lem n s h.0)
      (if_cases IsValid (empty (s.objects n)) (λ _. clean_empty-IsValid n s h) (λ _. h))

get_at-found :
    (o : Option ℕ) (b : Bytes) (s : Paths)
    → find (str_of b) s.paths ≡ o
    → find (str_of b) (get_at o b s).1.paths ≡ some (get_at o b s).0
get_at-found none b s e = rw (bytes_eq_refl b) refl
get_at-found (some n) b s e = e

pub get-found : (b : Bytes) (s : Paths) → find (str_of b) (get b s).1.paths ≡ some (get b s).0
unfolding get
get-found b s = get_at-found (find (str_of b) s.paths) b s refl

get_at-get :
    (o : Option ℕ) (b : Bytes) (s : Paths)
    → find (str_of b) s.paths ≡ o
    → get b (get_at o b s).1 ≡ get_at o b s
unfolding get
get_at-get none b s e = rw (bytes_eq_refl b) refl
get_at-get (some n) b s e = rw e refl

-- A path that was given out is given out again for the same key, and asking again changes nothing.
pub get-get : (b : Bytes) (s : Paths) → get b (get b s).1 ≡ get b s
unfolding get
get-get b s = get_at-get (find (str_of b) s.paths) b s refl

-- The path that `clean` has emptied is the one that its key still leads to, and it is detached.
pub get-clean :
    (b : Bytes) (n : ℕ) (s : Paths)
    → Named s.paths
    → find (str_of b) s.paths ≡ some n
    → empty (s.objects n) ≡ true
    → (get b (clean n s) ≡ (n, clean n s)) × (((clean n s).objects n).attached ≡ false)
unfolding get clean_empty clear
get-clean b n s named found vacant = rw (clean_lem n s named, vacant) (rw found refl, ground arith)
