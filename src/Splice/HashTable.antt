-- ===== src/Splice/HashTable.antt =====
-- `HashTable` of saltyrtc/splice/hashtable.py: a list of buckets, each a list of pairs.
--
-- `==` and `__hash__` of the keys are the interface `Hashable`. `__hash__` is a natural number: of
-- a negative one, `%` in Python gives the same bucket as of its remainder.
pub mod Buckets
pub mod Validity
pub mod Refinement
pub mod Synthesizing
pub mod Tests
use saltyrtc_server_python.Prelude.{
  ℕ, zero, suc, ◌+◌, ◌%◌, ◌≡◌, ◌↔◌, Bool, true, false, ◌||◌, Option, none, some, List, [], ◌∷◌,
  ◌++◌, map, length, if◌then◌else◌,
}

pub record Hashable (K : Type 0) : Type 0 where
  pub equals : K → K → Bool
  pub equals_iff : (j k : K) → (equals j k ≡ true) ↔ (j ≡ k)
  pub hash : K → ℕ

abbrev pub default_num_buckets : ℕ
default_num_buckets = 10

module _ {K V : Type 0} where
  unfoldable pub empty_buckets : ℕ → List (List (K × V))
  empty_buckets zero = []
  empty_buckets (suc n) = [] ∷ empty_buckets n

  -- `HashTable.__init__`
  unfoldable pub new : List (List (K × V))
  unfolding empty_buckets
  new = empty_buckets default_num_buckets

  -- `self._hash_table[i]`
  unfoldable pub bucket_at : ℕ → List (List (K × V)) → List (K × V)
  bucket_at i [] = []
  bucket_at zero (b ∷ bs) = b
  bucket_at (suc i) (b ∷ bs) = bucket_at i bs

  -- A bucket that is changed in its place.
  unfoldable pub change_at :
      ℕ → (List (K × V) → List (K × V)) → List (List (K × V)) → List (List (K × V))
  change_at i f [] = []
  change_at zero f (b ∷ bs) = f b ∷ bs
  change_at (suc i) f (b ∷ bs) = b ∷ change_at i f bs

  -- `keys`
  unfoldable pub keys : List (List (K × V)) → List K
  keys [] = []
  keys (b ∷ bs) = map (λ e. e.0) b ++ keys bs

  -- `__len__`
  unfoldable pub size : List (List (K × V)) → ℕ
  size [] = 0
  size (b ∷ bs) = length b + size bs

-- `item in keys`
unfoldable pub has : {K : Type 0} ⦃h : Hashable K⦄ → K → List K → Bool
has k [] = false
has ⦃h⦄ k (j ∷ js) = h.equals k j || has k js

module _ {K V : Type 0} ⦃h : Hashable K⦄ where
  -- The first pair with the key is overwritten, or a new pair is appended.
  unfoldable pub put : K → V → List (K × V) → List (K × V)
  put k v [] = (k, v) ∷ []
  put k v ((j, w) ∷ b) = if h.equals k j then (k, v) ∷ b else (j, w) ∷ put k v b

  unfoldable pub find : K → List (K × V) → Option V
  find k [] = none
  find k ((j, w) ∷ b) = if h.equals k j then some w else find k b

  unfoldable pub delete : K → List (K × V) → List (K × V)
  delete k [] = []
  delete k ((j, w) ∷ b) = if h.equals k j then b else (j, w) ∷ delete k b

  abbrev pub hash_key : K → List (List (K × V)) → ℕ
  hash_key k t = h.hash k % length t

  -- `__setitem__`
  unfoldable pub set_item : K → V → List (List (K × V)) → List (List (K × V))
  unfolding put change_at
  set_item k v t = change_at (hash_key k t) (put k v) t

  -- `__getitem__`; `none` is a `KeyError`.
  unfoldable pub get_item : K → List (List (K × V)) → Option V
  unfolding find bucket_at
  get_item k t = find k (bucket_at (hash_key k t) t)

  -- `__delitem__`
  unfoldable pub del_item : K → List (List (K × V)) → List (List (K × V))
  unfolding delete change_at
  del_item k t = change_at (hash_key k t) (delete k) t

  -- `__contains__`
  unfoldable pub contains : K → List (List (K × V)) → Bool
  unfolding keys has
  contains k t = has k (keys t)
