-- ===== src/Splice/HashTable/Validity.antt =====
-- What holds of a hash table of saltyrtc/splice/hashtable.py between two calls, and what a lookup
-- finds after a key was set or deleted.
use saltyrtc_server_python.Prelude.{
  ℕ, zero, suc, ◌+◌, ◌-◌, ◌<◌, ◌%◌, ◌≡◌, refl, ap, sym, ◌∙◌, true, none, some, List, [], ◌∷◌,
  length, if◌then◌else◌, arith, ◌==◌, ==_iff, if_cases,
}
use saltyrtc_server_python.Splice.HashTable.{
  Hashable, new, empty_buckets, default_num_buckets, bucket_at, change_at, put, delete, hash_key,
  set_item, get_item, del_item,
}
use saltyrtc_server_python.Splice.HashTable.Buckets.{
  bucket_at-change_at, length-change_at, IsDistinct, find-put, find-delete, put-IsDistinct,
  delete-IsDistinct,
}

pub zero_plus : (i : ℕ) → 0 + i ≡ i
zero_plus i = omega arith

pub minus_zero : (i : ℕ) → i - 0 ≡ i
minus_zero i = omega arith

pub i_plus_zero : (i : ℕ) → i + 0 ≡ i
i_plus_zero i = omega arith

pub bucket_at-empty_buckets :
    {K V : Type 0} (i n : ℕ) → bucket_at {K = K} {V = V} i (empty_buckets n) ≡ []
unfolding bucket_at empty_buckets
bucket_at-empty_buckets i zero = refl
bucket_at-empty_buckets zero (suc n) = refl
bucket_at-empty_buckets (suc i) (suc n) = bucket_at-empty_buckets i n

module _ {K V : Type 0} ⦃h : Hashable K⦄ where
  -- Every key of the bucket belongs to the bucket of number `i`.
  abbrev pub IsPlaced : ℕ → List (K × V) → Type 0
  IsPlaced i [] = Unit
  IsPlaced i ((k, v) ∷ b) = (h.hash k % default_num_buckets ≡ i) × IsPlaced i b

  pub record IsValid (t : List (List (K × V))) : Type 0 where
    pub buckets : length t ≡ default_num_buckets
    pub distinct : (i : ℕ) → IsDistinct (bucket_at i t)
    pub placed : (i : ℕ) → IsPlaced i (bucket_at i t)

  pub new-IsValid : IsValid new
  unfolding new
  new-IsValid = record {
    buckets = unfold empty_buckets in refl;
    distinct = λ i. rw (bucket_at-empty_buckets {K = K} {V = V} i 10) tt;
    placed = λ i. rw (bucket_at-empty_buckets {K = K} {V = V} i 10) tt;
  }

  pub put-IsPlaced :
      (i : ℕ) (k : K) (v : V) (b : List (K × V))
      → h.hash k % 10 ≡ i
      → IsPlaced i b
      → IsPlaced i (put k v b)
  unfolding put
  put-IsPlaced i k v [] e p = (e, tt)
  put-IsPlaced i k v ((j, w) ∷ b) e p = ground (arith, put-IsPlaced i k v b e p.1)

  pub delete-IsPlaced : (i : ℕ) (k : K) (b : List (K × V)) → IsPlaced i b → IsPlaced i (delete k b)
  unfolding delete
  delete-IsPlaced i k [] p = tt
  delete-IsPlaced i k ((j, w) ∷ b) p = ground (arith, delete-IsPlaced i k b p.1)

  -- The bucket of a key is one of the table's.
  pub hash_key_bound : (k : K) (t : List (List (K × V))) → IsValid t → hash_key k t < length t
  hash_key_bound k t v = rw v.buckets (omega arith)

  pub own_bucket : (k : K) (t : List (List (K × V))) → IsValid t → h.hash k % 10 ≡ hash_key k t
  own_bucket k t v = ap (λ n. h.hash k % n) (sym v.buckets)

  -- A property of all buckets is kept by a change that keeps it in the bucket that is changed.
  pub changed :
      (P : ℕ → List (K × V) → Type 0) (i : ℕ) (f : List (K × V) → List (K × V))
      (t : List (List (K × V)))
      → i < length t
      → ((j : ℕ) → P j (bucket_at j t))
      → P i (f (bucket_at i t))
      → (j : ℕ) → P j (bucket_at j (change_at i f t))
  changed P i f t small all here j =
      rw (bucket_at-change_at i j f t small)
        (if_cases (P j) (i == j) (λ same. at_same ((==_iff i j).0 same)) (λ other. all j))
    where
      at_same : i ≡ j → P j (f (bucket_at j t))
      at_same e = rw (sym e) here

  pub set_item-IsValid :
      (k : K) (v : V) (t : List (List (K × V))) → IsValid t → IsValid (set_item k v t)
  unfolding set_item
  set_item-IsValid k v t valid =
      let i = hash_key k t in
      let small = hash_key_bound k t valid in
      record {
        buckets = length-change_at i (put k v) t ∙ valid.buckets;
        distinct =
            changed (λ j. IsDistinct) i (put k v) t small valid.distinct
              (put-IsDistinct k v (bucket_at i t) (valid.distinct i));
        placed =
            changed IsPlaced i (put k v) t small valid.placed
              (put-IsPlaced i k v (bucket_at i t) (own_bucket k t valid) (valid.placed i));
      }

  pub del_item-IsValid : (k : K) (t : List (List (K × V))) → IsValid t → IsValid (del_item k t)
  unfolding del_item
  del_item-IsValid k t valid =
      let i = hash_key k t in
      let small = hash_key_bound k t valid in
      record {
        buckets = length-change_at i (delete k) t ∙ valid.buckets;
        distinct =
            changed (λ j. IsDistinct) i (delete k) t small valid.distinct
              (delete-IsDistinct k (bucket_at i t) (valid.distinct i));
        placed =
            changed IsPlaced i (delete k) t small valid.placed
              (delete-IsPlaced i k (bucket_at i t) (valid.placed i));
      }

  pub same_bucket :
      (j k : K) (t : List (List (K × V))) → h.equals j k ≡ true → hash_key j t ≡ hash_key k t
  same_bucket j k t e = ap (λ i. hash_key i t) ((h.equals_iff j k).0 e)

  pub get_item-set_item :
      (j k : K) (v : V) (t : List (List (K × V)))
      → IsValid t
      → get_item j (set_item k v t) ≡ (if h.equals j k then some v else get_item j t)
  unfolding get_item set_item
  get_item-set_item j k v t valid = rw (length-change_at (hash_key k t) (put k v) t) (
      ground (
        arith,
        bucket_at-change_at (hash_key k t) (hash_key j t) (put k v) t (hash_key_bound k t valid),
        find-put j k v (bucket_at (hash_key j t) t),
        same_bucket j k t,
      ))

  pub get_item-del_item :
      (j k : K) (t : List (List (K × V)))
      → IsValid t
      → get_item j (del_item k t) ≡ (if h.equals j k then none else get_item j t)
  unfolding get_item del_item
  get_item-del_item j k t valid = rw (length-change_at (hash_key k t) (delete k) t) (
      ground (
        arith,
        bucket_at-change_at (hash_key k t) (hash_key j t) (delete k) t (hash_key_bound k t valid),
        find-delete j k (bucket_at (hash_key j t) t) (valid.distinct (hash_key j t)),
        same_bucket j k t,
      ))
