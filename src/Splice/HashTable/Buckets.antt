-- ===== src/Splice/HashTable/Buckets.antt =====
-- Buckets of saltyrtc/splice/hashtable.py: what they find, and what a change of one leaves.
use saltyrtc_server_python.Prelude.{
  ℕ, zero, suc, ◌<◌, ◌≡◌, refl, ap, true, none, some, List, [], ◌∷◌, length, if◌then◌else◌, arith,
  ◌==◌,
}
use saltyrtc_server_python.Splice.HashTable.{Hashable, bucket_at, change_at, put, find, delete}

module _ {K V : Type 0} where
  pub bucket_at-change_at :
      (i j : ℕ) (f : List (K × V) → List (K × V)) (t : List (List (K × V)))
      → i < length t
      → bucket_at j (change_at i f t) ≡ (if i == j then f (bucket_at j t) else bucket_at j t)
  unfolding bucket_at change_at
  bucket_at-change_at i j f [] h = absurd (omega arith)
  bucket_at-change_at zero zero f (b ∷ bs) h = ground arith
  bucket_at-change_at zero (suc j) f (b ∷ bs) h = ground arith
  bucket_at-change_at (suc i) zero f (b ∷ bs) h = ground arith
  bucket_at-change_at (suc i) (suc j) f (b ∷ bs) h =
      ground (arith, bucket_at-change_at i j f bs (omega arith))

  pub length-change_at :
      (i : ℕ) (f : List (K × V) → List (K × V)) (t : List (List (K × V)))
      → length (change_at i f t) ≡ length t
  unfolding change_at
  length-change_at i f [] = refl
  length-change_at zero f (b ∷ bs) = refl
  length-change_at (suc i) f (b ∷ bs) = ap suc (length-change_at i f bs)

module _ {K V : Type 0} ⦃h : Hashable K⦄ where
  -- No key stands in the bucket twice.
  abbrev pub IsDistinct : List (K × V) → Type 0
  IsDistinct [] = Unit
  IsDistinct ((k, v) ∷ b) = (find k b ≡ none) × IsDistinct b

  find_same : (j k : K) (b : List (K × V)) → h.equals j k ≡ true → find j b ≡ find k b
  find_same j k b e = ap (λ i. find i b) ((h.equals_iff j k).0 e)

  pub find-put :
      (j k : K) (v : V) (b : List (K × V))
      → find j (put k v b) ≡ (if h.equals j k then some v else find j b)
  unfolding find put
  find-put j k v [] = refl
  find-put j k v ((i, w) ∷ b) =
      ground (arith, find-put j k v b, h.equals_iff k i, h.equals_iff j k, h.equals_iff j i)

  pub find-delete :
      (j k : K) (b : List (K × V))
      → IsDistinct b
      → find j (delete k b) ≡ (if h.equals j k then none else find j b)
  unfolding find delete
  find-delete j k [] d = ground arith
  find-delete j k ((i, w) ∷ b) d = ground (
    arith,
    find-delete j k b d.1,
    h.equals_iff k i,
    h.equals_iff j k,
    h.equals_iff j i,
    find_same j i b,
    d.0,
  )

  pub put-IsDistinct : (k : K) (v : V) (b : List (K × V)) → IsDistinct b → IsDistinct (put k v b)
  unfolding put
  put-IsDistinct k v [] d = (unfold find in refl, tt)
  put-IsDistinct k v ((i, w) ∷ b) d = ground (
    arith,
    put-IsDistinct k v b d.1,
    find-put i k v b,
    h.equals_iff k i,
    h.equals_iff i k,
    find_same k i b,
  )

  pub delete-IsDistinct : (k : K) (b : List (K × V)) → IsDistinct b → IsDistinct (delete k b)
  unfolding delete
  delete-IsDistinct k [] d = tt
  delete-IsDistinct k ((i, w) ∷ b) d =
      ground (arith, delete-IsDistinct k b d.1, find-delete i k b d.1)
