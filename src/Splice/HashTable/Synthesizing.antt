-- ===== src/Splice/HashTable/Synthesizing.antt =====
-- `SynthesizableHashTable.synthesize` and `SynthesizableDict.synthesize` of
-- saltyrtc/splice/hashtable.py.
--
-- The key that the solver z3 finds is a parameter, and so is a value that is marked as synthesized:
-- it is marked in its place, and is taken to stand under no other key. A `dict` is the list of its
-- entries, in the order in which the keys were added, with `put`, `find` and `delete` of a bucket.
use saltyrtc_server_python.Prelude.{
  ◌≡◌, ◌⊎◌, refl, ap, ◌∙◌, Bool, true, false, Option, none, some, List, [], ◌∷◌, length,
  if◌then◌else◌, arith, Bool-cases, inl, inr, ◌%◌,
}
use saltyrtc_server_python.Exception.{Result, ok}
use saltyrtc_server_python.Exec.{Exec, pure, lift, modify, ◌>>=◌, ◌>>◌}
use saltyrtc_server_python.Splice.HashTable.{
  Hashable, bucket_at, change_at, put, find, delete, hash_key, get_item,
}
use saltyrtc_server_python.Splice.HashTable.Buckets.{
  IsDistinct, find-put, find-delete, put-IsDistinct, bucket_at-change_at, length-change_at,
}
use saltyrtc_server_python.Splice.HashTable.Validity.{IsValid, same_bucket, hash_key_bound}

module _ {K V : Type 0} ⦃h : Hashable K⦄ (synthesized_key : K → Result K) (mark : V → V) where
  -- The first entry with the key, with the new key and the marked value.
  unfoldable pub replace : K → K → List (K × V) → List (K × V)
  replace k k' [] = []
  replace k k' ((j, v) ∷ b) =
      let rest = replace k k' b in if h.equals k j then (k', mark v) ∷ b else (j, v) ∷ rest

  abbrev replace_found : K → Option V → Exec (List (List (K × V))) Bool
  replace_found k none = pure false
  replace_found k (some v) = do
    k' ← lift (synthesized_key k)
    modify (λ t. change_at (hash_key k t) (replace k k') t)
    pure true

  -- `SynthesizableHashTable.synthesize`
  unfoldable pub synthesize : K → Exec (List (List (K × V))) Bool
  unfolding find bucket_at change_at replace
  synthesize k t = replace_found k (find k (bucket_at (hash_key k t) t)) t

  abbrev move_found : K → Option V → Exec (List (K × V)) (Option Bool)
  move_found k none = pure (some false)
  move_found k (some v) = do
    k' ← lift (synthesized_key k)
    modify (put k' (mark v))
    modify (delete k)
    pure none

  -- `SynthesizableDict.synthesize`; the function ends without a `return` after a synthesis.
  unfoldable pub synthesize_in_dict : K → Exec (List (K × V)) (Option Bool)
  unfolding find put delete
  synthesize_in_dict k d = move_found k (find k d) d

  -- After a synthesis in a dict whose keys are distinct, the new key has the marked value of the
  -- original one, the original key is gone, and every other key has its value, but: if the new key
  -- is the original one, then the entry is lost.
  pub synthesize_in_dict-find :
      (k k' j : K) (v : V) (d : List (K × V))
      → IsDistinct d
      → find k d ≡ some v
      → synthesized_key k ≡ ok k'
      → let (result, e) = synthesize_in_dict k d in
        (result ≡ ok none)
        × (find j e
            ≡ (if h.equals j k then none else if h.equals j k' then some (mark v) else find j d))
  unfolding synthesize_in_dict
  synthesize_in_dict-find k k' j v d distinct found new =
      rw (found, new)
        (
          refl,
          find-delete j k (put k' (mark v) d) (put-IsDistinct k' (mark v) d distinct)
              ∙ ap (λ o. if h.equals j k then none else o) (find-put j k' (mark v) d),
        )

  -- The new key is the original one, or it is not in the bucket.
  abbrev pub IsNew : K → K → List (K × V) → Type 0
  IsNew k k' b = (k' ≡ k) ⊎ (find k' b ≡ none)

  find_same : (i j : K) (b : List (K × V)) → h.equals i j ≡ true → find i b ≡ find j b
  find_same i j b e = ap (λ k. find k b) ((h.equals_iff i j).0 e)

  IsNew-later : (k k' i : K) (w : V) (b : List (K × V)) → IsNew k k' ((i, w) ∷ b) → IsNew k k' b
  unfolding find
  IsNew-later k k' i w b (inl e) = inl e
  IsNew-later k k' i w b (inr n) = inr (ground (arith, n))

  find-replace :
      (k k' j : K) (v : V) (b : List (K × V))
      → IsDistinct b
      → find k b ≡ some v
      → IsNew k k' b
      → find j (replace k k' b)
        ≡ (if h.equals j k' then some (mark v) else if h.equals j k then none else find j b)
  unfolding find replace
  find-replace k k' j v [] d found new = cc
  find-replace k k' j v ((i, w) ∷ b) d found new = elim (Bool-cases (h.equals k i)) [
    | inl here ↦ ground (
      arith,
      here,
      h.equals_iff k i,
      h.equals_iff j k,
      h.equals_iff j i,
      find_same j i b,
      d.0,
      found,
    )
    | inr later ↦ ground (
      arith,
      later,
      find-replace k k' j v b d.1 (ground (arith, found, later)) (IsNew-later k k' i w b new),
      h.equals_iff k i,
      h.equals_iff j k,
      h.equals_iff j i,
      h.equals_iff j k',
      h.equals_iff k' i,
      found,
      new,
    )
  ]

  -- After a synthesis in a hash table, the new key has the marked value of the original one, the
  -- original key is gone if it is another, and every other key has its value, provided that the new
  -- key has the hash of the original one and is not in the table already.
  pub get_item-synthesize :
      (k k' j : K) (v : V) (t : List (List (K × V)))
      → IsValid t
      → get_item k t ≡ some v
      → synthesized_key k ≡ ok k'
      → h.hash k' ≡ h.hash k
      → IsNew k k' (bucket_at (hash_key k t) t)
      → let (result, t') = synthesize k t in
        (result ≡ ok true)
        × (get_item j t' ≡ (
            if h.equals j k' then some (mark v) else if h.equals j k then none else get_item j t))
  unfolding synthesize get_item
  get_item-synthesize k k' j v t valid found made same new =
      let i = hash_key k t in
      let f = replace k k' in
      let there = find-replace k k' j v (bucket_at i t) (valid.distinct i) found new in
      let moved : hash_key k' t ≡ hash_key k t = ap (λ n. n % length t) same in
      rw (found, made, length-change_at i f t)
        (
          refl,
          ground (
            arith,
            bucket_at-change_at i (hash_key j t) f t (hash_key_bound k t valid),
            there,
            same_bucket j k t,
            same_bucket j k' t,
            moved,
          ),
        )
