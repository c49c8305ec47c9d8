-- ===== src/Splice/HashTable/Refinement.antt =====
-- A hash table of saltyrtc/splice/hashtable.py is a finite map: after any calls it returns what a
-- function does that is updated by the same calls.
use saltyrtc_server_python.Prelude.{
  ℕ, zero, suc, ◌+◌, ◌-◌, ◌≤◌, ◌%◌, ◌≡◌, ◌≢◌, refl, ap, ◌∙◌, Bool, true, false, ◌||◌, Option, none,
  some, List, [], ◌∷◌, ◌++◌, map, length, if◌then◌else◌, arith, ◌==◌, ltb,
}
use saltyrtc_server_python.Splice.HashTable.{
  Hashable, new, empty_buckets, bucket_at, find, set_item, get_item, del_item, keys, has, contains,
}
use saltyrtc_server_python.Splice.HashTable.Validity.{
  zero_plus, minus_zero, i_plus_zero, bucket_at-empty_buckets, IsPlaced, new-IsValid, IsValid,
  set_item-IsValid, del_item-IsValid, get_item-set_item, get_item-del_item,
}

pub data Call (K V : Type 0) : Type 0 where
  sets : K → V → Call K V
  deletes : K → Call K V

abbrev pub is_some {ℓ} : {V : Type ℓ} → Option V → Bool
is_some none = false
is_some (some v) = true

has-append :
    {K : Type 0} ⦃h : Hashable K⦄ (k : K) (js ks : List K)
    → has k (js ++ ks) ≡ (has k js || has k ks)
unfolding has
has-append k [] ks = refl
has-append k (j ∷ js) ks = ground (arith, has-append k js ks)

module _ {K V : Type 0} ⦃h : Hashable K⦄ where
  unfoldable pub run : List (Call K V) → List (List (K × V)) → List (List (K × V))
  run [] t = t
  run (sets k v ∷ calls) t = run calls (set_item k v t)
  run (deletes k ∷ calls) t = run calls (del_item k t)

  abbrev pub update : (K → Option V) → K → Option V → K → Option V
  update f k v j = if h.equals j k then v else f j

  -- The same calls, on a function.
  unfoldable pub replay : List (Call K V) → (K → Option V) → K → Option V
  replay [] f = f
  replay (sets k v ∷ calls) f = replay calls (update f k (some v))
  replay (deletes k ∷ calls) f = replay calls (update f k none)

  run_refines :
      (calls : List (Call K V)) (t : List (List (K × V))) (f : K → Option V)
      → IsValid t
      → ((k : K) → get_item k t ≡ f k)
      → IsValid (run calls t) × ((k : K) → get_item k (run calls t) ≡ replay calls f k)
  unfolding run replay
  run_refines [] t f v same = (v, same)
  run_refines (sets k w ∷ calls) t f v same =
      run_refines calls (set_item k w t) (update f k (some w)) (set_item-IsValid k w t v)
        (λ j. get_item-set_item j k w t v ∙ ap (λ o. if h.equals j k then some w else o) (same j))
  run_refines (deletes k ∷ calls) t f v same =
      run_refines calls (del_item k t) (update f k none) (del_item-IsValid k t v)
        (λ j. get_item-del_item j k t v ∙ ap (λ o. if h.equals j k then none else o) (same j))

  get_item-new : (k : K) → get_item {V = V} k new ≡ none
  unfolding get_item new
  get_item-new k =
      rw
        (bucket_at-empty_buckets {K = K} {V = V}
          (h.hash k % length (empty_buckets {K = K} {V = V} 10)) 10)
        (unfold find in refl)

  has-bucket : (k : K) (b : List (K × V)) → has k (map (λ e. e.0) b) ≡ is_some (find k b)
  unfolding has find
  has-bucket k [] = refl
  has-bucket k ((j, w) ∷ b) = ground (arith, has-bucket k b)

  find_elsewhere :
      (k : K) (i : ℕ) (b : List (K × V)) → IsPlaced i b → h.hash k % 10 ≢ i → find k b ≡ none
  unfolding find
  find_elsewhere k i [] p n = refl
  find_elsewhere k i ((j, w) ∷ b) p n = ground (arith, find_elsewhere k i b p.1 n, same_hash j)
    where
      same_hash : (j : K) → h.equals k j ≡ true → h.hash k % 10 ≡ h.hash j % 10
      same_hash j e = ap (λ x. h.hash x % 10) ((h.equals_iff k j).0 e)

  at_distance :
      (d m n : ℕ) (b : List (K × V)) (t : List (List (K × V)))
      → m ≡ d + n
      → bucket_at d (b ∷ t) ≡ (if m == n then b else bucket_at (m - suc n) t)
  unfolding bucket_at
  at_distance zero m n b t e = ground arith
  at_distance (suc d) m n b t e = let same : m - suc n ≡ d = omega arith in rw same (ground arith)

  first_IsPlaced :
      (n : ℕ) (b : List (K × V)) (t : List (List (K × V)))
      → ((j : ℕ) → IsPlaced (j + n) (bucket_at j (b ∷ t)))
      → IsPlaced n b
  unfolding bucket_at
  first_IsPlaced n b t p = rw (zero_plus n) at (p 0)

  shift_IsPlaced :
      (i n : ℕ) (b : List (K × V)) (t : List (List (K × V)))
      → ((j : ℕ) → IsPlaced (j + n) (bucket_at j (b ∷ t)))
      → IsPlaced (i + suc n) (bucket_at i t)
  unfolding bucket_at
  shift_IsPlaced i n b t p =
      let same : suc i + n ≡ i + suc n = omega arith in rw same at (p (suc i))

  -- The keys of the buckets from number `n` on.
  has-keys :
      (k : K) (n : ℕ) (t : List (List (K × V)))
      → ((i : ℕ) → IsPlaced (i + n) (bucket_at i t))
      → has k (keys t) ≡ (
          if ltb (h.hash k % 10) n
          then false
          else is_some (find k (bucket_at (h.hash k % 10 - n) t)))
  unfolding keys
  has-keys k n [] p = unfold has find bucket_at in ground arith
  has-keys k n (b ∷ t) p =
      let m = h.hash k % 10 in
      let rest = has-keys k (suc n) t (λ i. shift_IsPlaced i n b t p) in
      let here = has-bucket k b in
      let both = has-append k (map (λ e. e.0) b) (keys t) in
      let other = find_elsewhere k n b (first_IsPlaced n b t p) in
      let first : n ≤ m → m ≡ (m - n) + n = λ e. omega arith in
      let bucket = λ (e : n ≤ m). at_distance (m - n) m n b t (first e) in ground arith

  -- `in` finds exactly the keys that have a value.
  contains-get_item :
      (k : K) (t : List (List (K × V))) → IsValid t → contains k t ≡ is_some (get_item k t)
  unfolding contains get_item
  contains-get_item k t v =
      let all = has-keys k 0 t (λ i. rw (i_plus_zero i) (v.placed i)) in
      rw v.buckets (
        all
        ∙ ground (arith, ap (λ i. is_some (find k (bucket_at i t))) (minus_zero (h.hash k % 10))))

  -- A hash table that was made by any calls from the empty one returns for each key the value that
  -- was set last, unless the key was deleted since, and `in` finds exactly the keys that have a
  -- value.
  pub run-new_refines :
      (calls : List (Call K V)) (k : K)
      → (get_item k (run calls new) ≡ replay calls (λ _. none) k)
        × (contains k (run calls new) ≡ is_some (replay calls (λ _. none) k))
  run-new_refines calls k =
      let (valid, same) = run_refines calls new (λ _. none) new-IsValid get_item-new in
      (same k, contains-get_item k (run calls new) valid ∙ ap is_some (same k))
