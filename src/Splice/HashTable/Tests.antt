-- ===== src/Splice/HashTable/Tests.antt =====
-- Numbers that are hashed by their last digit, and a solver that finds another number, or the same.
use saltyrtc_server_python.Prelude.{
  ℕ, ◌+◌, ◌%◌, ◌≡◌, refl, some, none, true, [], ◌∷◌, inr, ◌==◌, ==_iff, List,
}
use saltyrtc_server_python.Exception.{ok}
use saltyrtc_server_python.Splice.HashTable.{Hashable, new, find, set_item, get_item}
use saltyrtc_server_python.Splice.HashTable.Validity.{new-IsValid, set_item-IsValid}
use saltyrtc_server_python.Splice.HashTable.Synthesizing.{
  synthesize, synthesize_in_dict, synthesize_in_dict-find, get_item-synthesize,
}

instance abbrev by_last_digit : Hashable ℕ
by_last_digit = record { equals = λ a b. a == b; equals_iff = ==_iff; hash = λ a. a % 10 }

abbrev table : List (List (ℕ × ℕ))
table = set_item 4 1 (set_item 3 7 new)

get_item-synthesize_example :
    let (result, t') = synthesize (λ k. ok (k + 10)) (λ v. v + 100) 3 table in
    (result ≡ ok true) × (get_item 13 t' ≡ some 107)
unfolding get_item set_item new
get_item-synthesize_example =
    get_item-synthesize (λ k. ok (k + 10)) (λ v. v + 100) 3 13 13 7 table
      (set_item-IsValid 4 1 (set_item 3 7 new) (set_item-IsValid 3 7 new new-IsValid)) refl refl
      refl (inr refl)

-- The entry of a key that is found again is lost.
synthesize_in_dict-find_example :
    let (result, e) =
      synthesize_in_dict {K = ℕ} (λ k. ok k) (λ v. v + 100) 3 ((3, 7) ∷ (4, 1) ∷ []) in
    (result ≡ ok none) × (find {K = ℕ} 3 e ≡ none)
unfolding find
synthesize_in_dict-find_example =
    synthesize_in_dict-find (λ k. ok k) (λ v. v + 100) 3 3 3 7 ((3, 7) ∷ (4, 1) ∷ [])
      (refl, (refl, tt)) refl refl
