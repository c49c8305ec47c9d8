-- ===== src/Splice/Tags/Deep.antt =====
-- `is_untrusted` and `is_synthesized` of saltyrtc/splice/splice.py, which `check_tag` replaces:
-- they look into containers however deep they are.
use saltyrtc_server_python.Prelude.{
  ℕ, zero, suc, ◌≡◌, refl, Bool, true, false, not, ◌&&◌, if◌then◌else◌, arith,
}
use saltyrtc_server_python.Splice.Tags.{
  Object, mixin, mapping, sequence, plain, Elements, no_elements, element, Entries, no_entries,
  entry, check_tag, check_elements, check_entries,
}

unfoldable mutual
  pub is_untrusted : Object → Bool
  is_untrusted (mixin tags) = not tags.trusted
  is_untrusted (sequence elements) = untrusted_elements elements
  is_untrusted (mapping entries) = untrusted_entries entries
  is_untrusted (plain p) = false

  pub untrusted_elements : Elements → Bool
  untrusted_elements no_elements = false
  untrusted_elements (element o rest) =
      let later = untrusted_elements rest in if is_untrusted o then true else later

  pub untrusted_entries : Entries → Bool
  untrusted_entries no_entries = false
  untrusted_entries (entry k v rest) =
      let later = untrusted_entries rest in
      if is_untrusted k then true else if is_untrusted v then true else later

unfoldable mutual
  pub is_synthesized : Object → Bool
  is_synthesized (mixin tags) = tags.synthesized
  is_synthesized (sequence elements) = synthesized_elements elements
  is_synthesized (mapping entries) = synthesized_entries entries
  is_synthesized (plain p) = false

  pub synthesized_elements : Elements → Bool
  synthesized_elements no_elements = false
  synthesized_elements (element o rest) =
      let later = synthesized_elements rest in if is_synthesized o then true else later

  pub synthesized_entries : Entries → Bool
  synthesized_entries no_entries = false
  synthesized_entries (entry k v rest) =
      let later = synthesized_entries rest in
      if is_synthesized k then true else if is_synthesized v then true else later

-- Containers are nested at most so deep.
unfoldable mutual
  pub fits : ℕ → Object → Bool
  fits depth (mixin tags) = true
  fits depth (plain p) = true
  fits zero (sequence _) = false
  fits zero (mapping _) = false
  fits (suc depth) (sequence elements) = fits_elements depth elements
  fits (suc depth) (mapping entries) = fits_entries depth entries

  pub fits_elements : ℕ → Elements → Bool
  fits_elements depth no_elements = true
  fits_elements depth (element o rest) = fits depth o && fits_elements depth rest

  pub fits_entries : ℕ → Entries → Bool
  fits_entries depth no_entries = true
  fits_entries depth (entry k v rest) = fits depth k && (fits depth v && fits_entries depth rest)

both_fit : (a b : Bool) → (a && b) ≡ true → (a ≡ true) × (b ≡ true)
both_fit a b h = ground (arith, h)

-- The answers for one part and for the later ones.
one_part :
    (t u later l : Bool)
    → t ≡ not u
    → later ≡ not l
    → (if not t then false else later) ≡ not (if u then true else l)
one_part t u later l h k = ground (arith, h, k)

mutual
  unfolding check_tag is_untrusted fits

  untrusted_object :
      (depth : ℕ) (o : Object) → fits depth o ≡ true → check_tag depth o ≡ not (is_untrusted o)
  untrusted_object depth (mixin tags) h = ground arith
  untrusted_object zero (plain p) h = refl
  untrusted_object (suc depth) (plain p) h = refl
  untrusted_object zero (sequence _) h = cc
  untrusted_object zero (mapping _) h = cc
  untrusted_object (suc depth) (sequence elements) h = untrusted_of_elements depth elements h
  untrusted_object (suc depth) (mapping entries) h = untrusted_of_entries depth entries h

  untrusted_of_elements :
      (depth : ℕ) (es : Elements)
      → fits_elements depth es ≡ true
      → check_elements depth es ≡ not (untrusted_elements es)
  untrusted_of_elements depth no_elements h = refl
  untrusted_of_elements depth (element o rest) h =
      let (here, later) = both_fit (fits depth o) (fits_elements depth rest) h in
      one_part (check_tag depth o) (is_untrusted o) (check_elements depth rest)
        (untrusted_elements rest) (untrusted_object depth o here)
        (untrusted_of_elements depth rest later)

  untrusted_of_entries :
      (depth : ℕ) (es : Entries)
      → fits_entries depth es ≡ true
      → check_entries depth es ≡ not (untrusted_entries es)
  untrusted_of_entries depth no_entries h = refl
  untrusted_of_entries depth (entry k v rest) h =
      let (key, others) = both_fit (fits depth k) (fits depth v && fits_entries depth rest) h in
      let (value, later) = both_fit (fits depth v) (fits_entries depth rest) others in
      one_part (check_tag depth k) (is_untrusted k)
        (if not (check_tag depth v) then false else check_entries depth rest)
        (if is_untrusted v then true else untrusted_entries rest) (untrusted_object depth k key)
        (one_part (check_tag depth v) (is_untrusted v) (check_entries depth rest)
          (untrusted_entries rest) (untrusted_object depth v value)
          (untrusted_of_entries depth rest later))

-- On an object whose containers are not nested deeper than the depth, `check_tag` answers that it
-- is trusted exactly if the function that it replaces does not answer that it is untrusted.
pub check_tag-is_untrusted :
    (depth : ℕ) (o : Object) → fits depth o ≡ true → check_tag depth o ≡ not (is_untrusted o)
check_tag-is_untrusted depth o h = untrusted_object depth o h
