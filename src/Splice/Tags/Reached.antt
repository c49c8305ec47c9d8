-- ===== src/Splice/Tags/Reached.antt =====
-- What `check_tag`, `is_tainted_by` and the functions on arguments look at: the tagged objects that
-- are reached within the depth.
use saltyrtc_server_python.Prelude.{
  ℕ, zero, suc, ◌≡◌, refl, Bool, true, false, not, ◌&&◌, ◌||◌, List, [], ◌∷◌, ◌++◌, if◌then◌else◌,
  arith,
}
use saltyrtc_server_python.Splice.Tags.{
  Tags, Object, Elements, Entries, mixin, mapping, sequence, plain, no_elements, element,
  no_entries, entry, check_tag, check_elements, check_entries, check_tags, check_elements_tags,
  check_entries_tags, unless_synthesized, default_depth,
}

-- The tags of the objects that are reached through at most `depth` containers.
unfoldable mutual
  pub reached : ℕ → Object → List Tags
  reached depth (mixin tags) = tags ∷ []
  reached zero _ = []
  reached (suc depth) (mapping entries) = reached_entries depth entries
  reached (suc depth) (sequence elements) = reached_elements depth elements
  reached (suc depth) (plain p) = []

  pub reached_elements : ℕ → Elements → List Tags
  reached_elements depth no_elements = []
  reached_elements depth (element o rest) = reached depth o ++ reached_elements depth rest

  pub reached_entries : ℕ → Entries → List Tags
  reached_entries depth no_entries = []
  reached_entries depth (entry k v rest) =
      reached depth k ++ (reached depth v ++ reached_entries depth rest)

unfoldable pub reached_arguments : List Object → List Tags
unfolding reached
reached_arguments [] = []
reached_arguments (arg ∷ args) = reached default_depth arg ++ reached_arguments args

module _ (p : Tags → Bool) where
  unfoldable pub every : List Tags → Bool
  every [] = true
  every (t ∷ ts) = p t && every ts

  unfoldable pub any : List Tags → Bool
  any [] = false
  any (t ∷ ts) = p t || any ts

  pub every-append : (xs ys : List Tags) → every (xs ++ ys) ≡ (every xs && every ys)
  unfolding every
  every-append [] ys = refl
  every-append (x ∷ xs) ys = ground (arith, every-append xs ys)

  pub every_parts :
      (xs ys : List Tags) → every (xs ++ ys) ≡ true → (every xs ≡ true) × (every ys ≡ true)
  every_parts xs ys h = ground (arith, every-append xs ys, h)

  pub any-append : (xs ys : List Tags) → any (xs ++ ys) ≡ (any xs || any ys)
  unfolding any
  any-append [] ys = refl
  any-append (x ∷ xs) ys = ground (arith, any-append xs ys)

abbrev pub is_trusted : Tags → Bool
is_trusted tags = tags.trusted

abbrev pub is_synthesized : Tags → Bool
is_synthesized tags = tags.synthesized

-- No object is both trusted and synthesized.
abbrev pub is_coherent : Tags → Bool
is_coherent tags = not (tags.trusted && tags.synthesized)

-- One part of a container, and the rest of it, where the loop ends at an untrusted part.
stop_early :
    (xs ys : List Tags) (first later : Bool)
    → first ≡ every is_trusted xs
    → later ≡ every is_trusted ys
    → (if not first then false else later) ≡ every is_trusted (xs ++ ys)
stop_early xs ys first later e f = ground (arith, every-append is_trusted xs ys, e, f)

mutual
  unfolding check_tag every reached

  pub check_tag-reached : (d : ℕ) (o : Object) → check_tag d o ≡ every is_trusted (reached d o)
  check_tag-reached d (mixin tags) = ground arith
  check_tag-reached zero (mapping es) = refl
  check_tag-reached zero (sequence es) = refl
  check_tag-reached zero (plain p) = refl
  check_tag-reached (suc d) (mapping es) = check_entries-reached d es
  check_tag-reached (suc d) (sequence es) = check_elements-reached d es
  check_tag-reached (suc d) (plain p) = refl

  check_elements-reached :
      (d : ℕ) (es : Elements) → check_elements d es ≡ every is_trusted (reached_elements d es)
  check_elements-reached d no_elements = refl
  check_elements-reached d (element o rest) =
      stop_early (reached d o) (reached_elements d rest) (check_tag d o) (check_elements d rest)
        (check_tag-reached d o) (check_elements-reached d rest)

  check_entries-reached :
      (d : ℕ) (es : Entries) → check_entries d es ≡ every is_trusted (reached_entries d es)
  check_entries-reached d no_entries = refl
  check_entries-reached d (entry k v rest) =
      stop_early (reached d k) (reached d v ++ reached_entries d rest) (check_tag d k)
        (if not (check_tag d v) then false else check_entries d rest) (check_tag-reached d k)
        (stop_early (reached d v) (reached_entries d rest) (check_tag d v) (check_entries d rest)
          (check_tag-reached d v) (check_entries-reached d rest))

pub coherent_synthesized :
    (xs : List Tags)
    → every is_coherent xs ≡ true
    → any is_synthesized xs ≡ true
    → every is_trusted xs ≡ false
unfolding every any
coherent_synthesized [] h s = cc
coherent_synthesized (x ∷ xs) h s = ground (arith, coherent_synthesized xs)

-- One part of a container, and the rest of it.
part :
    (xs ys : List Tags) (answer : Bool × Bool) (rest : Bool → Bool × Bool) (t : Bool)
    → every is_coherent (xs ++ ys) ≡ true
    → (every is_coherent xs ≡ true → answer ≡ (every is_trusted xs, any is_synthesized xs))
    → ((t' : Bool)
        → every is_coherent ys ≡ true
        → rest t' ≡ (t' && every is_trusted ys, any is_synthesized ys))
    → unless_synthesized answer rest t
      ≡ (t && every is_trusted (xs ++ ys), any is_synthesized (xs ++ ys))
part xs ys answer rest t h first second =
    let (here, later) = every_parts is_coherent xs ys h in
    rw (first here) (
      ground (
        arith,
        second (t && every is_trusted xs) later,
        every-append is_trusted xs ys,
        any-append is_synthesized xs ys,
        coherent_synthesized xs here,
      ))

mutual
  unfolding check_tags every any reached

  pub check_tags-reached :
      (d : ℕ) (o : Object)
      → every is_coherent (reached d o) ≡ true
      → check_tags d o ≡ (every is_trusted (reached d o), any is_synthesized (reached d o))
  check_tags-reached d (mixin tags) h = ground arith
  check_tags-reached zero (mapping es) h = refl
  check_tags-reached zero (sequence es) h = refl
  check_tags-reached zero (plain p) h = refl
  check_tags-reached (suc d) (mapping es) h = check_entries_tags-reached d es true h
  check_tags-reached (suc d) (sequence es) h = check_elements_tags-reached d es true h
  check_tags-reached (suc d) (plain p) h = refl

  check_elements_tags-reached :
      (d : ℕ) (es : Elements) (t : Bool)
      → every is_coherent (reached_elements d es) ≡ true
      → check_elements_tags d es t ≡ (
        t && every is_trusted (reached_elements d es),
        any is_synthesized (reached_elements d es),
      )
  check_elements_tags-reached d no_elements t h = ground arith
  check_elements_tags-reached d (element o rest) t h =
      part (reached d o) (reached_elements d rest) (check_tags d o) (check_elements_tags d rest) t h
        (check_tags-reached d o) (check_elements_tags-reached d rest)

  check_entries_tags-reached :
      (d : ℕ) (es : Entries) (t : Bool)
      → every is_coherent (reached_entries d es) ≡ true
      → check_entries_tags d es t
        ≡ (t && every is_trusted (reached_entries d es), any is_synthesized (reached_entries d es))
  check_entries_tags-reached d no_entries t h = ground arith
  check_entries_tags-reached d (entry k v rest) t h =
      part (reached d k) (reached d v ++ reached_entries d rest) (check_tags d k)
        (unless_synthesized (check_tags d v) (check_entries_tags d rest)) t h
        (check_tags-reached d k)
        (λ t' h'.
          part (reached d v) (reached_entries d rest) (check_tags d v) (check_entries_tags d rest)
            t' h' (check_tags-reached d v) (check_entries_tags-reached d rest))
