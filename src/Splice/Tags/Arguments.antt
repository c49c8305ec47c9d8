-- ===== src/Splice/Tags/Arguments.antt =====
-- What is found out about the arguments of a call: `contains_untrusted_arguments` and
-- `union_argument_taints` of saltyrtc/splice/splice.py; and how deep `check_tag` looks.
use saltyrtc_server_python.Prelude.{
  ℕ, zero, suc, ◌%◌, ◌≡◌, ap, sym, ◌∙◌, Bool, true, false, not, ◌&&◌, ◌||◌, List, [], ◌∷◌, ◌++◌,
  if◌then◌else◌, leb, arith,
}
use saltyrtc_server_python.Splice.Taint.{empty_taint, union, carries, max_users}
use saltyrtc_server_python.Splice.Taint.Bits.{bit-zero, bit-union}
use saltyrtc_server_python.Splice.Tags.{
  Tags, Object, Elements, Entries, mixin, mapping, sequence, plain, no_elements, element,
  no_entries, entry, check_tag, check_tags, is_tainted_by, elements_taints, entries_taints,
  any_untrusted, contains_untrusted_arguments, all_taints, union_argument_taints, default_depth,
}
use saltyrtc_server_python.Splice.Tags.Reached.{
  reached, reached_elements, reached_entries, reached_arguments, every, any, every-append,
  every_parts, any-append, is_trusted, is_synthesized, is_coherent, check_tag-reached,
  check_tags-reached, coherent_synthesized,
}

argument_step :
    (trusted synthesized untrusted t s : Bool)
    → (synthesized ≡ true → trusted ≡ false)
    → ◌≡◌ {A = Bool × Bool}
        (if synthesized then (true, true) else ((if trusted then untrusted else true) || not t, s))
        (untrusted || not (trusted && t), synthesized || s)
argument_step trusted synthesized untrusted t s h = ground (arith, h)

any_untrusted-reached :
    (args : List Object) (untrusted : Bool)
    → every is_coherent (reached_arguments args) ≡ true
    → any_untrusted args untrusted ≡ (
      untrusted || not (every is_trusted (reached_arguments args)),
      any is_synthesized (reached_arguments args),
    )
unfolding any_untrusted reached_arguments every any
any_untrusted-reached [] untrusted h = ground arith
any_untrusted-reached (arg ∷ args) untrusted h =
    let xs = reached default_depth arg in
    let ys = reached_arguments args in
    let (here, later) = every_parts is_coherent xs ys h in
    rw
      (
        check_tags-reached default_depth arg here,
        any_untrusted-reached args (if every is_trusted xs then untrusted else true) later,
        every-append is_trusted xs ys,
        any-append is_synthesized xs ys,
      )
      (argument_step (every is_trusted xs) (any is_synthesized xs) untrusted (every is_trusted ys)
        (any is_synthesized ys) (coherent_synthesized xs here))

-- The arguments of a call are untrusted, and synthesized, exactly if one of the objects that are
-- reached within the default depth is, given that no object is both trusted and synthesized.
pub contains_untrusted_arguments-reached :
    (args : List Object)
    → every is_coherent (reached_arguments args) ≡ true
    → contains_untrusted_arguments args ≡ (
      not (every is_trusted (reached_arguments args)),
      any is_synthesized (reached_arguments args),
    )
unfolding contains_untrusted_arguments
contains_untrusted_arguments-reached args h = any_untrusted-reached args false h

-- `check_tag` gives the same answer on trust with and without `check_synthesis`.
pub check_tag-check_tags :
    (d : ℕ) (o : Object)
    → every is_coherent (reached d o) ≡ true
    → check_tag d o ≡ (check_tags d o).0
check_tag-check_tags d o h =
    check_tag-reached d o ∙ ap (λ (p : Bool × Bool). p.0) (sym (check_tags-reached d o h))

abbrev pub carried : ℕ → Tags → Bool
carried uid tags = carries uid tags.taints

-- The taints of one part are joined to those found before, and the rest follows.
joined :
    (uid t s : ℕ) (xs ys : List Tags)
    → carries uid s ≡ any (carried uid) xs
    → (carries uid (union t s) || any (carried uid) ys)
      ≡ (carries uid t || any (carried uid) (xs ++ ys))
joined uid t s xs ys h =
    ground (arith, bit-union (uid % max_users) t s, any-append (carried uid) xs ys, h)

mutual
  unfolding is_tainted_by any reached

  is_tainted_by-reached :
      (uid d : ℕ) (o : Object) → carries uid (is_tainted_by d o) ≡ any (carried uid) (reached d o)
  is_tainted_by-reached uid d (mixin tags) = ground arith
  is_tainted_by-reached uid zero (mapping es) = bit-zero (uid % max_users)
  is_tainted_by-reached uid zero (sequence es) = bit-zero (uid % max_users)
  is_tainted_by-reached uid zero (plain p) = bit-zero (uid % max_users)
  is_tainted_by-reached uid (suc d) (mapping es) =
      entries_taints-reached uid d es empty_taint
      ∙ ap (λ b. b || any (carried uid) (reached_entries d es)) (bit-zero (uid % max_users))
  is_tainted_by-reached uid (suc d) (sequence es) =
      elements_taints-reached uid d es empty_taint
      ∙ ap (λ b. b || any (carried uid) (reached_elements d es)) (bit-zero (uid % max_users))
  is_tainted_by-reached uid (suc d) (plain p) = bit-zero (uid % max_users)

  elements_taints-reached :
      (uid d : ℕ) (es : Elements) (t : ℕ)
      → carries uid (elements_taints d es t)
        ≡ (carries uid t || any (carried uid) (reached_elements d es))
  elements_taints-reached uid d no_elements t = ground arith
  elements_taints-reached uid d (element o rest) t =
      elements_taints-reached uid d rest (union t (is_tainted_by d o))
      ∙ joined uid t (is_tainted_by d o) (reached d o) (reached_elements d rest)
          (is_tainted_by-reached uid d o)

  entries_taints-reached :
      (uid d : ℕ) (es : Entries) (t : ℕ)
      → carries uid (entries_taints d es t)
        ≡ (carries uid t || any (carried uid) (reached_entries d es))
  entries_taints-reached uid d no_entries t = ground arith
  entries_taints-reached uid d (entry k v rest) t =
      entries_taints-reached uid d rest (union (union t (is_tainted_by d k)) (is_tainted_by d v))
      ∙ joined uid (union t (is_tainted_by d k)) (is_tainted_by d v) (reached d v)
          (reached_entries d rest) (is_tainted_by-reached uid d v)
      ∙ joined uid t (is_tainted_by d k) (reached d k) (reached d v ++ reached_entries d rest)
          (is_tainted_by-reached uid d k)

all_taints-reached :
    (uid : ℕ) (args : List Object) (t : ℕ)
    → carries uid (all_taints args t)
      ≡ (carries uid t || any (carried uid) (reached_arguments args))
unfolding all_taints reached_arguments any
all_taints-reached uid [] t = ground arith
all_taints-reached uid (arg ∷ args) t =
    all_taints-reached uid args (union t (is_tainted_by default_depth arg))
    ∙ joined uid t (is_tainted_by default_depth arg) (reached default_depth arg)
        (reached_arguments args) (is_tainted_by-reached uid default_depth arg)

-- The union of the taints of the arguments has the bit of a user exactly if an object that is
-- reached within the default depth has it.
pub union_argument_taints-reached :
    (uid : ℕ) (args : List Object)
    → carries uid (union_argument_taints args) ≡ any (carried uid) (reached_arguments args)
unfolding union_argument_taints
union_argument_taints-reached uid args =
    all_taints-reached uid args empty_taint
    ∙ ap (λ b. b || any (carried uid) (reached_arguments args)) (bit-zero (uid % max_users))

-- A list with one element, `n` times.
unfoldable pub nest : ℕ → Object → Object
nest zero o = o
nest (suc n) o = sequence (element (nest n o) no_elements)

-- A tagged object in `n` lists is found within the depth `d` exactly if `n` is at most `d`: an
-- untrusted object in more lists than that is taken for trusted.
pub check_tag-nest :
    (d n : ℕ) (tags : Tags)
    → check_tag d (nest n (mixin tags)) ≡ (if leb n d then tags.trusted else true)
unfolding check_tag nest
check_tag-nest d zero tags = ground arith
check_tag-nest zero (suc n) tags = ground arith
check_tag-nest (suc d) (suc n) tags = ground (arith, check_tag-nest d n tags)
