-- ===== src/Splice/Tags/Conversion/Tracking.antt =====
-- Converted objects have the tags that are asked for, and a decorated method passes the tags of its
-- arguments on to what it changes and returns.
use Prim.Native.Nat.{bit_or-bitwise}
use saltyrtc_server_python.Prelude.{
  ℕ, zero, suc, ◌%◌, ◌≡◌, refl, ap, ◌∙◌, true, false, not, ◌&&◌, ◌||◌, List, All, [], ◌∷◌, ◌++◌,
  arith,
}
use saltyrtc_server_python.Exception.{ok}
use saltyrtc_server_python.Splice.Taint.{union, carries, max_users}
use saltyrtc_server_python.Splice.Taint.Bits.{bit-union}
use saltyrtc_server_python.Splice.Tags.{
  Tags, Object, Elements, Entries, Plain, registered, boolean, unregistered, mixin, mapping,
  sequence, plain, no_elements, element, no_entries, entry, union_argument_taints,
}
use saltyrtc_server_python.Splice.Tags.Reached.{
  reached, reached_elements, reached_entries, reached_arguments, every, any, is_trusted,
  is_synthesized, is_coherent, coherent_synthesized,
}
use saltyrtc_server_python.Splice.Tags.Arguments.{
  carried, contains_untrusted_arguments-reached, union_argument_taints-reached,
}
use saltyrtc_server_python.Splice.Tags.Construction.{construct}
use saltyrtc_server_python.Splice.Tags.Conversion.{
  splicify, to_splice, convert_elements, convert_entries, object, convert_result, beside,
  change_self, wrapper,
}

zero-union : (t : ℕ) → union 0 t ≡ t
unfolding union
zero-union t = bit_or-bitwise 0 t

splicify_lem :
    (tags : Tags) → (tags.trusted && tags.synthesized) ≡ false → splicify tags ≡ ok (mixin tags)
unfolding construct
splicify_lem tags h = ground (arith, h, zero-union tags.taints)

All-append {ℓ κ} :
    {A : Type ℓ} (P : A → Type κ) (xs ys : List A) → All P xs → All P ys → All P (xs ++ ys)
All-append P [] ys p q = q
All-append P (x ∷ xs) ys p q = (p.0, All-append P xs ys p.1 q)

-- The object that a conversion returns: all tagged objects in it have these tags.
abbrev pub IsConverted : Tags → Object → Object → Type 0
IsConverted tags o o' =
    (to_splice tags o ≡ ok o') × ((depth : ℕ) → All (λ t. t ≡ tags) (reached depth o'))

in_plain : (tags : Tags) (p : Plain) (d : ℕ) → All (λ t. t ≡ tags) (reached d (plain p))
unfolding reached
in_plain tags p zero = tt
in_plain tags p (suc d) = tt

in_sequence :
    (tags : Tags) (es : Elements)
    → ((d : ℕ) → All (λ t. t ≡ tags) (reached_elements d es))
    → (d : ℕ) → All (λ t. t ≡ tags) (reached d (sequence es))
unfolding reached
in_sequence tags es all zero = tt
in_sequence tags es all (suc d) = all d

in_mapping :
    (tags : Tags) (es : Entries)
    → ((d : ℕ) → All (λ t. t ≡ tags) (reached_entries d es))
    → (d : ℕ) → All (λ t. t ≡ tags) (reached d (mapping es))
unfolding reached
in_mapping tags es all zero = tt
in_mapping tags es all (suc d) = all d

mutual
  unfolding to_splice reached

  convert_object :
      (tags : Tags) (o : Object)
      → (tags.trusted && tags.synthesized) ≡ false
      → (o' : Object) × IsConverted tags o o'
  convert_object tags (mixin old) h = (mixin tags, (refl, λ d. (refl, tt)))
  convert_object tags (plain boolean) h = (plain boolean, (refl, λ d. in_plain tags boolean d))
  convert_object tags (plain registered) h = (mixin tags, (splicify_lem tags h, λ d. (refl, tt)))
  convert_object tags (plain unregistered) h =
      (plain unregistered, (refl, λ d. in_plain tags unregistered d))
  convert_object tags (sequence es) h =
      let (es', run, all) = elements_converted tags es h in
      (sequence es', (rw run refl, in_sequence tags es' all))
  convert_object tags (mapping es) h =
      let (es', run, all) = entries_converted tags es h in
      (mapping es', (rw run refl, in_mapping tags es' all))

  elements_converted :
      (tags : Tags) (es : Elements)
      → (tags.trusted && tags.synthesized) ≡ false
      → (es' : Elements) × (convert_elements tags es ≡ ok es')
        × ((d : ℕ) → All (λ t. t ≡ tags) (reached_elements d es'))
  elements_converted tags no_elements h = (no_elements, refl, λ d. tt)
  elements_converted tags (element o rest) h =
      let (o', (run, all)) = convert_object tags o h in
      let (rest', later, others) = elements_converted tags rest h in
      (
        element o' rest',
        rw (run, later) refl,
        λ d.
            All-append (λ t. t ≡ tags) (reached d o') (reached_elements d rest') (all d) (others d),
      )

  entries_converted :
      (tags : Tags) (es : Entries)
      → (tags.trusted && tags.synthesized) ≡ false
      → (es' : Entries) × (convert_entries tags es ≡ ok es')
        × ((d : ℕ) → All (λ t. t ≡ tags) (reached_entries d es'))
  entries_converted tags no_entries h = (no_entries, refl, λ d. tt)
  entries_converted tags (entry k v rest) h =
      let (k', (run_key, all_key)) = convert_object tags k h in
      let (v', (run, all)) = convert_object tags v h in
      let (rest', later, others) = entries_converted tags rest h in
      (
        entry k' v' rest',
        rw (run_key, run, later) refl,
        λ d.
            All-append (λ t. t ≡ tags) (reached d k') (reached d v' ++ reached_entries d rest')
              (all_key d)
              (All-append (λ t. t ≡ tags) (reached d v') (reached_entries d rest') (all d)
                (others d)),
      )

-- To convert an object never fails, unless it should be both trusted and synthesized; afterwards
-- all tagged objects in it, at any depth, have the tags that were asked for.
pub to_splice-IsConverted :
    (tags : Tags) (o : Object)
    → (tags.trusted && tags.synthesized) ≡ false
    → (o' : Object) × IsConverted tags o o'
to_splice-IsConverted = convert_object

-- What the tags of an object have from the arguments of a call.
pub record IsTracked (args : List Object) (self' self result : Tags) : Type 0 where
  pub changed_taints :
      (uid : ℕ)
      → carries uid self'.taints
        ≡ (carries uid self.taints || any (carried uid) (reached_arguments args))
  pub changed_trusted : self'.trusted ≡ (self.trusted && every is_trusted (reached_arguments args))
  pub changed_synthesized :
      self'.synthesized ≡ (self.synthesized || any is_synthesized (reached_arguments args))
  pub result_taints :
      (uid : ℕ) → carries uid result.taints ≡ any (carried uid) (reached_arguments args)
  pub result_trusted : result.trusted ≡ every is_trusted (reached_arguments args)
  pub result_synthesized : result.synthesized ≡ any is_synthesized (reached_arguments args)

wrapped :
    (self tags : Tags)
    → (tags.trusted && tags.synthesized) ≡ false
    → let self' = change_self (not tags.trusted) tags.synthesized tags.taints self in
      beside self' (
        convert_result
          (record tags { trusted = not (not tags.trusted) })
          (object (plain registered)))
      ≡ ok (self', object (mixin tags))
unfolding to_splice
wrapped self tags h =
    let double : not (not tags.trusted) ≡ tags.trusted = ground arith in
    rw (double, splicify_lem tags h) refl

-- A decorated method that changes `self` and returns a plain value does not fail: what it returns
-- is a tagged object with exactly the tags of the objects that are reached in the arguments within
-- the default depth of two nested containers, and `self` has these tags in addition to its own. No
-- object that is reached is both trusted and synthesized. What is nested deeper is not looked at.
pub wrapper-IsTracked :
    (args : List Object) (self : Tags)
    → every is_coherent (reached_arguments args) ≡ true
    → (self' : Tags) × (result : Tags) × (wrapper args true self (object (plain registered))
        ≡ ok (self', object (mixin result)))
      × IsTracked args self' self result
unfolding wrapper
wrapper-IsTracked args self coherent =
    let found = contains_untrusted_arguments-reached args coherent in
    let taints = union_argument_taints args in
    let trusted = every is_trusted (reached_arguments args) in
    let synthesized = any is_synthesized (reached_arguments args) in
    let result : Tags = record { trusted = trusted; synthesized = synthesized; taints = taints } in
    let apart : (trusted && synthesized) ≡ false =
      ground (arith, coherent_synthesized (reached_arguments args) coherent) in
    (
      change_self (not trusted) synthesized taints self,
      result,
      rw found (wrapped self result apart),
      record {
        changed_taints = λ uid.
            bit-union (uid % max_users) self.taints taints
            ∙ ap (λ b. carries uid self.taints || b) (union_argument_taints-reached uid args);
        changed_trusted = ground arith;
        changed_synthesized = ground arith;
        result_taints = λ uid. union_argument_taints-reached uid args;
        result_trusted = refl;
        result_synthesized = refl;
      },
    )
