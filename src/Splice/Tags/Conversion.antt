-- ===== src/Splice/Tags/Conversion.antt =====
-- `SpliceMixin.to_splice` of saltyrtc/splice/splice.py, the functions that set the tags of a value,
-- and the wrapper of a decorated method.
--
-- An object that is changed in place is returned with its new tags.
pub mod Tracking
use saltyrtc_server_python.Prelude.{
  ℕ, zero, suc, ◌%◌, ◌≡◌, refl, ap, sym, ◌∙◌, Bool, true, false, not, ◌&&◌, ◌||◌, Option, none,
  some, List, [], ◌∷◌, if◌then◌else◌, arith,
}
use saltyrtc_server_python.Exception.{Result, ok, err, ◌>>=◌, assertion_error}
use saltyrtc_server_python.Splice.Taint.{empty_taint, union, carries, max_users, TaintSource}
use saltyrtc_server_python.Splice.Taint.Bits.{bit-union}
use saltyrtc_server_python.Splice.Tags.{
  Tags, Object, Elements, Entries, Plain, registered, boolean, unregistered, mixin, mapping,
  sequence, plain, no_elements, element, no_entries, entry, contains_untrusted_arguments,
  union_argument_taints,
}
use saltyrtc_server_python.Splice.Tags.Reached.{
  reached_arguments, every, any, is_trusted, is_synthesized, is_coherent,
}
use saltyrtc_server_python.Splice.Tags.Arguments.{
  carried, contains_untrusted_arguments-reached, union_argument_taints-reached,
}
use saltyrtc_server_python.Splice.Tags.Construction.{Flags, construct}

-- `splicify` of a registered class: the object is constructed from the value.
abbrev pub splicify : Tags → Result Object
splicify tags =
    construct (λ t. t) (plain registered ∷ [])
      (record {
        trusted = some tags.trusted;
        synthesized = some tags.synthesized;
        taints = some tags.taints;
      })
    >>= λ made. ok (mixin made)

-- `to_splice`, with its arguments `trusted`, `synthesized` and `taints` together
unfoldable mutual
  unfolding construct

  pub to_splice : Tags → Object → Result Object
  to_splice tags (mixin old) = ok (mixin tags)
  to_splice tags (plain boolean) = ok (plain boolean)
  to_splice tags (plain registered) = splicify tags
  to_splice tags (plain unregistered) = ok (plain unregistered)
  to_splice tags (sequence elements) = convert_elements tags elements >>= λ es. ok (sequence es)
  to_splice tags (mapping entries) = convert_entries tags entries >>= λ es. ok (mapping es)

  pub convert_elements : Tags → Elements → Result Elements
  convert_elements tags no_elements = ok no_elements
  convert_elements tags (element o rest) =
      to_splice tags o >>= λ o'. convert_elements tags rest >>= λ rest'. ok (element o' rest')

  pub convert_entries : Tags → Entries → Result Entries
  convert_entries tags no_entries = ok no_entries
  convert_entries tags (entry k v rest) = to_splice tags k >>= λ k'.
      to_splice tags v >>= λ v'. convert_entries tags rest >>= λ rest'. ok (entry k' v' rest')

abbrev pub untainted : Bool → Bool → Tags
untainted trusted synthesized = record {
  trusted = trusted;
  synthesized = synthesized;
  taints = empty_taint;
}

unfoldable pub to_untrusted : Object → Result Object
unfolding to_splice
to_untrusted (mixin tags) = ok (mixin (record tags { trusted = false }))
to_untrusted o = to_splice (untainted false false) o

unfoldable pub to_synthesized : Object → Result Object
unfolding to_splice
to_synthesized (mixin tags) = ok (mixin (record tags { synthesized = true }))
to_synthesized o = to_splice (untainted false true) o

unfoldable pub add_taints : ℕ → Object → Result Object
unfolding to_splice
add_taints taints (mixin tags) = ok (mixin (record tags { taints = taints }))
add_taints taints o = to_splice (record (untainted true false) { taints = taints }) o

-- What a method returns: `None` or `NotImplemented`, or an object.
pub data Returned : Type 0 where
  nothing : Returned
  object : Object → Returned

-- The decorator `untrusted`
unfoldable pub untrusted : TaintSource → Returned → Result Returned
unfolding to_untrusted add_taints
untrusted source nothing = ok nothing
untrusted source (object res) = to_untrusted res >>= λ res'.
    add_taints source.current_user_taint res' >>= λ res''. ok (object res'')

abbrev pub convert_result : Tags → Returned → Result Returned
convert_result tags nothing = ok nothing
convert_result tags (object (mixin old)) = ok (object (mixin old))
convert_result tags (object res) = to_splice tags res >>= λ res'. ok (object res')

-- The tags of `self` when the method has changed it.
abbrev pub change_self : Bool → Bool → ℕ → Tags → Tags
change_self untrusted synthesized taints self = record {
  trusted = if untrusted then false else self.trusted;
  synthesized = if synthesized then true else self.synthesized;
  taints = union self.taints taints;
}

abbrev pub beside : Tags → Result Returned → Result (Tags × Returned)
beside self (ok res) = ok (self, res)
beside self (err e) = err e

-- The wrapper of `to_splice_method`, around a call of a method that leaves `self` with its tags,
-- whether it has `changed` its value, and returns `res`.
unfoldable pub wrapper : List Object → Bool → Tags → Returned → Result (Tags × Returned)
unfolding contains_untrusted_arguments union_argument_taints union to_splice
wrapper args changed self res =
    let (untrusted, synthesized) = contains_untrusted_arguments args in
    let taints = union_argument_taints args in
    let self' = if changed then change_self untrusted synthesized taints self else self in
    beside self' (
      convert_result
        (record { trusted = not untrusted; synthesized = synthesized; taints = taints }) res)
