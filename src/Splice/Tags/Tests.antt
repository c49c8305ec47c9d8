-- ===== src/Splice/Tags/Tests.antt =====
-- A value of user 3 and a value of user 5, which is untrusted, as the arguments of a call.
use saltyrtc_server_python.Prelude.{ℕ, ◌^◌, ◌≡◌, refl, Bool, true, false, none, some, List, [], ◌∷◌}
use saltyrtc_server_python.Exception.{ok}
use saltyrtc_server_python.Splice.Tags.{
  Tags, Object, mixin, mapping, sequence, plain, registered, no_elements, element, no_entries,
  entry,
}
use saltyrtc_server_python.Splice.Tags.Reached.{reached, reached_arguments, every, is_coherent}
use saltyrtc_server_python.Splice.Tags.Construction.{Flags}
use saltyrtc_server_python.Splice.Tags.Conversion.{object, wrapper}
use saltyrtc_server_python.Splice.Tags.Conversion.Tracking.{IsTracked, wrapper-IsTracked}

abbrev tags_of : Bool → ℕ → Tags
tags_of trusted uid = record { trusted = trusted; synthesized = false; taints = 2 ^ uid }

abbrev pair : Object
pair = sequence (element (mixin (tags_of true 3)) (element (plain registered) no_elements))

abbrev arguments : List Object
arguments = pair ∷ mapping (entry (plain registered) (mixin (tags_of false 5)) no_entries) ∷ []

coherent : every is_coherent (reached_arguments arguments) ≡ true
unfolding every reached_arguments reached
coherent = refl

abbrev no_flags : Flags
no_flags = record { trusted = none; synthesized = none; taints = some 1 }

wrapper-IsTracked_example :
    (self' : Tags) × (result : Tags) × (wrapper arguments true
        (tags_of true 3)
        (object (plain registered))
      ≡ ok (self', object (mixin result)))
    × IsTracked arguments self' (tags_of true 3) result
wrapper-IsTracked_example = wrapper-IsTracked arguments (tags_of true 3) coherent
