-- ===== src/Splice/Tags/Construction.antt =====
-- `MetaSplice.__call__` of saltyrtc/splice/splice.py: the tags of a new object.
--
-- `init` is what `__init__` of the class does to the tags, which the interpreter's own classes
-- leave alone. The callbacks for constraints are left out.
use saltyrtc_server_python.Prelude.{
  ℕ, ◌%◌, ◌≡◌, ap, ◌∙◌, Bool, true, false, not, ◌&&◌, ◌||◌, Option, none, some, List, arith,
}
use saltyrtc_server_python.Exception.{Result, ok, err, attribute_error, guard, ◌>>=◌, ◌>>◌}
use saltyrtc_server_python.Splice.Taint.{empty_taint, union, carries, max_users}
use saltyrtc_server_python.Splice.Taint.Bits.{bit-union}
use saltyrtc_server_python.Splice.Tags.{
  Tags, Object, contains_untrusted_arguments, union_argument_taints,
}
use saltyrtc_server_python.Splice.Tags.Reached.{
  reached_arguments, every, any, is_trusted, is_synthesized, is_coherent,
}
use saltyrtc_server_python.Splice.Tags.Arguments.{
  carried, contains_untrusted_arguments-reached, union_argument_taints-reached,
}

-- The keyword arguments `trusted`, `synthesized` and `taints`
pub record Flags : Type 0 where
  pub trusted : Option Bool
  pub synthesized : Option Bool
  pub taints : Option ℕ

-- A flag that is set explicitly, beside the flag that was found. An untrusted object cannot be made
-- trusted.
abbrev choose_trusted : Option Bool → Bool → Result Bool
choose_trusted none found = ok found
choose_trusted (some false) found = ok false
choose_trusted (some true) true = ok true
choose_trusted (some true) false = err attribute_error

abbrev choose_synthesized : Option Bool → Bool → Result Bool
choose_synthesized none found = ok found
choose_synthesized (some true) found = ok true
choose_synthesized (some false) false = ok false
choose_synthesized (some false) true = err attribute_error

abbrev pub join_taints : Option ℕ → ℕ → ℕ
join_taints none taints = taints
join_taints (some t) taints = union taints t

-- What is done after `__init__`
abbrev finish : Flags → ℕ → Tags → Result Tags
finish flags taints obj = choose_trusted flags.trusted obj.trusted >>= λ trusted.
    choose_synthesized flags.synthesized obj.synthesized >>= λ synthesized.
    guard (not (trusted && synthesized)) attribute_error
    >> ok (record {
      trusted = trusted;
      synthesized = synthesized;
      taints = join_taints flags.taints taints;
    })

-- `MetaSplice.__call__`
unfoldable pub construct : (Tags → Tags) → List Object → Flags → Result Tags
unfolding contains_untrusted_arguments union_argument_taints union
construct init args flags =
    let (untrusted, synthesized) = contains_untrusted_arguments args in
    finish flags (union_argument_taints args)
      (init (record { trusted = not untrusted; synthesized = synthesized; taints = empty_taint }))

finish_ok :
    (flags : Flags) (taints : ℕ) (obj t : Tags)
    → finish flags taints obj ≡ ok t
    → ((t.trusted && t.synthesized) ≡ false)
      × ((t.trusted && not obj.trusted) ≡ false)
      × ((obj.synthesized && not t.synthesized) ≡ false)
      × (t.taints ≡ join_taints flags.taints taints)
finish_ok flags taints obj t run = ground arith

abbrev pub explicit : ℕ → Option ℕ → Bool
explicit uid none = false
explicit uid (some t) = carries uid t

join_taints-carries :
    (uid : ℕ) (o : Option ℕ) (t : ℕ)
    → carries uid (join_taints o t) ≡ (carries uid t || explicit uid o)
join_taints-carries uid none t = ground arith
join_taints-carries uid (some s) t = bit-union (uid % max_users) t s

-- An object that is constructed is not both trusted and synthesized; it is not trusted if an
-- argument is not, it is synthesized if an argument is, and it has the taints of its arguments and
-- those that were given. The arguments are coherent, and `__init__` leaves the flags alone.
pub construct-ok :
    (init : Tags → Tags) (args : List Object) (flags : Flags) (t : Tags) (uid : ℕ)
    → ((s : Tags) → ((init s).trusted ≡ s.trusted) × ((init s).synthesized ≡ s.synthesized))
    → every is_coherent (reached_arguments args) ≡ true
    → construct init args flags ≡ ok t
    → ((t.trusted && t.synthesized) ≡ false)
      × ((t.trusted && not (every is_trusted (reached_arguments args))) ≡ false)
      × ((any is_synthesized (reached_arguments args) && not t.synthesized) ≡ false)
      × (carries uid t.taints
          ≡ (any (carried uid) (reached_arguments args) || explicit uid flags.taints))
unfolding construct
construct-ok init args flags t uid keeps coherent run =
    let (untrusted, synthesized) = contains_untrusted_arguments args in
    let fresh : Tags = record {
      trusted = not untrusted;
      synthesized = synthesized;
      taints = empty_taint;
    } in
    let found = contains_untrusted_arguments-reached args coherent in
    let (kept_trusted, kept_synthesized) = keeps fresh in
    let (apart, kept, marked, taints) =
      finish_ok flags (union_argument_taints args) (init fresh) t run in
    (
      apart,
      ground (arith, kept, kept_trusted, found),
      ground (arith, marked, kept_synthesized, found),
      ap (carries uid) taints
          ∙ join_taints-carries uid flags.taints (union_argument_taints args)
          ∙ ap (λ b. b || explicit uid flags.taints) (union_argument_taints-reached uid args),
    )
