-- ===== src/Splice/Order.antt =====
-- The values of a synthesizer (saltyrtc/splice/synthesis.py): a type with `<=` and `==` that is
-- ordered, such as the integers.
use saltyrtc_server_python.Prelude.{◌≡◌, Bool, true, false, not, ◌&&◌, if◌then◌else◌, arith}

pub record Ordered (A : Type 0) : Type 0 where
  pub leq : A → A → Bool
  pub equals : A → A → Bool
  pub leq_refl : (a : A) → leq a a ≡ true
  pub leq_trans : (a b c : A) → leq a b ≡ true → leq b c ≡ true → leq a c ≡ true
  pub leq_total : (a b : A) → leq a b ≡ false → leq b a ≡ true

module _ {A : Type 0} ⦃o : Ordered A⦄ where
  abbrev pub less : A → A → Bool
  less a b = not (o.leq b a)

  -- `min` and `max` of two values: the first one of equal values.
  abbrev pub smaller : A → A → A
  smaller m x = if less x m then x else m

  abbrev pub larger : A → A → A
  larger m x = if less m x then x else m

  pub less-smaller : (v m x : A) → less v (smaller m x) ≡ (less v m && less v x)
  less-smaller v m x =
      ground (arith, o.leq_trans x m v, o.leq_trans m x v, o.leq_total x m, o.leq_total m x)

  pub leq-smaller : (v m x : A) → o.leq v (smaller m x) ≡ (o.leq v m && o.leq v x)
  leq-smaller v m x =
      ground (arith, o.leq_trans v x m, o.leq_trans v m x, o.leq_total x m, o.leq_total m x)

  pub larger-less : (v m x : A) → less (larger m x) v ≡ (less m v && less x v)
  larger-less v m x =
      ground (arith, o.leq_trans v x m, o.leq_trans v m x, o.leq_total x m, o.leq_total m x)

  pub larger-leq : (v m x : A) → o.leq (larger m x) v ≡ (o.leq m v && o.leq x v)
  larger-leq v m x =
      ground (arith, o.leq_trans x m v, o.leq_trans m x v, o.leq_total x m, o.leq_total m x)
