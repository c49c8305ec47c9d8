-- ===== src/Exec.antt =====
-- Methods that change objects and may raise. What was written before an exception stays written,
-- so the state comes back beside the error too.
use saltyrtc_server_python.Prelude.{◌≡◌, refl, Bool, true, false}
use saltyrtc_server_python.Exception.{Error, Result, ok, err}

abbrev pub Exec {ℓ} : Type ℓ → Type ℓ → Type ℓ
Exec S A = S → Result A × S

module _ {ℓ} {S A : Type ℓ} where
  abbrev pub pure : A → Exec S A
  pure a s = (ok a, s)

  abbrev pub raise : Error → Exec S A
  raise e s = (err e, s)

  abbrev pub lift : Result A → Exec S A
  lift r s = (r, s)

  abbrev pub gets : (S → A) → Exec S A
  gets f s = (ok (f s), s)

module _ {ℓ} {S : Type ℓ} where
  abbrev pub modify : (S → S) → Exec S (Unit {ℓ})
  modify f s = (ok tt, f s)

  -- `if not test: raise e`
  abbrev pub ensure : Bool → Error → Exec S (Unit {ℓ})
  ensure true e s = (ok tt, s)
  ensure false e s = (err e, s)

module _ {ℓ} {S A B : Type ℓ} where
  abbrev pub continue : Result A → (A → Exec S B) → Exec S B
  continue (ok a) f s = f a s
  continue (err e) f s = (err e, s)

  infixl 5 ◌>>=◌
  abbrev pub ◌>>=◌ : Exec S A → (A → Exec S B) → Exec S B
  ◌>>=◌ m f s = let (r, s') = m s in continue r f s'

module _ {ℓ} {S B : Type ℓ} where
  infixl 5 ◌>>◌
  abbrev pub ◌>>◌ : Exec S (Unit {ℓ}) → Exec S B → Exec S B
  m >> k = m >>= λ _. k

module _ {ℓ} {S A B : Type ℓ} where
  -- A successful sequence: both halves succeeded.
  pub >>=-eq-ok :
      (m : Exec S A) (f : A → Exec S B) (s s' : S) {b : B}
      → (m >>= f) s ≡ (ok b, s')
      → (a : A) × (t : S) × (m s ≡ (ok a, t)) × (f a t ≡ (ok b, s'))
  >>=-eq-ok m f s s' {b} h = split (m s) refl h
    where
      split :
          (r : Result A × S)
          → m s ≡ r
          → continue r.0 f r.1 ≡ (ok b, s')
          → (a : A) × (t : S) × (m s ≡ (ok a, t)) × (f a t ≡ (ok b, s'))
      split (ok a, t) e h = (a, t, e, h)
      split (err x, t) e h = cc

-- The second half runs from the state that the first one leaves.
pub >>-ok {ℓ} :
    {S B : Type ℓ} (m : Exec S (Unit {ℓ})) (k : Exec S B) (s : S)
    → (m s).0 ≡ ok tt
    → (m >> k) s ≡ k (m s).1
>>-ok m k s h = rw (h, continue)

-- The second half is left out if the first one raises.
pub >>-err {ℓ} :
    {S B : Type ℓ} (m : Exec S (Unit {ℓ})) (k : Exec S B) (s : S) {e : Error}
    → (m s).0 ≡ err e
    → (m >> k) s ≡ (err e, (m s).1)
>>-err m k s h = rw (h, continue)
