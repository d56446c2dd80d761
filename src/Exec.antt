-- ===== src/Exec.antt =====
-- Methods that change an object and may fail: the state comes back beside the error too, since what
-- was written before a return stays written.
use runspace.Prelude.{◌≡◌, refl, sym, ap, Bool, true, false, Option, none, some}
use runspace.Errors.{Error, Result, ok, err}

abbrev pub Exec {ℓ} : Type ℓ → Type ℓ → Type ℓ
Exec S A = S → Result A × S

module _ {ℓ} {S A B : Type ℓ} where
  abbrev pub continue : Result A → (A → Exec S B) → Exec S B
  continue (ok a) f s = f a s
  continue (err e) f s = (err e, s)

  infixl 10 ◌>>=◌ ◌>>◌
  abbrev pub ◌>>=◌ : Exec S A → (A → Exec S B) → Exec S B
  ◌>>=◌ m f s = let (r, s') = m s in continue r f s'

  abbrev pub ◌>>◌ : Exec S A → Exec S B → Exec S B
  m >> n = m >>= λ _. n

module _ {ℓ} {S A : Type ℓ} where
  abbrev pub pure : A → Exec S A
  pure a s = (ok a, s)

  abbrev pub fail : Error → Exec S A
  fail e s = (err e, s)

  -- if err != nil { return err }
  abbrev pub lift : Result A → Exec S A
  lift r s = (r, s)

  abbrev pub gets : (S → A) → Exec S A
  gets f s = (ok (f s), s)

  -- The result as a value, for code that inspects the error or drops it.
  abbrev pub attempt : Exec S A → Exec S (Result A)
  attempt m s = let (r, s') = m s in (ok r, s')

  abbrev pub or_fail : Option A → Error → Exec S A
  or_fail none e s = (err e, s)
  or_fail (some a) e s = (ok a, s)

module _ {S : Type 0} where
  -- if b { return e }
  abbrev pub fail_if : Bool → Error → Exec S Unit
  fail_if true e s = (err e, s)
  fail_if false e s = (ok tt, s)

  abbrev pub modify : (S → S) → Exec S Unit
  modify f s = (ok tt, f s)

  -- ctx.Err(): none while the context lives
  abbrev pub check_context : Option Error → Exec S Unit
  check_context none s = (ok tt, s)
  check_context (some e) s = (err e, s)

  pub fail_if-ok :
      (b : Bool) (e : Error) (s t : S) → fail_if b e s ≡ (ok tt, t) → (b ≡ false) × (t ≡ s)
  fail_if-ok true e s t h = absurd (cc (ap (λ p. p.0) h))
  fail_if-ok false e s t h = (refl, sym (ap (λ p. p.1) h))

module _ {S A B : Type 0} where
  -- A sequence that gave a value: so did its first part.
  pub bind-ok :
      (m : Exec S A) (f : A → Exec S B) (s t : S) (b : B)
      → (m >>= f) s ≡ (ok b, t)
      → (a : A) × (u : S) × (m s ≡ (ok a, u)) × (f a u ≡ (ok b, t))
  bind-ok m f s t b h = from (m s).0 (m s).1 refl h
    where
      from :
          (r : Result A) (u : S)
          → m s ≡ (r, u)
          → continue r f u ≡ (ok b, t)
          → (a : A) × (u : S) × (m s ≡ (ok a, u)) × (f a u ≡ (ok b, t))
      from (ok a) u e h' = (a, u, e, h')
      from (err x) u e h' = absurd (cc (ap (λ p. p.0) h'))

  -- What each part of a sequence does to the state, whether it fails or not, the sequence does.
  pub bind-within :
      (R : S → S → Type 0) (m : Exec S A) (f : A → Exec S B)
      → ((s t u : S) → R s t → R t u → R s u)
      → ((s : S) → R s (m s).1)
      → ((a : A) (s : S) → R s (f a s).1)
      → (s : S) → R s ((m >>= f) s).1
  bind-within R m f trans first rest s = from (m s).0 (m s).1 (first s)
    where
      from : (r : Result A) (u : S) → R s u → R s (continue r f u).1
      from (ok a) u so_far = trans s u (f a u).1 so_far (rest a u)
      from (err e) u so_far = so_far
