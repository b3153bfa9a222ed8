-- ===== src/Prelude/Effect.antt =====
-- Code that changes a state outside and may raise: what was changed before a raise stays changed.
use mathlib.Core.Path.{◌≡◌, refl, ap, sym}
use open_yzj.Prelude.Raise.{Exc, Result, ok, ok-injective, raise, raise-ne-ok}

abbrev pub Effect {ℓ} : Type ℓ → Type ℓ → Type ℓ
Effect S A = S → Result A × S

module _ {ℓ} {S A : Type ℓ} where
  abbrev pub pure : A → Effect S A
  pure a s = (ok a, s)

  abbrev pub lift : Result A → Effect S A
  lift r s = (r, s)

module _ {ℓ} {S A B : Type ℓ} where
  abbrev pub continue : Result A → (A → Effect S B) → Effect S B
  continue (ok a) f s = f a s
  continue (raise e) f s = (raise e, s)

  infixl 5 ◌>>=◌
  abbrev pub ◌>>=◌ : Effect S A → (A → Effect S B) → Effect S B
  ◌>>=◌ m f s = let (r, s') = m s in continue r f s'

module _ {ℓ} {S A : Type ℓ} where
  abbrev pub recover : Result A → (Exc → Effect S A) → Effect S A
  recover (ok a) handler s = (ok a, s)
  recover (raise e) handler s = handler e s

  -- `try: m` `except Exception as e: handler`
  abbrev pub attempt : Effect S A → (Exc → Effect S A) → Effect S A
  attempt m handler s = let (r, s') = m s in recover r handler s'

module _ {ℓ} {S A B : Type ℓ} where
  continue-eq-ok :
      (w : Result A × S) (f : A → Effect S B) {b : B} {t : S}
      → continue w.0 f w.1 ≡ (ok b, t)
      → (a : A) × (u : S) × (w ≡ (ok a, u)) × (f a u ≡ (ok b, t))
  continue-eq-ok (ok a, u) f h = (a, u, refl, h)
  continue-eq-ok (raise e, u) f h = absurd (raise-ne-ok (ap (λ (x : Result B × S). x.0) h))

  -- what a chain that returns did before
  pub >>=-eq-ok_then :
      (m : Effect S A) (f : A → Effect S B) (s : S) {b : B} {t : S}
      → (m >>= f) s ≡ (ok b, t)
      → (a : A) × (u : S) × (m s ≡ (ok a, u)) × (f a u ≡ (ok b, t))
  >>=-eq-ok_then m f s h = continue-eq-ok (m s) f h

module _ {ℓ} {S A : Type ℓ} where
  pub ok_pair : {v w : A} {s t : S} → ◌≡◌ {A = Result A × S} (ok v, s) (ok w, t) → (v ≡ w) × (t ≡ s)
  ok_pair h =
      (ok-injective (ap (λ (x : Result A × S). x.0) h), sym (ap (λ (x : Result A × S). x.1) h))

  pub raise_pair : {e : Exc} {w : A} {s t : S} → ◌≡◌ {A = Result A × S} (raise e, s) (ok w, t) → ⊥
  raise_pair h = raise-ne-ok (ap (λ (x : Result A × S). x.0) h)
