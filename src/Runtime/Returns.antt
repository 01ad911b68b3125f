-- ===== src/Runtime/Returns.antt =====
-- Inversion of a handler that returned.
use chirpstack_gateway_mesh.Common.{◌≡◌, refl, ap}
use chirpstack_gateway_mesh.Common.Result.{Result, ok, err, panicked, diverged}
use chirpstack_gateway_mesh.Runtime.{M, ◌>>=◌, lift, resume}

module _ {S A B : Type 0} where
  resume_returns :
      (r : Result A × S) (f : A → M S B) {b : B}
      → (resume r f).0 ≡ ok b
      → (a : A) × (r.0 ≡ ok a) × ((f a r.1).0 ≡ ok b)
  resume_returns (ok a, s) f e = (a, refl, e)
  resume_returns (err x, s) f e = cc
  resume_returns (panicked, s) f e = cc
  resume_returns (diverged, s) f e = cc

  -- If both steps together return, the first returns, and the second after it.
  pub >>=-eq-ok :
      (m : M S A) (f : A → M S B) (s : S) {b : B}
      → ((m >>= f) s).0 ≡ ok b
      → (a : A) × ((m s).0 ≡ ok a) × ((f a (m s).1).0 ≡ ok b)
  unfolding ◌>>=◌
  >>=-eq-ok m f s e = resume_returns (m s) f e

  -- A step that returns is followed by the rest.
  pub >>=-ok :
      (m : M S A) (f : A → M S B) (s : S) {a : A} → (m s).0 ≡ ok a → (m >>= f) s ≡ f a (m s).1
  unfolding ◌>>=◌
  >>=-ok m f s e = ap (λ r. resume (r, (m s).1) f) e

  pub >>=-lift-ok :
      (r : Result A) (f : A → M S B) (s : S) {a : A} → r ≡ ok a → (lift r >>= f) s ≡ f a s
  unfolding lift
  >>=-lift-ok r f s e = >>=-ok (lift r) f s e

  -- The same for a step whose state is known too.
  pub >>=-step :
      (m : M S A) (f : A → M S B) (s : S) {a : A} {t : S} → m s ≡ (ok a, t) → (m >>= f) s ≡ f a t
  unfolding ◌>>=◌
  >>=-step m f s e = ap (λ r. resume r f) e
