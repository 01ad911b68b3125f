-- ===== src/Runtime/Keeps.antt =====
-- What a handler keeps of the state, whether it returns or fails: one rule for each way to build a
-- handler.
use chirpstack_gateway_mesh.Common.{◌≡◌, refl, Bool, true, false}
use chirpstack_gateway_mesh.Common.Result.{Result, ok, err, panicked, diverged}
use chirpstack_gateway_mesh.Runtime.{M, pure, lift, inspect, attempt, ◌>>=◌, resume, caught}

pub record Keeps {S A : Type 0} (P : S → Type 0) (m : M S A) : Type 0 where
  pub at : (s : S) → P s → P (m s).1

module _ {S A : Type 0} where
  caught_keeps : (P : S → Type 0) (r : Result A × S) → P r.1 → P (caught r).1
  caught_keeps P (ok a, s) h = h
  caught_keeps P (err e, s) h = h
  caught_keeps P (panicked, s) h = h
  caught_keeps P (diverged, s) h = h

module _ {S A B : Type 0} where
  resume_keeps :
      (P : S → Type 0) (r : Result A × S) (f : A → M S B)
      → P r.1
      → ((a : A) → r.0 ≡ ok a → Keeps P (f a))
      → P (resume r f).1
  resume_keeps P (ok a, s) f h k = (k a refl).at s h
  resume_keeps P (err e, s) f h k = h
  resume_keeps P (panicked, s) f h k = h
  resume_keeps P (diverged, s) f h k = h

module _ {S A : Type 0} {P : S → Type 0} where
  pub Keeps-pure : (a : A) → Keeps P (pure a)
  unfolding pure
  Keeps-pure a = record { at = λ s h. h }

  pub Keeps-lift : (r : Result A) → Keeps P (lift r)
  unfolding lift
  Keeps-lift r = record { at = λ s h. h }

  pub Keeps-inspect : (f : S → Result A) → Keeps P (inspect f)
  unfolding inspect
  Keeps-inspect f = record { at = λ s h. h }

  pub Keeps-attempt : (m : M S A) → Keeps P m → Keeps P (attempt m)
  unfolding attempt
  Keeps-attempt m k = record { at = λ s h. caught_keeps P (m s) (k.at s h) }

  pub Keeps-split :
      (b : Bool) (m n : M S A) → Keeps P m → Keeps P n → Keeps P (elim b [ true ↦ m | false ↦ n ])
  Keeps-split true m n km kn = km
  Keeps-split false m n km kn = kn

module _ {S A B : Type 0} {P : S → Type 0} where
  -- The rest may use that the step returned its argument.
  pub Keeps-bind_result :
      (m : M S A) (f : A → M S B)
      → Keeps P m
      → ((a : A) (s : S) → (m s).0 ≡ ok a → Keeps P (f a))
      → Keeps P (m >>= f)
  unfolding ◌>>=◌
  Keeps-bind_result m f km kf = record {
    at = λ s h. resume_keeps P (m s) f (km.at s h) (λ a e. kf a s e);
  }

  pub Keeps-bind :
      (m : M S A) (f : A → M S B) → Keeps P m → ((a : A) → Keeps P (f a)) → Keeps P (m >>= f)
  Keeps-bind m f km kf = Keeps-bind_result m f km (λ a s e. kf a)

  pub Keeps-bind-lift :
      (r : Result A) (f : A → M S B) → ((a : A) → r ≡ ok a → Keeps P (f a)) → Keeps P (lift r >>= f)
  unfolding lift
  Keeps-bind-lift r f kf = Keeps-bind_result (lift r) f (Keeps-lift r) (λ a s e. kf a e)

pub ruleset keeps_rules = (Keeps-pure, Keeps-lift, Keeps-inspect, Keeps-attempt, Keeps-bind)
