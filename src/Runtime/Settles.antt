-- ===== src/Runtime/Settles.antt =====
-- Handlers that return, with a value or an error: they neither panic nor hang, in any state.
use chirpstack_gateway_mesh.Common.{◌≡◌, refl, Bool, true, false, Option}
use chirpstack_gateway_mesh.Common.Result.{Result, ok, err, panicked, diverged, IsSettled}
use chirpstack_gateway_mesh.Runtime.{M, pure, lift, inspect, attempt, ◌>>=◌, resume, caught}

pub record Settles {S A : Type 0} (m : M S A) : Type 0 where
  pub at : (s : S) → IsSettled (m s).0

module _ {S A : Type 0} where
  caught_settled : (r : Result A × S) → IsSettled r.0 → IsSettled (caught r).0
  caught_settled (ok a, s) h = tt
  caught_settled (err e, s) h = tt
  caught_settled (panicked, s) h = h
  caught_settled (diverged, s) h = h

  -- What `attempt` catches, it returns.
  caught_returns : (r : Result A × S) → IsSettled r.0 → (o : Option A) × ((caught r).0 ≡ ok o)
  caught_returns (ok a, s) h = (_, refl)
  caught_returns (err e, s) h = (_, refl)
  caught_returns (panicked, s) h = absurd h
  caught_returns (diverged, s) h = absurd h

  pub attempt_returns : (m : M S A) (s : S) → Settles m → (o : Option A) × ((attempt m s).0 ≡ ok o)
  unfolding attempt
  attempt_returns m s k = caught_returns (m s) (k.at s)

  pub Settles-pure : (a : A) → Settles {S = S} (pure a)
  unfolding pure
  Settles-pure a = record { at = λ s. tt }

  pub Settles-lift : (r : Result A) → IsSettled r → Settles {S = S} (lift r)
  unfolding lift
  Settles-lift r h = record { at = λ s. h }

  pub Settles-inspect : (f : S → Result A) → ((s : S) → IsSettled (f s)) → Settles (inspect f)
  unfolding inspect
  Settles-inspect f h = record { at = h }

  pub Settles-attempt : (m : M S A) → Settles m → Settles (attempt m)
  unfolding attempt
  Settles-attempt m k = record { at = λ s. caught_settled (m s) (k.at s) }

  pub Settles-split :
      (b : Bool) (m n : M S A) → Settles m → Settles n → Settles (elim b [ true ↦ m | false ↦ n ])
  Settles-split true m n km kn = km
  Settles-split false m n km kn = kn

module _ {S A B : Type 0} where
  resume_settled :
      (r : Result A × S) (f : A → M S B)
      → IsSettled r.0
      → ((a : A) → r.0 ≡ ok a → Settles (f a))
      → IsSettled (resume r f).0
  resume_settled (ok a, s) f h k = (k a refl).at s
  resume_settled (err e, s) f h k = tt
  resume_settled (panicked, s) f h k = h
  resume_settled (diverged, s) f h k = h

  -- The rest may use that the step returned its argument.
  pub Settles-bind_result :
      (m : M S A) (f : A → M S B)
      → Settles m
      → ((a : A) (s : S) → (m s).0 ≡ ok a → Settles (f a))
      → Settles (m >>= f)
  unfolding ◌>>=◌
  Settles-bind_result m f km kf = record {
    at = λ s. resume_settled (m s) f (km.at s) (λ a e. kf a s e);
  }

  pub Settles-bind :
      (m : M S A) (f : A → M S B) → Settles m → ((a : A) → Settles (f a)) → Settles (m >>= f)
  Settles-bind m f km kf = Settles-bind_result m f km (λ a s e. kf a)

  pub Settles-bind-lift :
      (r : Result A) (f : A → M S B)
      → IsSettled r
      → ((a : A) → r ≡ ok a → Settles (f a))
      → Settles (lift r >>= f)
  unfolding lift
  Settles-bind-lift r f h kf = Settles-bind_result (lift r) f (Settles-lift r h) (λ a s e. kf a e)

pub ruleset settles_rules =
    (Settles-pure, Settles-lift, Settles-inspect, Settles-attempt, Settles-bind)
