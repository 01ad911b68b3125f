-- ===== src/Cache/Defs.antt =====
-- `Cache<T>`: a queue of at most `size` values; `eq` is the `PartialEq` of `T`.
use chirpstack_gateway_mesh.Common.{
  ℕ, Bool, true, false, ◌||◌, List, [], ◌∷◌, ◌++◌, ◌==◌, if◌then◌else◌, length, drop,
}

pub record Cache (A : Type 0) : Type 0 where
  pub deque : List A
  pub size : ℕ

unfoldable pub new : {A : Type 0} → ℕ → Cache A
new size = record { deque = []; size = size }

module _ {A : Type 0} (eq : A → A → Bool) where
  -- `self.deque.contains(&value)`.
  unfoldable pub contains : List A → A → Bool
  contains [] value = false
  contains (x ∷ xs) value = eq x value || contains xs value

  -- `drop 1` is `pop_front`, which leaves an empty queue empty.
  unfoldable pub add : Cache A → A → Bool × Cache A
  add c value =
      if contains c.deque value
      then (false, c)
      else let deque = if length c.deque == c.size then drop 1 c.deque else c.deque in
        (true, record c { deque = deque ++ value ∷ [] })
