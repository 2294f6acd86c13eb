-- ===== src/Ring/Queue.antt =====
-- A FIFO of at most `cap` items, oldest first: what a ring promises.
use dmaplane_master.Base.{ℕ, List, [], ◌∷◌, ◌++◌, Option, none, some, ◌==◌, if◌then◌else◌, length}

module _ {ℓ} {A : Type ℓ} where
  unfoldable pub push : ℕ → List A → A → Option (List A)
  push cap q x = if length q == cap then none else some (q ++ (x ∷ []))

  unfoldable pub pop : List A → Option (A × List A)
  pop [] = none
  pop (x ∷ q) = some (x, q)
