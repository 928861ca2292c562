-- ===== src/BlockingQueue.antt =====
-- src/Util/BlockingQueue.h: a queue that drops its oldest entries when it is full. Each call holds
-- the mutex throughout, so a call is one step on the list of entries, oldest first.
pub mod Window
pub mod Traffic
pub mod Contract
mod Tests
use octcommu.Shared.{ℕ, List, [], ◌∷◌, ◌++◌, ltb, if◌then◌else◌, length}

module _ {ℓ} {A : Type ℓ} where
  -- `while (queue_max_count < queue_.size()) queue_.pop_front();`
  unfoldable pub trim : ℕ → List A → List A
  trim max_count [] = []
  trim max_count (x ∷ q) =
      let rest = trim max_count q in if ltb max_count (length (x ∷ q)) then rest else x ∷ q

  -- Both overloads of `put`.
  unfoldable pub put : ℕ → List A → A → List A
  put max_count q x = trim max_count q ++ x ∷ []

  -- An empty queue gives a default value at once: the wait for an entry is commented out.
  unfoldable pub take : A → List A → A × List A
  take default [] = (default, [])
  take default (x ∷ q) = (x, q)

  pub size : List A → ℕ
  size q = length q
