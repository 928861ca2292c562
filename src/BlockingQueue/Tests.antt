-- ===== src/BlockingQueue/Tests.antt =====
-- The theorems on queues at a queue of at most 3 entries.
use octcommu.Shared.{ℕ, ◌≡◌, List, [], ◌∷◌, ◌++◌, arith}
use octcommu.BlockingQueue.Window.{lasts, puts, puts-lasts}

abbrev one : List ℕ
one = 1 ∷ []

abbrev three : List ℕ
three = 2 ∷ 3 ∷ 4 ∷ []

abbrev four : List ℕ
four = 1 ∷ 2 ∷ 3 ∷ 4 ∷ []

puts-lasts_example : puts 2 one three ≡ lasts 3 (one ++ three)
puts-lasts_example = puts-lasts 2 one three (omega arith)
