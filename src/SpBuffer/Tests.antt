-- ===== src/SpBuffer/Tests.antt =====
-- The theorems on receive buffers at buffers of 8 bytes.
use octcommu.Shared.{ℕ, ◌+◌, ◌≡◌, refl, List, [], ◌∷◌, some, arith, length, take}
use octcommu.SpBuffer.{SpBuffer, append, contents}
use octcommu.SpBuffer.Laws.{IsValid, append_over}

abbrev three : SpBuffer
three = record { bytes = 0 ∷ 1 ∷ 2 ∷ 3 ∷ 0 ∷ 0 ∷ 0 ∷ 0 ∷ []; start = 1; stop = 4 }

three-IsValid : IsValid 8 three
three-IsValid = record { sized = refl; ordered = omega arith; within = omega arith }

abbrev none_held : SpBuffer
none_held = record three { start = 4 }

none_held-IsValid : IsValid 8 none_held
none_held-IsValid = record { sized = refl; ordered = omega arith; within = omega arith }

abbrev two : List ℕ
two = 7 ∷ 8 ∷ []

append_over_example :
    (c : SpBuffer) × (append 8 three two ≡ some (0, c))
    × IsValid 8 c
    × (take (length two) (contents c) ≡ two)
    × (length (contents c) ≡ length (contents three) + length two)
    × (c.start ≡ three.start)
append_over_example = append_over 8 three-IsValid two (omega arith)
