-- ===== src/SpUnix/Sending/Loop.antt =====
-- The loop over `write`, for answers that take all the bytes.
use octcommu.Shared.{
  ℕ, zero, suc, ◌+◌, ◌-◌, ◌<◌, ◌≡◌, refl, List, [], ◌∷◌, some, arith, length, drop, ◌⊎◌, inl, inr,
  take-append-drop, take_all, length-drop, drop-drop,
}
use octcommu.SpUnix.Sending.{WriteResult, wrote, again, failed, write_loop}

-- The results of `write` for `n` bytes: each is a positive count of at most the bytes left or
-- EAGAIN, and the counts make up `n`.
abbrev pub Delivers : ℕ → List WriteResult → Type 0
Delivers n [] = ⊥
Delivers n (wrote k ∷ rs) = (0 < k) × ((k ≡ n) ⊎ ((k < n) × Delivers (n - k) rs))
Delivers n (again ∷ rs) = Delivers n rs
Delivers n (failed ∷ rs) = ⊥

pub write_loop-Delivers :
    (payload : List ℕ) (sent left : ℕ) (rs : List WriteResult)
    → sent + left ≡ length payload
    → 0 < left
    → Delivers left rs
    → (count : ℕ) × (write_loop payload sent rs ≡ some (count, drop sent payload))
      × (count < length payload)
unfolding write_loop
write_loop-Delivers payload sent left [] e p d = elim d [ ]
write_loop-Delivers payload sent left (wrote zero ∷ rs) e p d = absurd (omega (arith, d.0))
write_loop-Delivers payload sent left (wrote (suc k) ∷ rs) e p (pos_k, inl all) = (
  sent,
  ground (arith, e, all, take_all (suc k) (drop sent payload), length-drop sent payload),
  omega arith,
)
write_loop-Delivers payload sent left (wrote (suc k) ∷ rs) e p (pos_k, inr (part, d)) =
    let (count, eq, less) =
      write_loop-Delivers payload (sent + suc k) (left - suc k) rs (omega arith) (omega arith) d in
    let joined = take-append-drop (suc k) (drop sent payload) in
    (
      count,
      ground (arith, e, part, eq, joined, drop-drop sent (suc k) (sent + suc k) payload refl),
      less,
    )
write_loop-Delivers payload sent left (again ∷ rs) e p d =
    let (count, eq, less) = write_loop-Delivers payload sent left rs e p d in
    (count, ground (arith, e, p, eq), less)
write_loop-Delivers payload sent left (failed ∷ rs) e p d = elim d [ ]
