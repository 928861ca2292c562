-- ===== src/SpUnix/Poller/Errors.antt =====
-- The loop after errors of `select`.
use octcommu.Shared.{
  ℕ, zero, suc, ◌+◌, ◌≤◌, ◌<◌, ◌≡◌, refl, ◌∙◌, ap, ap₂, List, [], ◌∷◌, some, true, arith, min,
  replicate, ==-false, ℕ_discrete, String,
}
use octcommu.SpUnix.{SpUnix, set_error_msg}
use octcommu.SpUnix.Poller.{Round, poll, poll_once, failed}

abbrev pub text : String
text = "failed to call select, restart to call 10 times, they were all failure"

poll_once_ten :
    (fuel : ℕ) (r : Round) (u : SpUnix)
    → poll_once fuel failed r 10 u ≡ some ([], 10, record u { error_str = text })
unfolding poll_once set_error_msg
poll_once_ten fuel r u = refl

poll_once_more :
    (fuel count : ℕ) (r : Round) (u : SpUnix)
    → count < 10
    → poll_once fuel failed r count u ≡ some ([], suc count, u)
unfolding poll_once
poll_once_more fuel count r u h = rw (==-false count 10 (omega arith)) refl

module _ (fuel : ℕ) (r : Round) (fails : r.select ≡ failed) where
  poll-step :
      (rs : List Round) (count c k : ℕ) (u x v : SpUnix)
      → u.recv_thread_is_running ≡ true
      → poll_once fuel r.select r count u ≡ some ([], c, x)
      → poll fuel rs c x ≡ some ([], k, v)
      → poll fuel (r ∷ rs) count u ≡ some ([], k, v)
  unfolding poll
  poll-step rs count c k u x v running a b = simp (running, a, b)

  failed_ten :
      (count : ℕ) (u : SpUnix)
      → count ≡ 10
      → poll_once fuel r.select r count u ≡ some ([], 10, record u { error_str = text })
  failed_ten count u ten = ap₂ (λ s n. poll_once fuel s r n u) fails ten ∙ poll_once_ten fuel r u

  failed_more :
      (count : ℕ) (u : SpUnix)
      → count < 10
      → poll_once fuel r.select r count u ≡ some ([], suc count, u)
  failed_more count u less =
      ap (λ s. poll_once fuel s r count u) fails ∙ poll_once_more fuel count r u less

  poll-run :
      (n count : ℕ) (u : SpUnix)
      → count ≤ 10
      → u.recv_thread_is_running ≡ true
      → (v : SpUnix) × (poll fuel (replicate n r) count u ≡ some ([], min 10 (count + n), v))
        × (v.recv_thread_is_running ≡ true)
        × (u.error_str ≡ text → v.error_str ≡ text)
        × (10 < count + n → v.error_str ≡ text)
  unfolding poll
  poll-run zero count u h running = (
    u,
    ap (λ k. some ([], k, u)) (counted count h),
    running,
    (λ e. e),
    λ more. absurd (omega arith),
  )
    where
      counted : (count : ℕ) → count ≤ 10 → count ≡ min 10 (count + 0)
      counted count h = omega arith
  poll-run (suc n) count u h running = elim (ℕ_discrete count 10) [
    | yes ten ↦
        let (v, e, still, same, told) =
          poll-run n 10 (record u { error_str = text }) (omega arith) running in
        (
          v,
          poll-step (replicate n r) count 10 (min 10 (10 + n)) u (record u { error_str = text }) v
                running (failed_ten count u ten) e
              ∙ ap (λ k. some ([], k, v)) (full n count ten),
          still,
          (λ _. same refl),
          λ _. same refl,
        )
    | no less ↦
        let (v, e, still, same, told) = poll-run n (suc count) u (omega arith) running in
        (
          v,
          poll-step (replicate n r) count (suc count) (min 10 (suc count + n)) u u v running
                (failed_more count u (omega arith)) e
              ∙ ap (λ k. some ([], k, v)) (shifted n count),
          still,
          same,
          λ more. told (omega arith),
        )
  ]
    where
      full : (n count : ℕ) → count ≡ 10 → min 10 (10 + n) ≡ min 10 (count + suc n)
      full n count ten = omega arith

      shifted : (n count : ℕ) → min 10 (suc count + n) ≡ min 10 (count + suc n)
      shifted n count = omega arith

  -- On a running loop, with an error count of at most 10, rounds in which `select` fails send
  -- nothing and count up to 10. The loop still runs after any number of them, and the error text is
  -- set once the errors are more than 10.
  pub poll-failed :
      (n count : ℕ) (u : SpUnix)
      → count ≤ 10
      → u.recv_thread_is_running ≡ true
      → (v : SpUnix) × (poll fuel (replicate n r) count u ≡ some ([], min 10 (count + n), v))
        × (v.recv_thread_is_running ≡ true)
        × (10 < count + n → v.error_str ≡ text)
  poll-failed n count u h running =
      let (v, e, still, _, told) = poll-run n count u h running in (v, e, still, told)
