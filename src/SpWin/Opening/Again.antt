-- ===== src/SpWin/Opening/Again.antt =====
-- `init` on a port that is open, and the `shutdown` after it.
use octcommu.Shared.{ℕ, ◌≡◌, refl, false, Bool-cases, inl, inr, String, ◌∷◌, some, if◌then◌else◌}
use octcommu.SpParams.{SpInit, param_is_ok}
use octcommu.SpWin.Win32.{Win32, Call}
use octcommu.SpWin.{SpWin, shutdown}
use octcommu.SpWin.Opening.{init, open_port, real_open}

-- On a port that is open, `init` with settings that the check accepts returns 1, changes nothing at
-- the port and yet replaces the object's settings. So the second call decides what `shutdown` does,
-- which returns 0 and closes the port: with settings that receive it ends the receive thread, and
-- with settings that do not it leaves a thread of the first call as it was, without a call that
-- ends it.
pub shutdown-init :
    (t : Win32) (old : String) (u : SpWin) (sp : SpInit) (h : ℕ)
    → u.sp_handle ≡ some h
    → (param_is_ok old sp).0 ≡ 0
    → (v : SpWin) × (w : SpWin) × (init t old u sp ≡ (1, v))
      × (shutdown v ≡ (0, w))
      × (v.calls ≡ u.calls)
      × (w.recv_thread_is_running ≡ (if sp.is_to_recv then false else u.recv_thread_is_running))
      × (w.calls
          ≡ Call.close_handle h
            ∷ Call.purge_comm h
            ∷ Call.set_comm_mask h
            ∷ (if sp.is_to_recv then Call.thread_shutdown ∷ u.calls else u.calls))
unfolding init open_port real_open shutdown
shutdown-init t old u sp h e ok = elim (Bool-cases sp.is_to_recv) [
  | inl r ↦ (
    record u { sp_init = sp },
    (shutdown (record u { sp_init = sp })).1,
    simp (ok, e),
    simp (e, r) refl,
    refl,
    simp (e, r) refl,
    simp (e, r) refl,
  )
  | inr r ↦ (
    record u { sp_init = sp },
    (shutdown (record u { sp_init = sp })).1,
    simp (ok, e),
    simp (e, r) refl,
    refl,
    simp (e, r) refl,
    simp (e, r) refl,
  )
]
