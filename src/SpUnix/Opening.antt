-- ===== src/SpUnix/Opening.antt =====
-- What `init` leaves: an open port with the settings given, or one that is closed.
use octcommu.Shared.{
  ℕ, zero, suc, ◌≡◌, refl, ◌⊎◌, inl, inr, Bool, true, false, Bool-cases, String, Option, none, some,
  ◌==◌, ℤ, pos, negsuc, arith, ◌<◌, ◌↔◌, length, ◌&&◌, if◌then◌else◌, if_both,
}
use octcommu.SpParams.{SpInit, param_is_ok}
use octcommu.SpParams.Laws.{param_is_ok_iff}
use octcommu.Termios.Property.{has_rate, IsSupported, init_sp_property_iff}
use octcommu.Termios.{System, Answers, Device, init_sp_property}
use octcommu.SpUnix.{
  SpUnix, has_fd, set_error_msg, close_sp, open_failed, after_property, init_sp, init,
}

pub record Opened (u : SpUnix) (sp : SpInit) (code : ℕ) (v : SpUnix) : Type 0 where
  pub success : code ≡ 0
  pub open_now : has_fd v.sp_fd ≡ true
  pub settings : v.sp_init ≡ sp
  pub running : sp.is_to_recv ≡ true → v.recv_thread_is_running ≡ true
  pub as_before : sp.is_to_recv ≡ false → v.recv_thread_is_running ≡ u.recv_thread_is_running

pub record Refused (u : SpUnix) (code : ℕ) (v : SpUnix) : Type 0 where
  pub failure : code == 0 ≡ false
  pub closed : has_fd u.sp_fd ≡ false → has_fd v.sp_fd ≡ false
  pub still : v.recv_thread_is_running ≡ u.recv_thread_is_running

module _ (s : System) (a : Answers) (sp : SpInit) where
  abbrev Outcome : SpUnix → ℕ × SpUnix × Device → Type 0
  Outcome u r = Opened u sp r.0 r.1 ⊎ Refused u r.0 r.1

  refused :
      {u v : SpUnix} {code : ℕ}
      → code == 0 ≡ false
      → has_fd v.sp_fd ≡ false
      → v.recv_thread_is_running ≡ u.recv_thread_is_running
      → Refused u code v
  refused e f r = record { failure = e; closed = λ g. f; still = r }

  has_fd-opened : (opened : ℤ) → open_failed opened ≡ false → has_fd opened ≡ true
  has_fd-opened (pos zero) e = absurd cc
  has_fd-opened (pos (suc n)) e = refl
  has_fd-opened (negsuc n) e = absurd cc

  after_property-Outcome :
      (u v : SpUnix) (result : ℤ × Option String × Device)
      → has_fd v.sp_fd ≡ true
      → v.sp_init ≡ sp
      → v.recv_thread_is_running ≡ u.recv_thread_is_running
      → Outcome u (after_property s a v result)
  unfolding close_sp
  after_property-Outcome u v (pos zero, text, port) e f r = elim (Bool-cases v.sp_init.is_to_recv) [
    | inl g ↦ inl (
        simp g (record {
          success = refl;
          open_now = e;
          settings = f;
          running = λ h. refl;
          as_before = λ h. absurd (ground arith);
        }))
    | inr g ↦ inl (
        simp g (record {
          success = refl;
          open_now = e;
          settings = f;
          running = λ h. absurd (ground arith);
          as_before = λ h. r;
        }))
  ]
  after_property-Outcome u v (pos (suc n), none, port) e f r = inr (refused refl refl r)
  after_property-Outcome u v (pos (suc n), some text, port) e f r = inr (refused refl refl r)
  after_property-Outcome u v (negsuc n, none, port) e f r = inr (refused refl refl r)
  after_property-Outcome u v (negsuc n, some text, port) e f r = inr (refused refl refl r)

  pub init-Outcome :
      (old : String) (opened : ℤ) (u : SpUnix) (port : Device)
      → Outcome u (init s a old opened u port sp)
  unfolding init init_sp set_error_msg close_sp
  init-Outcome old opened u port = elim (Bool-cases ((param_is_ok old sp).0 == 0)) [
    | inr e ↦ inr (simp e (record { failure = refl; closed = λ g. g; still = refl }))
    | inl e ↦ elim (Bool-cases (open_failed opened)) [
      | inl f ↦ inr (simp (e, f) (refused refl refl refl))
      | inr f ↦
          simp (e, f)
            (after_property-Outcome u (record u { sp_init = sp; sp_fd = opened })
              (init_sp_property s a sp port) (has_fd-opened opened f) refl refl)
    ]
  ]

  after-suspend :
      (v : SpUnix) (r : ℤ × Option String × Device)
      → (after_property s a v r).1.sp_suspend ≡ v.sp_suspend
  unfolding close_sp
  after-suspend v (pos zero, text, port) =
      if_both (λ (w : SpUnix). w.sp_suspend ≡ v.sp_suspend) v.sp_init.is_to_recv refl refl
  after-suspend v (pos (suc n), none, port) = refl
  after-suspend v (pos (suc n), some text, port) = refl
  after-suspend v (negsuc n, none, port) = refl
  after-suspend v (negsuc n, some text, port) = refl

  pub init-suspend :
      (old : String) (opened : ℤ) (u : SpUnix) (port : Device)
      → (init s a old opened u port sp).1.sp_suspend ≡ u.sp_suspend
  unfolding init init_sp set_error_msg close_sp
  init-suspend old opened u port =
      if_both Kept ((param_is_ok old sp).0 == 0)
        (if_both Kept (open_failed opened) refl (
          after-suspend (record u { sp_init = sp; sp_fd = opened }) (init_sp_property s a sp port)))
        refl
    where
      Kept : ℕ × SpUnix × Device → Type 0
      Kept r = r.1.sp_suspend ≡ u.sp_suspend

  -- What `init` needs, beyond its parameters' check.
  abbrev pub Opens : ℤ → Type 0
  Opens opened =
      (0 < length sp.name)
      × (open_failed opened ≡ false)
      × (a.tcgetattr ≡ true)
      × (has_rate a sp.baud ≡ true)
      × IsSupported sp
      × (a.tcsetattr ≡ true)

  after_property_iff :
      (v : SpUnix) (r : ℤ × Option String × Device)
      → ((after_property s a v r).0 ≡ 0) ↔ (r.0 ≡ pos 0)
  after_property_iff v (pos zero, text, port) = ((λ h. refl), λ h. refl)
  after_property_iff v (pos (suc n), text, port) = ((λ h. absurd cc), λ h. absurd cc)
  after_property_iff v (negsuc n, text, port) = ((λ h. absurd cc), λ h. absurd cc)

  init-code :
      (old : String) (opened : ℤ) (u : SpUnix) (port : Device)
      → ((init s a old opened u port sp).0 ≡ 0)
        ↔ ((param_is_ok old sp).0 ≡ 0)
          × (open_failed opened ≡ false)
          × ((init_sp_property s a sp port).0 ≡ pos 0)
  unfolding init init_sp set_error_msg
  init-code old opened u port = elim (Bool-cases ((param_is_ok old sp).0 == 0)) [
    | inr e ↦ simp e ((λ h. absurd cc), λ h. absurd (ground (arith, e, h)))
    | inl e ↦ elim (Bool-cases (open_failed opened)) [
      | inl f ↦ simp (e, f) ((λ h. absurd cc), λ h. absurd cc)
      | inr f ↦
          let (to, from) =
            after_property_iff (record u { sp_init = sp; sp_fd = opened })
              (init_sp_property s a sp port) in
          simp (e, f) ((λ h. (ground (arith, e), refl, to h)), λ h. from h.2)
    ]
  ]

  flag_by :
      (b now before : Bool)
      → (b ≡ true → now ≡ true)
      → (b ≡ false → now ≡ before)
      → now ≡ (if b then true else before)
  flag_by true now before f g = f refl
  flag_by false now before f g = g refl

  opened_as :
      (old : String) (opened : ℤ) (u : SpUnix) (port : Device)
      → has_fd u.sp_fd ≡ false
      → let (code, v, _) = init s a old opened u port sp in
        (has_fd v.sp_fd ≡ (code == 0))
        × (v.recv_thread_is_running
            ≡ (if code == 0 && sp.is_to_recv then true else u.recv_thread_is_running))
  opened_as old opened u port closed = elim (init-Outcome old opened u port) [
    | inl o ↦ rw o.success (o.open_now, flag_by sp.is_to_recv _ _ o.running o.as_before)
    | inr r ↦ rw r.failure (r.closed closed, r.still)
  ]

  pub init_iff :
      (old : String) (opened : ℤ) (u : SpUnix) (port : Device)
      → ((init s a old opened u port sp).0 ≡ 0) ↔ Opens opened
  init_iff old opened u port =
      let (to, from) = init-code old opened u port in
      let (checked, passes) = param_is_ok_iff old sp in
      let (needs, suffices) = init_sp_property_iff s a sp port in
      (
        (λ h.
            let (ok, is_open, set) = to h in
            let (first, rate, supported, last) = needs set in
            (omega (arith, checked ok), is_open, first, rate, supported, last)),
        λ h. from (passes (omega (arith, h.0, h.4)), h.1, suffices (h.2, h.3, h.4, h.5)),
      )

  -- `init` of a port returns 0 exactly if the name is not empty, `open` gives a positive
  -- descriptor, the terminal gives its options and takes the new ones, the rate, cut off to 32
  -- bits, has a constant or the calls for a custom one succeed, the parity is not mark, there are 5 to 8 data bits and one
  -- or two stop bits, and the flow control is known. A port that was not open is open afterwards
  -- exactly if the result is 0; the flag of the thread is set exactly then, if the settings ask for
  -- bytes, and else as it was.
  pub init-Opens :
      (old : String) (opened : ℤ) (u : SpUnix) (port : Device)
      → has_fd u.sp_fd ≡ false
      → let (code, v, _) = init s a old opened u port sp in
        ((code ≡ 0) ↔ Opens opened)
        × (has_fd v.sp_fd ≡ (code == 0))
        × (v.recv_thread_is_running
            ≡ (if code == 0 && sp.is_to_recv then true else u.recv_thread_is_running))
  init-Opens old opened u port closed =
      let (v, w) = opened_as old opened u port closed in (init_iff old opened u port, v, w)
