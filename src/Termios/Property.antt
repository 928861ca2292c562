-- ===== src/Termios/Property.antt =====
-- When `initSPProperty` succeeds.
use octcommu.Shared.{
  ℕ, zero, suc, ◌≤◌, ◌≡◌, refl, ◌⊎◌, inl, inr, ◌↔◌, Bool, true, false, not, ◌&&◌, ◌||◌, Bool-cases,
  if◌then◌else◌, String, Option, some, arith, ℤ, pos, negsuc,
}
use octcommu.SpParams.{SpInit}
use octcommu.Termios.{
  Termios, System, Answers, Device, rate2_constant, int_baud, checked, ◌>>=◌, set_baud, set_parity,
  set_data_bit, set_stopbit, set_flow_ctrl, set_options, activate, active_option, after_options,
  after_baud, init_sp_property,
}
use octcommu.Termios.Laws.{set_options_accepts_iff}

-- Settings with a code other than 0, or that were accepted.
data Coded : (ℤ × String) ⊎ Termios → Type 0 where
  refused : {n : ℕ} {text : String} → Coded (inl (pos (suc n), text))
  accepted : {option : Termios} → Coded (inr option)

checked-Coded : (r : ℤ × Termios) (n : ℕ) (text : String) → Coded (checked r (suc n) text)
checked-Coded (pos zero, option) n text = Coded.accepted
checked-Coded (pos (suc k), option) n text = Coded.refused
checked-Coded (negsuc k, option) n text = Coded.refused

>>=-Coded :
    {o : (ℤ × String) ⊎ Termios} {f : Termios → (ℤ × String) ⊎ Termios}
    → Coded o
    → ((t : Termios) → Coded (f t))
    → Coded (o >>= f)
>>=-Coded Coded.refused k = Coded.refused
>>=-Coded (Coded.accepted {option}) k = k option

-- The settings that can be put in force.
abbrev pub IsSupported : SpInit → Type 0
IsSupported i =
    ((i.parity ≤ 2) ⊎ (i.parity ≡ 4))
    × (5 ≤ i.data_bits)
    × (i.data_bits ≤ 8)
    × ((i.stop_bits ≡ 0) ⊎ (i.stop_bits ≡ 2))
    × (i.flow_ctrl ≤ 2)

-- Whether the rate, in 32 bits, has a constant, or the three calls for a custom rate succeed.
abbrev pub has_rate : Answers → ℕ → Bool
has_rate a baud = rate2_constant (int_baud baud) || (a.tcgets2 && (a.tcsets2 && a.tcgets2_again))

module _ (s : System) (a : Answers) (i : SpInit) where
  set_options-Coded : (option : Termios) → Coded (set_options s i option)
  unfolding set_options
  set_options-Coded option =
      >>=-Coded (checked-Coded (set_parity s i.parity option) 1 "set parity error") λ t.
        >>=-Coded (checked-Coded (set_data_bit s i.data_bits t) 2 "set databit error") λ u.
          >>=-Coded (checked-Coded (set_stopbit s i.stop_bits u) 4 "set stopbit error") λ v.
            >>=-Coded (checked-Coded (set_flow_ctrl s i.flow_ctrl v) 5 "set flowctrl error")
              λ w. Coded.accepted

  abbrev Passes : ℤ × Option String × Device → Type 0
  Passes r = r.0 ≡ pos 0

  activate_iff :
      (port : Device) (option : Termios) → Passes (activate s a port option) ↔ (a.tcsetattr ≡ true)
  unfolding activate active_option
  activate_iff port option = elim (Bool-cases a.tcsetattr) [
    | inl e ↦ ((λ h. e), λ h. rw e refl)
    | inr e ↦ ((λ h. ground (arith, e, h)), λ h. ground (arith, e, h))
  ]

  after_options_iff :
      (port : Device) (o : (ℤ × String) ⊎ Termios)
      → Coded o
      → Passes (after_options s a port o) ↔ ((t : Termios) × (o ≡ inr t)) × (a.tcsetattr ≡ true)
  after_options_iff port (inl e) Coded.refused = ((λ h. absurd cc), λ h. absurd cc)
  after_options_iff port (inr option) Coded.accepted = (
    (λ h. ((option, refl), (activate_iff port option).0 h)),
    λ h. (activate_iff port option).1 h.1,
  )

  after_baud_iff :
      (r : ℤ × Termios × Device)
      → Passes (after_baud s a i r) ↔ (r.0 ≡ pos 0) × IsSupported i × (a.tcsetattr ≡ true)
  after_baud_iff (pos zero, option, port) =
      let (to, from) = after_options_iff port (set_options s i option) (set_options-Coded option) in
      let (need, enough) = set_options_accepts_iff s i option in
      ((λ h. let (c, d) = to h in (refl, need c, d)), λ h. from (enough h.1, h.2))
  after_baud_iff (pos (suc n), option, port) = ((λ h. absurd cc), λ h. absurd cc)
  after_baud_iff (negsuc n, option, port) = ((λ h. absurd cc), λ h. absurd cc)

  set_baud_iff :
      (option : Termios) (port : Device)
      → ((set_baud s a (int_baud i.baud) option port).0 ≡ pos 0) ↔ (has_rate a i.baud ≡ true)
  unfolding set_baud
  set_baud_iff option port = ((λ h. ground arith), λ h. ground arith)

  guarded_iff :
      {Q : Type 0} (b : Bool) (text : String) (port : Device) (x : ℤ × Option String × Device)
      → Passes x ↔ Q
      → Passes (if not b then (negsuc 0, some text, port) else x) ↔ (b ≡ true) × Q
  guarded_iff true text port x (to, from) = ((λ h. (refl, to h)), λ h. from h.1)
  guarded_iff false text port x k = ((λ h. absurd cc), λ h. absurd cc)

  -- `initSPProperty` returns 0 exactly if the terminal gives its options and takes the new ones, the
  -- rate, in 32 bits, has a constant or the calls for a custom rate succeed, and the settings have a parity other
  -- than mark, 5 to 8 data bits, one or two stop bits and a known flow control.
  pub init_sp_property_iff :
      (port : Device)
      → ((init_sp_property s a i port).0 ≡ pos 0)
        ↔ ((a.tcgetattr ≡ true) × (has_rate a i.baud ≡ true) × IsSupported i × (a.tcsetattr ≡ true))
  unfolding init_sp_property
  init_sp_property_iff port =
      let r = set_baud s a (int_baud i.baud) port.settings port in
      let (to, from) = after_baud_iff r in
      let (need, enough) = set_baud_iff port.settings port in
      let (first, back) =
        guarded_iff {Q = (has_rate a i.baud ≡ true) × IsSupported i × (a.tcsetattr ≡ true)}
          a.tcgetattr "tcgetattr error" port (after_baud s a i r)
          ((λ h. let (c, d, e) = to h in (need c, d, e)), λ h. from (enough h.0, h.1, h.2)) in
      ((λ h. let (c, q) = first h in (c, q.0, q.1, q.2)), λ h. back (h.0, (h.1, h.2, h.3)))
