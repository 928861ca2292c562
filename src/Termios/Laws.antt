-- ===== src/Termios/Laws.antt =====
-- Which settings are accepted, and which bits are in force afterwards.
use octcommu.Shared.{
  ℕ, ◌≤◌, ◌≡◌, refl, true, String, ◌⊎◌, inr, ◌↔◌, arith, pos, ℤ, ◌∙◌, ap, suc, zero, negsuc, sym,
}
use octcommu.SpParams.{SpInit, spfc_software}
use octcommu.Termios.{
  Word, Termios, System, set_options, set_parity, set_data_bit, set_stopbit, set_flow_ctrl, checked,
  ◌\~◌, ◌\|◌, set_at_least_read, set_wait_time, set_local_mode, set_input_mode, set_output_mode,
  set_ctrol_mode, ◌>>=◌,
}

IsPassed : ℤ × Termios → Type 0
IsPassed r = r.0 ≡ pos 0

>>=-checked :
    (r : ℤ × Termios) (code : ℕ) (text : String) (f : Termios → (ℤ × String) ⊎ Termios)
    (t : Termios)
    → (checked r code text >>= f) ≡ inr t
    → (r.0 ≡ pos 0) × (f r.1 ≡ inr t)
>>=-checked (pos zero, o) code text f t h = (refl, h)
>>=-checked (pos (suc n), o) code text f t h = cc
>>=-checked (negsuc n, o) code text f t h = cc

checked_passed :
    (r : ℤ × Termios) (code : ℕ) (text : String) → r.0 ≡ pos 0 → checked r code text ≡ inr r.1
checked_passed (pos zero, o) code text h = refl
checked_passed (pos (suc n), o) code text h = ground arith
checked_passed (negsuc n, o) code text h = ground arith

inr-injective : {a b : Termios} → ◌≡◌ {A = (ℤ × String) ⊎ Termios} (inr a) (inr b) → a ≡ b
inr-injective h = cc

module _ (s : System) where
  abbrev modes : Termios → Termios
  modes t =
      set_at_least_read s
        (set_wait_time s
          (set_local_mode s (set_input_mode s (set_output_mode s (set_ctrol_mode s t)))) 0)
        1

  -- The four steps of accepted options, each with code 0.
  record Accepted (i : SpInit) (option t : Termios) : Type 0 where
    parity : (set_parity s i.parity option).0 ≡ pos 0
    bits : (set_data_bit s i.data_bits (set_parity s i.parity option).1).0 ≡ pos 0
    stop :
        (set_stopbit s i.stop_bits
          (set_data_bit s i.data_bits (set_parity s i.parity option).1).1).0
        ≡ pos 0
    flow :
        (set_flow_ctrl s i.flow_ctrl
          (set_stopbit s i.stop_bits
            (set_data_bit s i.data_bits (set_parity s i.parity option).1).1).1).0
        ≡ pos 0
    result :
        t
        ≡ modes
            (set_flow_ctrl s i.flow_ctrl
              (set_stopbit s i.stop_bits
                (set_data_bit s i.data_bits (set_parity s i.parity option).1).1).1).1

  set_options-Accepted :
      (i : SpInit) (option t : Termios) → set_options s i option ≡ inr t → Accepted i option t
  unfolding set_options
  set_options-Accepted i option t h =
      let (p, h1) = >>=-checked (set_parity s i.parity option) 2 "set parity error" _ t h in
      let (b, h2) = >>=-checked _ 3 "set databit error" _ t h1 in
      let (e, h3) = >>=-checked _ 5 "set stopbit error" _ t h2 in
      let (f, h4) = >>=-checked _ 6 "set flowctrl error" _ t h3 in
      record { parity = p; bits = b; stop = e; flow = f; result = sym (inr-injective h4) }

  module _ (option : Termios) where
    iflag-set_parity : (p : ℕ) → (set_parity s p option).1.c_iflag ≡ option.c_iflag
    unfolding set_parity
    iflag-set_parity p = ground arith

    iflag-set_data_bit : (p : ℕ) → (set_data_bit s p option).1.c_iflag ≡ option.c_iflag
    unfolding set_data_bit
    iflag-set_data_bit p = ground arith

    iflag-set_stopbit : (p : ℕ) → (set_stopbit s p option).1.c_iflag ≡ option.c_iflag
    unfolding set_stopbit
    iflag-set_stopbit p = ground arith

    iflag-set_flow_ctrl : (p : ℕ) → (set_flow_ctrl s p option).1.c_iflag ≡ option.c_iflag
    unfolding set_flow_ctrl
    iflag-set_flow_ctrl p = ground arith

    iflag-modes :
        (modes option).c_iflag
        ≡ option.c_iflag \~ (s.brkint \| s.icrnl \| s.inpck \| s.istrip \| s.ixon)
    unfolding set_at_least_read set_wait_time set_local_mode set_input_mode set_output_mode
        set_ctrol_mode
    iflag-modes = refl

  -- No setting reaches the input flags: whatever parity and flow control are asked for, options
  -- that are accepted have the input flags that the port had, less BRKINT, ICRNL, INPCK, ISTRIP and
  -- IXON.
  pub set_options-iflag :
      (i : SpInit) (option t : Termios)
      → set_options s i option ≡ inr t
      → t.c_iflag ≡ option.c_iflag \~ (s.brkint \| s.icrnl \| s.inpck \| s.istrip \| s.ixon)
  set_options-iflag i option t h =
      let a = set_options-Accepted i option t h in
      let with_parity = (set_parity s i.parity option).1 in
      let with_data = (set_data_bit s i.data_bits with_parity).1 in
      let with_stop = (set_stopbit s i.stop_bits with_data).1 in
      let with_flow = (set_flow_ctrl s i.flow_ctrl with_stop).1 in
      ap (λ (r : Termios). r.c_iflag) a.result
      ∙ iflag-modes with_flow
      ∙ ap (λ (w : Word). w \~ (s.brkint \| s.icrnl \| s.inpck \| s.istrip \| s.ixon))
          (iflag-set_flow_ctrl with_stop i.flow_ctrl
            ∙ iflag-set_stopbit with_data i.stop_bits
            ∙ iflag-set_data_bit with_parity i.data_bits
            ∙ iflag-set_parity option i.parity)

  cflag-modes : (option : Termios) → (modes option).c_cflag ≡ option.c_cflag \| s.clocal \| s.cread
  unfolding set_at_least_read set_wait_time set_local_mode set_input_mode set_output_mode
      set_ctrol_mode
  cflag-modes option = refl

  cflag-flow :
      (option : Termios) (n : ℕ)
      → (s.ixon \| s.ixoff \| s.ixany) n ≡ true
      → (set_flow_ctrl s 2 option).1.c_cflag n ≡ true
  unfolding set_flow_ctrl
  cflag-flow option n h = ground arith

  -- Where the options are accepted, software flow control instead sets the bits of IXON, IXOFF and
  -- IXANY among the control flags.
  pub set_options-software :
      (i : SpInit) (option t : Termios) (n : ℕ)
      → set_options s i option ≡ inr t
      → i.flow_ctrl ≡ spfc_software
      → (s.ixon \| s.ixoff \| s.ixany) n ≡ true
      → t.c_cflag n ≡ true
  set_options-software i option t n h e b =
      let a = set_options-Accepted i option t h in
      let with_data = (set_data_bit s i.data_bits (set_parity s i.parity option).1).1 in
      let with_stop = (set_stopbit s i.stop_bits with_data).1 in
      ground (
        arith,
        ap (λ (r : Termios). r.c_cflag n) a.result,
        ap (λ (w : Word). w n) (cflag-modes (set_flow_ctrl s i.flow_ctrl with_stop).1),
        ap (λ (f : ℕ). (set_flow_ctrl s f with_stop).1.c_cflag n) e,
        cflag-flow with_stop n b,
      )

  parity_iff : (p : ℕ) (o : Termios) → ((set_parity s p o).0 ≡ pos 0) ↔ ((p ≤ 2) ⊎ (p ≡ 4))
  unfolding set_parity
  parity_iff p o = ((λ h. ground arith), λ h. ground arith)

  data_iff : (p : ℕ) (o : Termios) → ((set_data_bit s p o).0 ≡ pos 0) ↔ ((5 ≤ p) × (p ≤ 8))
  unfolding set_data_bit
  data_iff p o = ((λ h. ground arith), λ h. ground arith)

  stop_iff : (p : ℕ) (o : Termios) → ((set_stopbit s p o).0 ≡ pos 0) ↔ ((p ≡ 0) ⊎ (p ≡ 2))
  unfolding set_stopbit
  stop_iff p o = ((λ h. ground arith), λ h. ground arith)

  flow_iff : (p : ℕ) (o : Termios) → ((set_flow_ctrl s p o).0 ≡ pos 0) ↔ (p ≤ 2)
  unfolding set_flow_ctrl
  flow_iff p o = ((λ h. ground arith), λ h. ground arith)

  abbrev IsSupported : SpInit → Type 0
  IsSupported i =
      ((i.parity ≤ 2) ⊎ (i.parity ≡ 4))
      × (5 ≤ i.data_bits)
      × (i.data_bits ≤ 8)
      × ((i.stop_bits ≡ 0) ⊎ (i.stop_bits ≡ 2))
      × (i.flow_ctrl ≤ 2)

  Accepted-IsSupported : {i : SpInit} {option t : Termios} → Accepted i option t → IsSupported i
  Accepted-IsSupported a =
      let d = (data_iff _ _).0 a.bits in
      ((parity_iff _ _).0 a.parity, d.0, d.1, (stop_iff _ _).0 a.stop, (flow_iff _ _).0 a.flow)

  set_options_total :
      (i : SpInit) (option : Termios)
      → IsSupported i
      → (t : Termios) × (set_options s i option ≡ inr t)
  unfolding set_options
  set_options_total i option (p, low, high, e, f) =
      let with_parity = (set_parity s i.parity option).1 in
      let with_data = (set_data_bit s i.data_bits with_parity).1 in
      let with_stop = (set_stopbit s i.stop_bits with_data).1 in
      (
        modes (set_flow_ctrl s i.flow_ctrl with_stop).1,
        rw (
          checked_passed (set_parity s i.parity option) 2 "set parity error"
              ((parity_iff i.parity option).1 p),
          checked_passed (set_data_bit s i.data_bits with_parity) 3 "set databit error"
              ((data_iff i.data_bits with_parity).1 (low, high)),
          checked_passed (set_stopbit s i.stop_bits with_data) 5 "set stopbit error"
              ((stop_iff i.stop_bits with_data).1 e),
          checked_passed (set_flow_ctrl s i.flow_ctrl with_stop) 6 "set flowctrl error"
              ((flow_iff i.flow_ctrl with_stop).1 f),
        ),
      )

  -- The options are accepted exactly for a parity other than mark, 5 to 8 data bits, one or two
  -- stop bits and a known flow control.
  pub set_options_accepts_iff :
      (i : SpInit) (option : Termios)
      → ((t : Termios) × (set_options s i option ≡ inr t)) ↔ (
          ((i.parity ≤ 2) ⊎ (i.parity ≡ 4))
          × (5 ≤ i.data_bits)
          × (i.data_bits ≤ 8)
          × ((i.stop_bits ≡ 0) ⊎ (i.stop_bits ≡ 2))
          × (i.flow_ctrl ≤ 2))
  set_options_accepts_iff i option = (
    (λ (t, h). Accepted-IsSupported (set_options-Accepted i option t h)),
    set_options_total i option,
  )
