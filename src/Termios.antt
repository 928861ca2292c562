-- ===== src/Termios.antt =====
-- src/SerialPort/SPUtil.cpp: the terminal settings of a serial port, and `initSPProperty` of
-- src/SerialPort/SPUnix.cpp, which applies them. A flag word is its bits. The masks, the changes
-- that `cfsetispeed` and `cfsetospeed` make, and the answers of the system calls come from the
-- system: they are parameters.
pub mod Laws
pub mod Property
pub mod Linux
mod Tests
use octcommu.Shared.{
  ℕ, ◌*◌, ◌%◌, ◌^◌, Bool, true, false, String, List, [], ◌∷◌, ◌==◌, ◌&&◌, ◌||◌, not, if◌then◌else◌,
  ℤ, pos, negsuc, Option, none, some, ◌⊎◌, inl, inr, zero, suc,
}
use octcommu.SpParams.{
  SpInit, contain, spp_none, spp_odd, spp_even, spp_space, spsb_one, spsb_two, spfc_none,
  spfc_hardware, spfc_software,
}

abbrev pub Word : Type 0
Word = ℕ → Bool

-- `w |= m` and `w &= ~m`
infixl 65 ◌\|◌ ◌\~◌
abbrev pub ◌\|◌ : Word → Word → Word
◌\|◌ w m i = w i || m i

abbrev pub ◌\~◌ : Word → Word → Word
◌\~◌ w m i = w i && not (m i)

pub record Termios : Type 0 where
  pub c_iflag : Word
  pub c_oflag : Word
  pub c_cflag : Word
  pub c_lflag : Word
  pub vtime : ℕ
  pub vmin : ℕ

-- The port as the kernel holds it; `custom_baud` is a rate set under BOTHER.
pub record Device : Type 0 where
  pub settings : Termios
  pub custom_baud : Option ℕ
  pub fifo_size : ℕ
  pub input : List ℕ

-- What the system's headers and library provide; `tcsetattr_now` is what a call of `tcsetattr` that
-- succeeds does to the port.
pub record System : Type 0 where
  pub parenb : Word
  pub parodd : Word
  pub cstopb : Word
  pub csize : Word
  pub cs : ℕ → Word
  pub crtscts : Word
  pub clocal : Word
  pub cread : Word
  pub inpck : Word
  pub istrip : Word
  pub ixon : Word
  pub ixoff : Word
  pub ixany : Word
  pub brkint : Word
  pub icrnl : Word
  pub opost : Word
  pub icanon : Word
  pub echo : Word
  pub echoe : Word
  pub isig : Word
  pub cfsetispeed : Termios → ℕ → Termios
  pub cfsetospeed : Termios → ℕ → Termios
  pub tcsetattr_now : Termios → Device → Device

-- The answers of the system calls: whether each succeeds.
pub record Answers : Type 0 where
  pub tcgetattr : Bool
  pub tcgets2 : Bool
  pub tcsets2 : Bool
  pub tcgets2_again : Bool
  pub tiocgserial : Bool
  pub tiocsserial : Bool
  pub tcsetattr : Bool

-- The rates that have a constant on Linux.
abbrev pub rates : List ℕ
rates =
    50 ∷ 75 ∷ 110 ∷ 134 ∷ 150 ∷ 200 ∷ 300 ∷ 600 ∷ 1200 ∷ 1800 ∷ 2400 ∷ 4800 ∷ 9600 ∷ 19200 ∷ 38400
    ∷ 57600 ∷ 115200 ∷ 230400 ∷ 460800 ∷ 500000 ∷ 576000 ∷ 921600 ∷ 1000000 ∷ 1152000 ∷ 1500000
    ∷ 2000000 ∷ 2500000 ∷ 3000000 ∷ 3500000 ∷ 4000000 ∷ []

-- Whether the rate has a constant, which is then not 0; the constant is named by its rate.
unfoldable pub rate2_constant : ℕ → Bool
rate2_constant baudrate = contain rates baudrate

-- The `size_t` of the settings as the `const int` of `setBaud`, by its bit pattern.
abbrev pub int_baud : ℕ → ℕ
int_baud baud = baud % 2 ^ 32

-- A step's options, or the code and text with which `initSPProperty` returns.
abbrev pub checked : ℤ × Termios → ℕ → String → (ℤ × String) ⊎ Termios
checked (pos zero, option) code text = inr option
checked (pos (suc n), option) code text = inl (pos code, text)
checked (negsuc n, option) code text = inl (pos code, text)

infixl 5 ◌>>=◌
abbrev pub ◌>>=◌ :
    (ℤ × String) ⊎ Termios → (Termios → (ℤ × String) ⊎ Termios) → (ℤ × String) ⊎ Termios
inl e >>= f = inl e
inr option >>= f = f option

module _ (s : System) where
  open s use {
    parenb, parodd, cstopb, csize, cs, crtscts, clocal, cread, inpck, istrip, ixon, ixoff, ixany,
    brkint, icrnl, opost, icanon, echo, echoe, isig, cfsetispeed, cfsetospeed,
  }

  -- The code, the options and the port; a custom rate goes straight to the port. `baud` is an `int`
  -- by its bit pattern, which the port takes as an unsigned number.
  pub set_baud : Answers → ℕ → Termios → Device → ℤ × Termios × Device
  set_baud a baud option port =
      if rate2_constant baud
      then (pos 0, cfsetospeed (cfsetispeed option baud) baud, port)
      else if not a.tcgets2
      then (negsuc 1, option, port)
      else if not a.tcsets2
      then (negsuc 0, option, port)
      else (
        if a.tcgets2_again then pos 0 else negsuc 0,
        option,
        record port { custom_baud = some baud },
      )

  -- INPCK and ISTRIP are bits of `c_iflag`, and the code sets them in `c_cflag`.
  pub set_parity : ℕ → Termios → ℤ × Termios
  set_parity parity option =
      if parity == spp_none
      then (pos 0, record option { c_cflag = option.c_cflag \~ parenb \~ inpck })
      else if parity == spp_odd
      then (
        pos 0,
        record option { c_cflag = option.c_cflag \| parenb \| parodd \| inpck \| istrip },
      )
      else if parity == spp_even
      then (
        pos 0,
        record option { c_cflag = option.c_cflag \| parenb \~ parodd \| inpck \| istrip },
      )
      else if parity == spp_space
      then (pos 0, record option { c_cflag = option.c_cflag \~ parenb \~ cstopb })
      else (negsuc 0, option)

  pub set_data_bit : ℕ → Termios → ℤ × Termios
  set_data_bit data_bits option =
      if contain (5 ∷ 6 ∷ 7 ∷ 8 ∷ []) data_bits
      then (pos 0, record option { c_cflag = option.c_cflag \~ csize \| cs data_bits })
      else (negsuc 0, option)

  -- 1.5 stop bits are refused like an unknown value.
  pub set_stopbit : ℕ → Termios → ℤ × Termios
  set_stopbit stopbits option =
      if stopbits == spsb_one
      then (pos 0, record option { c_cflag = option.c_cflag \~ cstopb })
      else if stopbits == spsb_two
      then (pos 0, record option { c_cflag = option.c_cflag \| cstopb })
      else (negsuc 0, option)

  -- IXON, IXOFF and IXANY are bits of `c_iflag` too.
  pub set_flow_ctrl : ℕ → Termios → ℤ × Termios
  set_flow_ctrl fc option =
      if fc == spfc_none
      then (pos 0, record option { c_cflag = option.c_cflag \~ crtscts })
      else if fc == spfc_hardware
      then (pos 0, record option { c_cflag = option.c_cflag \| crtscts })
      else if fc == spfc_software
      then (pos 0, record option { c_cflag = option.c_cflag \| (ixon \| ixoff \| ixany) })
      else (negsuc 0, option)

  pub set_output_mode : Termios → Termios
  set_output_mode option = record option { c_oflag = option.c_oflag \~ opost }

  pub set_local_mode : Termios → Termios
  set_local_mode option = record option {
    c_lflag = option.c_lflag \~ (icanon \| echo \| echoe \| isig);
  }

  pub set_input_mode : Termios → Termios
  set_input_mode option = record option {
    c_iflag = option.c_iflag \~ (brkint \| icrnl \| inpck \| istrip \| ixon);
  }

  pub set_wait_time : Termios → ℕ → Termios
  set_wait_time option time = record option { vtime = time }

  pub set_at_least_read : Termios → ℕ → Termios
  set_at_least_read option read_min_len = record option { vmin = read_min_len }

  pub set_ctrol_mode : Termios → Termios
  set_ctrol_mode option = record option { c_cflag = option.c_cflag \| clocal \| cread }

  -- The four settings in order, each with its code and error text, and then the modes.
  pub set_options : SpInit → Termios → (ℤ × String) ⊎ Termios
  set_options i option = do
    with_parity ← checked (set_parity i.parity option) 2 "set parity error"
    with_data ← checked (set_data_bit i.data_bits with_parity) 3 "set databit error"
    with_stop ← checked (set_stopbit i.stop_bits with_data) 5 "set stopbit error"
    with_flow ← checked (set_flow_ctrl i.flow_ctrl with_stop) 6 "set flowctrl error"
    inr (
        set_at_least_read
          (set_wait_time
            (set_local_mode (set_input_mode (set_output_mode (set_ctrol_mode with_flow)))) 0)
          1)

-- `tcflush(fd, TCIFLUSH)`
pub set_data_overflow_flag : Device → Device
set_data_overflow_flag port = record port { input = [] }

pub set_buffer_size : Answers → ℕ → Device → ℤ × Device
set_buffer_size a size port =
    if not a.tiocgserial
    then (pos 1, port)
    else if not a.tiocsserial
    then (pos 2, port)
    else (pos 0, record port { fifo_size = size })

module _ (s : System) where
  pub active_option : Answers → Termios → Device → ℤ × Device
  active_option a option port =
      if a.tcsetattr then (pos 0, s.tcsetattr_now option port) else (negsuc 0, port)

  -- The last steps: the input is discarded, the size of the queue is asked for with no look at the
  -- answer, and the options are put in force.
  pub activate : Answers → Device → Termios → ℤ × Option String × Device
  unfolding active_option
  activate a port option =
      let (_, sized) = set_buffer_size a (10 * 1024) (set_data_overflow_flag port) in
      let (code, active) = active_option a option sized in
      if a.tcsetattr then (pos 0, none, active) else (pos 7, some "active option error", active)

  abbrev pub after_options : Answers → Device → (ℤ × String) ⊎ Termios → ℤ × Option String × Device
  after_options a port (inl (code, text)) = (code, some text, port)
  after_options a port (inr option) = activate a port option

  abbrev pub after_baud : Answers → SpInit → ℤ × Termios × Device → ℤ × Option String × Device
  after_baud a i (pos zero, option, port) = after_options a port (set_options s i option)
  after_baud a i (pos (suc n), option, port) = (pos 1, some "set baud error", port)
  after_baud a i (negsuc n, option, port) = (pos 1, some "set baud error", port)

  -- The return code, the error text that is set, and the port.
  pub init_sp_property : Answers → SpInit → Device → ℤ × Option String × Device
  init_sp_property a i port =
      if not a.tcgetattr
      then (negsuc 0, some "tcgetattr error", port)
      else after_baud a i (set_baud s a (int_baud i.baud) port.settings port)
