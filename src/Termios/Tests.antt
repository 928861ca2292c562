-- ===== src/Termios/Tests.antt =====
-- The theorems on terminal settings with a few of Linux's masks, at a port with even parity and
-- software flow control.
use octcommu.Shared.{ℕ, ◌≡◌, refl, inl, inr, true, false, ◌==◌, if◌then◌else◌, [], ◌∷◌, arith}
use octcommu.SpParams.{SpInit}
use octcommu.Termios.{Word, System, Termios, set_options, ◌\|◌, ◌\~◌}
use octcommu.Termios.Laws.{set_options-iflag, set_options_accepts_iff}

abbrev bit : ℕ → Word
bit k i = i == k

abbrev no_bits : Word
no_bits i = false

abbrev linux : System
linux = record {
  parenb = bit 8;
  parodd = bit 9;
  cstopb = bit 6;
  csize = bit 4 \| bit 5;
  cs = λ n.
      if n == 8
      then bit 4 \| bit 5
      else if n == 7
      then bit 5
      else if n == 6
      then bit 4
      else no_bits;
  crtscts = bit 31;
  clocal = bit 11;
  cread = bit 7;
  inpck = bit 4;
  istrip = bit 5;
  ixon = bit 10;
  ixoff = bit 12;
  ixany = bit 11;
  brkint = bit 1;
  icrnl = bit 8;
  opost = bit 0;
  icanon = bit 1;
  echo = bit 3;
  echoe = bit 4;
  isig = bit 0;
  cfsetispeed = λ option rate. option;
  cfsetospeed = λ option rate. option;
  tcsetattr_now = λ option port. record port { settings = option };
}

abbrev even_software : SpInit
even_software = record {
  name = 65 ∷ [];
  baud = 9600;
  parity = 2;
  data_bits = 8;
  stop_bits = 0;
  flow_ctrl = 2;
  recv_interval_timeout = 10;
  is_to_recv = true;
}

abbrev initial : Termios
initial = record {
  c_iflag = bit 10 \| bit 4;
  c_oflag = no_bits;
  c_cflag = no_bits;
  c_lflag = no_bits;
  vtime = 0;
  vmin = 0;
}

accepted : (t : Termios) × (set_options linux even_software initial ≡ inr t)
accepted =
    (set_options_accepts_iff linux even_software initial).1
      (inl (omega arith), omega arith, omega arith, inl refl, omega arith)

set_options-iflag_example :
    accepted.0.c_iflag
    ≡ initial.c_iflag \~ (linux.brkint \| linux.icrnl \| linux.inpck \| linux.istrip \| linux.ixon)
set_options-iflag_example = set_options-iflag linux even_software initial accepted.0 accepted.1
