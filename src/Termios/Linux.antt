-- ===== src/Termios/Linux.antt =====
-- The flags of the terminal as Linux numbers them, system calls that all succeed, and a terminal:
-- data for tests.
use octcommu.Shared.{ℕ, true, [], none, ◌==◌}
use octcommu.Termios.{System, Answers, Device, Word}

abbrev pub only : ℕ → Word
only n i = i == n

abbrev pub system : System
system = record {
  parenb = only 8;
  parodd = only 9;
  cstopb = only 6;
  csize = only 4;
  cs = λ n. only 5;
  crtscts = only 31;
  clocal = only 11;
  cread = only 7;
  inpck = only 4;
  istrip = only 5;
  ixon = only 10;
  ixoff = only 12;
  ixany = only 11;
  brkint = only 1;
  icrnl = only 8;
  opost = only 0;
  icanon = only 1;
  echo = only 3;
  echoe = only 4;
  isig = only 0;
  cfsetispeed = λ option rate. option;
  cfsetospeed = λ option rate. option;
  tcsetattr_now = λ option port. record port { settings = option };
}

abbrev pub all_succeed : Answers
all_succeed = record {
  tcgetattr = true;
  tcgets2 = true;
  tcsets2 = true;
  tcgets2_again = true;
  tiocgserial = true;
  tiocsserial = true;
  tcsetattr = true;
}

abbrev pub terminal : Device
terminal = record {
  settings = record {
    c_iflag = only 4;
    c_oflag = only 0;
    c_cflag = only 0;
    c_lflag = only 0;
    vtime = 0;
    vmin = 0;
  };
  custom_baud = none;
  fifo_size = 0;
  input = [];
}
