-- ===== src/SpParams.antt =====
-- `SPInit` of src/Communcation/OCTCommu.h and its check, src/SerialPort/SPParamHelper.h. The four
-- settings are enumerations over `int`, so they can hold any value; each is its bit pattern.
pub mod Laws
mod Tests
use octcommu.Shared.{
  ℕ, Bool, true, false, String, List, [], ◌∷◌, ◌||◌, ◌==◌, if◌then◌else◌, length, ltb,
}

pub record SpInit : Type 0 where
  pub name : List ℕ
  pub baud : ℕ
  pub parity : ℕ
  pub data_bits : ℕ
  pub stop_bits : ℕ
  pub flow_ctrl : ℕ
  pub recv_interval_timeout : ℕ
  pub is_to_recv : Bool

abbrev pub spp_none : ℕ
spp_none = 0

abbrev pub spp_odd : ℕ
spp_odd = 1

abbrev pub spp_even : ℕ
spp_even = 2

abbrev pub spp_mark : ℕ
spp_mark = 3

abbrev pub spp_space : ℕ
spp_space = 4

abbrev pub spsb_one : ℕ
spsb_one = 0

abbrev pub spsb_one_and_half : ℕ
spsb_one_and_half = 1

abbrev pub spsb_two : ℕ
spsb_two = 2

abbrev pub spfc_none : ℕ
spfc_none = 0

abbrev pub spfc_hardware : ℕ
spfc_hardware = 1

abbrev pub spfc_software : ℕ
spfc_software = 2

-- The initial values of `SPInit` on Linux.
abbrev pub default_init : SpInit
default_init = record {
  name = [];
  baud = 9600;
  parity = spp_even;
  data_bits = 8;
  stop_bits = spsb_one;
  flow_ctrl = spfc_none;
  recv_interval_timeout = 3;
  is_to_recv = false;
}

-- The keys of the four maps.
abbrev pub hash_parity : List ℕ
hash_parity = spp_none ∷ spp_odd ∷ spp_even ∷ spp_mark ∷ spp_space ∷ []

abbrev pub hash_data_bits : List ℕ
hash_data_bits = 5 ∷ 6 ∷ 7 ∷ 8 ∷ []

abbrev pub hash_stop_bits : List ℕ
hash_stop_bits = spsb_one ∷ spsb_one_and_half ∷ spsb_two ∷ []

abbrev pub hash_flow : List ℕ
hash_flow = spfc_none ∷ spfc_hardware ∷ spfc_software ∷ []

abbrev pub contain : List ℕ → ℕ → Bool
contain [] value = false
contain (k ∷ ks) value = k == value || contain ks value

-- The code and the error text; on success the text is the one that was there before.
pub param_is_ok : String → SpInit → ℕ × String
param_is_ok old sp =
    if contain hash_parity sp.parity
    then (if contain hash_data_bits sp.data_bits
        then (if contain hash_stop_bits sp.stop_bits
            then (if contain hash_flow sp.flow_ctrl
                then (if length sp.name == 0 then (6, "serial port name is empty") else (0, old))
                else (5, "flow ctrl is false"))
            else (3, "stop bits is false"))
        else (2, "data bits is false"))
    else (1, "parity is false")
