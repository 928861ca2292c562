-- ===== src/SpParams/Laws.antt =====
-- What the check accepts.
use octcommu.Shared.{◌≤◌, ◌<◌, ◌≡◌, ◌↔◌, String, length, arith}
use octcommu.SpParams.{SpInit, param_is_ok}

-- The check passes exactly for a name that is not empty and settings that are members of their
-- enumerations.
pub param_is_ok_iff :
    (old : String) (sp : SpInit)
    → ((param_is_ok old sp).0 ≡ 0) ↔ (
        (sp.parity ≤ 4)
        × (5 ≤ sp.data_bits)
        × (sp.data_bits ≤ 8)
        × (sp.stop_bits ≤ 2)
        × (sp.flow_ctrl ≤ 2)
        × (0 < length sp.name))
unfolding param_is_ok
param_is_ok_iff old sp = ((λ h. ground arith), λ h. ground arith)
