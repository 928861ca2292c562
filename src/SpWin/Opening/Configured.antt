-- ===== src/SpWin/Opening/Configured.antt =====
-- The settings that the port has after `init`.
use octcommu.Shared.{
  ℕ, zero, suc, length, ◌%◌, ◌^◌, ◌≤◌, ◌<◌, ◌≡◌, refl, ◌∙◌, ◌⊎◌, inl, inr, true, Bool-cases, String,
  List, ◌∷◌, ◌++◌, none, some, ◌==◌, if◌then◌else◌, arith,
}
use octcommu.SpParams.{SpInit, param_is_ok, spfc_software, spfc_hardware}
use octcommu.SpParams.Laws.{param_is_ok_iff}
use octcommu.SpWin.Win32.{Win32, Dcb, CommConfig, OpenError, Opened, Call, Opened-cases}
use octcommu.SpWin.{SpWin, OperateMode, call}
use octcommu.SpWin.Opening.{
  device_prefix, error_name, real_open, set_flow_ctrl, active_config, open_port, init, configured,
  set_flow, flow, start_thread, with_timeouts, timeouts_with,
}

flow_cases : (n : ℕ) → n ≤ 2 → (n ≡ 0) ⊎ ((n ≡ 1) ⊎ (n ≡ 2))
flow_cases zero h = inl refl
flow_cases (suc zero) h = inr (inl refl)
flow_cases (suc (suc zero)) h = inr (inr refl)
flow_cases (suc (suc (suc n))) h = absurd (omega arith)

abbrev rts_for : Win32 → SpInit → ℕ
rts_for t sp =
    if sp.flow_ctrl == spfc_hardware then t.rts_control_handshake else t.rts_control_disable

set_flow_ctrl-known :
    (t : Win32) (v : SpWin) (h : ℕ)
    → v.sp_init.flow_ctrl ≤ 2
    → set_flow_ctrl t v h
      ≡ set_flow t v h
          (v.sp_init.flow_ctrl == spfc_hardware)
          (rts_for t v.sp_init)
          (v.sp_init.flow_ctrl == spfc_software)
unfolding set_flow_ctrl
set_flow_ctrl-known t v h small = elim (flow_cases v.sp_init.flow_ctrl small) [
  | inl e ↦ simp e refl
  | inr (inl e) ↦ simp e refl
  | inr (inr e) ↦ simp e refl
]

module _ (t : Win32) where
  -- Settings of a port that are those asked for.
  pub record Asked (sp : SpInit) (d : Dcb) : Type 0 where
    pub baud : d.baud_rate ≡ sp.baud % 2 ^ 32
    pub size : d.byte_size ≡ sp.data_bits
    pub parity : d.parity ≡ sp.parity
    pub stop : d.stop_bits ≡ sp.stop_bits
    pub in_x : d.f_in_x ≡ (sp.flow_ctrl == spfc_software)
    pub out_x : d.f_out_x ≡ (sp.flow_ctrl == spfc_software)
    pub cts : d.f_outx_cts_flow ≡ (sp.flow_ctrl == spfc_hardware)
    pub rts : d.f_rts_control ≡ rts_for t sp

  -- The calls of `init`, the last one first.
  abbrev pub configuring : ℕ → CommConfig → List Call → List Call
  configuring h c before =
      Call.purge_comm h
      ∷ Call.set_comm_timeouts h (timeouts_with 0 0)
      ∷ Call.set_comm_config h c (t.takes_config h c)
      ∷ Call.set_comm_config h c (t.takes_config h c)
      ∷ before

  -- From the port `u`.
  pub record OpenedWith (u : SpWin) (sp : SpInit) (h : ℕ) (v : SpWin) : Type 0 where
    pub open_now : v.sp_handle ≡ some h
    pub made : v.calls ≡ (
        if sp.is_to_recv
        then Call.thread_start ∷ configuring h v.sp_config u.calls
        else configuring h v.sp_config u.calls)
    pub asked : Asked sp v.sp_config.dcb
    pub receives :
        v.recv_thread_is_running ≡ (if sp.is_to_recv then true else u.recv_thread_is_running)

  module _ (old : String) (u : SpWin) (sp : SpInit) (free : u.sp_handle ≡ none)
      (mode : u.operate_mode ≡ OperateMode.om_async) (ok : (param_is_ok old sp).0 ≡ 0) where
    abbrev port : SpWin
    port = record u { sp_init = sp; error_str = "sp doesnt open" }

    init-open :
        (h : ℕ)
        → t.create_file (device_prefix ++ sp.name) true ≡ Opened.handle h
        → init t old u sp ≡ active_config t (record port { sp_handle = some h })
    unfolding init open_port real_open
    init-open h e = simp (ok, free, mode, e)

    init-refused :
        (e : OpenError)
        → t.create_file (device_prefix ++ sp.name) true ≡ Opened.refused e
        → init t old u sp ≡ (1, record port { error_str = error_name e; sp_handle = none })
    unfolding init open_port real_open
    init-refused e f = simp (ok, free, mode, f)

    settings :
        (sp.parity ≤ 4)
        × (5 ≤ sp.data_bits)
        × (sp.data_bits ≤ 8)
        × (sp.stop_bits ≤ 2)
        × (sp.flow_ctrl ≤ 2)
        × (0 < length sp.name)
    settings = (param_is_ok_iff old sp).0 ok

    abbrev opened_port : ℕ → SpWin
    opened_port h = record port { sp_handle = some h }

    abbrev final : ℕ → SpWin
    final h =
        let v = record (opened_port h) { sp_config = configured t sp h u.sp_config } in
        let w =
          (set_flow t v h (sp.flow_ctrl == spfc_hardware) (rts_for t sp)
            (sp.flow_ctrl == spfc_software)).1 in
        start_thread t (
          with_timeouts t h (timeouts_with 0 0)
            (call (Call.set_comm_config h w.sp_config (t.takes_config h w.sp_config)) w))

    active_config-final : (h : ℕ) → active_config t (opened_port h) ≡ (0, final h)
    unfolding active_config
    active_config-final h =
        simp
          (set_flow_ctrl-known t
            (record (opened_port h) { sp_config = configured t sp h u.sp_config }) h
            (omega (arith, settings)))
          (simp mode)

    final-OpenedWith : (h : ℕ) → OpenedWith u sp h (final h)
    final-OpenedWith h = elim (Bool-cases sp.is_to_recv) [
      | inl e ↦ record {
        open_now = simp e refl;
        made = simp e refl;
        asked = simp e asked;
        receives = simp e refl;
      }
      | inr e ↦ record {
        open_now = simp e refl;
        made = simp e refl;
        asked = simp e asked;
        receives = simp e refl;
      }
    ]
      where
        asked : Asked sp (
            flow
              (sp.flow_ctrl == spfc_hardware)
              (rts_for t sp)
              (sp.flow_ctrl == spfc_software)
              (configured t sp h u.sp_config).dcb)
        asked = record {
          baud = refl;
          size = omega (arith, settings);
          parity = omega (arith, settings);
          stop = omega (arith, settings);
          in_x = refl;
          out_x = refl;
          cts = refl;
          rts = refl;
        }

    -- On a port that is not open, in the asynchronous mode that the constructor sets, with settings
    -- that the check accepts: if Windows opens the port, `init` returns 0 and keeps the rate (in 32
    -- bits), data bits, parity and stop bits asked for, with XON and XOFF exactly for software and
    -- with RTS and CTS exactly for hardware flow control. It gives these to SetCommConfig twice,
    -- whatever that answers, sets the timeouts, discards what is in the buffers and, if the port is
    -- to receive, starts its thread with the flag set, in this order and with no other call. If
    -- Windows does not, `init` returns 1, leaves the port closed, makes no call that changes one,
    -- and keeps an error text by the reason.
    pub init-create_file :
        ((h : ℕ) × (t.create_file (device_prefix ++ sp.name) true ≡ Opened.handle h)
          × (v : SpWin) × (init t old u sp ≡ (0, v))
          × OpenedWith u sp h v)
        ⊎ ((e : OpenError) × (t.create_file (device_prefix ++ sp.name) true ≡ Opened.refused e)
            × (init t old u sp
                ≡ (1, record u { sp_init = sp; error_str = error_name e; sp_handle = none })))
    init-create_file = elim (Opened-cases (t.create_file (device_prefix ++ sp.name) true)) [
      | inl (h, e) ↦ inl (h, e, final h, init-open h e ∙ active_config-final h, final-OpenedWith h)
      | inr (e, f) ↦ inr (e, f, init-refused e f)
    ]
