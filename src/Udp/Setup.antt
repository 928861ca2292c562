-- ===== src/Udp/Setup.antt =====
-- The steps of `init`, one after the other.
use octcommu.Shared.{
  ℕ, zero, suc, ◌≡◌, ◌≢◌, refl, ◌⊎◌, inl, inr, Bool, true, false, not, Bool-cases, some,
  if◌then◌else◌, ℤ, pos, negsuc, String,
}
use octcommu.Udp.{
  Toolkit, UdpInit, CastType, ct_broad, ct_multi, ct_uni, ct_other, Udp, is_zero, shutdown,
  to_sock_address, bind_sock, cast_as, join_multi, init_cast, set_on_read_data_func,
  start_receiving, init_socket, init,
}

pub is_zero-cases :
    (z : ℤ) → ((z ≡ pos 0) × (is_zero z ≡ true)) ⊎ ((z ≢ pos 0) × (is_zero z ≡ false))
is_zero-cases (pos zero) = inl (refl, refl)
is_zero-cases (pos (suc n)) = inr ((λ e. cc), refl)
is_zero-cases (negsuc n) = inr ((λ e. cc), refl)

if_true {ℓ} : {A : Type ℓ} {b : Bool} (x y : A) → b ≡ true → (if b then x else y) ≡ x
if_true x y e = rw e refl

-- The socket takes the cast type; `v6` is whether the target is an IPv6 address.
pub data CastOk (t : Toolkit) (v6 : Bool) (p : UdpInit) : CastType → Type 0 where
  broad : t.set_broadcast true ≡ pos 0 → CastOk t v6 p ct_broad
  multi :
      t.set_multi_properties p.local_ip true 128 v6 ≡ pos 0
      → t.join_multi_addr v6 p.target_ip p.local_ip ≡ pos 0
      → CastOk t v6 p ct_multi
  uni : CastOk t v6 p ct_uni

-- Every step of the set-up succeeds.
pub record Accepts (t : Toolkit) (p : UdpInit) : Type 0 where
  pub bound : t.new_udp_sock_with_binding p.target_port p.local_ip true ≡ true
  pub cast : CastOk t (t.has_colon p.target_ip) p p.cast_type
  pub attached : t.set_attach ≡ pos 0

-- A code other than 0, and the link is not set up.
pub record Refused (r : ℤ × Udp) : Type 0 where
  pub code : is_zero r.0 ≡ false
  pub idle : r.1.has_inited ≡ false

module _ (t : Toolkit) (p : UdpInit) where
  broad-CastOk : {v6 : Bool} → CastOk t v6 p ct_broad → t.set_broadcast true ≡ pos 0
  broad-CastOk (CastOk.broad e) = e

  multi-CastOk :
      {v6 : Bool}
      → CastOk t v6 p ct_multi
      → (t.set_multi_properties p.local_ip true 128 v6 ≡ pos 0)
        × (t.join_multi_addr v6 p.target_ip p.local_ip ≡ pos 0)
  multi-CastOk (CastOk.multi e f) = (e, f)

  other-CastOk : {v6 : Bool} {n : ℕ} → CastOk t v6 p (ct_other n) → ⊥
  other-CastOk k = elim k [ ]

  -- Either the cast type is taken and nothing changes, or a code other than 0 comes with a text.
  pub cast_as_lem :
      (c : CastType) (u : Udp)
      → (CastOk t u.is_ipv6 p c × (cast_as t c p u ≡ (pos 0, u)))
        ⊎ ((CastOk t u.is_ipv6 p c → ⊥)
            × ((code : ℤ) × (text : String) × (is_zero code ≡ false)
                × (cast_as t c p u ≡ (code, record u { error_msg = text }))))
  unfolding cast_as join_multi
  cast_as_lem ct_broad u = elim (is_zero-cases (t.set_broadcast true)) [
    | inl (e, z) ↦ inl (CastOk.broad e, rw e refl)
    | inr (ne, z) ↦ inr ((λ k. ne (broad-CastOk k)), (t.set_broadcast true, u.error_msg, z, refl))
  ]
  cast_as_lem ct_multi u =
      elim (is_zero-cases (t.set_multi_properties p.local_ip true 128 u.is_ipv6)) [
        | inl (e, z) ↦ elim (is_zero-cases (t.join_multi_addr u.is_ipv6 p.target_ip p.local_ip)) [
          | inl (f, y) ↦ inl (CastOk.multi e f, rw (z, f) refl)
          | inr (nf, y) ↦ inr (
            (λ k. nf ((multi-CastOk k).1)),
            (
              t.join_multi_addr u.is_ipv6 p.target_ip p.local_ip,
              "faild to joinMultiAddr, please check the local ip and target ip",
              y,
              rw (z, y) refl,
            ),
          )
        ]
        | inr (ne, z) ↦ inr (
          (λ k. ne ((multi-CastOk k).0)),
          (
            t.set_multi_properties p.local_ip true 128 u.is_ipv6,
            "faild to setMultiProperties, please check the local ip and target ip",
            z,
            rw z refl,
          ),
        )
      ]
  cast_as_lem ct_uni u = inl (CastOk.uni, refl)
  cast_as_lem (ct_other n) u = inr (
    (λ k. other-CastOk k),
    (negsuc 100, "Error, [UDPInitParams.m_castType] is false, please check", refl, refl),
  )

  -- What the set-up does before the cast type: the address, the socket closed and bound.
  abbrev pub addressed : Udp → Udp
  addressed u = (to_sock_address t (shutdown (record u { udp_int_param = p })).1).1

  pub addressed-is_ipv6 : (u : Udp) → (addressed u).is_ipv6 ≡ t.has_colon p.target_ip
  unfolding to_sock_address shutdown
  addressed-is_ipv6 u = elim (Bool-cases (t.has_colon p.target_ip)) [
    | inl e ↦ rw (addressed, e) refl
    | inr e ↦ rw (addressed, e) refl
  ]

  addressed-param : (u : Udp) → (addressed u).udp_int_param ≡ p
  unfolding to_sock_address shutdown
  addressed-param u = elim (Bool-cases (t.has_colon p.target_ip)) [
    | inl e ↦ rw (addressed, e) refl
    | inr e ↦ rw (addressed, e) refl
  ]

  addressed-has_inited : (u : Udp) → (addressed u).has_inited ≡ false
  unfolding to_sock_address shutdown
  addressed-has_inited u = elim (Bool-cases (t.has_colon p.target_ip)) [
    | inl e ↦ rw (addressed, e) refl
    | inr e ↦ rw (addressed, e) refl
  ]

  pub addressed-send_addr :
      (u : Udp)
      → t.has_colon p.target_ip ≡ false
      → (addressed u).send_addr ≡ some (t.to_sockaddr_in p.target_ip p.target_port)
  unfolding to_sock_address shutdown
  addressed-send_addr u e = rw (addressed, e) refl

  pub addressed-sock_addr_len :
      (u : Udp) → t.has_colon p.target_ip ≡ false → (addressed u).sock_addr_len ≡ 16
  unfolding to_sock_address shutdown
  addressed-sock_addr_len u e = rw (addressed, e) refl

  pub received-keeps :
      (w : Udp)
      → ((start_receiving t w).send_addr ≡ w.send_addr)
        × ((start_receiving t w).sock_addr_len ≡ w.sock_addr_len)
  unfolding start_receiving set_on_read_data_func
  received-keeps w = elim (Bool-cases w.udp_int_param.is_to_recv) [
    | inl e ↦ elim (Bool-cases w.udp_int_param.is_detach_recv) [
      | inl d ↦ (rw (e, d) refl, rw (e, d) refl)
      | inr d ↦ (rw (e, d) refl, rw (e, d) refl)
    ]
    | inr e ↦ (rw e refl, rw e refl)
  ]

  abbrev pub with_param : Udp → Udp
  with_param u = record u { udp_int_param = p }

  abbrev pub ready : Udp → Udp
  ready u = record (start_receiving t (addressed u)) { has_inited = true }

  bind_sock-addressed :
      (u : Udp)
      → t.new_udp_sock_with_binding p.target_port p.local_ip true ≡ true
      → bind_sock t (addressed u) ≡ (pos 0, addressed u)
  unfolding bind_sock
  bind_sock-addressed u e = rw (addressed-param u, e) refl

  init_cast-addressed :
      (u : Udp) → init_cast t (addressed u) ≡ cast_as t p.cast_type p (addressed u)
  unfolding init_cast
  init_cast-addressed u = rw (addressed-param u) refl

  attached_ok :
      (b : Bool) → t.set_attach ≡ pos 0 → (if b then not (is_zero t.set_attach) else false) ≡ false
  attached_ok true e = rw e refl
  attached_ok false e = refl

  pub init-socket : (u : Udp) → u.has_socket ≡ true → init t u p ≡ init_socket t (with_param u)
  unfolding init
  init-socket u s = if_true _ _ s

  addressed-has_socket : (u : Udp) → u.has_socket ≡ true → (addressed u).has_socket ≡ true
  unfolding to_sock_address shutdown
  addressed-has_socket u s = elim (Bool-cases (t.has_colon p.target_ip)) [
    | inl e ↦ rw (addressed, e) s
    | inr e ↦ rw (addressed, e) s
  ]

  pub init_socket-ready :
      (u : Udp)
      → t.new_udp_sock_with_binding p.target_port p.local_ip true ≡ true
      → cast_as t p.cast_type p (addressed u) ≡ (pos 0, addressed u)
      → t.set_attach ≡ pos 0
      → init_socket t (with_param u) ≡ (pos 0, ready u)
  unfolding init_socket
  init_socket-ready u b c a =
      rw (bind_sock-addressed u b, init_cast-addressed u, c, attached_ok (addressed u).has_socket a)
        refl

  pub init_socket-unbound :
      (u : Udp)
      → t.new_udp_sock_with_binding p.target_port p.local_ip true ≡ false
      → Refused (init_socket t (with_param u))
  unfolding init_socket bind_sock
  init_socket-unbound u b = record {
    code = rw (addressed-param u, b) refl;
    idle = rw (addressed-param u, b) (addressed-has_inited u);
  }

  pub init_socket-uncast :
      (u : Udp) (code : ℤ) (text : String)
      → t.new_udp_sock_with_binding p.target_port p.local_ip true ≡ true
      → is_zero code ≡ false
      → cast_as t p.cast_type p (addressed u) ≡ (code, record (addressed u) { error_msg = text })
      → Refused (init_socket t (with_param u))
  unfolding init_socket
  init_socket-uncast u code text b z c = record {
    code = rw (bind_sock-addressed u b, init_cast-addressed u, c, z) refl;
    idle = rw (bind_sock-addressed u b, init_cast-addressed u, c, z) (addressed-has_inited u);
  }

  pub init_socket-unattached :
      (u : Udp)
      → u.has_socket ≡ true
      → t.new_udp_sock_with_binding p.target_port p.local_ip true ≡ true
      → cast_as t p.cast_type p (addressed u) ≡ (pos 0, addressed u)
      → is_zero t.set_attach ≡ false
      → Refused (init_socket t (with_param u))
  unfolding init_socket
  init_socket-unattached u s b c a = record {
    code = rw (bind_sock-addressed u b, init_cast-addressed u, c, addressed-has_socket u s, a) refl;
    idle =
        rw (bind_sock-addressed u b, init_cast-addressed u, c, addressed-has_socket u s, a)
          (addressed-has_inited u);
  }
