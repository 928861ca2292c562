-- ===== src/Udp/Ready.antt =====
-- When `init` sets a link up, and what `send` does on a link that is set up and on one that is not.
use octcommu.Shared.{
  ℕ, suc, ◌<◌, ◌≡◌, ◌≢◌, refl, sym, ◌∙◌, ap, ap₂, ◌⊎◌, inl, inr, ◌↔◌, true, false, Bool-cases, List,
  Option, none, some, length, arith, ℤ, pos, negsuc, ◌==◌,
}
use mathlib.Core.Path.{subst}
use octcommu.Udp.{Toolkit, UdpInit, Udp, is_zero, int_of, init, sent_as, send}
use octcommu.Udp.Setup.{
  Accepts, CastOk, is_zero-cases, cast_as_lem, init-socket, init_socket-ready, init_socket-unbound,
  init_socket-uncast, init_socket-unattached, addressed-is_ipv6, addressed-send_addr,
  addressed-sock_addr_len, received-keeps, Refused, ready, addressed,
}

not_zero : (z : ℤ) → is_zero z ≡ false → z ≢ pos 0
not_zero z h e = cc (ap is_zero e)

send-idle :
    (t : Toolkit) (u : Udp) (pdata : Option (List ℕ))
    → u.has_inited ≡ false
    → ((send t u pdata).0 ≡ negsuc 0) × ((send t u pdata).1.calls ≡ u.calls)
unfolding send
send-idle t u none h = (rw h refl, rw h refl)
send-idle t u (some pdata) h = (rw h refl, rw h refl)

send-inited :
    (t : Toolkit) (u : Udp) (n : ℕ) (pdata : List ℕ)
    → u.has_inited ≡ true
    → 0 < length pdata
    → t.send_to pdata u.send_addr u.sock_addr_len ≡ pos (suc n)
    → (send t u (some pdata)).0 ≡ int_of (pos (suc n))
unfolding send sent_as
send-inited t u n pdata h some_bytes e = rw (h, not_empty, e) refl
  where
    not_empty : length pdata == 0 ≡ false
    not_empty = ground arith

module _ (t : Toolkit) (p : UdpInit) (u : Udp) (s : u.has_socket ≡ true) where
  no_attach : Accepts t p → is_zero t.set_attach ≡ false → ⊥
  no_attach k z = not_zero t.set_attach z k.attached

  send-ready :
      (n : ℕ) (pdata : List ℕ)
      → t.has_colon p.target_ip ≡ false
      → 0 < length pdata
      → t.send_to pdata (some (t.to_sockaddr_in p.target_ip p.target_port)) 16 ≡ pos (suc n)
      → (send t (ready t p u) (some pdata)).0 ≡ int_of (pos (suc n))
  send-ready n pdata v4 some_bytes answer = send-inited t (ready t p u) n pdata refl some_bytes (
      ap₂ (t.send_to pdata)
        ((received-keeps t p (addressed t p u)).0 ∙ addressed-send_addr t p u v4)
        ((received-keeps t p (addressed t p u)).1 ∙ addressed-sock_addr_len t p u v4)
      ∙ answer)

  -- Every run of `init` either sets the link up or refuses.
  pub init-cases :
      (Accepts t p × (init t u p ≡ (pos 0, ready t p u)))
      ⊎ ((Accepts t p → ⊥) × Refused (init t u p))
  init-cases = elim (Bool-cases (t.new_udp_sock_with_binding p.target_port p.local_ip true)) [
    | inl b ↦ elim (cast_as_lem t p p.cast_type (addressed t p u)) [
      | inl (k, c) ↦ elim (is_zero-cases t.set_attach) [
        | inl (a, z) ↦ inl (
          record {
            bound = b;
            cast = subst (λ v. CastOk t v p p.cast_type) (addressed-is_ipv6 t p u) k;
            attached = a;
          },
          init-socket t p u s ∙ init_socket-ready t p u b c a,
        )
        | inr (na, z) ↦ inr (
          (λ ok. na ok.attached),
          subst (Refused) (sym (init-socket t p u s)) (init_socket-unattached t p u s b c z),
        )
      ]
      | inr (nk, (code, text, z, c)) ↦ inr (
        (λ ok. nk (subst (λ v. CastOk t v p p.cast_type) (sym (addressed-is_ipv6 t p u)) ok.cast)),
        subst (Refused) (sym (init-socket t p u s)) (init_socket-uncast t p u code text b z c),
      )
    ]
    | inr b ↦ inr (
      (λ ok. cc (b, ok.bound)),
      subst (Refused) (sym (init-socket t p u s)) (init_socket-unbound t p u b),
    )
  ]

  -- With a socket, `init` returns 0 exactly if the socket binds, takes the cast type (for multicast
  -- its properties and the join) and attaches; the link counts as set up after a 0 and only then.
  pub init-has_inited :
      ((init t u p).0 ≡ pos 0 ↔ Accepts t p) × ((init t u p).1.has_inited ≡ is_zero (init t u p).0)
  init-has_inited = elim init-cases [
    | inl (ok, e) ↦ (((λ _. ok), λ _. ap (λ r. r.0) e), rw e refl)
    | inr (never, r) ↦
        (((λ e. absurd (zero_code r.code e)), λ ok. absurd (never ok)), r.idle ∙ sym r.code)
  ]
    where
      zero_code : is_zero (init t u p).0 ≡ false → (init t u p).0 ≡ pos 0 → ⊥
      zero_code z e = not_zero (init t u p).0 z e

  -- After an `init`, with a socket, that returns 0 for an IPv4 target, `send` of at least one byte
  -- returns, in an `int`, the positive count that the socket answers for those bytes, the target's
  -- address and the size of an IPv4 address.
  pub send-init :
      (n : ℕ) (pdata : List ℕ)
      → (init t u p).0 ≡ pos 0
      → t.has_colon p.target_ip ≡ false
      → 0 < length pdata
      → t.send_to pdata (some (t.to_sockaddr_in p.target_ip p.target_port)) 16 ≡ pos (suc n)
      → (send t (init t u p).1 (some pdata)).0 ≡ int_of (pos (suc n))
  send-init n pdata ok v4 some_bytes answer = elim init-cases [
    | inl (_, e) ↦ rw e (send-ready n pdata v4 some_bytes answer)
    | inr (_, r) ↦ absurd (not_zero (init t u p).0 r.code ok)
  ]

  -- After an `init`, with a socket, that returns anything but 0, `send` returns -1 and gives the
  -- socket nothing.
  pub send-init_refused :
      (pdata : Option (List ℕ))
      → (init t u p).0 ≢ pos 0
      → ((send t (init t u p).1 pdata).0 ≡ negsuc 0)
        × ((send t (init t u p).1 pdata).1.calls ≡ (init t u p).1.calls)
  send-init_refused pdata bad = elim init-cases [
    | inl (_, e) ↦ absurd (bad (ap (λ r. r.0) e))
    | inr (_, r) ↦ send-idle t (init t u p).1 pdata r.idle
  ]
