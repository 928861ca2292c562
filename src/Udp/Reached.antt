-- ===== src/Udp/Reached.antt =====
-- The states that a UDP link reaches by the calls of the application, by datagrams and by the tasks
-- of the pool.
use octcommu.Shared.{
  ℕ, ◌<◌, ◌≡◌, refl, sym, ◌∙◌, ap, subst, ◌⊎◌, inl, inr, Bool, true, false, not, Bool-cases, List,
  Option, none, some, length, arith, ℤ, pos, negsuc, ◌==◌, if◌then◌else◌, Ensures, Ensures-bind,
  Ensures-if, Ensures-any, result_of, if_both, suc, zero,
}
use octcommu.FixedBuffer
use octcommu.BlockingQueue
use octcommu.Udp.{
  Toolkit, UdpInit, Udp, Call, call, create, init, send, sent_as, shutdown, set_on_read,
  set_error_msg, get_last_error_msg, to_sock_address, start_receiving, set_on_read_data_func,
  sockaddr_in_len, sockaddr_in6_len,
}
use octcommu.Udp.Setup.{ready, addressed}
use octcommu.Udp.Ready.{init-cases}
use octcommu.Udp.Receiving.{Delivery, Task, on_read_data_func, recv_worker_thread, recv_buf_len}

-- The answers of the toolkit are those of each step.
pub data Step (u : Udp) : Udp → Type 0 where
  inited : (t : Toolkit) (p : UdpInit) → Step u (init t u p).1
  sent : (t : Toolkit) (pdata : Option (List ℕ)) → Step u (send t u pdata).1
  shut : Step u (shutdown u).1
  read_func : (cb : Bool) → Step u (set_on_read u cb).1
  asked : Step u (get_last_error_msg u).1
  received :
      (t : Toolkit) (stack heap : ℕ) (buf addr : List ℕ) (out : List Delivery) {v : Udp}
      → on_read_data_func t u stack heap buf addr ≡ some (out, v)
      → Step u v
  worked : (task : Task) → Step u (recv_worker_thread u task).1

-- `socket` is whether `createSocket` gives one.
pub data Reached (socket : Bool) : Udp → Type 0 where
  new : Reached socket (create socket)
  next : {u v : Udp} → Reached socket u → Step u v → Reached socket v

abbrev pub length_by : Bool → ℕ
length_by v6 = if v6 then sockaddr_in6_len else sockaddr_in_len

-- A socket, and an address of the length of its family.
pub record Aimed (u : Udp) : Type 0 where
  pub socket : u.has_socket ≡ true
  pub address : List ℕ
  pub aimed : u.send_addr ≡ some address
  pub sized : u.sock_addr_len ≡ length_by u.is_ipv6

shutdown-idle : (u : Udp) → (shutdown u).1.has_inited ≡ false
unfolding shutdown
shutdown-idle u = refl

abbrev Good : Udp → Type 0
Good u = (u.has_inited ≡ false) ⊎ Aimed u

-- What most calls leave.
abbrev Same : Udp → Udp → Type 0
Same u v =
    (v.has_inited ≡ u.has_inited)
    × (v.has_socket ≡ u.has_socket)
    × (v.send_addr ≡ u.send_addr)
    × (v.sock_addr_len ≡ u.sock_addr_len)
    × (v.is_ipv6 ≡ u.is_ipv6)

same-Aimed : (u v : Udp) → Same u v → Aimed u → Aimed v
same-Aimed u v (_, socket, address, len, family) a = record {
  socket = socket ∙ a.socket;
  address = a.address;
  aimed = address ∙ a.aimed;
  sized = len ∙ a.sized ∙ ap length_by (sym family);
}

same-Good : (u v : Udp) → Same u v → Good u → Good v
same-Good u v s (inl e) = inl (s.0 ∙ e)
same-Good u v s (inr a) = inr (same-Aimed u v s a)

if_false {ℓ} : {A : Type ℓ} {b : Bool} (x y : A) → b ≡ false → (if b then x else y) ≡ y
if_false x y e = rw e refl

module _ (u : Udp) where
  abbrev Leaves : {A : Type 0} → A × Udp → Type 0
  Leaves r = Same u r.1

  func-Same : (cb : Bool) → Same u (set_on_read u cb).1
  unfolding set_on_read
  func-Same true = (refl, refl, refl, refl, refl)
  func-Same false = (refl, refl, refl, refl, refl)

  asked-Same : Same u (get_last_error_msg u).1
  unfolding get_last_error_msg
  asked-Same = (refl, refl, refl, refl, refl)

  worked-Same : (task : Task) → Same u (recv_worker_thread u task).1
  unfolding recv_worker_thread
  worked-Same task =
      let (front, rest) = BlockingQueue.take (FixedBuffer.create recv_buf_len task.made) u.queue in
      if_both Leaves
        (FixedBuffer.length_of recv_buf_len (FixedBuffer.copy recv_buf_len front task.local) == 0)
        (refl, refl, refl, refl, refl)
        (if_both Leaves u.recv_data_func (refl, refl, refl, refl, refl)
          (refl, refl, refl, refl, refl))

module _ (t : Toolkit) where
  start_receiving-Same : (u : Udp) → Same u (start_receiving t u)
  unfolding start_receiving set_on_read_data_func
  start_receiving-Same u = elim (Bool-cases u.udp_int_param.is_to_recv) [
    | inr e ↦ simp e (refl, refl, refl, refl, refl)
    | inl e ↦ elim (Bool-cases u.udp_int_param.is_detach_recv) [
      | inl f ↦ simp (e, f) (refl, refl, refl, refl, refl)
      | inr f ↦ simp (e, f) (refl, refl, refl, refl, refl)
    ]
  ]

  to_sock_address-Aimed : (u : Udp) → u.has_socket ≡ true → Aimed (to_sock_address t u).1
  unfolding to_sock_address
  to_sock_address-Aimed u s = elim (Bool-cases (t.has_colon u.udp_int_param.target_ip)) [
    | inl e ↦ simp e (record { socket = s; address = _; aimed = refl; sized = refl })
    | inr e ↦ simp e (record { socket = s; address = _; aimed = refl; sized = refl })
  ]

  ready-Aimed : (p : UdpInit) (u : Udp) → u.has_socket ≡ true → Aimed (ready t p u)
  unfolding shutdown
  ready-Aimed p u s =
      let v = addressed t p u in
      let (_, socket, address, len, family) = start_receiving-Same v in
      let a = to_sock_address-Aimed (shutdown (record u { udp_int_param = p })).1 s in
      record {
        socket = socket ∙ a.socket;
        address = a.address;
        aimed = address ∙ a.aimed;
        sized = len ∙ a.sized ∙ ap length_by (sym family);
      }

  init-none :
      (p : UdpInit) (u : Udp)
      → u.has_socket ≡ false
      → init t u p
        ≡ (negsuc 0, set_error_msg u "Failed to initialze, it cannot create socket(system error)")
  unfolding init
  init-none p u s = if_false _ _ s

  init-Good : (p : UdpInit) (u : Udp) → Good u → Good (init t u p).1
  init-Good p u g = elim (Bool-cases u.has_socket) [
    | inl s ↦ elim (init-cases t p u s) [
      | inl (_, e) ↦ inr (subst (λ r. Aimed r.1) (sym e) (ready-Aimed p u s))
      | inr (_, r) ↦ inl r.idle
    ]
    | inr s ↦
        subst (λ r. Good r.1) (sym (init-none p u s))
          (same-Good u _ (refl, refl, refl, refl, refl) g)
  ]

  sent_as-Same : (u : Udp) (z : ℤ) → Same u (sent_as t u z).1
  unfolding sent_as
  sent_as-Same u (pos zero) = (refl, refl, refl, refl, refl)
  sent_as-Same u (pos (suc n)) = (refl, refl, refl, refl, refl)
  sent_as-Same u (negsuc zero) = (refl, refl, refl, refl, refl)
  sent_as-Same u (negsuc (suc n)) = (refl, refl, refl, refl, refl)

  module _ (u : Udp) where
    send-Same : (pdata : Option (List ℕ)) → Same u (send t u pdata).1
    unfolding send
    send-Same none =
        if_both (Leaves u) (not u.has_inited) (refl, refl, refl, refl, refl)
          (refl, refl, refl, refl, refl)
    send-Same (some pdata) =
        if_both (Leaves u) (not u.has_inited) (refl, refl, refl, refl, refl)
          (if_both (Leaves u) (length pdata == 0) (refl, refl, refl, refl, refl)
            (sent_as-Same (call Call.sent u) (t.send_to pdata u.send_addr u.sock_addr_len)))

    received-Same :
        (stack heap : ℕ) (buf addr : List ℕ)
        → Ensures (Leaves u) (on_read_data_func t u stack heap buf addr)
    unfolding on_read_data_func
    received-Same stack heap buf addr =
        Ensures-if u.recv_data_func
          (Ensures-bind
            (Ensures-any
              (FixedBuffer.append recv_buf_len (FixedBuffer.create recv_buf_len stack) buf))
            λ filled e.
              Ensures-bind (Ensures-any (FixedBuffer.set_end_char recv_buf_len filled)) λ ended f.
                Ensures.result (
                  if_both (Leaves u) u.udp_int_param.is_detach_recv (refl, refl, refl, refl, refl)
                    (refl, refl, refl, refl, refl)))
          (Ensures.result (refl, refl, refl, refl, refl))

Step-Good : {u v : Udp} → Good u → Step u v → Good v
Step-Good {u} g (Step.inited t p) = init-Good t p u g
Step-Good {u} g (Step.sent t pdata) = same-Good u _ (send-Same t u pdata) g
Step-Good {u} g Step.shut = inl (shutdown-idle u)
Step-Good {u} g (Step.read_func cb) = same-Good u _ (func-Same u cb) g
Step-Good {u} g Step.asked = same-Good u _ (asked-Same u) g
Step-Good {u} {v} g (Step.received t stack heap buf addr out e) =
    same-Good u v (result_of (received-Same t u stack heap buf addr) e) g
Step-Good {u} g (Step.worked task) = same-Good u _ (worked-Same u task) g

Reached-Good : {socket : Bool} {u : Udp} → Reached socket u → Good u
unfolding create
Reached-Good Reached.new = inl refl
Reached-Good (Reached.next r k) = Step-Good (Reached-Good r) k

module _ (t : Toolkit) where
  -- In every state that a link reaches by calls of the application, datagrams and tasks of the
  -- pool, in any order and with any answers of the toolkit in each, `send` of at least one byte is refused with -1 while the link is not set
  -- up; otherwise it gives the socket, which is there, the bytes and an address, with the length of
  -- an address of the link's family.
  pub Reached-send :
      {socket : Bool} {u : Udp} (pdata : List ℕ)
      → Reached socket u
      → 0 < length pdata
      → ((u.has_inited ≡ false) × ((send t u (some pdata)).0 ≡ negsuc 0))
        ⊎ ((u.has_socket ≡ true)
            × (address : List ℕ) × (send t u (some pdata)
                ≡ sent_as t
                    (call Call.sent u)
                    (t.send_to pdata (some address) (if u.is_ipv6 then 28 else 16))))
  unfolding send
  Reached-send {u = u} pdata r more = elim (Bool-cases u.has_inited) [
    | inr e ↦ inl (e, simp e refl)
    | inl e ↦ elim (Reached-Good r) [
      | inl f ↦ absurd (ground (arith, e, f))
      | inr a ↦ inr (a.socket, a.address, simp (e, some_bytes pdata more, a.aimed, a.sized) refl)
    ]
  ]
    where
      some_bytes : (pdata : List ℕ) → 0 < length pdata → length pdata == 0 ≡ false
      some_bytes pdata more = ground arith
