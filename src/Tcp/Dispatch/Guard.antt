-- ===== src/Tcp/Dispatch/Guard.antt =====
-- When `init` of a TCP link succeeds, and what becomes of functions that are set before it.
use octcommu.Shared.{
  ◌≡◌, ◌≢◌, refl, sym, ◌∙◌, inl, inr, ◌↔◌, Bool, true, false, ==-true, ==-false, Bool-cases,
  if◌then◌else◌, pos, negsuc, arith, Option, some, none, ℕ_discrete,
}
use octcommu.Tcp.{TcpInit, TcpToolkit, tt_client, tt_server, set_on_read_func}
use octcommu.Tcp.Client
use octcommu.Tcp.Server
use octcommu.Tcp.Dispatch.{TcpImp, init, guarded_init, set_on_read}

-- The object for the type that is asked for is there.
pub data Serves (p : TcpInit) : Option TcpImp → Type 0 where
  as_client : {i : TcpImp} → p.tcp_type ≡ tt_client → i.has_client ≡ true → Serves p (some i)
  as_server : {i : TcpImp} → p.tcp_type ≡ tt_server → i.server.has_server ≡ true → Serves p (some i)

module _ (t : TcpToolkit) (p : TcpInit) where
  guarded_bad :
      (d : Option TcpImp)
      → p.tcp_type ≢ tt_client
      → p.tcp_type ≢ tt_server
      → (guarded_init t d p).0 ≡ negsuc 1
  unfolding guarded_init
  guarded_bad d c s = rw (==-false p.tcp_type tt_client c, ==-false p.tcp_type tt_server s) refl

  guarded_none : (guarded_init t none p).0 ≢ pos 0
  unfolding guarded_init
  guarded_none e = ground (arith, e)

  guarded_client :
      (i : TcpImp)
      → p.tcp_type ≡ tt_client
      → (guarded_init t (some i) p).0 ≡ (if i.has_client then pos 0 else negsuc 1)
  unfolding guarded_init init
  guarded_client i c = elim (Bool-cases i.has_client) [
    | inl h ↦ rw (==-true p.tcp_type tt_client c, h, Client.init-code t i.client p) refl
    | inr h ↦ rw (==-true p.tcp_type tt_client c, h) refl
  ]

  guarded_server :
      (i : TcpImp)
      → p.tcp_type ≡ tt_server
      → (guarded_init t (some i) p).0 ≡ (if i.server.has_server then pos 0 else negsuc 1)
  unfolding guarded_init init
  guarded_server i s =
      rw (==-false p.tcp_type tt_client (omega arith), ==-true p.tcp_type tt_server s)
        (Server.init-code t i.server p)

  only_true : (b : Bool) → (if b then pos 0 else negsuc 1) ≡ pos 0 → b ≡ true
  only_true true e = refl
  only_true false e = cc

  served : (d : Option TcpImp) → (guarded_init t d p).0 ≡ pos 0 → Serves p d
  served none e = absurd (guarded_none e)
  served (some i) e = elim (ℕ_discrete p.tcp_type tt_client) [
    | yes c ↦ Serves.as_client c (only_true i.has_client (sym (guarded_client i c) ∙ e))
    | no nc ↦ elim (ℕ_discrete p.tcp_type tt_server) [
      | yes s ↦ Serves.as_server s (only_true i.server.has_server (sym (guarded_server i s) ∙ e))
      | no ns ↦ absurd (cc (guarded_bad (some i) nc ns, e))
    ]
  ]

  serving : (d : Option TcpImp) → Serves p d → (guarded_init t d p).0 ≡ pos 0
  serving none x = elim x [ ]
  serving (some i) (Serves.as_client c h) = guarded_client i c ∙ rw h refl
  serving (some i) (Serves.as_server s h) = guarded_server i s ∙ rw h refl

  -- `ITCP::init` returns 0 exactly if there is an object and the type is client or server, with the
  -- client, or the toolkit's server, in place.
  pub guarded_init_iff : (d : Option TcpImp) → ((guarded_init t d p).0 ≡ pos 0) ↔ Serves p d
  guarded_init_iff d = (served d, serving d)

  -- On a link that is not yet a client but has one, a function for received data that is set before
  -- an `init` as a client is set in the server, and the client's own is what it was.
  pub init-set_on_read :
      (i : TcpImp)
      → i.tcp_type ≢ tt_client
      → p.tcp_type ≡ tt_client
      → i.has_client ≡ true
      → let j = (init t (set_on_read i true).1 p).1 in
        (j.client.on_recv_data_func ≡ i.client.on_recv_data_func)
        × (j.server.common.on_recv_data_func ≡ true)
  unfolding init set_on_read set_on_read_func
  init-set_on_read i new c h = (
    rw (==-false i.tcp_type tt_client new, ==-true p.tcp_type tt_client c, h)
        (Client.init-on_recv_data_func t i.client p),
    rw (==-false i.tcp_type tt_client new, ==-true p.tcp_type tt_client c, h) refl,
  )
