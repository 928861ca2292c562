-- ===== src/Tcp/Client/Detached.antt =====
-- The states that a client can reach.
use octcommu.Shared.{
  ℕ, ◌≡◌, refl, sym, arith, Bool, false, Bool-cases, String, List, [], some, inl, inr, ap, ◌&&◌,
  Option-cases,
}
use octcommu.FixedBuffer
use mathlib.Core.Path.{subst}
use octcommu.FixedBuffer.{FixedBuffer}
use octcommu.BlockingQueue
use octcommu.Tcp.{
  TcpInit, TcpToolkit, AppCall, TcpCommon, default_init, set_on_read_func, set_on_connect_func,
  set_on_flush_func, set_on_error_func, recv_data_worker, pack,
}
use octcommu.Tcp.Client.{
  create, client_send, client_shutdown, init, send_data, on_connect, on_flush, on_err, on_recv,
}

-- The calls that TCPImp passes to a client, `sendData`, the events of the toolkit and the tasks of
-- the pool. The answers of the toolkit are those of each step.
pub data Step : TcpCommon → TcpCommon → Type 0 where
  read_func : {u : TcpCommon} (cb : Bool) → Step u (set_on_read_func u cb).1
  connect_func : {u : TcpCommon} (cb : Bool) → Step u (set_on_connect_func u cb).1
  flush_func : {u : TcpCommon} (cb : Bool) → Step u (set_on_flush_func u cb).1
  error_func : {u : TcpCommon} (cb : Bool) → Step u (set_on_error_func u cb).1
  inited : {u : TcpCommon} (t : TcpToolkit) (p : TcpInit) → Step u (init t u p).1
  sent : {u : TcpCommon} (pdata : List ℕ) → Step u (client_send u pdata)
  data_sent : {u : TcpCommon} (t : TcpToolkit) (pdata : List ℕ) → Step u (send_data t u pdata).1
  shut : {u : TcpCommon} → Step u (client_shutdown u)
  connected : {u : TcpCommon} (what : String) → Step u (on_connect u what).1
  flushed : {u : TcpCommon} → Step u (on_flush u).1
  failed : {u : TcpCommon} (what : String) → Step u (on_err u what).1
  arrived :
      {u v : TcpCommon} (t : TcpToolkit) (stack heap : ℕ) (buf addr : List ℕ) (apps : List AppCall)
      → on_recv t u stack heap buf addr ≡ some (apps, v)
      → Step u v
  worked : {u : TcpCommon} (local : ℕ) → Step u (recv_data_worker u local).1

pub data Reachable : TcpCommon → Type 0 where
  start : Reachable create
  next : {u v : TcpCommon} → Reachable u → Step u v → Reachable v

record Undetached (u : TcpCommon) : Type 0 where
  kept : u.tcp_init ≡ default_init
  unqueued : u.recv_blocking_queue ≡ []

kept_new : create.tcp_init ≡ default_init
unfolding create
kept_new = refl

unqueued_new : create.recv_blocking_queue ≡ []
unfolding create
unqueued_new = refl

not_detached : {u : TcpCommon} → Undetached u → u.tcp_init.is_detach_recv ≡ false
not_detached k = ap (λ p. p.is_detach_recv) k.kept

Undetached-connect :
    (u : TcpCommon) (what : String) → Undetached u → Undetached (on_connect u what).1
unfolding on_connect
Undetached-connect u what k = elim (Bool-cases u.on_connect_func) [
  | inl e ↦ record { kept = simp (e, k.kept); unqueued = simp (e, not_detached k, k.unqueued) }
  | inr e ↦ record { kept = simp (e, k.kept); unqueued = simp (e, k.unqueued) }
]

Undetached-flush : (u : TcpCommon) → Undetached u → Undetached (on_flush u).1
unfolding on_flush
Undetached-flush u k = elim (Bool-cases u.on_tcp_flush_func) [
  | inl e ↦ record { kept = simp (e, k.kept); unqueued = simp (e, not_detached k, k.unqueued) }
  | inr e ↦ record { kept = simp (e, k.kept); unqueued = simp (e, k.unqueued) }
]

Undetached-err : (u : TcpCommon) (what : String) → Undetached u → Undetached (on_err u what).1
unfolding on_err
Undetached-err u what k = elim (Bool-cases u.on_tcp_error_func) [
  | inl e ↦ record { kept = simp (e, k.kept); unqueued = simp (e, not_detached k, k.unqueued) }
  | inr e ↦ record { kept = simp (e, k.kept); unqueued = simp (e, k.unqueued) }
]

Undetached-worker :
    (u : TcpCommon) (local : ℕ) → Undetached u → Undetached (recv_data_worker u local).1
unfolding recv_data_worker BlockingQueue.take FixedBuffer.create FixedBuffer.copy
Undetached-worker u local k = elim (Bool-cases u.on_recv_data_func) [
  | inl e ↦ record { kept = simp (e, k.unqueued, k.kept); unqueued = simp (e, k.unqueued) }
  | inr e ↦ record { kept = simp (e, k.kept); unqueued = simp (e, k.unqueued) }
]

module _ (t : TcpToolkit) where
  Undetached-init : (u : TcpCommon) (p : TcpInit) → Undetached u → Undetached (init t u p).1
  unfolding init
  Undetached-init u p k = elim (Bool-cases (p.is_to_recv && u.tcp_init.is_detach_recv)) [
    | inl e ↦ record { kept = rw e k.kept; unqueued = rw e k.unqueued }
    | inr e ↦ record { kept = rw e k.kept; unqueued = rw e k.unqueued }
  ]

  Undetached-send :
      (u : TcpCommon) (pdata : List ℕ) → Undetached u → Undetached (send_data t u pdata).1
  unfolding send_data
  Undetached-send u pdata k = elim (Bool-cases t.alive) [
    | inl e ↦ record { kept = rw e k.kept; unqueued = rw e k.unqueued }
    | inr e ↦ record { kept = rw e k.kept; unqueued = rw e k.unqueued }
  ]

  recv-same :
      (u v : TcpCommon) (stack heap : ℕ) (buf addr : List ℕ) (apps : List AppCall)
      → u.tcp_init.is_detach_recv ≡ false
      → on_recv t u stack heap buf addr ≡ some (apps, v)
      → v ≡ u
  unfolding on_recv
  recv-same u v stack heap buf addr apps d e = elim (Option-cases (pack t u stack buf addr)) [
    | inl h ↦ ground arith
    | inr (fb, h) ↦ ground arith
  ]

Undetached-step : {u v : TcpCommon} → Step u v → Undetached u → Undetached v
unfolding set_on_read_func set_on_connect_func set_on_flush_func set_on_error_func client_send
    client_shutdown
Undetached-step (Step.read_func cb) k = record { kept = k.kept; unqueued = k.unqueued }
Undetached-step (Step.connect_func cb) k = record { kept = k.kept; unqueued = k.unqueued }
Undetached-step (Step.flush_func cb) k = record { kept = k.kept; unqueued = k.unqueued }
Undetached-step (Step.error_func cb) k = record { kept = k.kept; unqueued = k.unqueued }
Undetached-step {u} (Step.inited t p) k = Undetached-init t u p k
Undetached-step (Step.sent pdata) k = record { kept = k.kept; unqueued = k.unqueued }
Undetached-step {u} (Step.data_sent t pdata) k = Undetached-send t u pdata k
Undetached-step Step.shut k = record { kept = k.kept; unqueued = k.unqueued }
Undetached-step {u} (Step.connected what) k = Undetached-connect u what k
Undetached-step {u} Step.flushed k = Undetached-flush u k
Undetached-step {u} (Step.failed what) k = Undetached-err u what k
Undetached-step {u} {v} (Step.arrived t stack heap buf addr apps e) k =
    subst Undetached (sym (recv-same t u v stack heap buf addr apps (not_detached k) e)) k
Undetached-step {u} (Step.worked local) k = Undetached-worker u local k

-- Whatever calls the application makes of a new client, `init` with any parameters, `send` and
-- `shutdown` among them, and whatever events, tasks and answers of the toolkit come between them,
-- the client has the initial parameters and no data waits in its queue.
pub Reachable-Undetached :
    {u : TcpCommon} → Reachable u → (u.tcp_init ≡ default_init) × (u.recv_blocking_queue ≡ [])
Reachable-Undetached r = let k = all r in (k.kept, k.unqueued)
  where
    all : {u : TcpCommon} → Reachable u → Undetached u
    all Reachable.start = record { kept = kept_new; unqueued = unqueued_new }
    all (Reachable.next r s) = Undetached-step s (all r)
