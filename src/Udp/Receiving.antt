-- ===== src/Udp/Receiving.antt =====
-- `OnReadDataFunc` and `recvWorkerThread` of src/Communcation/UDPImp.cpp: a datagram on its way to
-- the application, at once or through the queue. The addresses of the buffers are arguments,
-- because `length` of a copied buffer depends on them.
pub mod Worker
pub mod Delivered
pub mod Runs
pub mod Schedule
use octcommu.Shared.{
  ℕ, ◌*◌, Bool, true, false, not, List, [], ◌∷◌, Option, none, some, ◌==◌, if◌then◌else◌, ◌>>=◌,
  length, take,
}
use octcommu.FixedBuffer
use octcommu.FixedBuffer.{FixedBuffer, SockAddrInfo}
use octcommu.BlockingQueue
use octcommu.Udp.{Toolkit, Udp, call, Call}

-- RECV_BUF_LEN, and the maximum of the queue
abbrev pub recv_buf_len : ℕ
recv_buf_len = 1024 * 256

abbrev pub queue_max : ℕ
queue_max = 128

-- A call of the application's function.
pub record Delivery : Type 0 where
  pub data_in : List ℕ
  pub len : ℕ
  pub from : SockAddrInfo

abbrev pub deliver : FixedBuffer → ℕ → Delivery
deliver b n = record { data_in = take n b.bytes; len = n; from = b.info }

-- `stack` and `heap` are the addresses of the local buffer and of its copy in the queue; `none` is
-- a write outside the buffer.
module _ (t : Toolkit) where
  unfoldable pub on_read_data_func :
      Udp → (stack heap : ℕ) → List ℕ → List ℕ → Option (List Delivery × Udp)
  on_read_data_func u stack heap buf addr =
      if u.recv_data_func
      then (do
        let fb = FixedBuffer.create recv_buf_len stack
        filled ← FixedBuffer.append recv_buf_len fb buf
        ended ← FixedBuffer.set_end_char recv_buf_len filled
        let named = record ended { info = t.get_ip_port_from_addr addr u.is_ipv6 }
        some (
            if u.udp_int_param.is_detach_recv
            then (
              [],
              call Call.pool_async (record u {
                queue =
                    BlockingQueue.put queue_max u.queue (FixedBuffer.copy recv_buf_len named heap);
              }),
            )
            else (deliver named (FixedBuffer.length_of recv_buf_len named) ∷ [], u)))
      else some ([], u)

-- A task of the pool: `local` is the address of its buffer, and `made` that of the buffer which
-- `take` makes on an empty queue and returns a copy of; they agree where the compiler elides the
-- copy. The buffer at the front of a queue keeps its pointer wherever it is copied to.
pub record Task : Type 0 where
  pub made : ℕ
  pub local : ℕ

unfoldable pub recv_worker_thread : Udp → Task → List Delivery × Udp
recv_worker_thread u task =
    let (front, rest) = BlockingQueue.take (FixedBuffer.create recv_buf_len task.made) u.queue in
    let rb = FixedBuffer.copy recv_buf_len front task.local in
    let v = record u { queue = rest } in
    if FixedBuffer.length_of recv_buf_len rb == 0
    then ([], v)
    else if v.recv_data_func
    then (deliver rb rb.current_len ∷ [], v)
    else ([], v)
