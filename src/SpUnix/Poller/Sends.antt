-- ===== src/SpUnix/Poller/Sends.antt =====
-- Messages that the application sends, and the rounds of the thread after each.
use octcommu.Shared.{
  ℕ, suc, ◌<◌, ◌≡◌, refl, ◌∙◌, ap, ◌⊎◌, inl, inr, Bool-cases, List, [], ◌∷◌, ◌++◌, Option, none,
  some, true, false, arith, length, pos, ◌>>=◌, append-nil,
}
use octcommu.SpUnix.{SpUnix, max_buffer_len, has_fd, send}
use octcommu.SpUnix.Sending.{write_event, flush_all_data}
use octcommu.SpUnix.Sending.Loop.{Delivers}
use octcommu.SpUnix.Sending.Flush.{HasCaches}
use octcommu.SpUnix.Sending.Delivery.{Still, flush_all_data-Delivers}
use octcommu.SpUnix.Reading.{read_event}
use octcommu.SpUnix.Api.{send-Cached}
use octcommu.SpUnix.Poller.{Round, SelectResult, timed_out, ready, poll, poll_once}

-- Rounds in which `select` marks nothing.
abbrev IsQuiet : SelectResult → Type 0
IsQuiet s = (s ≡ timed_out) ⊎ (s ≡ ready false false)

pub data AllQuiet : List Round → Type 0 where
  nil : AllQuiet []
  cons : {r : Round} {rs : List Round} → IsQuiet r.select → AllQuiet rs → AllQuiet (r ∷ rs)

-- A message, and the rounds up to one in which `select` marks the port as writable.
pub record Exchange : Type 0 where
  pub message : List ℕ
  pub idle : List Round
  pub last : Round

-- The bytes that go out, and the thread's count of errors.
pub talk : ℕ → ℕ → List Exchange → SpUnix → Option (List ℕ × ℕ × SpUnix)
talk fuel count [] u = some ([], count, u)
talk fuel count (x ∷ xs) u = do
  (code, v) ← send u x.message
  (out, errors, w) ← poll fuel (x.idle ++ x.last ∷ []) count v
  (more, last_count, z) ← talk fuel errors xs w
  some (out ++ more, last_count, z)

pub messages : List Exchange → List ℕ
messages [] = []
messages (x ∷ xs) = x.message ++ messages xs

-- A message of 1 to 10239 bytes that `write` takes in positive parts.
pub record Works (x : Exchange) : Type 0 where
  pub some_bytes : 0 < length x.message
  pub room : length x.message < max_buffer_len
  pub quiet : AllQuiet x.idle
  pub writable : x.last.select ≡ ready false true
  pub delivers : Delivers (length x.message) x.last.writes

pub data AllWork : List Exchange → Type 0 where
  nil : AllWork []
  cons : {x : Exchange} {xs : List Exchange} → Works x → AllWork xs → AllWork (x ∷ xs)

-- An open port that is not suspended, whose thread runs, with valid caches at different places.
pub record IsReady (u : SpUnix) : Type 0 where
  pub caches : HasCaches u
  pub open_now : has_fd u.sp_fd ≡ true
  pub awake : u.sp_suspend ≡ false
  pub running : u.recv_thread_is_running ≡ true

Still-IsReady : {u v : SpUnix} → IsReady u → HasCaches v → Still u v → IsReady v
Still-IsReady r c s = record {
  caches = c;
  open_now = ap has_fd s.fd ∙ r.open_now;
  awake = s.suspended ∙ r.awake;
  running = s.running ∙ r.running;
}

>>=-some : {A : Type 0} (o : Option (List ℕ × ℕ × A)) → (o >>= λ r. some ([] ++ r.0, r.1, r.2)) ≡ o
>>=-some none = refl
>>=-some (some r) = refl

module _ (fuel count : ℕ) (u : SpUnix) where
  poll_once-quiet :
      (r : Round) (s : SelectResult) → IsQuiet s → poll_once fuel s r count u ≡ some ([], count, u)
  unfolding poll_once read_event write_event
  poll_once-quiet r s (inl e) = rw e refl
  poll_once-quiet r s (inr e) = rw e (elim (Bool-cases u.sp_suspend) [
    | inl f ↦ simp f refl
    | inr f ↦ elim (Bool-cases u.listen_to_write) [
      | inl g ↦ simp (f, g) refl
      | inr g ↦ simp (f, g) refl
    ]
  ])

  poll-quiet :
      {rs : List Round} (more : List Round)
      → u.recv_thread_is_running ≡ true
      → AllQuiet rs
      → poll fuel (rs ++ more) count u ≡ poll fuel more count u
  unfolding poll
  poll-quiet more running AllQuiet.nil = refl
  poll-quiet more running (AllQuiet.cons {r} {rs} q qs) =
      simp (running, poll_once-quiet r r.select q)
        (ap (λ o. o >>= λ k. some ([] ++ k.0, k.1, k.2)) (poll-quiet more running qs)
          ∙ >>=-some (poll fuel more count u))

  poll-writable :
      (r : Round) {out : List ℕ} {w : SpUnix}
      → u.recv_thread_is_running ≡ true
      → u.sp_suspend ≡ false
      → u.listen_to_write ≡ true
      → r.select ≡ ready false true
      → flush_all_data fuel r.writes u ≡ some (out, w)
      → poll fuel (r ∷ []) count u ≡ some (out, count, w)
  unfolding poll poll_once read_event write_event
  poll-writable r running awake listens marked e =
      simp (running, marked, awake, listens, e, append-nil) refl

module _ (fuel count : ℕ) where
  exchange :
      {x : Exchange} {u : SpUnix}
      → IsReady u
      → Works x
      → (v : SpUnix) × (w : SpUnix) × (send u x.message ≡ some (pos (length x.message), v))
        × (poll (suc fuel) (x.idle ++ x.last ∷ []) count v ≡ some (x.message, count, w))
        × IsReady w
  exchange {x} {u} r k =
      let (v, e, c) = send-Cached u x.message r.caches r.open_now r.awake (omega (arith, k.room)) in
      let ready_v = Still-IsReady r c.caches c.still in
      elim c.held [
        | inr (full, _) ↦ absurd (omega (arith, full, k.room))
        | inl (_, holds, count_held) ↦
            let (w, f, caches, _, quiet, less, still) =
              flush_all_data-Delivers fuel x.last.writes v c.caches
                (omega (arith, count_held, k.some_bytes)) (rw count_held k.delivers) in
            (
              v,
              w,
              e,
              poll-quiet (suc fuel) count v (x.last ∷ []) ready_v.running k.quiet
                  ∙ poll-writable (suc fuel) count v x.last ready_v.running ready_v.awake c.listens
                      k.writable (f ∙ ap (λ (xs : List ℕ). some (xs, w)) holds),
              Still-IsReady ready_v caches still,
            )
      ]

-- On an open port that is not suspended, whose thread runs, with valid caches at different places,
-- the second of them empty: messages of 1 to 10239 bytes, each sent and then followed by rounds of
-- the thread, any number that mark nothing and one that marks the port as writable, in which `write`
-- takes the message in whatever positive parts with EAGAIN between them, go out whole and in order,
-- nothing else goes out, and the port is as before in these respects.
pub talk-messages :
    (fuel count : ℕ) {xs : List Exchange} {u : SpUnix}
    → IsReady u
    → AllWork xs
    → (z : SpUnix) × (talk (suc fuel) count xs u ≡ some (messages xs, count, z)) × IsReady z
unfolding talk messages
talk-messages fuel count {u = u} r AllWork.nil = (u, refl, r)
talk-messages fuel count r (AllWork.cons k ks) =
    let (v, w, e, f, q) = exchange fuel count r k in
    let (z, g, y) = talk-messages fuel count {u = w} q ks in (z, rw (e, f, g) refl, y)
