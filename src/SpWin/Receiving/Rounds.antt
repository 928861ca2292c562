-- ===== src/SpWin/Receiving/Rounds.antt =====
-- What the receive thread gives the application.
use octcommu.Shared.{
  ℕ, suc, ◌+◌, ◌*◌, ◌%◌, ◌^◌, ◌≤◌, ◌≡◌, refl, ◌∙◌, ap, true, List, [], ◌∷◌, some, arith, length,
  take, length-replicate, length-take, length-overwrite, overwrite, memcpy-some, take-overwrite,
  take-take, Pairs,
}
use native.Mathlib.Numerals.{unary_clauses}
use octcommu.FixedBuffer
use octcommu.FixedBuffer.{FixedBuffer}
use octcommu.SpWin.{SpWin, OperateMode}
use octcommu.SpWin.Receiving.{
  sp_recv_max_len, Round, nothing, failed, got, pended, Received, add_event, add_pieces, read_file,
  hand_over, async_rounds, recv_thead_func,
}

-- The bytes of the reads that end at once.
abbrev pub at_once : List Round → List (List ℕ)
at_once [] = []
at_once (nothing ∷ rs) = at_once rs
at_once (failed ∷ rs) = at_once rs
at_once (pended xs ∷ rs) = at_once rs
at_once (got xs ∷ rs) = xs ∷ at_once rs

-- How many reads end with bytes, at once or later.
abbrev pub reads : List Round → ℕ
reads [] = 0
reads (nothing ∷ rs) = reads rs
reads (failed ∷ rs) = reads rs
reads (pended xs ∷ rs) = suc (reads rs)
reads (got xs ∷ rs) = suc (reads rs)

-- Each read brings at most the `n` bytes asked for.
pub data AtMost (n : ℕ) : List Round → Type 0 where
  done : AtMost n []
  idle : {rs : List Round} → AtMost n rs → AtMost n (nothing ∷ rs)
  error : {rs : List Round} → AtMost n rs → AtMost n (failed ∷ rs)
  later : {xs : List ℕ} {rs : List Round} → length xs ≤ n → AtMost n rs → AtMost n (pended xs ∷ rs)
  now : {xs : List ℕ} {rs : List Round} → length xs ≤ n → AtMost n rs → AtMost n (got xs ∷ rs)

-- `n` bytes that begin with `xs`.
pub record Begins (n : ℕ) (xs piece : List ℕ) : Type 0 where
  pub size : length piece ≡ n
  pub front : take (length xs) piece ≡ xs

record AtStart (b : FixedBuffer) : Type 0 where
  sized : length b.bytes ≡ sp_recv_max_len
  pointer : b.cur ≡ b.addr

times_suc : (n k : ℕ) → n + n * k ≡ n * suc k
times_suc n k = simp unary_clauses (omega arith)

create-AtStart : (stack : ℕ) → AtStart (FixedBuffer.create sp_recv_max_len stack)
unfolding FixedBuffer.create
create-AtStart stack = record { sized = length-replicate {A = ℕ} sp_recv_max_len 0; pointer = refl }

module _ (n : ℕ) (fits : n ≤ sp_recv_max_len) where
  abbrev filled_with : FixedBuffer → List ℕ → FixedBuffer
  filled_with b xs = record b { bytes = overwrite b.bytes 0 xs }

  filled-AtStart : (b : FixedBuffer) (xs : List ℕ) → AtStart b → AtStart (filled_with b xs)
  filled-AtStart b xs s = record {
    sized = length-overwrite b.bytes 0 xs ∙ s.sized;
    pointer = s.pointer;
  }

  read_file-AtStart :
      (b : FixedBuffer) (xs : List ℕ)
      → AtStart b
      → length xs ≤ n
      → read_file b xs ≡ some (filled_with b xs)
  unfolding read_file FixedBuffer.write_cur
  read_file-AtStart b xs s h =
      let fits_here : 0 + length xs ≤ length b.bytes = omega (arith, s.sized, fits) in
      ground (arith, s.pointer, memcpy-some b.bytes 0 xs fits_here)

  hand_over-AtStart :
      (b : FixedBuffer)
      → AtStart b
      → hand_over n true b ≡ some (take n b.bytes ∷ [], FixedBuffer.reset sp_recv_max_len b)
  unfolding hand_over FixedBuffer.reset
  hand_over-AtStart b s = ground (arith, s.sized, fits)

  reset-AtStart : (b : FixedBuffer) → AtStart b → AtStart (FixedBuffer.reset sp_recv_max_len b)
  unfolding FixedBuffer.reset
  reset-AtStart b s = record { sized = s.sized; pointer = refl }

  piece-Begins :
      (b : FixedBuffer) (xs : List ℕ)
      → AtStart b
      → length xs ≤ n
      → Begins n xs (take n (filled_with b xs).bytes)
  piece-Begins b xs s h = record {
    size = omega (
      arith,
      length-take n (overwrite b.bytes 0 xs),
      length-overwrite b.bytes 0 xs,
      s.sized,
      fits,
    );
    front =
        take-take (length xs) n (overwrite b.bytes 0 xs) h
        ∙ take-overwrite b.bytes 0 (length xs) xs (omega arith) (omega (arith, s.sized, fits));
  }

  record Done (rs : List Round) (b : FixedBuffer) : Type 0 where
    last : Received
    runs : async_rounds n true rs b ≡ some last
    given : Pairs (Begins n) (at_once rs) last.pieces
    left : last.events ≡ reads rs
    count : last.counted ≡ n * length (at_once rs)

  async_rounds-Done : (rs : List Round) (b : FixedBuffer) → AtStart b → AtMost n rs → Done rs b
  unfolding async_rounds
  async_rounds-Done [] b s AtMost.done = record {
    last = _;
    runs = refl;
    given = Pairs.nil;
    left = refl;
    count = omega arith;
  }
  async_rounds-Done (nothing ∷ rs) b s (AtMost.idle a) =
      let d = async_rounds-Done rs b s a in
      record { last = d.last; runs = d.runs; given = d.given; left = d.left; count = d.count }
  async_rounds-Done (failed ∷ rs) b s (AtMost.error a) =
      let d = async_rounds-Done rs b s a in
      record { last = d.last; runs = d.runs; given = d.given; left = d.left; count = d.count }
  async_rounds-Done (pended xs ∷ rs) b s (AtMost.later h a) =
      let d = async_rounds-Done rs (filled_with b xs) (filled-AtStart b xs s) a in
      record {
        last = add_event d.last;
        runs = rw (read_file-AtStart b xs s h, d.runs) refl;
        given = d.given;
        left = ap suc d.left;
        count = d.count;
      }
  async_rounds-Done (got xs ∷ rs) b s (AtMost.now h a) =
      let f = filled-AtStart b xs s in
      let d =
        async_rounds-Done rs (FixedBuffer.reset sp_recv_max_len (filled_with b xs))
          (reset-AtStart (filled_with b xs) f) a in
      record {
        last = add_event (add_pieces (take n (filled_with b xs).bytes ∷ []) n d.last);
        runs = rw (read_file-AtStart b xs s h, hand_over-AtStart (filled_with b xs) f, d.runs) refl;
        given = Pairs.cons (piece-Begins b xs s h) d.given;
        left = ap suc d.left;
        count = ap (λ k. n + k) d.count ∙ times_suc n (length (at_once rs));
      }

-- In the asynchronous mode, with the application's function set and a length asked for of at most
-- 61440, where each read brings no more than that: the thread touches no byte outside its buffer,
-- and calls the function once for each read that ends at once, in order, each time with as many
-- bytes as were asked for, of which those read are the first. Reads that end later give it nothing.
-- The bytes asked for are counted for each call, and each read that brought bytes, at once or
-- later, leaves an event that is not closed.
pub recv_thead_func-at_once :
    (u : SpWin) (stack : ℕ) (rounds : List Round)
    → u.operate_mode ≡ OperateMode.om_async
    → u.recv_func ≡ true
    → u.next_read_len ≤ sp_recv_max_len
    → AtMost u.next_read_len rounds
    → (pieces : List (List ℕ)) × (v : SpWin) × (recv_thead_func u stack rounds
        ≡ some (pieces, reads rounds, v))
      × Pairs (Begins u.next_read_len) (at_once rounds) pieces
      × (v.recv_bytes_count
          ≡ (u.recv_bytes_count + u.next_read_len * length (at_once rounds)) % 2 ^ 32)
unfolding recv_thead_func
recv_thead_func-at_once u stack rounds mode listens fits few =
    let d =
      async_rounds-Done u.next_read_len fits rounds (FixedBuffer.create sp_recv_max_len stack)
        (create-AtStart stack) few in
    (
      d.last.pieces,
      record u { recv_bytes_count = (u.recv_bytes_count + d.last.counted) % 2 ^ 32 },
      simp (mode, listens) (simp (d.runs, d.left) refl),
      d.given,
      ap (λ k. (u.recv_bytes_count + k) % 2 ^ 32) d.count,
    )
