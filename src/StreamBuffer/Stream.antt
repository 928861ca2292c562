-- ===== src/StreamBuffer/Stream.antt =====
-- A caller that appends each chunk and then takes all frames.
use octcommu.Shared.{
  ℕ, zero, suc, ◌+◌, ◌-◌, ◌≤◌, ◌<◌, ◌≡◌, refl, sym, ◌∙◌, ap, Option, none, some, List, [], ◌∷◌,
  ◌++◌, arith, drop, length, take, max, ◌>>=◌, length-take,
}
use octcommu.StreamBuffer.{StreamBuffer, append, get_next_frame}
use octcommu.StreamBuffer.Valid.{IsValid, contents, length-contents}
use octcommu.StreamBuffer.Append.{SameConfig, SameConfig-trans, Extends, append-Extends}
use octcommu.StreamBuffer.Framing.{next, pull, next_short}
use octcommu.StreamBuffer.Framing.Chunks.{
  length-pull-rest, pull-none, pull-some, receive, concat, all_frames, receive-eq-all_frames,
}
use octcommu.StreamBuffer.Refine.{Takes, same_config}
use octcommu.StreamBuffer.Frames.{get_next_frame-Takes}

-- `while (buffer.getNextFrame(frame, len))`, with fuel.
pub drain : ℕ → StreamBuffer → List (List ℕ) × StreamBuffer
drain zero b = ([], b)
drain (suc fuel) b =
    let (o, c) = get_next_frame b in
    elim o [ none ↦ ([], c) | some f ↦ (let (fs, d) = drain fuel c in (f ∷ fs, d)) ]

-- For each chunk one `append` and then the loop; `none` is a write past the end of the array.
pub feed : StreamBuffer → List (List ℕ) → Option (List (List ℕ))
feed b [] = some []
feed b (p ∷ ps) = do
  c ← append b p
  let (fs, d) = drain (suc (length (contents c))) c
  rest ← feed d ps
  some (fs ++ rest)

drain-none : (n : ℕ) (b c : StreamBuffer) → get_next_frame b ≡ (none, c) → drain (suc n) b ≡ ([], c)
unfolding drain
drain-none n b c e = ground arith

drain-some :
    (n : ℕ) (b c : StreamBuffer) (f : List ℕ)
    → get_next_frame b ≡ (some f, c)
    → drain (suc n) b ≡ (f ∷ (drain n c).0, (drain n c).1)
unfolding drain
drain-some n b c f e = ground arith

-- The loop's result, beside what `pull` gives for the bytes held.
record Drains (n : ℕ) (b : StreamBuffer) (r : List (List ℕ) × StreamBuffer) : Type 0 where
  pulled : (r.0, contents r.1) ≡ pull (take b.head_valid_len b.head) b.frame_len n (contents b)
  valid : IsValid r.1
  same : SameConfig b r.1

-- With the same settings `pull` cuts the same frames.
pull_same :
    {b c : StreamBuffer} (n : ℕ) (xs : List ℕ)
    → SameConfig b c
    → pull (take c.head_valid_len c.head) c.frame_len n xs
      ≡ pull (take b.head_valid_len b.head) b.frame_len n xs
pull_same n xs s = λ i. pull (take (s.head_valid_len i) (s.head i)) (s.frame_len i) n xs

drain-zero : (b : StreamBuffer) → IsValid b → Drains 0 b (drain 0 b)
unfolding drain pull
drain-zero b v = record { pulled = refl; valid = v; same = same_config }

drain-suc :
    (n : ℕ) (b : StreamBuffer) (r : Option (List ℕ) × StreamBuffer)
    → get_next_frame b ≡ r
    → Takes (next (take b.head_valid_len b.head) b.frame_len) b r
    → ((c : StreamBuffer) → IsValid c → Drains n c (drain n c))
    → Drains (suc n) b (drain (suc n) b)
drain-suc n b (none, c) e t ih = rw (drain-none n b c e) (record {
  pulled = sym (
      pull-none (take b.head_valid_len b.head) b.frame_len n (contents b) (contents c)
        (sym t.returns));
  valid = t.valid;
  same = t.same;
})
drain-suc n b (some f, c) e t ih =
    let d = ih c t.valid in
    rw (drain-some n b c f e) (record {
      pulled =
          ap (λ (r : List (List ℕ) × List ℕ). (f ∷ r.0, r.1))
            (d.pulled ∙ pull_same n (contents c) t.same)
          ∙ sym (
              pull-some (take b.head_valid_len b.head) b.frame_len n (contents b) (contents c) f
                (sym t.returns));
      valid = d.valid;
      same = SameConfig-trans t.same d.same;
    })

-- The loop takes from a valid buffer the frames that `pull` takes from its bytes.
drain-Drains : (n : ℕ) (b : StreamBuffer) → IsValid b → Drains n b (drain n b)
drain-Drains zero b v = drain-zero b v
drain-Drains (suc n) b v =
    drain-suc n b (get_next_frame b) refl (get_next_frame-Takes v) (drain-Drains n)

-- Each chunk leaves room for the longest rest that the loop can leave behind.
abbrev pub Fit : ℕ → ℕ → List (List ℕ) → Type 0
Fit total longest [] = Unit {0}
Fit total longest (p ∷ ps) =
    (length p < total) × (length p + longest ≤ suc total) × Fit total longest ps

feed_cons :
    (b c : StreamBuffer) (p : List ℕ) (ps rest : List (List ℕ))
    → append b p ≡ some c
    → feed (drain (suc (length (contents c))) c).1 ps ≡ some rest
    → feed b (p ∷ ps) ≡ some ((drain (suc (length (contents c))) c).0 ++ rest)
unfolding feed
feed_cons b c p ps rest e f = rw (e, f)

-- After one chunk: what the loop returns and leaves, in terms of the bytes held before.
drain_chunk :
    {b c : StreamBuffer} (p : List ℕ)
    → Extends b p c
    → ((drain (suc (length (contents c))) c).0, contents (drain (suc (length (contents c))) c).1)
      ≡ pull
          (take b.head_valid_len b.head)
          b.frame_len
          (suc (length (contents b ++ p)))
          (contents b ++ p)
drain_chunk {b} {c} p x =
    (drain-Drains (suc (length (contents c))) c x.valid).pulled
    ∙ pull_same (suc (length (contents c))) (contents c) x.same
    ∙ ap (λ (xs : List ℕ). pull (take b.head_valid_len b.head) b.frame_len (suc (length xs)) xs)
        x.holds

module _ (header : List ℕ) (frame_len total : ℕ) (pos : 0 < frame_len) where
  -- The settings of the buffer, by themselves.
  record HasConfig (b : StreamBuffer) : Type 0 where
    head : take b.head_valid_len b.head ≡ header
    frame : b.frame_len ≡ frame_len
    size : b.total_buffer_len ≡ total

  HasConfig-same : {b c : StreamBuffer} → HasConfig b → SameConfig b c → HasConfig c
  HasConfig-same k s = record {
    head = (λ i. take (s.head_valid_len i) (s.head i)) ∙ k.head;
    frame = s.frame_len ∙ k.frame;
    size = s.total_buffer_len ∙ k.size;
  }

  feed-receive :
      (ps : List (List ℕ)) (b : StreamBuffer)
      → HasConfig b
      → IsValid b
      → length (contents b) < max frame_len (length header)
      → Fit total (max frame_len (length header)) ps
      → feed b ps ≡ some (receive header frame_len (contents b) ps)
  unfolding feed receive
  feed-receive [] b k v small fit = refl
  feed-receive (p ∷ ps) b k v small fit =
      let (c, e, x) =
        append-Extends b p v (omega (arith, fit.0, k.size))
          (omega (arith, fit.1, k.size, length-contents v)) in
      let fuel = suc (length (contents c)) in
      let d = drain-Drains fuel c x.valid in
      let eq =
        drain_chunk p x
        ∙ (λ i. pull (k.head i) (k.frame i) (suc (length (contents b ++ p))) (contents b ++ p)) in
      let short =
        length-pull-rest header frame_len pos (suc (length (contents b ++ p))) (contents b ++ p)
          (omega arith) in
      let ih =
        feed-receive ps (drain fuel c).1 (HasConfig-same (HasConfig-same k x.same) d.same) d.valid
          (rw (ap (λ (r : List (List ℕ) × List ℕ). r.1) eq) short) fit.2 in
      feed_cons b c p ps (receive header frame_len (contents (drain fuel c).1) ps) e ih
      ∙ ap (λ (r : List (List ℕ) × List ℕ). some (r.0 ++ receive header frame_len r.1 ps)) eq

contents_empty : (b : StreamBuffer) → b.start_pos ≡ b.end_pos → contents b ≡ []
contents_empty b e = ap (λ (n : ℕ). take n (drop b.start_pos b.data_buffer)) none_held
  where
    none_held : b.end_pos - b.start_pos ≡ 0
    none_held = omega (arith, e)

next_empty : (header : List ℕ) (n : ℕ) → 0 < n → (next header n []).0 ≡ none
next_empty header n pos = ap (λ (r : Option (List ℕ) × List ℕ). r.0) (next_short header n [] pos)

-- From a valid buffer that holds no bytes, with a positive frame length, chunks that each leave
-- room for the longest rest yield exactly the frames that are cut from the whole stream, however it
-- is divided into chunks; no write leaves the array.
pub feed-all_frames :
    (b : StreamBuffer) (ps : List (List ℕ))
    → IsValid b
    → b.start_pos ≡ b.end_pos
    → 0 < b.frame_len
    → Fit b.total_buffer_len (max b.frame_len b.head_valid_len) ps
    → feed b ps ≡ some (all_frames (take b.head_valid_len b.head) b.frame_len (concat ps))
feed-all_frames b ps v empty pos fit =
    feed-receive header b.frame_len b.total_buffer_len pos ps b
      (record { head = refl; frame = refl; size = refl }) v
      (rw (contents_empty b empty) (omega arith)) (rw sized fit)
    ∙ ap (λ (xs : List ℕ). some (receive header b.frame_len xs ps)) (contents_empty b empty)
    ∙ ap some
        (receive-eq-all_frames header b.frame_len pos [] ps (next_empty header b.frame_len pos))
  where
    header : List ℕ
    header = take b.head_valid_len b.head

    sized : length header ≡ b.head_valid_len
    sized = omega (arith, length-take b.head_valid_len b.head, v.headed)
