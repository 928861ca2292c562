-- ===== src/StreamBuffer/Refine.antt =====
-- The search for a header, beside `Framing.skip` on the bytes that the buffer holds.
use octcommu.Shared.{
  ℕ, zero, suc, ◌+◌, ◌-◌, ◌≤◌, ◌<◌, ◌≡◌, refl, sym, ◌∙◌, ap, Bool, true, false, Option, none, some,
  List, [], ◌∷◌, arith, length, ltb, take, drop, slice, same_bytes, Bool-cases, length-take,
  length-slice, drop-drop, drop-take, take-take, inl, inr, ◌==◌,
}
use octcommu.StreamBuffer.{StreamBuffer, scan, find_start_frame_header_pos, take_frame}
use octcommu.StreamBuffer.Valid.{IsValid, contents, length-contents}
use octcommu.StreamBuffer.Append.{SameConfig}
use octcommu.StreamBuffer.Framing.{skip, cut}

-- The three ways in which `skip` goes on, for bytes that are not known as a list.
skip_short : (header xs : List ℕ) → length xs < length header → skip header xs ≡ (false, xs)
unfolding skip
skip_short [] xs h = absurd (omega arith)
skip_short (b ∷ bs) [] h = refl
skip_short (b ∷ bs) (x ∷ xs) h = ground arith

skip_hit :
    (header xs : List ℕ)
    → same_bytes (take (length header) xs) header ≡ true
    → length header ≤ length xs
    → skip header xs ≡ (true, xs)
unfolding skip
skip_hit [] [] h p = refl
skip_hit (b ∷ bs) [] h p = absurd (omega arith)
skip_hit header (x ∷ xs) h p = ground arith

skip_miss :
    (header xs : List ℕ)
    → same_bytes (take (length header) xs) header ≡ false
    → length header ≤ length xs
    → skip header xs ≡ skip header (drop 1 xs)
unfolding skip
skip_miss [] [] h p = cc
skip_miss (b ∷ bs) [] h p = absurd (omega arith)
skip_miss header (x ∷ xs) h p = ground arith

-- The bytes from `at` up to `stop`.
abbrev between : List ℕ → ℕ → ℕ → List ℕ
between buffer at stop = slice buffer at (stop - at)

module _ (buffer header : List ℕ) (stop : ℕ) (pos : 0 < length header)
    (fits : stop ≤ length buffer) where
  length-between : (at : ℕ) → at ≤ stop → length (between buffer at stop) ≡ stop - at
  length-between at h = length-slice buffer at (stop - at) (omega arith)

  drop-between :
      (at : ℕ) → at < stop → drop 1 (between buffer at stop) ≡ between buffer (at + 1) stop
  drop-between at h =
      drop-take 1 (stop - (at + 1)) (stop - at) (drop at buffer) (omega arith)
      ∙ ap (take (stop - (at + 1))) (drop-drop at 1 (at + 1) buffer refl)

  window :
      (at : ℕ)
      → at + length header ≤ stop
      → take (length header) (between buffer at stop) ≡ slice buffer at (length header)
  window at h = take-take (length header) (stop - at) (drop at buffer) (omega arith)

  -- The position that the loop leaves, and the bytes from there on.
  pub scan-skip :
      (rounds at : ℕ)
      → at ≤ stop
      → rounds ≡ stop + 1 - (at + length header)
      → (((scan buffer header rounds at).0, between buffer (scan buffer header rounds at).1 stop)
          ≡ skip header (between buffer at stop))
        × (at ≤ (scan buffer header rounds at).1)
        × ((scan buffer header rounds at).1 ≤ stop)
  unfolding scan
  scan-skip zero at h e = (
    sym (skip_short header (between buffer at stop) (omega (arith, length-between at h))),
    omega arith,
    h,
  )
  scan-skip (suc rounds) at h e =
      elim (Bool-cases (same_bytes (slice buffer at (length header)) header)) [
        | inl hit ↦ (
          rw (hit, scan)
              (sym (
                skip_hit header (between buffer at stop) (rw (window at (omega arith)) hit)
                  (omega (arith, length-between at h)))),
          rw (hit, scan) (omega arith),
          rw (hit, scan) h,
        )
        | inr miss ↦
            let (eq, low, high) = scan-skip rounds (at + 1) (omega arith) (omega arith) in
            (
              rw (miss, scan)
                  (eq
                    ∙ ap (skip header) (sym (drop-between at (omega arith)))
                    ∙ sym (
                        skip_miss header (between buffer at stop)
                          (rw (window at (omega arith)) miss)
                          (omega (arith, length-between at h)))),
              rw (miss, scan) (omega arith),
              rw (miss, scan) high,
            )
      ]

skip_no_header : (n : ℕ) (head xs : List ℕ) → n ≡ 0 → skip (take n head) xs ≡ (true, xs)
skip_no_header zero head xs e = skip_hit [] xs refl (omega arith)
skip_no_header (suc n) head xs e = absurd (omega arith)

-- The result of the search, beside what `skip` finds in the bytes held.
pub record Finds (b : StreamBuffer) (r : Bool × StreamBuffer) : Type 0 where
  pub found : (r.0, contents r.1) ≡ skip (take b.head_valid_len b.head) (contents b)
  pub valid : IsValid r.1
  pub same : SameConfig b r.1

scan-Finds :
    {b : StreamBuffer}
    → IsValid b
    → 0 < b.head_valid_len
    → let r =
        scan b.data_buffer
          (take b.head_valid_len b.head)
          (b.end_pos + 1 - (b.start_pos + b.head_valid_len))
          b.start_pos in
      Finds b (r.0, record b { start_pos = r.1 })
scan-Finds {b} v pos =
    let header = take b.head_valid_len b.head in
    let sized : length header ≡ b.head_valid_len =
      omega (arith, length-take b.head_valid_len b.head, v.headed) in
    let (eq, low, high) =
      scan-skip b.data_buffer header b.end_pos (omega (arith, sized))
        (omega (arith, v.sized, v.within)) (b.end_pos + 1 - (b.start_pos + b.head_valid_len))
        b.start_pos v.ordered (omega (arith, sized)) in
    record {
      found = eq;
      valid = record { sized = v.sized; ordered = high; within = v.within; headed = v.headed };
      same = record {
        head = refl;
        head_valid_len = refl;
        frame_len = refl;
        total_buffer_len = refl;
      };
    }

pub find-Finds : {b : StreamBuffer} → IsValid b → Finds b (find_start_frame_header_pos b)
unfolding find_start_frame_header_pos
find-Finds {b} v = elim (Bool-cases (b.head_valid_len == 0)) [
  | inl none_set ↦
      rw (none_set, find_start_frame_header_pos)
        (record {
          found = sym (skip_no_header b.head_valid_len b.head (contents b) (ground arith));
          valid = v;
          same = record {
            head = refl;
            head_valid_len = refl;
            frame_len = refl;
            total_buffer_len = refl;
          };
        })
  | inr set ↦ rw (set, find_start_frame_header_pos) (scan-Finds v (ground arith))
]

-- The result of a call that takes a frame, beside what `f` gives for the bytes held.
pub record Takes (f : List ℕ → Option (List ℕ) × List ℕ) (b : StreamBuffer)
    (r : Option (List ℕ) × StreamBuffer) : Type 0 where
  pub returns : (r.0, contents r.1) ≡ f (contents b)
  pub valid : IsValid r.1
  pub same : SameConfig b r.1

pub same_config : {b : StreamBuffer} → SameConfig b b
same_config = record {
  head = refl;
  head_valid_len = refl;
  frame_len = refl;
  total_buffer_len = refl;
}

cut_short : (n : ℕ) (xs : List ℕ) → length xs < n → cut n xs ≡ (none, xs)
unfolding cut
cut_short n xs h = ground arith

cut_long : (n : ℕ) (xs : List ℕ) → n ≤ length xs → cut n xs ≡ (some (take n xs), drop n xs)
unfolding cut
cut_long n xs h = ground arith

pub take_frame-Takes : {b : StreamBuffer} → IsValid b → Takes (cut b.frame_len) b (take_frame b)
unfolding take_frame
take_frame-Takes {b} v = elim (Bool-cases (ltb b.end_pos (b.start_pos + b.frame_len))) [
  | inl short ↦
      rw (short, take_frame)
        (record {
          returns =
              sym (cut_short b.frame_len (contents b) (ground (arith, length-contents v, short)));
          valid = v;
          same = same_config;
        })
  | inr long ↦
      rw (long, take_frame)
        (record {
          returns = sym (
              cut_long b.frame_len (contents b) (ground (arith, length-contents v))
              ∙ parts (ground arith));
          valid = record {
            sized = v.sized;
            ordered = ground arith;
            within = v.within;
            headed = v.headed;
          };
          same = record {
            head = refl;
            head_valid_len = refl;
            frame_len = refl;
            total_buffer_len = refl;
          };
        })
]
  where
    parts :
        b.start_pos + b.frame_len ≤ b.end_pos
        → ◌≡◌ {A = Option (List ℕ) × List ℕ}
            (some (take b.frame_len (contents b)), drop b.frame_len (contents b))
            (
              some (slice b.data_buffer b.start_pos b.frame_len),
              between b.data_buffer (b.start_pos + b.frame_len) b.end_pos,
            )
    parts h = λ i. (
      some (
          take-take b.frame_len (b.end_pos - b.start_pos) (drop b.start_pos b.data_buffer)
            (omega arith) i),
      (drop-take b.frame_len (b.end_pos - (b.start_pos + b.frame_len)) (b.end_pos - b.start_pos)
              (drop b.start_pos b.data_buffer) (omega arith)
            ∙ ap (take (b.end_pos - (b.start_pos + b.frame_len)))
                (drop-drop b.start_pos b.frame_len (b.start_pos + b.frame_len) b.data_buffer refl))
          i,
    )
