-- ===== src/StreamBuffer/Tests.antt =====
-- The theorems on stream buffers at small ones.
use octcommu.Shared.{
  ℕ, ◌+◌, ◌-◌, ◌<◌, ◌≡◌, refl, List, [], ◌∷◌, some, none, ◌↔◌, map, length, replicate, arith, take,
  pos,
}
use octcommu.StreamBuffer.{StreamBuffer, append, get_next_frame, init}
use octcommu.StreamBuffer.Valid.{IsValid}
use octcommu.StreamBuffer.Append.{append-none_iff}
use octcommu.StreamBuffer.Framing.{next}
use octcommu.StreamBuffer.Framing.Chunks.{concat, all_frames}
use octcommu.StreamBuffer.Refine.{Takes}
use octcommu.StreamBuffer.Frames.{get_next_frame-Takes}
use octcommu.StreamBuffer.Stream.{feed, feed-all_frames}
use octcommu.StreamBuffer.Configured.{feed-init}

-- A buffer of 8 bytes for frames of 3 bytes that begin with 170.
abbrev buffer : StreamBuffer
buffer = record {
  head = 170 ∷ replicate 63 0;
  head_valid_len = 1;
  frame_len = 3;
  data_buffer = replicate 8 0;
  start_pos = 0;
  end_pos = 0;
  total_buffer_len = 8;
}

-- With 5 bytes held, which begin at 1.
abbrev loaded : StreamBuffer
loaded = record buffer {
  data_buffer = 9 ∷ 9 ∷ 170 ∷ 1 ∷ 2 ∷ 170 ∷ 0 ∷ 0 ∷ [];
  start_pos = 1;
  end_pos = 6;
}

buffer-IsValid : IsValid buffer
buffer-IsValid = record {
  sized = refl;
  ordered = omega arith;
  within = omega arith;
  headed = omega arith;
}

loaded-IsValid : IsValid loaded
loaded-IsValid = record {
  sized = refl;
  ordered = omega arith;
  within = omega arith;
  headed = omega arith;
}

-- A header text stands for its number of parts, and each part for 170.
abbrev parts : ℕ → List ℕ
parts n = replicate n 170

abbrev value : ℕ → ℕ
value n = n

feed-all_frames_example :
    feed buffer ((7 ∷ 170 ∷ 1 ∷ []) ∷ (2 ∷ 170 ∷ 3 ∷ 4 ∷ []) ∷ [])
    ≡ some (
        all_frames
          (take 1 buffer.head)
          3
          (concat ((7 ∷ 170 ∷ 1 ∷ []) ∷ (2 ∷ 170 ∷ 3 ∷ 4 ∷ []) ∷ [])))
feed-all_frames_example =
    feed-all_frames buffer ((7 ∷ 170 ∷ 1 ∷ []) ∷ (2 ∷ 170 ∷ 3 ∷ 4 ∷ []) ∷ []) buffer-IsValid refl
      (omega arith) (omega arith, omega arith, (omega arith, omega arith, tt))

feed-init_example :
    feed (init ℕ parts value buffer 2 (pos 4)).1 ((1 ∷ 170 ∷ 170 ∷ []) ∷ (5 ∷ 6 ∷ []) ∷ [])
    ≡ some (all_frames (map value (parts 2)) 4 (concat ((1 ∷ 170 ∷ 170 ∷ []) ∷ (5 ∷ 6 ∷ []) ∷ [])))
feed-init_example =
    feed-init ℕ parts value buffer 2 3 ((1 ∷ 170 ∷ 170 ∷ []) ∷ (5 ∷ 6 ∷ []) ∷ []) buffer-IsValid
      refl (omega arith) (omega arith, omega arith, (omega arith, omega arith, tt))

get_next_frame-Takes_example : Takes (next (take 1 loaded.head) 3) loaded (get_next_frame loaded)
get_next_frame-Takes_example = get_next_frame-Takes loaded-IsValid

abbrev four : List ℕ
four = 3 ∷ 4 ∷ 5 ∷ 6 ∷ []

append-none_iff_example :
    (append loaded four ≡ none) ↔ ((length four < 8) × (8 < 6 - 1 + length four))
append-none_iff_example = append-none_iff loaded four loaded-IsValid
