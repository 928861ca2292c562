-- ===== src/StreamBuffer/Configured.antt =====
-- `init`, and then a stream in chunks.
use octcommu.Shared.{ℕ, suc, ◌≤◌, ◌≡◌, ◌∙◌, some, List, map, max, length, pos, arith}
use octcommu.StreamBuffer.{StreamBuffer, frame_head_len, init}
use octcommu.StreamBuffer.Valid.{IsValid}
use octcommu.StreamBuffer.Header.{init-IsReady, length-map}
use octcommu.StreamBuffer.Framing.Chunks.{all_frames, concat}
use octcommu.StreamBuffer.Stream.{feed, Fit, feed-all_frames}

module _ (Text : Type 0) (str_split : Text → List Text) (hex_byte : Text → ℕ) where
  -- A valid buffer with a header array of 64 bytes, set up by `init` with at most 64 header parts
  -- and a positive frame length, fed in chunks that each leave room for the longest rest, yields
  -- the frames of the whole stream for that header.
  pub feed-init :
      (b : StreamBuffer) (sp_head : Text) (n : ℕ) (ps : List (List ℕ))
      → IsValid b
      → length b.head ≡ frame_head_len
      → length (str_split sp_head) ≤ frame_head_len
      → Fit b.total_buffer_len (max (suc n) (length (str_split sp_head))) ps
      → feed (init Text str_split hex_byte b sp_head (pos (suc n))).1 ps
        ≡ some (all_frames (map hex_byte (str_split sp_head)) (suc n) (concat ps))
  feed-init b sp_head n ps v sized few fit =
      let (_, ready, total) = init-IsReady Text str_split hex_byte b sp_head n v sized few in
      let c = (init Text str_split hex_byte b sp_head (pos (suc n))).1 in
      feed-all_frames c ps ready.valid ready.empty (omega (arith, ready.frame_set)) (
        rw
          (
            total,
            ready.frame_set,
            ready.length_set,
            length-map Text str_split hex_byte (str_split sp_head),
          )
          fit)
      ∙ λ i. some (all_frames (ready.header_set i) (ready.frame_set i) (concat ps))
