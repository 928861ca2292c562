-- ===== src/StreamBuffer/Header.antt =====
-- `init`: the header text and the header's bytes.
use octcommu.Shared.{
  ℕ, suc, ◌+◌, ◌≤◌, ◌<◌, ◌≡◌, refl, sym, ◌∙◌, ap, true, List, [], ◌∷◌, ◌++◌, map, arith, length,
  take, ltb, false, overwrite, length-overwrite, take-overwrite, append_assoc, append-nil, pos,
}
use octcommu.StreamBuffer.{StreamBuffer, frame_head_len, init, fill_head}
use octcommu.StreamBuffer.Valid.{IsValid}

module _ (Text : Type 0) (str_split : Text → List Text) (hex_byte : Text → ℕ) where
  pub length-map : (items : List Text) → length (map hex_byte items) ≡ length items
  length-map [] = refl
  length-map (x ∷ xs) = ap suc (length-map xs)

  length-fill_head :
      (head : List ℕ) (index : ℕ) (items : List Text)
      → length (fill_head Text str_split hex_byte head index items).0 ≡ length head
  unfolding fill_head
  length-fill_head head index [] = refl
  length-fill_head head index (item ∷ items) =
      length-fill_head (overwrite head index (hex_byte item ∷ [])) (index + 1) items
      ∙ length-overwrite head index (hex_byte item ∷ [])

  index-fill_head :
      (head : List ℕ) (index : ℕ) (items : List Text)
      → (fill_head Text str_split hex_byte head index items).1 ≡ index + length items
  unfolding fill_head
  index-fill_head head index [] = omega arith
  index-fill_head head index (item ∷ items) =
      omega (arith, index-fill_head (overwrite head index (hex_byte item ∷ [])) (index + 1) items)

  -- The parts' bytes stand behind the bytes that stood below the index.
  take-fill_head :
      (head : List ℕ) (index k : ℕ) (items : List Text)
      → k ≡ index + length items
      → k ≤ length head
      → take k (fill_head Text str_split hex_byte head index items).0
        ≡ take index head ++ map hex_byte items
  unfolding fill_head
  take-fill_head head index k [] e h =
      ap (λ (n : ℕ). take n head) {x = k} {y = index} (omega arith)
      ∙ sym (append-nil (take index head))
  take-fill_head head index k (item ∷ items) e h =
      take-fill_head (overwrite head index (hex_byte item ∷ [])) (index + 1) k items (omega arith)
        (omega (arith, length-overwrite head index (hex_byte item ∷ [])))
      ∙ ap (λ (xs : List ℕ). xs ++ map hex_byte items)
          (take-overwrite head index (index + 1) (hex_byte item ∷ []) (omega arith) (omega arith))
      ∙ append_assoc (take index head) (hex_byte item ∷ []) (map hex_byte items)

  -- What a successful `init` sets up: no bytes are held, and the header and frame length are as
  -- given.
  pub record IsReady (header : List ℕ) (frame_len : ℕ) (c : StreamBuffer) : Type 0 where
    pub valid : IsValid c
    pub empty : c.start_pos ≡ c.end_pos
    pub header_set : take c.head_valid_len c.head ≡ header
    pub length_set : c.head_valid_len ≡ length header
    pub frame_set : c.frame_len ≡ frame_len

  -- On a valid buffer with a header array of 64 bytes, `init` with at most 64 parts and a positive
  -- frame length returns `true`, holds no bytes, and has set the header to the parts' values and
  -- the frame length to the one given.
  pub init-IsReady :
      (b : StreamBuffer) (sp_head : Text) (n : ℕ)
      → IsValid b
      → length b.head ≡ frame_head_len
      → length (str_split sp_head) ≤ frame_head_len
      → let r = init Text str_split hex_byte b sp_head (pos (suc n)) in
        (r.0 ≡ true)
        × IsReady (map hex_byte (str_split sp_head)) (suc n) r.1
        × (r.1.total_buffer_len ≡ b.total_buffer_len)
  unfolding init
  init-IsReady b sp_head n v sized fits = rw within (
    refl,
    record {
      valid = record {
        sized = v.sized;
        ordered = omega arith;
        within = omega arith;
        headed = omega (arith, index, length-fill_head b.head 0 (str_split sp_head));
      };
      empty = refl;
      header_set =
          take-fill_head b.head 0 (fill_head Text str_split hex_byte b.head 0 (str_split sp_head)).1
            (str_split sp_head) index (omega (arith, index));
      length_set = omega (arith, index, length-map (str_split sp_head));
      frame_set = refl;
    },
    refl,
  )
    where
      within : ltb frame_head_len (length (str_split sp_head)) ≡ false
      within = ground arith

      index :
          (fill_head Text str_split hex_byte b.head 0 (str_split sp_head)).1
          ≡ 0 + length (str_split sp_head)
      index = index-fill_head b.head 0 (str_split sp_head)

  -- A header with more than 64 parts is taken for a success: `init` returns `true` and has set
  -- nothing, for every positive frame length.
  pub init_too_long :
      (b : StreamBuffer) (sp_head : Text) (n : ℕ)
      → frame_head_len < length (str_split sp_head)
      → init Text str_split hex_byte b sp_head (pos (suc n)) ≡ (true, b)
  unfolding init
  init_too_long b sp_head n h = ground arith
