-- ===== src/StreamBuffer/Framing/Chunks.antt =====
-- Cutting a stream that arrives in chunks.
use octcommu.Shared.{
  ℕ, zero, suc, ◌<◌, ◌≡◌, refl, sym, ◌∙◌, ap, Option, none, some, List, [], ◌∷◌, ◌++◌, arith,
  length, append-nil, append_assoc, inl, inr, ◌⊎◌, max,
}
use octcommu.StreamBuffer.Framing.{
  next, pull, frames, next-append_some, next-append_none, next_shrinks, next-none_again,
  length-next-none,
}

-- All frames of some bytes.
pub all_frames : List ℕ → ℕ → List ℕ → List (List ℕ)
all_frames header frame_len xs = frames header frame_len (suc (length xs)) xs

-- A receiver that pulls all frames after each chunk, and keeps what is left for the next one.
unfoldable pub receive : List ℕ → ℕ → List ℕ → List (List ℕ) → List (List ℕ)
receive header frame_len held [] = []
receive header frame_len held (p ∷ ps) =
    let (fs, rest) = pull header frame_len (suc (length (held ++ p))) (held ++ p) in
    fs ++ receive header frame_len rest ps

pub concat : List (List ℕ) → List ℕ
concat [] = []
concat (p ∷ ps) = p ++ concat ps

module _ (header : List ℕ) (frame_len : ℕ) where
  abbrev Cuts : List ℕ → Type 0
  Cuts xs =
      ((ys : List ℕ) × (next header frame_len xs ≡ (none, ys)))
      ⊎ ((f : List ℕ) × (ys : List ℕ) × (next header frame_len xs ≡ (some f, ys)))

  next-cases : (xs : List ℕ) → Cuts xs
  next-cases xs = split (next header frame_len xs) refl
    where
      split : (r : Option (List ℕ) × List ℕ) → next header frame_len xs ≡ r → Cuts xs
      split (none, ys) e = inl (ys, e)
      split (some f, ys) e = inr (f, ys, e)

  pub pull-none :
      (n : ℕ) (xs ys : List ℕ)
      → next header frame_len xs ≡ (none, ys)
      → pull header frame_len (suc n) xs ≡ ([], ys)
  unfolding pull
  pull-none n xs ys e = ground arith

  pub pull-some :
      (n : ℕ) (xs ys f : List ℕ)
      → next header frame_len xs ≡ (some f, ys)
      → pull header frame_len (suc n) xs
        ≡ (f ∷ (pull header frame_len n ys).0, (pull header frame_len n ys).1)
  unfolding pull
  pull-some n xs ys f e = ground arith

  module _ (pos : 0 < frame_len) where
    -- More fuel than bytes is enough fuel.
    pull_fuel :
        (n m : ℕ) (xs : List ℕ)
        → length xs < n
        → length xs < m
        → pull header frame_len n xs ≡ pull header frame_len m xs
    pull_fuel zero m xs p q = absurd (omega arith)
    pull_fuel (suc n) zero xs p q = absurd (omega arith)
    pull_fuel (suc n) (suc m) xs p q = elim (next-cases xs) [
      | inl (ys, e) ↦ pull-none n xs ys e ∙ sym (pull-none m xs ys e)
      | inr (f, ys, e) ↦
          let small = next_shrinks header frame_len xs f ys pos e in
          let ih = pull_fuel n m ys (omega arith) (omega arith) in
          pull-some n xs ys f e
          ∙ ap (λ (r : List (List ℕ) × List ℕ). (f ∷ r.0, r.1)) ih
          ∙ sym (pull-some m xs ys f e)
    ]

    pub pull-rest_none :
        (n : ℕ) (xs : List ℕ)
        → length xs < n
        → (next header frame_len (pull header frame_len n xs).1).0 ≡ none
    pull-rest_none zero xs h = absurd (omega arith)
    pull-rest_none (suc n) xs h = elim (next-cases xs) [
      | inl (ys, e) ↦ rw (pull-none n xs ys e) (next-none_again header frame_len xs ys e)
      | inr (f, ys, e) ↦
          let small = next_shrinks header frame_len xs f ys pos e in
          rw (pull-some n xs ys f e) (pull-rest_none n ys (omega arith))
    ]

    -- What is left is shorter than a frame or than the header.
    pub length-pull-rest :
        (n : ℕ) (xs : List ℕ)
        → length xs < n
        → length (pull header frame_len n xs).1 < max frame_len (length header)
    length-pull-rest zero xs h = absurd (omega arith)
    length-pull-rest (suc n) xs h = elim (next-cases xs) [
      | inl (ys, e) ↦ rw (pull-none n xs ys e) (length-next-none header frame_len xs ys e)
      | inr (f, ys, e) ↦
          let small = next_shrinks header frame_len xs f ys pos e in
          rw (pull-some n xs ys f e) (length-pull-rest n ys (omega arith))
    ]

    all_frames-none :
        (xs : List ℕ) → (next header frame_len xs).0 ≡ none → all_frames header frame_len xs ≡ []
    unfolding all_frames frames
    all_frames-none xs h = elim (next-cases xs) [
      | inl (ys, e) ↦ ap (λ (r : List (List ℕ) × List ℕ). r.0) (pull-none (length xs) xs ys e)
      | inr (f, ys, e) ↦ cc
    ]

    all_frames-some :
        (xs f ys : List ℕ)
        → next header frame_len xs ≡ (some f, ys)
        → all_frames header frame_len xs ≡ f ∷ all_frames header frame_len ys
    unfolding all_frames frames
    all_frames-some xs f ys e =
        let small = next_shrinks header frame_len xs f ys pos e in
        ap (λ (r : List (List ℕ) × List ℕ). r.0) (pull-some (length xs) xs ys f e)
        ∙ ap (λ (r : List (List ℕ) × List ℕ). f ∷ r.0)
            (pull_fuel (length xs) (suc (length ys)) ys small (omega arith))

    all_frames_of_next :
        (xs ys : List ℕ)
        → next header frame_len xs ≡ next header frame_len ys
        → all_frames header frame_len xs ≡ all_frames header frame_len ys
    all_frames_of_next xs ys h = elim (next-cases ys) [
      | inl (zs, e) ↦
          all_frames-none xs (ap (λ (r : Option (List ℕ) × List ℕ). r.0) (h ∙ e))
          ∙ sym (all_frames-none ys (ap (λ (r : Option (List ℕ) × List ℕ). r.0) e))
      | inr (f, zs, e) ↦ all_frames-some xs f zs (h ∙ e) ∙ sym (all_frames-some ys f zs e)
    ]

    -- Pulling in two goes, with bytes that come in between, gives the same frames.
    all_frames-append :
        (n : ℕ) (xs zs : List ℕ)
        → length xs < n
        → all_frames header frame_len (xs ++ zs)
          ≡ (pull header frame_len n xs).0
            ++ all_frames header frame_len ((pull header frame_len n xs).1 ++ zs)
    all_frames-append zero xs zs h = absurd (omega arith)
    all_frames-append (suc n) xs zs h = elim (next-cases xs) [
      | inl (ys, e) ↦
          rw (pull-none n xs ys e) (elim (next-append_none header frame_len xs zs ys e) [
            | inl same ↦ all_frames_of_next (xs ++ zs) (ys ++ zs) same
            | inr (p, q) ↦ all_frames-none (xs ++ zs) p ∙ sym (all_frames-none (ys ++ zs) q)
          ])
      | inr (f, ys, e) ↦
          let small = next_shrinks header frame_len xs f ys pos e in
          rw (pull-some n xs ys f e) (
            all_frames-some (xs ++ zs) f (ys ++ zs) (next-append_some header frame_len xs zs f ys e)
            ∙ ap (◌∷◌ f) (all_frames-append n ys zs (omega arith)))
    ]

    pub receive-eq-all_frames :
        (held : List ℕ) (ps : List (List ℕ))
        → (next header frame_len held).0 ≡ none
        → receive header frame_len held ps ≡ all_frames header frame_len (held ++ concat ps)
    unfolding receive concat
    receive-eq-all_frames held [] h = rw append-nil (sym (all_frames-none held h))
    receive-eq-all_frames held (p ∷ ps) h =
        let fuel = suc (length (held ++ p)) in
        let ih =
          receive-eq-all_frames (pull header frame_len fuel (held ++ p)).1 ps
            (pull-rest_none fuel (held ++ p) (omega arith)) in
        ap (◌++◌ (pull header frame_len fuel (held ++ p)).0) ih
        ∙ sym (all_frames-append fuel (held ++ p) (concat ps) (omega arith))
        ∙ ap (all_frames header frame_len) (append_assoc held p (concat ps))
