-- ===== src/StreamBuffer/Framing.antt =====
-- Cutting a stream into frames, on the bytes alone: no positions, no buffer, no chunks.
pub mod Chunks
use octcommu.Shared.{
  ℕ, zero, suc, ◌+◌, ◌-◌, ◌≤◌, ◌<◌, ◌≡◌, refl, ◌∙◌, ap, Bool, true, false, Option, none, some, List,
  [], ◌∷◌, ◌++◌, arith, length, ltb, take, drop, same_bytes, if◌then◌else◌, Bool-cases,
  length-append, max, length-drop, take-append_le, drop-append_le, append_assoc, inl, inr, ◌⊎◌,
}

-- Bytes are dropped until the header stands in front, or until too few are left for it.
unfoldable pub skip : List ℕ → List ℕ → Bool × List ℕ
skip header [] = (same_bytes [] header, [])
skip header (x ∷ xs) =
    let rest = skip header xs in
    if ltb (length (x ∷ xs)) (length header)
    then (false, x ∷ xs)
    else if same_bytes (take (length header) (x ∷ xs)) header
    then (true, x ∷ xs)
    else rest

-- The frame at the front, if the bytes hold it whole.
unfoldable pub cut : ℕ → List ℕ → Option (List ℕ) × List ℕ
cut frame_len xs =
    if ltb (length xs) frame_len then (none, xs) else (some (take frame_len xs), drop frame_len xs)

-- The next frame and the bytes behind it.
pub next : List ℕ → ℕ → List ℕ → Option (List ℕ) × List ℕ
next header frame_len xs =
    if ltb (length xs) frame_len
    then (none, xs)
    else (let (found, ys) = skip header xs in if found then cut frame_len ys else (none, ys))

-- All frames, and the bytes that are left; the fuel bounds their number.
unfoldable pub pull : List ℕ → ℕ → ℕ → List ℕ → List (List ℕ) × List ℕ
pull header frame_len zero xs = ([], xs)
pull header frame_len (suc fuel) xs =
    let (o, ys) = next header frame_len xs in
    elim o [
      | none ↦ ([], ys)
      | some f ↦ (let (fs, rest) = pull header frame_len fuel ys in (f ∷ fs, rest))
    ]

pub frames : List ℕ → ℕ → ℕ → List ℕ → List (List ℕ)
frames header frame_len fuel xs = (pull header frame_len fuel xs).0

skip-nil : (xs : List ℕ) → skip [] xs ≡ (true, xs)
unfolding skip
skip-nil [] = refl
skip-nil (x ∷ xs) = ground arith

skip_empty :
    (header ys zs : List ℕ) → skip header [] ≡ (true, zs) → skip header ys ≡ (true, zs ++ ys)
unfolding skip
skip_empty [] ys zs h = ground (arith, skip-nil ys)
skip_empty (b ∷ bs) ys zs h = cc

-- What stands in front of a header found stays skipped, whatever follows.
skip-append_found :
    (header xs ys zs : List ℕ)
    → skip header xs ≡ (true, zs)
    → skip header (xs ++ ys) ≡ (true, zs ++ ys)
unfolding skip
skip-append_found header [] ys zs h = skip_empty header ys zs h
skip-append_found header (x ∷ xs) ys zs h = ground (
  arith,
  length-append xs ys,
  take-append_le (length header) (x ∷ xs) ys,
  skip-append_found header xs ys zs,
)

-- Where no header was found, what is left can be searched again once more bytes are there.
skip-append_missed :
    (header xs ys zs : List ℕ)
    → skip header xs ≡ (false, zs)
    → skip header (xs ++ ys) ≡ skip header (zs ++ ys)
unfolding skip
skip-append_missed header [] ys zs h = ground arith
skip-append_missed header (x ∷ xs) ys zs h = ground (
  arith,
  length-append xs ys,
  take-append_le (length header) (x ∷ xs) ys,
  skip-append_missed header xs ys zs,
)

-- A header that was found stands in front.
skip_again : (header xs zs : List ℕ) → skip header xs ≡ (true, zs) → skip header zs ≡ (true, zs)
unfolding skip
skip_again header [] zs h = ground arith
skip_again header (x ∷ xs) zs h = ground (arith, skip_again header xs zs)

skip_missed_again :
    (header xs zs : List ℕ) → skip header xs ≡ (false, zs) → skip header zs ≡ (false, zs)
unfolding skip
skip_missed_again header [] zs h = ground arith
skip_missed_again header (x ∷ xs) zs h = ground (arith, skip_missed_again header xs zs)

length-skip : (header xs : List ℕ) → length (skip header xs).1 ≤ length xs
unfolding skip
length-skip header [] = omega arith
length-skip header (x ∷ xs) = ground (arith, length-skip header xs)

pub length-next :
    (header : List ℕ) (frame_len : ℕ) (xs : List ℕ)
    → length (next header frame_len xs).1 ≤ length xs
unfolding next cut
length-next header frame_len xs =
    ground (arith, length-skip header xs, length-drop frame_len (skip header xs).1)

-- A frame that is cut from some bytes is cut from them whatever follows.
pub next-append_some :
    (header : List ℕ) (frame_len : ℕ) (xs ys f zs : List ℕ)
    → next header frame_len xs ≡ (some f, zs)
    → next header frame_len (xs ++ ys) ≡ (some f, zs ++ ys)
unfolding next cut
next-append_some header frame_len xs ys f zs h = ground (
  arith,
  length-append xs ys,
  skip-append_found header xs ys (skip header xs).1,
  length-append (skip header xs).1 ys,
  take-append_le frame_len (skip header xs).1 ys,
  drop-append_le frame_len (skip header xs).1 ys,
)

-- Where no frame was cut, later bytes give the same frame from what is left as from all of it; and
-- the bytes left behind a frame are the same too.
pub next-append_none :
    (header : List ℕ) (frame_len : ℕ) (xs ys zs : List ℕ)
    → next header frame_len xs ≡ (none, zs)
    → (next header frame_len (xs ++ ys) ≡ next header frame_len (zs ++ ys))
      ⊎ (((next header frame_len (xs ++ ys)).0 ≡ none)
          × ((next header frame_len (zs ++ ys)).0 ≡ none))
unfolding next cut
next-append_none header frame_len xs ys zs h = ground (
  arith,
  length-append xs ys,
  length-append zs ys,
  length-skip header xs,
  length-skip header (zs ++ ys),
  skip-append_found header xs ys (skip header xs).1,
  skip_again header xs (skip header xs).1,
  skip-append_found header zs ys zs,
  skip-append_missed header xs ys zs,
)

pub next_shrinks :
    (header : List ℕ) (frame_len : ℕ) (xs f zs : List ℕ)
    → 0 < frame_len
    → next header frame_len xs ≡ (some f, zs)
    → length zs < length xs
unfolding next cut
next_shrinks header frame_len xs f zs pos h =
    ground (arith, length-skip header xs, length-drop frame_len (skip header xs).1)

pub next-none_again :
    (header : List ℕ) (frame_len : ℕ) (xs zs : List ℕ)
    → next header frame_len xs ≡ (none, zs)
    → (next header frame_len zs).0 ≡ none
unfolding next cut
next-none_again header frame_len xs zs h = ground (
  arith,
  skip_again header xs (skip header xs).1,
  length-skip header zs,
  length-skip header xs,
  skip_missed_again header xs zs,
)

-- What `next` does once the header is found, or is not.
pub next_found :
    (header : List ℕ) (frame_len : ℕ) (xs ys : List ℕ)
    → frame_len ≤ length xs
    → skip header xs ≡ (true, ys)
    → next header frame_len xs ≡ cut frame_len ys
unfolding next
next_found header frame_len xs ys h e = ground arith

pub next_missed :
    (header : List ℕ) (frame_len : ℕ) (xs ys : List ℕ)
    → frame_len ≤ length xs
    → skip header xs ≡ (false, ys)
    → next header frame_len xs ≡ (none, ys)
unfolding next
next_missed header frame_len xs ys h e = ground arith

pub next_short :
    (header : List ℕ) (frame_len : ℕ) (xs : List ℕ)
    → length xs < frame_len
    → next header frame_len xs ≡ (none, xs)
unfolding next
next_short header frame_len xs h = ground arith

length-skip_missed :
    (header xs zs : List ℕ) → skip header xs ≡ (false, zs) → length zs < length header
unfolding skip
length-skip_missed [] [] zs h = cc
length-skip_missed (b ∷ bs) [] zs h = ground arith
length-skip_missed header (x ∷ xs) zs h = ground (arith, length-skip_missed header xs zs)

-- What is left where no frame was cut is shorter than a frame or than the header.
pub length-next-none :
    (header : List ℕ) (frame_len : ℕ) (xs zs : List ℕ)
    → next header frame_len xs ≡ (none, zs)
    → length zs < max frame_len (length header)
unfolding next cut
length-next-none header frame_len xs zs h =
    ground (arith, length-skip_missed header xs (skip header xs).1)
