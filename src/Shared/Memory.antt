-- ===== src/Shared/Memory.antt =====
-- Byte arrays: reads of a range, and the C library's block copy.
use Prim.Native.Nat.{ℕ, zero, suc, ◌+◌, ◌-◌, ◌≤◌, ◌<◌}
use mathlib.Core.Path.{◌≡◌, refl, ap, ◌∙◌}
use mathlib.Core.Bool.{Bool, true, false, ◌&&◌}
use mathlib.Core.Option.{Option, none, some}
use mathlib.Core.Logic.{◌↔◌}
use mathlib.Core.List.{List, [], ◌∷◌, ◌++◌}
use native.Mathlib.Omega.{arith}
use octcommu.Shared.Tests.{leb, ◌==◌, if◌then◌else◌}
use octcommu.Shared.Lists.{
  length, take, drop, length-take, length-drop, drop-take, drop-drop, take-take,
}

-- The bytes `xs[i .. i + n)`.
abbrev pub slice : List ℕ → ℕ → ℕ → List ℕ
slice xs i n = take n (drop i xs)

-- `src` written over `dst` from index `i` on.
abbrev pub overwrite : List ℕ → ℕ → List ℕ → List ℕ
overwrite [] i src = []
overwrite (x ∷ xs) zero [] = x ∷ xs
overwrite (x ∷ xs) zero (y ∷ ys) = y ∷ overwrite xs zero ys
overwrite (x ∷ xs) (suc i) src = x ∷ overwrite xs i src

-- `memcpy(dst + i, src, length src)`; `none` is a write past the end of the array, which C leaves
-- undefined.
abbrev pub memcpy : List ℕ → ℕ → List ℕ → Option (List ℕ)
memcpy dst i src = if leb (i + length src) (length dst) then some (overwrite dst i src) else none

-- `0 == memcmp(...)` over the whole of both ranges.
abbrev pub same_bytes : List ℕ → List ℕ → Bool
same_bytes [] [] = true
same_bytes [] (y ∷ ys) = false
same_bytes (x ∷ xs) [] = false
same_bytes (x ∷ xs) (y ∷ ys) = x == y && same_bytes xs ys

pub length-overwrite :
    (dst : List ℕ) (i : ℕ) (src : List ℕ) → length (overwrite dst i src) ≡ length dst
length-overwrite [] i src = refl
length-overwrite (x ∷ xs) zero [] = refl
length-overwrite (x ∷ xs) zero (y ∷ ys) = ap suc (length-overwrite xs zero ys)
length-overwrite (x ∷ xs) (suc i) src = ap suc (length-overwrite xs i src)

-- A range that is written just past a prefix extends it.
pub take-overwrite :
    (dst : List ℕ) (n k : ℕ) (src : List ℕ)
    → k ≡ n + length src
    → k ≤ length dst
    → take k (overwrite dst n src) ≡ take n dst ++ src
take-overwrite [] zero zero [] e h = refl
take-overwrite [] zero zero (y ∷ ys) e h = absurd (omega arith)
take-overwrite [] (suc n) zero src e h = absurd (omega arith)
take-overwrite [] n (suc k) src e h = absurd (omega arith)
take-overwrite (x ∷ xs) zero zero [] e h = refl
take-overwrite (x ∷ xs) zero (suc k) [] e h = absurd (omega arith)
take-overwrite (x ∷ xs) zero zero (y ∷ ys) e h = absurd (omega arith)
take-overwrite (x ∷ xs) zero (suc k) (y ∷ ys) e h =
    ap (◌∷◌ y) (take-overwrite xs zero k ys (omega arith) (omega arith))
take-overwrite (x ∷ xs) (suc n) zero src e h = absurd (omega arith)
take-overwrite (x ∷ xs) (suc n) (suc k) src e h =
    ap (◌∷◌ x) (take-overwrite xs n k src (omega arith) (omega arith))

-- The same for a range that starts at `s`.
pub slice-overwrite :
    (dst : List ℕ) (s n e k : ℕ) (src : List ℕ)
    → e ≡ s + n
    → k ≡ n + length src
    → e + length src ≤ length dst
    → slice (overwrite dst e src) s k ≡ slice dst s n ++ src
slice-overwrite dst zero n e k src p q h = rw eq (take-overwrite dst n k src q (omega arith))
  where
    eq : e ≡ n
    eq = omega arith
slice-overwrite dst (suc s) n zero k src p q h = absurd (omega arith)
slice-overwrite [] (suc s) n (suc e) k src p q h = absurd (omega arith)
slice-overwrite (x ∷ xs) (suc s) n (suc e) k src p q h =
    slice-overwrite xs s n e k src (omega arith) q (omega arith)

pub length-slice : (xs : List ℕ) (i n : ℕ) → i + n ≤ length xs → length (slice xs i n) ≡ n
length-slice xs i n h = omega (arith, length-take n (drop i xs), length-drop i xs)

-- Part of a range, by its own start and length.
pub slice-slice :
    (xs : List ℕ) (s n a b i : ℕ) → i ≡ s + a → a + b ≤ n → slice (slice xs s n) a b ≡ slice xs i b
slice-slice xs s n a b i p h =
    ap (take b)
      (drop-take a (n - a) n (drop s xs) (omega arith) ∙ ap (take (n - a)) (drop-drop s a i xs p))
    ∙ take-take b (n - a) (drop i xs) (omega arith)

-- `memcpy` within the array succeeds, and outside it does not.
pub memcpy-some :
    (dst : List ℕ) (i : ℕ) (src : List ℕ)
    → i + length src ≤ length dst
    → memcpy dst i src ≡ some (overwrite dst i src)
memcpy-some dst i src h = ground arith

pub memcpy-none :
    (dst : List ℕ) (i : ℕ) (src : List ℕ) → length dst < i + length src → memcpy dst i src ≡ none
memcpy-none dst i src h = ground arith

pub same_bytes_iff : (xs ys : List ℕ) → (same_bytes xs ys ≡ true) ↔ (xs ≡ ys)
same_bytes_iff [] [] = ((λ _. refl), λ _. refl)
same_bytes_iff [] (y ∷ ys) = ((λ h. cc), λ h. cc)
same_bytes_iff (x ∷ xs) [] = ((λ h. cc), λ h. cc)
same_bytes_iff (x ∷ xs) (y ∷ ys) =
    ((λ h. ground (arith, same_bytes_iff xs ys)), λ h. ground (arith, same_bytes_iff xs ys))
