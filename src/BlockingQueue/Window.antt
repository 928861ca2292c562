-- ===== src/BlockingQueue/Window.antt =====
-- What a queue holds after a run of `put`s.
use octcommu.Shared.{
  ℕ, zero, suc, ◌+◌, ◌-◌, ◌≤◌, ◌≡◌, refl, sym, ◌∙◌, ap, List, [], ◌∷◌, ◌++◌, arith, length, drop,
  min, length-append, length-drop, drop-append_le, drop-drop, append_assoc, append-nil, ltb,
  Bool-cases, ltb→lt, ltb→le, dec_le, inl, inr,
}
use octcommu.BlockingQueue.{trim, put, take}

module _ {ℓ} {A : Type ℓ} where
  -- The last `k` entries.
  abbrev pub lasts : ℕ → List A → List A
  lasts k xs = drop (length xs - k) xs

  unfoldable pub puts : ℕ → List A → List A → List A
  puts max_count q [] = q
  puts max_count q (x ∷ xs) = puts max_count (put max_count q x) xs

  -- `n` calls of `take`.
  pub takes : A → ℕ → List A → List A
  takes default zero q = []
  takes default (suc n) q = let (x, rest) = take default q in x ∷ takes default n rest

  pub lasts_all : (n : ℕ) (q : List A) → length q ≤ n → lasts n q ≡ q
  lasts_all n q h = ap (λ (k : ℕ). drop k q) none_over
    where
      none_over : length q - n ≡ 0
      none_over = omega arith

  lasts-cons : (n : ℕ) (x : A) (q : List A) → n ≤ length q → lasts n (x ∷ q) ≡ lasts n q
  lasts-cons n x q h = ap (λ (k : ℕ). drop k (x ∷ q)) one_more
    where
      one_more : suc (length q) - n ≡ suc (length q - n)
      one_more = omega arith

  pub trim-lasts : (n : ℕ) (q : List A) → trim n q ≡ lasts n q
  unfolding trim
  trim-lasts n [] = sym (lasts_all n [] (omega arith))
  trim-lasts n (x ∷ q) = elim (Bool-cases (ltb n (length (x ∷ q)))) [
    | inl over ↦
        let h = ltb→lt n (length (x ∷ q)) over in
        rw over (trim-lasts n q ∙ sym (lasts-cons n x q (omega arith)))
    | inr fits ↦ rw fits (sym (lasts_all n (x ∷ q) (ltb→le n (length (x ∷ q)) fits)))
  ]

  -- Entries that are dropped in front anyway may be dropped before.
  lasts-drop-append :
      (k j : ℕ) (q ys : List A)
      → j ≤ length q
      → k + j ≤ length q + length ys
      → lasts k (drop j q ++ ys) ≡ lasts k (q ++ ys)
  lasts-drop-append k j q ys h room =
      ap (lasts k) (sym (drop-append_le j q ys h))
      ∙ drop-drop j (length (drop j (q ++ ys)) - k) (length (q ++ ys) - k) (q ++ ys)
          (omega (arith, length-drop j (q ++ ys), length-append q ys))

  length-lasts : (n : ℕ) (q : List A) → length (lasts n q) ≡ min n (length q)
  length-lasts n q = omega (arith, length-drop (length q - n) q)

  length-put : (n : ℕ) (q : List A) (x : A) → length (put n q x) ≤ suc n
  unfolding put
  length-put n q x =
      omega (arith, length-append (trim n q) (x ∷ []), ap length (trim-lasts n q), length-lasts n q)

  -- After any run of `put`s to a queue of at most one entry more than the maximum, the queue holds,
  -- in order, the last of all the entries, up to one more than `queue_max_count`.
  pub puts-lasts :
      (n : ℕ) (q xs : List A) → length q ≤ suc n → puts n q xs ≡ lasts (suc n) (q ++ xs)
  unfolding puts put
  puts-lasts n q [] h = rw append-nil (sym (lasts_all (suc n) q h))
  puts-lasts n q (x ∷ xs) h =
      puts-lasts n (put n q x) xs (length-put n q x)
      ∙ ap (lasts (suc n)) (append_assoc (trim n q) (x ∷ []) xs)
      ∙ ap (λ (ys : List A). lasts (suc n) (ys ++ x ∷ xs)) (trim-lasts n q)
      ∙ elim (dec_le (length q) n) [
        | yes few ↦ ap (λ (ys : List A). lasts (suc n) (ys ++ x ∷ xs)) (lasts_all n q few)
        | no many ↦ lasts-drop-append (suc n) (length q - n) q (x ∷ xs) (omega arith) (omega arith)
      ]

  -- A run of `put`s to an empty queue leaves all its entries, up to one more than the maximum.
  pub length-puts : (n : ℕ) (xs : List A) → length (puts n [] xs) ≡ min (suc n) (length xs)
  length-puts n xs = ap length (puts-lasts n [] xs (omega arith)) ∙ length-lasts (suc n) xs

  takes-all : (default : A) (q : List A) → takes default (length q) q ≡ q
  unfolding takes take
  takes-all default [] = refl
  takes-all default (x ∷ q) = ap (◌∷◌ x) (takes-all default q)

  -- A reader that takes as many entries as a run of `put`s to an empty queue left gets the last
  -- entries in order, up to one more than the maximum.
  pub takes-puts :
      (default : A) (n : ℕ) (xs : List A)
      → takes default (min (suc n) (length xs)) (puts n [] xs) ≡ lasts (suc n) xs
  takes-puts default n xs =
      ap (λ (k : ℕ). takes default k (puts n [] xs)) (sym (length-puts n xs))
      ∙ takes-all default (puts n [] xs)
      ∙ puts-lasts n [] xs (omega arith)
