-- ===== src/Shared/Paired.antt =====
-- Two lists whose entries are related place by place.
use Prim.Native.Nat.{ℕ, zero, suc}
use mathlib.Core.Path.{◌≡◌, refl, ap}
use mathlib.Core.List.{List, [], ◌∷◌, ◌++◌}
use octcommu.Shared.Lists.{length, drop}

-- Two lists of one length, with `P` of the entries at each place.
pub data Pairs {A B : Type 0} (P : A → B → Type 0) : List A → List B → Type 0 where
  nil : Pairs P [] []
  cons :
      {x : A} {y : B} {xs : List A} {ys : List B}
      → P x y
      → Pairs P xs ys
      → Pairs P (x ∷ xs) (y ∷ ys)

pub length-Pairs :
    {A B : Type 0} {P : A → B → Type 0} {xs : List A} {ys : List B}
    → Pairs P xs ys
    → length xs ≡ length ys
length-Pairs Pairs.nil = refl
length-Pairs (Pairs.cons p ps) = ap suc (length-Pairs ps)

pub Pairs-drop :
    {A B : Type 0} {P : A → B → Type 0} {xs : List A} {ys : List B} (n : ℕ)
    → Pairs P xs ys
    → Pairs P (drop n xs) (drop n ys)
Pairs-drop zero ps = ps
Pairs-drop (suc n) Pairs.nil = Pairs.nil
Pairs-drop (suc n) (Pairs.cons p ps) = Pairs-drop n ps

pub Pairs-append :
    {A B : Type 0} {P : A → B → Type 0} {xs us : List A} {ys vs : List B}
    → Pairs P xs ys
    → Pairs P us vs
    → Pairs P (xs ++ us) (ys ++ vs)
Pairs-append Pairs.nil qs = qs
Pairs-append (Pairs.cons p ps) qs = Pairs.cons p (Pairs-append ps qs)
