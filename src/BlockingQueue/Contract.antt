-- ===== src/BlockingQueue/Contract.antt =====
-- What the UDP link and the TCP server promise of their queue: a record of two operations, and the
-- contract that they meet. A run of arrivals and tasks in any order then gives the application what
-- the tasks of `Traffic` deal out.
use octcommu.Shared.{
  ℕ, ◌≡◌, refl, List, [], ◌∷◌, ◌++◌, Option, some, ◌>>=◌, Pairs, Pairs-drop, Pairs-append,
  length-Pairs, length, drop, ◌-◌, subst,
}
use octcommu.BlockingQueue.{put}
use octcommu.BlockingQueue.Window.{trim-lasts, lasts}
use octcommu.BlockingQueue.Traffic.{Event, arrives, works, keep, deals}

-- What an arrival does, and a task: the calls of the application and the link. `none` is a write
-- outside a buffer.
pub record Link (S A L D : Type 0) : Type 0 where
  pub receive : S → A → Option (List D × S)
  pub work : S → L → List D × S

pub run : {S A L D : Type 0} → Link S A L D → S → List (Event A L) → Option (List D × S)
run k s [] = some ([], s)
run k s (arrives a ∷ es) = do
  (out, v) ← k.receive s a
  (more, w) ← run k v es
  some (out ++ more, w)
run k s (works l ∷ es) = do let (out, v) = k.work s l; (more, w) ← run k v es; some (out ++ more, w)

-- `Waits s q` is that the entries `q` wait in `s`, and `deal` what a task gives, with the entries that
-- wait after it.
pub record Contract {S A L D : Type 0} (k : Link S A L D) (n : ℕ)
    (deal : List A → L → List D × List A) (Waits : S → List A → Type 0) (Fits : A → Type 0)
    (Place : L → Type 0) : Type 0 where
  pub receives :
      {s : S} {q : List A} {a : A}
      → Waits s q
      → Fits a
      → (v : S) × (k.receive s a ≡ some ([], v)) × Waits v (keep n q a)
  pub serves :
      {s : S} {q : List A} {l : L}
      → Waits s q
      → Place l
      → ((k.work s l).0 ≡ (deal q l).0) × Waits (k.work s l).1 (deal q l).1

-- Every arrival fits, and every task has its place.
pub data AllFine {A L : Type 0} (Fits : A → Type 0) (Place : L → Type 0)
    : List (Event A L) → Type 0 where
  done : AllFine Fits Place []
  arrived :
      {a : A} {es : List (Event A L)}
      → Fits a
      → AllFine Fits Place es
      → AllFine Fits Place (arrives a ∷ es)
  worked :
      {l : L} {es : List (Event A L)}
      → Place l
      → AllFine Fits Place es
      → AllFine Fits Place (works l ∷ es)

module _ {S A L D : Type 0} {k : Link S A L D} {n : ℕ} {deal : List A → L → List D × List A}
    {Waits : S → List A → Type 0} {Fits : A → Type 0} {Place : L → Type 0}
    (c : Contract k n deal Waits Fits Place) where
  pub run-deals :
      {s : S} {q : List A} {es : List (Event A L)}
      → Waits s q
      → AllFine Fits Place es
      → (v : S) × (run k s es ≡ some ((deals deal n q es).0, v)) × Waits v (deals deal n q es).1
  unfolding run deals
  run-deals {s} w AllFine.done = (s, refl, w)
  run-deals {s} {q} w (AllFine.arrived {a} {es} f fs) =
      let (u, e, x) = c.receives w f in
      let (v, g, y) = run-deals {s = u} x fs in (v, rw (e, g) refl, y)
  run-deals {s} {q} w (AllFine.worked {l} {es} p fs) =
      let (e, x) = c.serves {l = l} w p in
      let (v, g, y) = run-deals {s = (k.work s l).1} x fs in (v, rw (g, e) refl, y)

-- A `put` to a queue whose entries are related to others.
pub Pairs-put :
    {A B : Type 0} {P : A → B → Type 0} {xs : List A} {ys : List B} {x : A} {y : B} (n : ℕ)
    → Pairs P xs ys
    → P x y
    → Pairs P (keep n xs x) (put n ys y)
unfolding put
Pairs-put {P = P} {xs} {ys} {x} {y} n ps p = rw (trim-lasts n ys) (
    Pairs-append
      (subst (λ (k : ℕ). Pairs P (lasts n xs) (drop (k - n) ys)) (length-Pairs ps)
        (Pairs-drop (length xs - n) ps))
      (Pairs.cons p Pairs.nil))
