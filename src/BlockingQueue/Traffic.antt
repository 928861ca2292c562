-- ===== src/BlockingQueue/Traffic.antt =====
-- A queue between those that `put` into it and the tasks of a pool that `take` one entry each, as
-- the links use it: what is given to the application and what still waits, for each order of both.
use mathlib.Core.List.Sublistᴰ
use octcommu.Shared.{
  ℕ, zero, suc, ◌+◌, ◌-◌, ◌≤◌, ◌≡◌, refl, sym, ◌∙◌, ap, ap₂, subst, Bool, true, Bool-cases, inl,
  inr, List, [], ◌∷◌, ◌++◌, append_assoc, append-nil, arith, length, length-append, drop, map,
  if◌then◌else◌, Sublistᴰ,
}
use octcommu.BlockingQueue.Window.{lasts, lasts_all}

-- `arrives` is a `put`, and `works` a task of the pool.
pub data Event (A L : Type 0) : Type 0 where
  arrives : A → Event A L
  works : L → Event A L

-- A queue that keeps the last `n` entries and one more.
abbrev pub keep : {A : Type 0} → ℕ → List A → A → List A
keep n q a = lasts n q ++ a ∷ []

module _ {A L : Type 0} where
  unfoldable pub arrivals : List (Event A L) → List A
  arrivals [] = []
  arrivals (arrives a ∷ es) = a ∷ arrivals es
  arrivals (works l ∷ es) = arrivals es

  unfoldable pub tasks : List (Event A L) → List L
  tasks [] = []
  tasks (arrives a ∷ es) = tasks es
  tasks (works l ∷ es) = l ∷ tasks es

  -- `gives a l` is whether the task `l` passes the entry `a` on.
  module _ (gives : A → L → Bool) where
    -- One task: what it passes on, and what waits after it.
    unfoldable pub serve : List A → L → List A × List A
    serve [] l = ([], [])
    serve (a ∷ q) l = (if gives a l then a ∷ [] else [], q)

  -- `n` is the maximum of the queue.
  module _ (gives : A → L → Bool) (n : ℕ) where
    -- What the tasks pass on, and what waits in the end.
    pub fifo : List A → List (Event A L) → List A × List A
    fifo q [] = ([], q)
    fifo q (arrives a ∷ es) = fifo (keep n q a) es
    fifo q (works l ∷ es) =
        let (out, rest) = serve gives q l in let (more, left) = fifo rest es in (out ++ more, left)

    drop-Sublist : (k : ℕ) (q : List A) → Sublistᴰ (drop k q) q
    drop-Sublist zero q = Sublistᴰ.refl q
    drop-Sublist (suc k) [] = Sublistᴰ.slnil
    drop-Sublist (suc k) (a ∷ q) = Sublistᴰ.cons (drop-Sublist k q)

    keep-Sublist : (q : List A) (a : A) (ys : List A) → Sublistᴰ (keep n q a ++ ys) (q ++ a ∷ ys)
    keep-Sublist q a ys =
        rw (append_assoc (lasts n q) (a ∷ []) ys)
          (Sublistᴰ.append (drop-Sublist (length q - n) q) (Sublistᴰ.refl (a ∷ ys)))

    serve-Sublist :
        (q : List A) (l : L) (ys : List A)
        → Sublistᴰ ((serve gives q l).0 ++ ((serve gives q l).1 ++ ys)) (q ++ ys)
    unfolding serve
    serve-Sublist [] l ys = Sublistᴰ.refl ys
    serve-Sublist (a ∷ q) l ys = elim (Bool-cases (gives a l)) [
      | inl e ↦ rw e (Sublistᴰ.refl (a ∷ q ++ ys))
      | inr e ↦ rw e (Sublistᴰ.cons (Sublistᴰ.refl (q ++ ys)))
    ]

    -- What was passed on and what waits came in that order, each at most once.
    pub fifo-Sublist :
        (q : List A) (es : List (Event A L))
        → Sublistᴰ ((fifo q es).0 ++ (fifo q es).1) (q ++ arrivals es)
    unfolding fifo arrivals
    fifo-Sublist q [] = rw append-nil (Sublistᴰ.refl q)
    fifo-Sublist q (arrives a ∷ es) =
        Sublistᴰ.trans (fifo-Sublist (keep n q a) es) (keep-Sublist q a (arrivals es))
    fifo-Sublist q (works l ∷ es) = rw append_assoc (
        Sublistᴰ.trans
          (Sublistᴰ.append (Sublistᴰ.refl (serve gives q l).0)
            (fifo-Sublist (serve gives q l).1 es))
          (serve-Sublist q l (arrivals es)))

    pub given-Sublist : (es : List (Event A L)) → Sublistᴰ (fifo [] es).0 (arrivals es)
    given-Sublist es =
        Sublistᴰ.trans
          (subst (λ (xs : List A). Sublistᴰ xs ((fifo [] es).0 ++ (fifo [] es).1))
            (append-nil (fifo [] es).0)
            (Sublistᴰ.append (Sublistᴰ.refl (fifo [] es).0) (Sublistᴰ.nil-sublist (fifo [] es).1)))
          (fifo-Sublist [] es)

    -- A run in which no entry finds more than `n` of them in the queue, each task finds one, and
    -- passes it on.
    pub data Calm : List A → List (Event A L) → Type 0 where
      done : {q : List A} → Calm q []
      arrived :
          {q : List A} {a : A} {es : List (Event A L)}
          → length q ≤ n
          → Calm (q ++ a ∷ []) es
          → Calm q (arrives a ∷ es)
      worked :
          {q : List A} {a : A} {l : L} {es : List (Event A L)}
          → gives a l ≡ true
          → Calm q es
          → Calm (a ∷ q) (works l ∷ es)

    keep-Calm : (q : List A) (a : A) → length q ≤ n → keep n q a ≡ q ++ a ∷ []
    keep-Calm q a few = ap (λ (xs : List A). xs ++ a ∷ []) (lasts_all n q few)

    -- In a calm run nothing is lost.
    pub fifo-Calm :
        {q : List A} {es : List (Event A L)}
        → Calm q es
        → (fifo q es).0 ++ (fifo q es).1 ≡ q ++ arrivals es
    unfolding fifo arrivals serve
    fifo-Calm {q} Calm.done = sym (append-nil q)
    fifo-Calm {q} (Calm.arrived {a = a} {es} few c) =
        ap (λ (p : List A). (fifo p es).0 ++ (fifo p es).1) (keep-Calm q a few)
        ∙ fifo-Calm c
        ∙ append_assoc q (a ∷ []) (arrivals es)
    fifo-Calm (Calm.worked {a = a} e c) = rw e (ap (◌∷◌ a) (fifo-Calm c))

    length-waiting :
        {q : List A} {es : List (Event A L)}
        → Calm q es
        → length (fifo q es).1 + length (tasks es) ≡ length q + length (arrivals es)
    unfolding fifo arrivals tasks serve
    length-waiting Calm.done = refl
    length-waiting {q} (Calm.arrived {a = a} {es} few c) = omega (
      arith,
      ap (λ (p : List A). length (fifo p es).1) (keep-Calm q a few),
      length-waiting c,
      length-append q (a ∷ []),
    )
    length-waiting (Calm.worked e c) = omega (arith, length-waiting c)

    nothing_waits : (q : List A) → length q ≡ 0 → q ≡ []
    nothing_waits [] e = refl
    nothing_waits (a ∷ q) e = absurd (omega (arith, e))

    -- Once there have been as many tasks as entries, all have been passed on.
    pub fifo-tasks :
        {es : List (Event A L)}
        → Calm [] es
        → length (tasks es) ≡ length (arrivals es)
        → fifo [] es ≡ (arrivals es, [])
    fifo-tasks {es} c same =
        let empty = nothing_waits (fifo [] es).1 (omega (arith, length-waiting c, same)) in
        ap₂ (λ xs ys. (xs, ys))
          (sym (append-nil _)
            ∙ ap (λ (ys : List A). (fifo [] es).0 ++ ys) (sym empty)
            ∙ fifo-Calm c)
          empty

pub map-append :
    {A D : Type 0} (f : A → D) (xs ys : List A) → map f xs ++ map f ys ≡ map f (xs ++ ys)
map-append f [] ys = refl
map-append f (x ∷ xs) ys = ap (◌∷◌ (f x)) (map-append f xs ys)

-- The same with any results of the tasks: `deal` is what a task gives, and what waits after it.
module _ {A L D : Type 0} (deal : List A → L → List D × List A) (n : ℕ) where
  unfoldable pub deals : List A → List (Event A L) → List D × List A
  deals q [] = ([], q)
  deals q (arrives a ∷ es) = deals (keep n q a) es
  deals q (works l ∷ es) =
      let (out, rest) = deal q l in let (more, left) = deals rest es in (out ++ more, left)

  module _ (gives : A → L → Bool) (shows : A → D) where
    abbrev Shown : List D × List A → List A × List A → Type 0
    Shown r s = r ≡ (map shows s.0, s.1)

    deals-works :
        (q : List A) (l : L) (es : List (Event A L))
        → Shown (deal q l) (serve gives q l)
        → Shown (deals (serve gives q l).1 es) (fifo gives n (serve gives q l).1 es)
        → Shown (deals q (works l ∷ es)) (fifo gives n q (works l ∷ es))
    unfolding deals fifo
    deals-works q l es first rest =
        ap (λ r. (r.0 ++ (deals r.1 es).0, (deals r.1 es).1)) first
        ∙ ap (λ (r : List D × List A). (map shows (serve gives q l).0 ++ r.0, r.1)) rest
        ∙ ap (λ (xs : List D). (xs, (fifo gives n (serve gives q l).1 es).1))
            (map-append shows (serve gives q l).0 _)

    -- Where each task shows what `serve` passes on.
    pub deals-fifo :
        ((q : List A) (l : L) → Shown (deal q l) (serve gives q l))
        → (q : List A) (es : List (Event A L)) → Shown (deals q es) (fifo gives n q es)
    unfolding deals fifo
    deals-fifo same q [] = refl
    deals-fifo same q (arrives a ∷ es) = deals-fifo same (keep n q a) es
    deals-fifo same q (works l ∷ es) =
        deals-works q l es (same q l) (deals-fifo same (serve gives q l).1 es)

    -- In a calm run, where each task that finds an entry shows what `serve` passes on.
    pub deals-Calm :
        ((q : List A) (a : A) (l : L) → Shown (deal (a ∷ q) l) (serve gives (a ∷ q) l))
        → {q : List A} {es : List (Event A L)} → Calm gives n q es
        → Shown (deals q es) (fifo gives n q es)
    unfolding deals fifo serve
    deals-Calm same Calm.done = refl
    deals-Calm same {q} (Calm.arrived {a = a} {es} few c) =
        ap (λ (p : List A). deals p es) (keep-Calm gives n q a few)
        ∙ deals-Calm same c
        ∙ ap (λ (p : List A). (map shows (fifo gives n p es).0, (fifo gives n p es).1))
            (sym (keep-Calm gives n q a few))
    deals-Calm same (Calm.worked {q} {a} {l} {es} e c) =
        deals-works (a ∷ q) l es (same q a l) (deals-Calm same c)

    -- Where tasks give that and perhaps more, what `serve` passes on is among it, in order.
    pub fifo-deals-Sublist :
        ((q : List A) (l : L)
          → ((deal q l).1 ≡ (serve gives q l).1)
            × Sublistᴰ (map shows (serve gives q l).0) (deal q l).0)
        → (q : List A) (es : List (Event A L))
        → ((deals q es).1 ≡ (fifo gives n q es).1)
          × Sublistᴰ (map shows (fifo gives n q es).0) (deals q es).0
    unfolding deals fifo
    fifo-deals-Sublist k q [] = (refl, Sublistᴰ.slnil)
    fifo-deals-Sublist k q (arrives a ∷ es) = fifo-deals-Sublist k (keep n q a) es
    fifo-deals-Sublist k q (works l ∷ es) =
        let (e, s) = k q l in
        let (f, r) = fifo-deals-Sublist k (serve gives q l).1 es in
        rw e (
          f,
          subst (λ (xs : List D). Sublistᴰ xs ((deal q l).0 ++ (deals (serve gives q l).1 es).0))
              (map-append shows (serve gives q l).0 _) (Sublistᴰ.append s r),
        )

pub map-Sublist :
    {A D : Type 0} (f : A → D) {xs ys : List A} → Sublistᴰ xs ys → Sublistᴰ (map f xs) (map f ys)
map-Sublist f Sublistᴰ.slnil = Sublistᴰ.slnil
map-Sublist f (Sublistᴰ.cons s) = Sublistᴰ.cons (map-Sublist f s)
map-Sublist f (Sublistᴰ.cons-cons e s) = Sublistᴰ.cons-cons (ap f e) (map-Sublist f s)
