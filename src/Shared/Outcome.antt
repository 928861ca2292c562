-- ===== src/Shared/Outcome.antt =====
-- What holds of a result, if there is one.
use mathlib.Core.Path.{◌≡◌, refl, sym, subst}
use mathlib.Core.Bool.{Bool, true, false}
use mathlib.Core.Option.{Option, none, some}
use octcommu.Shared.Tests.{if◌then◌else◌, ◌>>=◌}

pub data Ensures {A : Type 0} (P : A → Type 0) : Option A → Type 0 where
  nothing : Ensures P none
  result : {a : A} → P a → Ensures P (some a)

pub Ensures-bind :
    {A B : Type 0} {Q : A → Type 0} {P : B → Type 0} {o : Option A} {f : A → Option B}
    → Ensures Q o
    → ((a : A) → Q a → Ensures P (f a))
    → Ensures P (o >>= f)
Ensures-bind Ensures.nothing k = Ensures.nothing
Ensures-bind (Ensures.result {a} q) k = k a q

pub Ensures-if :
    {A : Type 0} {P : A → Type 0} {x y : Option A} (b : Bool)
    → Ensures P x
    → Ensures P y
    → Ensures P (if b then x else y)
Ensures-if true p q = p
Ensures-if false p q = q

pub Ensures-any : {A : Type 0} (o : Option A) → Ensures (λ a. a ≡ a) o
Ensures-any none = Ensures.nothing
Ensures-any (some a) = Ensures.result refl

pub Ensures-some : {A : Type 0} {P : A → Type 0} {a : A} → Ensures P (some a) → P a
Ensures-some (Ensures.result p) = p

pub Ensures-at :
    {A : Type 0} {P : A → Type 0} {o : Option A} {a : A} → o ≡ some a → P a → Ensures P o
Ensures-at {P} e p = subst (Ensures P) (sym e) (Ensures.result p)

pub result_of :
    {A : Type 0} {P : A → Type 0} {o : Option A} {a : A} → Ensures P o → o ≡ some a → P a
result_of {P} p e = Ensures-some (subst (Ensures P) e p)

-- What both branches of a test have.
pub if_both :
    {A : Type 0} (P : A → Type 0) {x y : A} (b : Bool) → P x → P y → P (if b then x else y)
if_both P true p q = p
if_both P false p q = q
