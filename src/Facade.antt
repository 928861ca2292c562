-- ===== src/Facade.antt =====
-- src/Communcation/OCTCommu.cpp: the classes of the application, which pass each call to an object
-- that their constructors make. `none` is an object that could not be made or that is deleted.
-- `Iudp` passes to UDPImp, `Itcp` to TCPImp, and `Isp` to a serial port of the platform.
pub mod Iudp
pub mod Itcp
pub mod Isp
use octcommu.Shared.{
  Bool, if◌then◌else◌, Option, none, some, List, [], ◌∷◌, map, ◌≡◌, refl, ℤ, String,
}

-- `new(std::nothrow)`, which gives no object where there is no memory.
abbrev pub make : {S : Type 0} → Bool → S → Option S
make memory s = if memory then some s else none

-- `if (d_ptr_) { return d_ptr_->f(...); } return missing;`
abbrev pub pass {ℓ} : {A : Type ℓ} {S : Type 0} → A → (S → A × S) → Option S → A × Option S
pass missing f none = (missing, none)
pass missing f (some s) = let (answer, v) = f s in (answer, some v)

-- A call that leaves the object as it is.
abbrev pub look {ℓ} : {A : Type ℓ} {S : Type 0} → A → (S → A) → Option S → A
look missing f none = missing
look missing f (some s) = f s
