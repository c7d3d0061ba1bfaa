-- ===== src/Luxos/Monad.antt =====
-- pocisys-hash-monitor/services/luxos_control.py: a method of the control service is a state
-- transformer whose state survives a `LuxOSControlError`.
use gauge_umbrel_community.Prelude.{Bool, true, false, Option, none, some}
use gauge_umbrel_community.Luxos.State.{ControlError, Service}

pub data Result (A : Type 0) : Type 0 where
  ok : A → Result A
  err : ControlError → Result A

abbrev pub Method : Type 0 → Type 0
Method A = Service → Result A × Service

module _ {A : Type 0} where
  abbrev pub pure : A → Method A
  pure a s = (ok a, s)

  abbrev pub raise : ControlError → Method A
  raise e s = (err e, s)

  abbrev pub or_raise : ControlError → Option A → Method A
  or_raise e none s = (err e, s)
  or_raise e (some a) s = (ok a, s)

-- What follows a call that has ended.
abbrev pub continue : {A B : Type 0} → (A → Method B) → Result A × Service → Result B × Service
continue f (ok a, s) = f a s
continue f (err e, s) = (err e, s)

infixl 5 ◌>>=◌ ◌>>◌
abbrev pub ◌>>=◌ : {A B : Type 0} → Method A → (A → Method B) → Method B
◌>>=◌ m f s = continue f (m s)

abbrev pub ◌>>◌ : {A B : Type 0} → Method A → Method B → Method B
m >> k = m >>= λ _. k

-- `if test: raise LuxOSControlError(…)`
abbrev pub raise_if : Bool → ControlError → Method (Unit {0})
raise_if true e s = (err e, s)
raise_if false e s = (ok tt, s)

abbrev pub modify : (Service → Service) → Method (Unit {0})
modify f s = (ok tt, f s)
