-- ===== src/Base/Outcome.antt =====
-- How a call ended, with the equation that says so.
use mathlib.Core.Path.{◌≡◌, refl}
use mathlib.Core.Logic.{◌⊎◌, inl, inr}
use rpi_io_t_server_project.Base.Exec.{Exc, Result, ok, raised}

pub Result-cases :
    {A : Type 0} (r : Result A) → ((e : Exc) × (r ≡ raised e)) ⊎ ((a : A) × (r ≡ ok a))
Result-cases (ok a) = inr (a, refl)
Result-cases (raised e) = inl (e, refl)
