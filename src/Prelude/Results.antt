-- ===== src/Prelude/Results.antt =====
-- The outcome of a fallible operation, as Rust's `Result`.
use mathlib.Core.Path.{◌≡◌, refl}
use mathlib.Core.Logic.{◌⊎◌, inl, inr}

pub data Result (T E : Type 0) : Type 0 where
  ok : T → Result T E
  err : E → Result T E

pub Result-cases :
    {T E : Type 0} (r : Result T E) → ((t : T) × (r ≡ Result.ok t)) ⊎ ((e : E) × (r ≡ Result.err e))
Result-cases (ok t) = inl (t, refl)
Result-cases (err e) = inr (e, refl)
