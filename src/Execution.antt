-- ===== src/Execution.antt =====
-- `check_execution` of src/builder/telemetry.cpp. Another thread may ask for a stop between any two
-- calls, so what one call sees is a value of its own.
use lunar_terrain_builder.Base.{ℕ, Bool, Option, none, some, if◌then◌else◌}
use lunar_terrain_builder.Error.{ErrorCode, make_error, Result, success, failure}

-- What a call finds: the answer of the stop token, and, where there is a collector, the answer of its
-- `Check`.
pub record Moment : Type 0 where
  pub stop_requested : Bool
  pub telemetry_check : Option (Result (Unit {0}))

unfoldable pub check_execution : Moment → Result (Unit {0})
check_execution m =
    if m.stop_requested
    then failure (make_error ErrorCode.cancelled "operation was cancelled")
    else elim m.telemetry_check [ none ↦ success tt | some answer ↦ answer ]

-- What the calls of one operation find, in their order.
abbrev pub Moments : Type 0
Moments = ℕ → Moment
