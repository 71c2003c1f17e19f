-- ===== src/Runtime/Step.antt =====
-- crates/mirrorlane-runtime/src/step.rs. A step may be non-deterministic and may act on what it reaches (a
-- model, a counter): `World` is that state, threaded through. A panic is `none`.
use mirrorlane.Base.{String, Option}

-- The newtype over `String`
abbrev pub StepVersion : Type 0
StepVersion = String

pub record Step (In Out World : Type 0) : Type 0 where
  pub kind : String
  pub version : StepVersion
  pub run : In → World → Option Out × World
