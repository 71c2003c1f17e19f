-- ===== src/Cli/Context/Keys.antt =====
-- The ports that crates/mirrorlane-cli/src/commands.rs wires answer for what they are asked about, so that
-- a replay over them leaves what the log determines.
use mirrorlane.Base.{◌≡◌, refl, String, Option, some, List, arith}
use mirrorlane.Base.Float.{Float}
use mirrorlane.Core.Message.{MessageEnvelope}
use mirrorlane.Core.MessageLog.Spec.{entries}
use mirrorlane.Core.MessageLog.Refines.{log_refines_entries}
use mirrorlane.Core.Projection.{Projection}
use mirrorlane.Core.Derivation.{StepVersion}
use mirrorlane.Provider.Developer.{snapshot}
use mirrorlane.Provider.Hint.{hint}
use mirrorlane.Provider.Mock.{project}
use mirrorlane.Provider.Scope.{scope}
use mirrorlane.Provider.Warmup.{build}
use mirrorlane.Worker.Composition.{Substrate}
use mirrorlane.Worker.Replay.{run_phases}
use mirrorlane.Worker.Replay.Denotation.{KeepsKeys, Denotes}
use mirrorlane.Worker.Replay.Deterministic.{run_phases-Denotes}
use mirrorlane.Cli.Context.{strategy_context, mock_context}

module _ {R : Type 0} ⦃f : Float R⦄ (lower : String → String) where
  strategy_context-KeepsKeys :
      (version : StepVersion) (projector : MessageEnvelope → Option (Projection R))
      → ((m : MessageEnvelope) (p : Projection R) → projector m ≡ some p → p.message_id ≡ m.id)
      → KeepsKeys (strategy_context lower version projector)
  unfolding strategy_context scope build hint snapshot
  strategy_context-KeepsKeys version projector keeps = record {
    project = keeps;
    scope = λ c ps. refl;
    warmup = λ c s ps. refl;
    hint = λ p os. refl;
    snapshot = λ c ps os. refl;
  }

  pub mock_context-KeepsKeys : KeepsKeys (mock_context {R = R} lower)
  unfolding mock_context project
  mock_context-KeepsKeys =
      strategy_context-KeepsKeys "mock:v1" (λ m. some (project lower m)) (λ m p h. ground arith)

  -- A replay of the messages that a log holds, over the ports of the mock provider and under any
  -- at-least-once deliveries, leaves in every store exactly what the log and the ports determine.
  pub mock_replay-Denotes :
      (substrate : Substrate) (appended : List MessageEnvelope)
      → Denotes
          (mock_context lower)
          (entries appended)
          (run_phases substrate (mock_context {R = R} lower) (entries appended))
  mock_replay-Denotes substrate appended =
      run_phases-Denotes (mock_context lower) mock_context-KeepsKeys (entries appended) substrate
        (log_refines_entries appended).2
