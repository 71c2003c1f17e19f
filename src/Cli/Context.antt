-- ===== src/Cli/Context.antt =====
-- crates/mirrorlane-cli/src/commands.rs: the derivation ports of a command.
pub mod Keys
use mirrorlane.Base.{String, Option, none, some, get_or}
use mirrorlane.Base.Float.{Float}
use mirrorlane.Core.Message.{MessageEnvelope}
use mirrorlane.Core.Projection.{Projection}
use mirrorlane.Core.Routing.{RoutingRule, ConsumerKind, human}
use mirrorlane.Core.Derivation.{StepVersion}
use mirrorlane.Base.{List}
use mirrorlane.Provider.Developer.{snapshot}
use mirrorlane.Provider.Hint.{hint}
use mirrorlane.Provider.Mock.{project}
use mirrorlane.Provider.Routing.{RuleRouter, with_rules, new}
use mirrorlane.Provider.Scope.{scope}
use mirrorlane.Provider.Skill.{build_index}
use mirrorlane.Provider.Warmup.{build}
use mirrorlane.Worker.Jobs.{StrategyContext}

pub record RoutingConfig (R : Type 0) : Type 0 where
  pub rules : List RoutingRule
  pub escalation_threshold : Option R
  pub default_target : Option ConsumerKind

module _ {R : Type 0} ⦃f : Float R⦄ where
  unfoldable pub build_router : Option (RoutingConfig R) → RuleRouter R
  build_router none = new
  build_router (some rc) =
      with_rules rc.rules (get_or rc.escalation_threshold (f.tenths 6))
        (get_or rc.default_target human)

  -- `strategy_context`, of the projector that the provider names
  unfoldable pub strategy_context :
      (String → String)
      → StepVersion
      → (MessageEnvelope → Option (Projection R))
      → StrategyContext R
  strategy_context lower version projector = record {
    version = version;
    project = projector;
    scope = scope lower;
    build_warmup = build;
    build_skills = build_index;
    hint = hint;
    snapshot = snapshot;
  }

  -- `strategy_context` for `Provider::Mock`
  unfoldable pub mock_context : (String → String) → StrategyContext R
  mock_context lower = strategy_context lower "mock:v1" (λ m. some (project lower m))
