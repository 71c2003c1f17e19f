-- ===== src/Worker/Submission.antt =====
-- crates/mirrorlane-worker/src/submission.rs: the job that runs a submitted strategy and publishes what it
-- derives. The message store enters by what `all` returns.
pub mod Serves
use mirrorlane.Base.{String, Option, none, some, List}
use mirrorlane.Core.Message.{MessageEnvelope}
use mirrorlane.Core.Derivation.{ConversationDerivation, DerivedOutputCache, derivation_version}
use mirrorlane.Worker.Composition.{Handler, HandlerResult, done, failed, panicked}
use mirrorlane.Worker.Derived.{populate_cache}
use mirrorlane.Worker.Jobs.{StrategyContext}
use mirrorlane.Worker.Registry.{
  StrategyRegistry, BuildResult, built, unknown_strategy, build, show_unknown_strategy,
}

pub record StrategyRunRequest : Type 0 where
  pub strategy : String

module _ {R S : Type 0} (quote : String → String) (digest : List String → String)
    (cache : DerivedOutputCache R S) (registry : StrategyRegistry R) (ctx : StrategyContext R)
    (log : List MessageEnvelope) where
  abbrev pub published : S → Option (List (ConversationDerivation R) × S) → HandlerResult × S
  published s none = (panicked, s)
  published s (some (ds, s')) = (done, s')

  -- `StrategyRunJob::run`
  unfoldable pub strategy_run : Handler StrategyRunRequest S
  strategy_run request s = elim (build registry request.strategy ctx) [
    | unknown_strategy id ↦ (failed (show_unknown_strategy quote id), s)
    | built strategy ↦ published s (
        populate_cache digest cache (strategy log) (derivation_version request.strategy ctx.version)
          log s)
  ]
