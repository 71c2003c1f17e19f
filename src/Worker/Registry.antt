-- ===== src/Worker/Registry.antt =====
-- crates/mirrorlane-worker/src/registry.rs: strategies by id. A strategy is what it computes of the log
-- that the store returns; the substrate that runs its stages is fixed for the process.
use mirrorlane.Base.{String, ◌<>◌, Option, none, some, List, []}
use mirrorlane.Base.HashMap
use mirrorlane.Base.{string_eq}
use mirrorlane.Base.OrdMap
use mirrorlane.Base.OrdMap.{OrdMap}
use mirrorlane.Core.Message.{MessageEnvelope}
use mirrorlane.Worker.Composition.{Substrate}
use mirrorlane.Worker.Jobs.{StrategyContext}
use mirrorlane.Worker.Replay.{ReplayStores, run_phases}

abbrev pub ReplayStrategy : Type 0 → Type 0
ReplayStrategy R = List MessageEnvelope → ReplayStores R

abbrev pub StrategyFactory : Type 0 → Type 0
StrategyFactory R = StrategyContext R → ReplayStrategy R

abbrev pub StrategyRegistry : Type 0 → Type 0
StrategyRegistry R = OrdMap (StrategyFactory R)

-- `Result<Arc<dyn ReplayStrategy>, UnknownStrategy>`
pub data BuildResult (R : Type 0) : Type 0 where
  built : ReplayStrategy R → BuildResult R
  unknown_strategy : String → BuildResult R

-- `Display` of `UnknownStrategy`; `quote` is the standard library's `{:?}` of a string.
unfoldable pub show_unknown_strategy : (String → String) → String → String
show_unknown_strategy quote id = "unknown strategy " <> quote id

abbrev pub default_strategy : String
default_strategy = "projection"

module _ {R : Type 0} where
  -- `EmptyStrategy::run`
  unfoldable pub empty_strategy : ReplayStrategy R
  empty_strategy log = record {
    projections = [];
    scopes = [];
    warmups = [];
    skills = [];
    hints = [];
    developers = [];
  }

  unfoldable pub register : String → StrategyFactory R → StrategyRegistry R → StrategyRegistry R
  register id factory registry = OrdMap.insert id factory registry

  unfoldable pub with_builtins : Substrate → StrategyRegistry R
  unfolding register empty_strategy
  with_builtins substrate =
      register "empty" (λ ctx. empty_strategy)
        (register default_strategy (λ ctx. run_phases substrate ctx) [])

  abbrev pub build_with : String → StrategyContext R → Option (StrategyFactory R) → BuildResult R
  build_with id ctx none = unknown_strategy id
  build_with id ctx (some factory) = built (factory ctx)

  unfoldable pub build : StrategyRegistry R → String → StrategyContext R → BuildResult R
  build registry id ctx = build_with id ctx (HashMap.get id registry)
