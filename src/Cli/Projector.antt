-- ===== src/Cli/Projector.antt =====
-- crates/mirrorlane-cli/src/commands.rs: the projector that a provider names, with its durable cache, and
-- what `inspect` shows of a message. `Disk` is the projection table of the database beside the world of
-- the model's transport. Opening the cache may fail, with an error; pruning it may fail, which the
-- source ignores.
pub mod Durable
use mirrorlane.Base.{String, Bool, true, false, Option, none, some, List, if◌then◌else◌}
use mirrorlane.Base.Float.{Float}
use mirrorlane.Base.Http.{Http}
use mirrorlane.Base.Json.{Json}
use mirrorlane.Base.Result.{Result, ok, err}
use mirrorlane.Cli.Broker.{Env}
use mirrorlane.Cli.Config.{Provider, mock, ollama, openai}
use mirrorlane.Core.Derivation as Derivation
use mirrorlane.Core.Message.{MessageId, MessageEnvelope}
use mirrorlane.Core.Projection.{Projection}
use mirrorlane.Core.Routing.{RoutingDecision, RoutingTrace}
use mirrorlane.Llm.{LlmClient, LlmProjector, ProjectionDto, cache_version, llm_step}
use mirrorlane.Llm.Ollama.{GenerateResponse, ollama_client}
use mirrorlane.Llm.Openai.{ChatResponse, openai_client}
use mirrorlane.Provider.Caching.{new_projector, caching_projector}
use mirrorlane.Provider.Mock.{mock_projector}
use mirrorlane.Provider.Routing.{RuleRouter, route}
use mirrorlane.Runtime.Step.{Step, StepVersion}
use mirrorlane.Storage.Projections.{ProjectionTable, prune_projections, sqlite_projection_cache}

pub record OllamaSettings : Type 0 where
  pub base_url : String
  pub model : String
  pub prompt_version : String

pub record OpenAiSettings : Type 0 where
  pub base_url : String
  pub model : String
  pub prompt_version : String

pub record LlmSettings : Type 0 where
  pub ollama : OllamaSettings
  pub openai : OpenAiSettings

-- What the projectors take of other code: `to_lowercase`, ureq, serde_json, the two uses of the standard
-- hasher, and the JSON of a projection in the table.
pub record Substrates (R P World : Type 0) : Type 0 where
  pub lower : String → String
  pub http : Http World
  pub print : Json → String
  pub generate_json : String → Option GenerateResponse
  pub chat_json : String → Option ChatResponse
  pub projection_json : String → Option (ProjectionDto R)
  pub digest_text : String → String
  pub digest : List String → String
  pub write : Projection R → P
  pub read : P → Projection R

-- How opening the cache of a command goes: `SqliteProjectionCache::open` may fail, and so may
-- `prune_superseded`.
pub record Opening : Type 0 where
  pub open_error : Option String
  pub prunes : Bool

module _ {R P World : Type 0} ⦃f : Float R⦄ (sub : Substrates R P World) where
  abbrev pub Disk : Type 0
  Disk = ProjectionTable P × World

  abbrev pub ProjectorStep : Type 0
  ProjectorStep = Step MessageEnvelope (Projection R) Disk

  -- The `LlmProjector` of a provider; the mock has none.
  unfoldable pub llm_projector : Env → LlmSettings → Provider → Option (LlmProjector World)
  llm_projector env llm mock = none
  llm_projector env llm ollama = some (record {
    client =
        ollama_client sub.http sub.print sub.generate_json
          (record { base_url = llm.ollama.base_url });
    model = llm.ollama.model;
    prompt_version = llm.ollama.prompt_version;
  })
  llm_projector env llm openai = some (record {
    client =
        openai_client sub.http sub.print sub.chat_json
          (record { base_url = llm.openai.base_url; api_key = env "OPENAI_API_KEY" });
    model = llm.openai.model;
    prompt_version = llm.openai.prompt_version;
  })

  -- The projector behind the durable cache
  unfoldable pub durable_projector : LlmProjector World → ProjectorStep
  durable_projector p =
      let version = cache_version sub.digest_text p in
      caching_projector sub.digest (
        new_projector sub.digest (llm_step sub.projection_json sub.digest_text p)
          (sqlite_projection_cache sub.write sub.read) version)

  abbrev pub pruned : Bool → StepVersion → Disk → Disk
  pruned prunes version (table, w) = (if prunes then prune_projections version table else table, w)

  -- The end of `projector_for`
  abbrev pub open_cache :
      Opening → Option (LlmProjector World) → Disk → Result String ProjectorStep × Disk
  open_cache opening none disk = (ok (mock_projector sub.lower), disk)
  open_cache opening (some p) disk = elim (opening.open_error) [
    | some e ↦ (err e, disk)
    | none ↦
        (ok (durable_projector p), pruned opening.prunes (cache_version sub.digest_text p) disk)
  ]

  unfoldable pub projector_for :
      Env → LlmSettings → Opening → Provider → Disk → Result String ProjectorStep × Disk
  unfolding llm_projector durable_projector
  projector_for env llm opening provider disk =
      open_cache opening (llm_projector env llm provider) disk

  abbrev pub version_of : String → Result String ProjectorStep → Result String StepVersion
  version_of strategy (err e) = err e
  version_of strategy (ok p) = ok (Derivation.derivation_version strategy p.version)

  -- `derivation_version`
  unfoldable pub derivation_version :
      Env → LlmSettings → Opening → String → Provider → Disk → Result String StepVersion × Disk
  unfolding projector_for
  derivation_version env llm opening strategy provider disk =
      let (r, disk') = projector_for env llm opening provider disk in (version_of strategy r, disk')

  pub record InspectContext : Type 0 where
    pub message : MessageEnvelope
    pub projection : Projection R
    pub trace : Option RoutingTrace
    pub decision : RoutingDecision

  -- What `inspect` returns; a panic of the projector is `panicked`.
  pub data Inspected : Type 0 where
    inspected : Option InspectContext → Inspected
    refused : String → Inspected
    panicked : Inspected

  abbrev pub inspect_projection :
      Option RoutingTrace
      → RuleRouter R
      → MessageEnvelope
      → Option (Projection R) × Disk
      → Inspected × Disk
  inspect_projection trace router message (none, disk) = (panicked, disk)
  inspect_projection trace router message (some projection, disk) = (
    inspected (
        some (record {
          message = message;
          projection = projection;
          trace = trace;
          decision = (route router projection).0;
        })),
    disk,
  )

  abbrev pub inspect_message :
      Option RoutingTrace
      → RuleRouter R
      → MessageEnvelope
      → Result String ProjectorStep × Disk
      → Inspected × Disk
  inspect_message trace router message (err e, disk) = (refused e, disk)
  inspect_message trace router message (ok p, disk) =
      inspect_projection trace router message (p.run message disk)

  -- `inspect`, of the log's `get` and the trace store's `get`
  unfoldable pub inspect :
      Env
      → LlmSettings
      → Opening
      → (MessageId → Option MessageEnvelope)
      → (MessageId → Option RoutingTrace)
      → MessageId
      → Provider
      → RuleRouter R
      → Disk
      → Inspected × Disk
  unfolding projector_for
  inspect env llm opening messages traces id provider router disk = elim (messages id) [
    | none ↦ (inspected none, disk)
    | some message ↦
        inspect_message (traces id) router message (projector_for env llm opening provider disk)
  ]
