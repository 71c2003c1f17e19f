-- ===== src/Cli/Settings.antt =====
-- crates/mirrorlane-cli/src/main.rs: the flags of a command line, as clap parses them, and the head of
-- `main`, which resolves what the commands run with. `Config.load_config` and the parameters are those
-- of Cli/Config.
pub mod Bounded
use mirrorlane.Base.{ℕ, String, Option, get_or}
use mirrorlane.Base.Float.{Float}
use mirrorlane.Base.Result.{Result, ok, err, ◌>>=◌, or}
use mirrorlane.Cli.Broker.{Env, BrokerKind, sqlite, BrokerSettings}
use mirrorlane.Cli.Config.{
  Config, Format, Provider, Parsers, Policies, load_config, resolve_db, resolve_str,
  resolve_provider, resolve_format, resolve_strategy, resolve_retention, resolve_handler_timeout,
  resolve_broker_settings,
}
use mirrorlane.Cli.Context.{build_router}
use mirrorlane.Cli.Projector.{LlmSettings}
use mirrorlane.Github.Rest as Rest
use mirrorlane.Llm.{default_prompt_version}
use mirrorlane.Llm.Ollama as Ollama
use mirrorlane.Llm.Openai as Openai
use mirrorlane.Provider.Routing.{RuleRouter}

-- `Cli`, less its command
pub record Flags : Type 0 where
  pub db : Option String
  pub queue_db : Option String
  pub broker : Option BrokerKind
  pub queue_url : Option String
  pub provider : Option Provider
  pub format : Option Format
  pub strategy : Option String
  pub config : Option String
  pub ollama_base_url : Option String
  pub ollama_model : Option String
  pub ollama_prompt_version : Option String
  pub openai_base_url : Option String
  pub openai_model : Option String
  pub github_base_url : Option String

-- The variables of `main` that the commands read
pub record Settings (R Policy : Type 0) : Type 0 where
  pub db : String
  pub queue_db : String
  pub broker_kind : BrokerKind
  pub queue_url : Option String
  pub provider : Provider
  pub format : Format
  pub strategy_id : String
  pub llm : LlmSettings
  pub github_base_url : String
  pub router : RuleRouter R
  pub trace_cap : ℕ
  pub handler_timeout : ℕ
  pub broker_settings : BrokerSettings Policy

unfoldable pub resolve_llm : {R : Type 0} → Flags → Config R → LlmSettings
unfolding resolve_str
resolve_llm cli config = record {
  ollama = record {
    base_url = resolve_str cli.ollama_base_url config.ollama_base_url Ollama.default_base_url;
    model = resolve_str cli.ollama_model config.ollama_model Ollama.default_model;
    prompt_version =
        resolve_str cli.ollama_prompt_version config.ollama_prompt_version default_prompt_version;
  };
  openai = record {
    base_url = resolve_str cli.openai_base_url config.openai_base_url Openai.default_base_url;
    model = resolve_str cli.openai_model config.openai_model Openai.default_model;
    prompt_version = default_prompt_version;
  };
}

module _ {R Policy : Type 0} ⦃f : Float R⦄ (quote : String → String) (parsers : Parsers)
    (policies : Policies Policy) (env : Env) where
  -- The settings, of a configuration that is loaded
  unfoldable pub resolve_settings : Flags → Config R → Result String (Settings R Policy)
  unfolding resolve_llm build_router resolve_retention
  resolve_settings cli config = do
    let retention = resolve_retention policies config.retention
    handler_timeout ← resolve_handler_timeout quote parsers env config.worklane
    broker_settings ← resolve_broker_settings quote parsers env retention.0 config.worklane
    ok (record {
      db = resolve_db cli.db config.db;
      queue_db = resolve_str cli.queue_db config.queue_db "mirrorlane-queue.db";
      broker_kind = get_or (or cli.broker config.broker) sqlite;
      queue_url = or cli.queue_url config.queue_url;
      provider = resolve_provider cli.provider config.provider;
      format = resolve_format cli.format config.format;
      strategy_id = resolve_strategy cli.strategy config.strategy;
      llm = resolve_llm cli config;
      github_base_url =
          resolve_str cli.github_base_url config.github_base_url Rest.default_base_url;
      router = build_router config.routing;
      trace_cap = retention.1;
      handler_timeout = handler_timeout;
      broker_settings = broker_settings;
    })

  -- `main` up to the opening of the stores
  unfoldable pub start :
      (String → Result String String)
      → (String → Result String (Config R))
      → Flags
      → Result String (Settings R Policy)
  unfolding resolve_settings load_config
  start read_to_string from_json cli = do
    config ← load_config read_to_string from_json cli.config
    resolve_settings cli config
