-- ===== src/Cli/Config.antt =====
-- crates/mirrorlane-cli/src/main.rs: the configuration file, the environment, and the settings that are
-- resolved of both. Of other code, taken as parameters: `str::parse` of each width of integer, with the
-- text of its error; `RetentionPolicy` of worklane_core (`Policies`); the reading of a file and
-- serde_json's reading of a `Config`, with the texts of their errors; `{:?}` of a string.
pub mod Precedence
use mirrorlane.Base.{String, ◌<>◌, Option, none, some, ℕ, get_or}
use mirrorlane.Base.Result.{Result, ok, err, ◌>>=◌, map_err, map_ok, or}
use mirrorlane.Cli.Broker.{Env, BrokerKind, BrokerSettings}
use mirrorlane.Cli.Context.{RoutingConfig}

pub data Format : Type 0 where
  text_format json_format : Format

-- Which projector backs a command; of crates/mirrorlane-cli/src/commands.rs
pub data Provider : Type 0 where
  mock ollama openai : Provider

pub record WorklaneConfig : Type 0 where
  pub queue_schema : Option String
  pub queue_namespace : Option String
  pub pool_size : Option ℕ
  pub lease_secs : Option ℕ
  pub max_deliveries : Option ℕ
  pub handler_timeout_secs : Option ℕ

-- `WorklaneConfig::default`
abbrev pub no_worklane : WorklaneConfig
no_worklane = record {
  queue_schema = none;
  queue_namespace = none;
  pool_size = none;
  lease_secs = none;
  max_deliveries = none;
  handler_timeout_secs = none;
}

pub record RetentionConfig : Type 0 where
  pub dead_letter_max_count : Option ℕ
  pub dead_letter_max_age_secs : Option ℕ
  pub trace_max_count : Option ℕ

-- `RetentionConfig::default`
abbrev pub no_retention : RetentionConfig
no_retention = record {
  dead_letter_max_count = none;
  dead_letter_max_age_secs = none;
  trace_max_count = none;
}

pub record Config (R : Type 0) : Type 0 where
  pub db : Option String
  pub queue_db : Option String
  pub broker : Option BrokerKind
  pub queue_url : Option String
  pub provider : Option Provider
  pub format : Option Format
  pub strategy : Option String
  pub ollama_base_url : Option String
  pub ollama_model : Option String
  pub ollama_prompt_version : Option String
  pub openai_base_url : Option String
  pub openai_model : Option String
  pub github_base_url : Option String
  pub routing : Option (RoutingConfig R)
  pub retention : Option RetentionConfig
  pub worklane : Option WorklaneConfig

-- `Config::default`
abbrev pub no_config : {R : Type 0} → Config R
no_config = record {
  db = none;
  queue_db = none;
  broker = none;
  queue_url = none;
  provider = none;
  format = none;
  strategy = none;
  ollama_base_url = none;
  ollama_model = none;
  ollama_prompt_version = none;
  openai_base_url = none;
  openai_model = none;
  github_base_url = none;
  routing = none;
  retention = none;
  worklane = none;
}

abbrev pub default_config_path : String
default_config_path = "mirrorlane.json"

abbrev pub default_dead_letter_max_count : ℕ
default_dead_letter_max_count = 1000

abbrev pub default_trace_max_count : ℕ
default_trace_max_count = 10000

abbrev pub default_max_deliveries : ℕ
default_max_deliveries = 10

abbrev pub default_handler_timeout_secs : ℕ
default_handler_timeout_secs = 300

unfoldable pub env_str_or : Env → String → Option String → Option String
env_str_or env name config = or (env name) config

-- `parse` is `str::parse::<T>`, and `quote` is `{:?}` of a string.
unfoldable pub env_num_or :
    {T : Type 0}
    → (String → String)
    → (String → Result String T)
    → Env
    → String
    → Option T
    → Result String (Option T)
env_num_or quote parse env name config = elim (env name) [
  | none ↦ ok config
  | some s ↦
      map_err (λ e. name <> (": invalid value " <> (quote s <> (": " <> e))))
        (map_ok some (parse s))
]

-- `str::parse` at the integers that the settings have
pub record Parsers : Type 0 where
  pub parse_usize : String → Result String ℕ
  pub parse_u64 : String → Result String ℕ
  pub parse_u32 : String → Result String ℕ

-- `RetentionPolicy`: `new`, `with_max_count` and `with_max_age`
pub record Policies (Policy : Type 0) : Type 0 where
  pub new : Policy
  pub with_max_count : ℕ → Policy → Policy
  pub with_max_age : ℕ → Policy → Policy

-- `config.and_then(|w| w.handler_timeout_secs)`
abbrev pub configured_timeout : Option WorklaneConfig → Option ℕ
configured_timeout none = none
configured_timeout (some wl) = wl.handler_timeout_secs

module _ (quote : String → String) (parsers : Parsers) (env : Env) where
  unfoldable pub resolve_broker_settings :
      {Policy : Type 0} → Policy → Option WorklaneConfig → Result String (BrokerSettings Policy)
  unfolding env_str_or env_num_or
  resolve_broker_settings retention config = do
    let wl = get_or config no_worklane
    pool_size ←
        env_num_or quote parsers.parse_usize env "MIRRORLANE_WORKLANE_POOL_SIZE" wl.pool_size
    lease ← env_num_or quote parsers.parse_u64 env "MIRRORLANE_WORKLANE_LEASE_SECS" wl.lease_secs
    max_deliveries ←
        env_num_or quote parsers.parse_u32 env "MIRRORLANE_WORKLANE_MAX_DELIVERIES"
          wl.max_deliveries
    ok (record {
      retention = retention;
      schema = env_str_or env "MIRRORLANE_WORKLANE_QUEUE_SCHEMA" wl.queue_schema;
      namespace = env_str_or env "MIRRORLANE_WORKLANE_QUEUE_NAMESPACE" wl.queue_namespace;
      pool_size = pool_size;
      lease = lease;
      max_deliveries = or max_deliveries (some default_max_deliveries);
    })

  unfoldable pub resolve_handler_timeout : Option WorklaneConfig → Result String ℕ
  unfolding env_num_or
  resolve_handler_timeout config = do
    secs ←
        env_num_or quote parsers.parse_u64 env "MIRRORLANE_WORKLANE_HANDLER_TIMEOUT_SECS"
          (configured_timeout config)
    ok (get_or secs default_handler_timeout_secs)

module _ {Policy : Type 0} (policies : Policies Policy) where
  abbrev pub aged : Option ℕ → Policy → Policy
  aged none policy = policy
  aged (some secs) policy = policies.with_max_age secs policy

  -- The policy of the dead letters, and the cap of the traces
  unfoldable pub resolve_retention : Option RetentionConfig → Policy × ℕ
  resolve_retention config =
      let rc = get_or config no_retention in
      (
        aged rc.dead_letter_max_age_secs (
            policies.with_max_count (get_or rc.dead_letter_max_count default_dead_letter_max_count)
              policies.new),
        get_or rc.trace_max_count default_trace_max_count,
      )

module _ {R : Type 0} (read_to_string : String → Result String String)
    (from_json : String → Result String (Config R)) where
  abbrev pub parse_config : String → String → Result String (Config R)
  parse_config path contents =
      map_err (λ e. "invalid config " <> (path <> (": " <> e))) (from_json contents)

  unfoldable pub load_config : Option String → Result String (Config R)
  load_config (some path) = do
    contents ← map_err (λ e. "cannot read config " <> (path <> (": " <> e))) (read_to_string path)
    parse_config path contents
  load_config none = elim (read_to_string default_config_path) [
    | ok contents ↦ parse_config default_config_path contents
    | err e ↦ ok no_config
  ]

unfoldable pub resolve_db : Option String → Option String → String
resolve_db flag config = get_or (or flag config) "mirrorlane.db"

unfoldable pub resolve_provider : Option Provider → Option Provider → Provider
resolve_provider flag config = get_or (or flag config) mock

unfoldable pub resolve_format : Option Format → Option Format → Format
resolve_format flag config = get_or (or flag config) text_format

unfoldable pub resolve_strategy : Option String → Option String → String
resolve_strategy flag config = get_or (or flag config) "projection"

unfoldable pub resolve_str : Option String → Option String → String → String
resolve_str flag config default = get_or (or flag config) default
