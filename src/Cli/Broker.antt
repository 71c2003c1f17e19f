-- ===== src/Cli/Broker.antt =====
-- crates/mirrorlane-cli/src/broker.rs: the durable broker of `submit`, `work` and `dlq`. Worklane's brokers
-- are a parameter, `Brokers`: `B` is the type of a connected broker. `env` is `std::env::var(..).ok()`; a
-- duration is its seconds. What is printed on stderr is returned beside the result.
pub mod Hides
use mirrorlane.Base.{String, ◌<>◌, Option, none, some, ℕ, List, [], ◌∷◌, get_or}
use mirrorlane.Base.Result.{Result, ok, err, map_err, map_ok, Printed, then_print}

abbrev pub Env : Type 0
Env = String → Option String

pub record BrokerSettings (Retention : Type 0) : Type 0 where
  pub retention : Retention
  pub schema : Option String
  pub namespace : Option String
  pub pool_size : Option ℕ
  pub lease : Option ℕ
  pub max_deliveries : Option ℕ

pub data BrokerKind : Type 0 where
  sqlite postgres redis : BrokerKind

-- What the code calls of the crates `worklane_sqlite`, `worklane_postgres`, `worklane_redis` and
-- `worklane_core`
pub record Brokers (Retention B : Type 0) : Type 0 where
  pub open_sqlite : String → Result String B
  pub connect_with_pool : String → String → ℕ → Result String B
  pub connect_with_namespace : String → String → Result String B
  pub with_dead_letter_retention : Retention → B → B
  pub with_lease : ℕ → B → B
  pub with_max_deliveries : ℕ → B → B
  pub default_pool_size : ℕ
  pub redact_credentials : String → String

unfoldable pub resolve_url : Env → Option String → String → String → Printed (Result String String)
resolve_url env (some url) fallback_var backend =
    ((backend <> ": using --queue-url/queue_url") ∷ [], ok url)
resolve_url env none fallback_var backend = elim (env "WORKLANE_URL") [
  | some url ↦ ((backend <> ": using $WORKLANE_URL") ∷ [], ok url)
  | none ↦ elim (env fallback_var) [
    | some url ↦ ((backend <> (": using $" <> fallback_var)) ∷ [], ok url)
    | none ↦ (
      [],
      err (
          "--queue-url, $WORKLANE_URL, or $"
          <> (fallback_var <> (" is required for --broker " <> backend))),
    )
  ]
]

module _ {Retention B : Type 0} (brokers : Brokers Retention B) where
  -- `if let Some(lease) = lease { .. }`, and for the deliveries
  abbrev pub if_some : {A : Type 0} → (A → B → B) → Option A → B → B
  if_some f none broker = broker
  if_some f (some a) broker = f a broker

  -- What each arm of `connect` does to the broker that it opened
  unfoldable pub configure : BrokerSettings Retention → B → B
  configure settings broker = if_some brokers.with_max_deliveries settings.max_deliveries (
      if_some brokers.with_lease settings.lease
        (brokers.with_dead_letter_retention settings.retention broker))

  -- The connection that an arm makes, with its errors
  unfoldable pub open_broker : BrokerKind → String → BrokerSettings Retention → Result String B
  open_broker sqlite queue_db settings =
      map_err (λ e. "sqlite: failed to open '" <> (queue_db <> ("': " <> e)))
        (brokers.open_sqlite queue_db)
  open_broker postgres url settings =
      map_err (λ e. "postgres: connection failed: " <> brokers.redact_credentials e)
        (brokers.connect_with_pool url (get_or settings.schema "public")
          (get_or settings.pool_size brokers.default_pool_size))
  open_broker redis url settings =
      map_err (λ e. "redis: connection failed: " <> brokers.redact_credentials e)
        (brokers.connect_with_namespace url (get_or settings.namespace "worklane"))

  abbrev pub opened : BrokerKind → BrokerSettings Retention → String → Printed (Result String B)
  opened kind settings at = ([], map_ok (configure settings) (open_broker kind at settings))

  abbrev pub ignored_url : Option String → List String
  ignored_url none = []
  ignored_url (some url) = "sqlite: ignoring --queue-url (the sqlite broker uses --queue-db)" ∷ []

  unfoldable pub connect :
      Env
      → BrokerKind
      → String
      → Option String
      → BrokerSettings Retention
      → Printed (Result String B)
  unfolding resolve_url configure open_broker
  connect env sqlite queue_db url_setting settings =
      (ignored_url url_setting, (opened sqlite settings queue_db).1)
  connect env postgres queue_db url_setting settings =
      then_print (resolve_url env url_setting "DATABASE_URL" "postgres") (opened postgres settings)
  connect env redis queue_db url_setting settings =
      then_print (resolve_url env url_setting "REDIS_URL" "redis") (opened redis settings)
