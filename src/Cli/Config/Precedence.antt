-- ===== src/Cli/Config/Precedence.antt =====
-- How the numbers of crates/mirrorlane-cli/src/main.rs are resolved: the environment, then the
-- configuration, then the default; a malformed value in the environment is an error.
use mirrorlane.Base.{
  ℕ, String, ◌<>◌, ◌≡◌, refl, sym, subst, inl, inr, Option, none, some, get_or, Option-cases,
}
use mirrorlane.Base.Result.{Result, ok, err, map_err, map_ok, or, >>=-ok, ok-inj, ok_of-is_ok}
use mirrorlane.Cli.Broker.{Env, BrokerSettings}
use mirrorlane.Cli.Config.{
  WorklaneConfig, no_worklane, Parsers, env_num_or, configured_timeout, default_max_deliveries,
  default_handler_timeout_secs, env_str_or, resolve_broker_settings, resolve_handler_timeout,
}

-- The number of a setting: that of the environment, else the configured one, else the default.
pub data Resolved (parse : String → Result String ℕ) (env : Env) (name : String) (config : Option ℕ)
    (default : ℕ) (n : ℕ) : Type 0 where
  from_env :
      (text : String)
      → env name ≡ some text
      → parse text ≡ ok n
      → Resolved parse env name config default n
  from_config : env name ≡ none → config ≡ some n → Resolved parse env name config default n
  by_default :
      env name ≡ none → config ≡ none → n ≡ default → Resolved parse env name config default n

-- The number of a setting that has no default: that of the environment, else what is configured, if
-- anything is.
pub data Chosen (parse : String → Result String ℕ) (env : Env) (name : String) (config : Option ℕ)
    (o : Option ℕ) : Type 0 where
  of_env :
      (text : String) (n : ℕ)
      → env name ≡ some text
      → parse text ≡ ok n
      → o ≡ some n
      → Chosen parse env name config o
  of_config : env name ≡ none → o ≡ config → Chosen parse env name config o

-- A variable that is unset, or that parses
abbrev pub WellFormed : (String → Result String ℕ) → Env → String → Type 0
WellFormed parse env name = (text : String) → env name ≡ some text → (n : ℕ) × (parse text ≡ ok n)

module _ (quote : String → String) (parse : String → Result String ℕ) (env : Env) (name : String)
    (config : Option ℕ) where
  env_num_or-unset : env name ≡ none → env_num_or quote parse env name config ≡ ok config
  unfolding env_num_or
  env_num_or-unset h = rw (h, env_num_or) refl

  env_num_or-set :
      (text : String)
      → env name ≡ some text
      → env_num_or quote parse env name config
        ≡ map_err
            (λ e. name <> (": invalid value " <> (quote text <> (": " <> e))))
            (map_ok some (parse text))
  unfolding env_num_or
  env_num_or-set text h = rw (h, env_num_or) refl

  map_err-ok :
      {A B : Type 0} (f : String → String) (g : A → B) (r : Result String A) {b : B}
      → map_err f (map_ok g r) ≡ ok b
      → (a : A) × (r ≡ ok a) × (g a ≡ b)
  map_err-ok f g (ok a) h = (a, refl, cc)
  map_err-ok f g (err e) h = absurd (cc)

  -- A number that is resolved, whatever the default
  pub env_num_or-Resolved :
      (default : ℕ) (o : Option ℕ)
      → env_num_or quote parse env name config ≡ ok o
      → Resolved parse env name config default (get_or o default)
  env_num_or-Resolved default o h = elim (Option-cases (env name)) [
    | inl unset ↦
        let same : config ≡ o = ok-inj (rw (env_num_or-unset unset) at h) in
        subst (λ x. Resolved parse env name config default (get_or x default)) same
          (configured unset config refl)
    | inr (text, set) ↦
        let (n, parsed, same) =
          map_err-ok _ some (parse text) (rw (env_num_or-set text set) at h) in
        subst (λ x. Resolved parse env name config default (get_or x default)) same
          (from_env text set parsed)
  ]
    where
      configured :
          env name ≡ none
          → (c : Option ℕ) → config ≡ c
          → Resolved parse env name config default (get_or config default)
      configured unset none e = by_default unset e (rw e refl)
      configured unset (some n) e =
          subst (λ x. Resolved parse env name config default (get_or x default)) (sym e)
            (from_config unset e)

  -- The same of a setting that has no default
  pub env_num_or-Chosen :
      (o : Option ℕ)
      → env_num_or quote parse env name config ≡ ok o
      → Chosen parse env name config o
  env_num_or-Chosen o h = elim (Option-cases (env name)) [
    | inl unset ↦ of_config unset (sym (ok-inj (rw (env_num_or-unset unset) at h)))
    | inr (text, set) ↦
        let (n, parsed, same) =
          map_err-ok _ some (parse text) (rw (env_num_or-set text set) at h) in
        of_env text n set parsed (sym same)
  ]

  -- And it resolves where the variable is well-formed.
  pub env_num_or-ok :
      WellFormed parse env name → (o : Option ℕ) × (env_num_or quote parse env name config ≡ ok o)
  env_num_or-ok wf = elim (Option-cases (env name)) [
    | inl unset ↦ (config, env_num_or-unset unset)
    | inr (text, set) ↦
        let (n, parsed) = wf text set in (some n, rw (env_num_or-set text set, parsed) refl)
  ]

-- What a configuration says of a worker's numbers
abbrev pub configured_deliveries : Option WorklaneConfig → Option ℕ
configured_deliveries config = (get_or config no_worklane).max_deliveries

get_or-or : (o : Option ℕ) (n : ℕ) → or o (some n) ≡ some (get_or o n)
get_or-or none n = refl
get_or-or (some m) n = refl

module _ (quote : String → String) (parsers : Parsers) (env : Env) where
  -- The variables of the four numbers, well-formed
  abbrev pub NumbersWellFormed : Type 0
  NumbersWellFormed =
      WellFormed parsers.parse_u64 env "MIRRORLANE_WORKLANE_HANDLER_TIMEOUT_SECS"
      × WellFormed parsers.parse_usize env "MIRRORLANE_WORKLANE_POOL_SIZE"
      × WellFormed parsers.parse_u64 env "MIRRORLANE_WORKLANE_LEASE_SECS"
      × WellFormed parsers.parse_u32 env "MIRRORLANE_WORKLANE_MAX_DELIVERIES"

  pub resolve_handler_timeout-Resolved :
      (config : Option WorklaneConfig) (n : ℕ)
      → resolve_handler_timeout quote parsers env config ≡ ok n
      → Resolved parsers.parse_u64 env "MIRRORLANE_WORKLANE_HANDLER_TIMEOUT_SECS"
          (configured_timeout config)
          default_handler_timeout_secs
          n
  unfolding resolve_handler_timeout
  resolve_handler_timeout-Resolved config n h =
      let (o, ran, rest) =
        >>=-ok
          (env_num_or quote parsers.parse_u64 env "MIRRORLANE_WORKLANE_HANDLER_TIMEOUT_SECS"
            (configured_timeout config))
          _ h in
      subst
        (λ x.
          Resolved parsers.parse_u64 env "MIRRORLANE_WORKLANE_HANDLER_TIMEOUT_SECS"
            (configured_timeout config) default_handler_timeout_secs x)
        (ok-inj rest)
        (env_num_or-Resolved quote parsers.parse_u64 env "MIRRORLANE_WORKLANE_HANDLER_TIMEOUT_SECS"
          (configured_timeout config) default_handler_timeout_secs o ran)

  -- What the settings of a broker have to be: each setting from its own variable and its own entry of
  -- the configuration
  abbrev pub BrokerBounds : {Policy : Type 0} → WorklaneConfig → BrokerSettings Policy → Type 0
  BrokerBounds wl s =
      (s.schema ≡ or (env "MIRRORLANE_WORKLANE_QUEUE_SCHEMA") wl.queue_schema)
      × (s.namespace ≡ or (env "MIRRORLANE_WORKLANE_QUEUE_NAMESPACE") wl.queue_namespace)
      × Chosen parsers.parse_usize env "MIRRORLANE_WORKLANE_POOL_SIZE" wl.pool_size s.pool_size
      × Chosen parsers.parse_u64 env "MIRRORLANE_WORKLANE_LEASE_SECS" wl.lease_secs s.lease
      × ((n : ℕ) × (s.max_deliveries ≡ some n)
          × Resolved parsers.parse_u32 env "MIRRORLANE_WORKLANE_MAX_DELIVERIES" wl.max_deliveries
              default_max_deliveries n)

  pub resolve_broker_settings-Resolved :
      {Policy : Type 0} (retention : Policy) (config : Option WorklaneConfig)
      (settings : BrokerSettings Policy)
      → resolve_broker_settings quote parsers env retention config ≡ ok settings
      → (settings.retention ≡ retention) × BrokerBounds (get_or config no_worklane) settings
  unfolding resolve_broker_settings env_str_or
  resolve_broker_settings-Resolved retention config settings h =
      let wl = get_or config no_worklane in
      let (pool, ran_pool, h') =
        >>=-ok
          (env_num_or quote parsers.parse_usize env "MIRRORLANE_WORKLANE_POOL_SIZE" wl.pool_size) _
          h in
      let (lease, ran_lease, h'') =
        >>=-ok
          (env_num_or quote parsers.parse_u64 env "MIRRORLANE_WORKLANE_LEASE_SECS" wl.lease_secs) _
          h' in
      let (max, ran_max, made) =
        >>=-ok
          (env_num_or quote parsers.parse_u32 env "MIRRORLANE_WORKLANE_MAX_DELIVERIES"
            wl.max_deliveries)
          _ h'' in
      subst (λ (s : BrokerSettings _). (s.retention ≡ retention) × BrokerBounds wl s) (ok-inj made)
        (
          refl,
          (
            refl,
            refl,
            env_num_or-Chosen quote parsers.parse_usize env "MIRRORLANE_WORKLANE_POOL_SIZE"
                wl.pool_size pool ran_pool,
            env_num_or-Chosen quote parsers.parse_u64 env "MIRRORLANE_WORKLANE_LEASE_SECS"
                wl.lease_secs lease ran_lease,
            (
              get_or max default_max_deliveries,
              get_or-or max default_max_deliveries,
              env_num_or-Resolved quote parsers.parse_u32 env "MIRRORLANE_WORKLANE_MAX_DELIVERIES"
                  wl.max_deliveries default_max_deliveries max ran_max,
            ),
          ),
        )

  -- Where the four variables are well-formed, the numbers resolve.
  pub resolve-WellFormed :
      {Policy : Type 0} (retention : Policy) (config : Option WorklaneConfig)
      → NumbersWellFormed
      → ((n : ℕ) × (resolve_handler_timeout quote parsers env config ≡ ok n))
        × ((s : BrokerSettings Policy) × (resolve_broker_settings quote parsers env retention config
              ≡ ok s))
  unfolding resolve_handler_timeout resolve_broker_settings
  resolve-WellFormed retention config (timeout, pool, lease, max) =
      let wl = get_or config no_worklane in
      let (t, ran_t) =
        env_num_or-ok quote parsers.parse_u64 env "MIRRORLANE_WORKLANE_HANDLER_TIMEOUT_SECS"
          (configured_timeout config) timeout in
      let (p, ran_p) =
        env_num_or-ok quote parsers.parse_usize env "MIRRORLANE_WORKLANE_POOL_SIZE" wl.pool_size
          pool in
      let (l, ran_l) =
        env_num_or-ok quote parsers.parse_u64 env "MIRRORLANE_WORKLANE_LEASE_SECS" wl.lease_secs
          lease in
      let (m, ran_m) =
        env_num_or-ok quote parsers.parse_u32 env "MIRRORLANE_WORKLANE_MAX_DELIVERIES"
          wl.max_deliveries max in
      (
        ok_of-is_ok (resolve_handler_timeout quote parsers env config) (rw ran_t refl),
        ok_of-is_ok (resolve_broker_settings quote parsers env retention config)
            (rw (ran_p, ran_l, ran_m) refl),
      )
