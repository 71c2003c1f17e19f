-- ===== src/Cli/Settings/Bounded.antt =====
-- What bounds the work of crates/mirrorlane-cli/src/main.rs: the settings that it resolves, and the broker
-- that it connects with them.
use mirrorlane.Base.{ℕ, String, ◌≡◌, refl, ap, ◌∙◌, subst, Option, none, some, List, get_or}
use mirrorlane.Base.Float.{Float}
use mirrorlane.Base.Result.{
  Result, ok, err, map_ok, Printed, then_print, >>=-ok, ok-inj, ok_of-is_ok,
}
use mirrorlane.Cli.Broker.{
  Env, BrokerKind, sqlite, postgres, redis, BrokerSettings, Brokers, configure, opened, open_broker,
  resolve_url, connect, if_some,
}
use mirrorlane.Cli.Config.{
  Config, RetentionConfig, no_retention, no_worklane, Parsers, Policies, aged, resolve_retention,
  default_dead_letter_max_count, default_trace_max_count, default_max_deliveries,
  default_handler_timeout_secs, configured_timeout, resolve_handler_timeout,
  resolve_broker_settings,
}
use mirrorlane.Cli.Config.Precedence.{
  Resolved, BrokerBounds, NumbersWellFormed, configured_deliveries,
  resolve_handler_timeout-Resolved, resolve_broker_settings-Resolved, resolve-WellFormed,
}
use mirrorlane.Cli.Settings.{Flags, Settings, resolve_settings}

-- What a policy and a broker can be asked, and that they keep what they were given: the documented
-- behaviour of Worklane's setters.
pub record Keeps {Policy B : Type 0} (policies : Policies Policy) (brokers : Brokers Policy B)
    : Type 0 where
  pub max_count_of : Policy → Option ℕ
  pub policy_of : B → Policy
  pub deliveries_of : B → Option ℕ
  pub count-max_count : (n : ℕ) (p : Policy) → max_count_of (policies.with_max_count n p) ≡ some n
  pub count-max_age :
      (n : ℕ) (p : Policy) → max_count_of (policies.with_max_age n p) ≡ max_count_of p
  pub policy-retention :
      (p : Policy) (b : B) → policy_of (brokers.with_dead_letter_retention p b) ≡ p
  pub policy-lease : (n : ℕ) (b : B) → policy_of (brokers.with_lease n b) ≡ policy_of b
  pub policy-deliveries :
      (n : ℕ) (b : B) → policy_of (brokers.with_max_deliveries n b) ≡ policy_of b
  pub deliveries-max : (n : ℕ) (b : B) → deliveries_of (brokers.with_max_deliveries n b) ≡ some n

-- The cap on dead letters that a configuration stands for
abbrev pub letters_cap : Option RetentionConfig → ℕ
letters_cap config =
    get_or (get_or config no_retention).dead_letter_max_count default_dead_letter_max_count

module _ {Policy B : Type 0} (policies : Policies Policy) (brokers : Brokers Policy B)
    (keeps : Keeps policies brokers) where
  configure-policy :
      (settings : BrokerSettings Policy) (b : B)
      → keeps.policy_of (configure brokers settings b) ≡ settings.retention
  unfolding configure
  configure-policy settings b =
      deliveries settings.max_deliveries (if_some brokers brokers.with_lease settings.lease given)
      ∙ (lease settings.lease given ∙ keeps.policy-retention settings.retention b)
    where
      given : B
      given = brokers.with_dead_letter_retention settings.retention b

      deliveries :
          (o : Option ℕ) (c : B)
          → keeps.policy_of (if_some brokers brokers.with_max_deliveries o c) ≡ keeps.policy_of c
      deliveries none c = refl
      deliveries (some n) c = keeps.policy-deliveries n c

      lease :
          (o : Option ℕ) (c : B)
          → keeps.policy_of (if_some brokers brokers.with_lease o c) ≡ keeps.policy_of c
      lease none c = refl
      lease (some n) c = keeps.policy-lease n c

  configure-deliveries :
      (settings : BrokerSettings Policy) (b : B) (n : ℕ)
      → settings.max_deliveries ≡ some n
      → keeps.deliveries_of (configure brokers settings b) ≡ some n
  unfolding configure
  configure-deliveries settings b n e = rw (e, if_some) (keeps.deliveries-max n _)

  -- A broker that is connected is one that was opened and configured.
  map_ok-configure :
      (settings : BrokerSettings Policy) (r : Result String B) (b : B)
      → map_ok (configure brokers settings) r ≡ ok b
      → (b' : B) × (configure brokers settings b' ≡ b)
  map_ok-configure settings (ok b') b h = (b', ok-inj h)
  map_ok-configure settings (err e) b h = absurd (cc)

  then_print-ok :
      {A C : Type 0} (r : Printed (Result String A)) (f : A → Printed (Result String C))
      (lines : List String) (c : C)
      → then_print r f ≡ (lines, ok c)
      → (a : A) × ((f a).1 ≡ ok c)
  then_print-ok (printed, ok a) f lines c h = (a, ap (λ p. p.1) h)
  then_print-ok (printed, err e) f lines c h = absurd (cc)

  connect-configured :
      (env : Env) (kind : BrokerKind) (queue_db : String) (url : Option String)
      (settings : BrokerSettings Policy) (lines : List String) (b : B)
      → connect brokers env kind queue_db url settings ≡ (lines, ok b)
      → (b' : B) × (configure brokers settings b' ≡ b)
  unfolding connect
  connect-configured env sqlite queue_db url settings lines b h =
      map_ok-configure settings (open_broker brokers sqlite queue_db settings) b (ap (λ p. p.1) h)
  connect-configured env postgres queue_db url settings lines b h =
      let (at, e) =
        then_print-ok (resolve_url env url "DATABASE_URL" "postgres")
          (opened brokers postgres settings) lines b h in
      map_ok-configure settings (open_broker brokers postgres at settings) b e
  connect-configured env redis queue_db url settings lines b h =
      let (at, e) =
        then_print-ok (resolve_url env url "REDIS_URL" "redis") (opened brokers redis settings)
          lines b h in
      map_ok-configure settings (open_broker brokers redis at settings) b e

  resolve_retention-count :
      (config : Option RetentionConfig)
      → keeps.max_count_of (resolve_retention policies config).0 ≡ some (letters_cap config)
  unfolding resolve_retention
  resolve_retention-count config = by_age (get_or config no_retention).dead_letter_max_age_secs
    where
      by_age :
          (age : Option ℕ)
          → keeps.max_count_of
              (aged policies age (policies.with_max_count (letters_cap config) policies.new))
            ≡ some (letters_cap config)
      by_age none = keeps.count-max_count _ _
      by_age (some secs) = keeps.count-max_age secs _ ∙ keeps.count-max_count _ _

module _ {R Policy : Type 0} ⦃f : Float R⦄ (quote : String → String) (parsers : Parsers)
    (policies : Policies Policy) (env : Env) where
  -- What the settings of a configuration have to be
  abbrev pub Bounds : Config R → Settings R Policy → Type 0
  Bounds config s =
      Resolved parsers.parse_u64 env "MIRRORLANE_WORKLANE_HANDLER_TIMEOUT_SECS"
        (configured_timeout config.worklane) default_handler_timeout_secs s.handler_timeout
      × BrokerBounds quote parsers env (get_or config.worklane no_worklane) s.broker_settings
      × (s.trace_cap
          ≡ get_or (get_or config.retention no_retention).trace_max_count default_trace_max_count)
      × (s.broker_settings.retention ≡ (resolve_retention policies config.retention).0)

  resolve_settings-Bounds :
      (cli : Flags) (config : Config R) (s : Settings R Policy)
      → resolve_settings quote parsers policies env cli config ≡ ok s
      → Bounds config s
  unfolding resolve_settings resolve_retention
  resolve_settings-Bounds cli config s h =
      let retention = (resolve_retention policies config.retention).0 in
      let (timeout, ran, h') =
        >>=-ok (resolve_handler_timeout quote parsers env config.worklane) _ h in
      let (bs, ran_bs, made) =
        >>=-ok (resolve_broker_settings quote parsers env retention config.worklane) _ h' in
      let (kept, broker) =
        resolve_broker_settings-Resolved quote parsers env retention config.worklane bs ran_bs in
      subst (Bounds config) (ok-inj made) (
        resolve_handler_timeout-Resolved quote parsers env config.worklane timeout ran,
        broker,
        refl,
        kept,
      )

  -- Where the four numeric variables (handler timeout, pool size, lease, deliveries) are unset or parse,
  -- the settings resolve, whatever the flags and the configuration. Of settings that resolve: the handler
  -- timeout and the deliveries are the number of their own variable, else the configured one, else
  -- the default; the pool size and the lease are that of their own variable, else what is
  -- configured, if anything; the schema and the namespace are the text of their variable, else what is
  -- configured; the trace cap, which no variable sets, is the configured one or the default; and
  -- the retention of dead letters is that of the configuration.
  pub resolve_settings-Resolved :
      (cli : Flags) (config : Config R)
      → (NumbersWellFormed quote parsers env
          → (s : Settings R Policy) × (resolve_settings quote parsers policies env cli config
              ≡ ok s))
        × ((s : Settings R Policy)
            → resolve_settings quote parsers policies env cli config ≡ ok s
            → Bounds config s)
  unfolding resolve_settings
  resolve_settings-Resolved cli config = (
    λ wf.
        let ((t, ran_t), (bs, ran_bs)) =
          resolve-WellFormed quote parsers env (resolve_retention policies config.retention).0
            config.worklane wf in
        ok_of-is_ok (resolve_settings quote parsers policies env cli config)
          (rw (ran_t, ran_bs) refl),
    resolve_settings-Bounds cli config,
  )

  -- Where Worklane's setters keep what they are given: a broker that a command connects with the settings
  -- that resolved, of whatever kind, dead-letters a job after some number of deliveries, the
  -- environment's, else the configured, else the default, and keeps at most the configured or
  -- default number of dead letters.
  pub connect-bounded :
      {B : Type 0} (brokers : Brokers Policy B) (keeps : Keeps policies brokers) (cli : Flags)
      (config : Config R) (s : Settings R Policy) (lines : List String) (b : B)
      → resolve_settings quote parsers policies env cli config ≡ ok s
      → connect brokers env s.broker_kind s.queue_db s.queue_url s.broker_settings ≡ (lines, ok b)
      → ((n : ℕ) × (keeps.deliveries_of b ≡ some n)
          × Resolved parsers.parse_u32 env "MIRRORLANE_WORKLANE_MAX_DELIVERIES"
              (configured_deliveries config.worklane)
              default_max_deliveries
              n)
        × (keeps.max_count_of (keeps.policy_of b) ≡ some (letters_cap config.retention))
  connect-bounded brokers keeps cli config s lines b resolved connected =
      let (timeout, (schema, namespace, pool, lease, (n, some_n, from)), traces, retention) =
        resolve_settings-Bounds cli config s resolved in
      let (b', same) =
        connect-configured policies brokers keeps env s.broker_kind s.queue_db s.queue_url
          s.broker_settings lines b connected in
      (
        (
          n,
          subst (λ c. keeps.deliveries_of c ≡ some n) same
              (configure-deliveries policies brokers keeps s.broker_settings b' n some_n),
          from,
        ),
        subst (λ c. keeps.max_count_of (keeps.policy_of c) ≡ some (letters_cap config.retention))
            same
            (ap keeps.max_count_of
                (configure-policy policies brokers keeps s.broker_settings b' ∙ retention)
              ∙ resolve_retention-count policies brokers keeps config.retention),
      )
