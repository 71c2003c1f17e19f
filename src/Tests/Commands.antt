-- ===== src/Tests/Commands.antt =====
-- The commands at concrete inputs: settings, repositories, fetches and reports.
use mirrorlane.Base.{
  ℕ, ◌≡◌, ◌≢◌, refl, ◌↔◌, Bool, true, false, String, Option, none, some, List, [], ◌∷◌, string_eq,
  ◌==◌, if◌then◌else◌,
}
use mirrorlane.Base.Lists.{In}
use mirrorlane.Base.Result.{Result, ok, err}
use mirrorlane.Base.Split.{split_once, has_char}
use mirrorlane.Cli.Broker.{Env, sqlite, postgres, BrokerSettings, Brokers, connect}
use mirrorlane.Cli.Broker.Hides.{connect-hides, is_set}
use mirrorlane.Cli.Commands.{VerifyRecord}
use mirrorlane.Cli.Config.{Parsers, Policies, no_config, mock, text_format, json_format}
use mirrorlane.Cli.Ingest.{parse_repo}
use mirrorlane.Cli.Ingest.RepoSpec.{NamesRepo, parse_repo_iff}
use mirrorlane.Cli.Report.{verify_report}
use mirrorlane.Cli.Report.Verified.{verify_report_iff}
use mirrorlane.Cli.Config.{
  resolve_handler_timeout, resolve_broker_settings, resolve_db, resolve_provider, resolve_format,
  resolve_strategy,
}
use mirrorlane.Cli.Settings.{Flags, Settings, resolve_llm, resolve_settings}
use mirrorlane.Cli.Settings.Bounded.{Keeps, Bounds, resolve_settings-Resolved, connect-bounded}
use mirrorlane.Provider.Routing as Routing
use mirrorlane.Tests.Fixtures.{hundredths}
use mirrorlane.Github.Item.{Repo}
use mirrorlane.Tests.Fixtures.{quote}

abbrev octo_cat : Repo
octo_cat = record { owner = "octo"; name = "cat" }

parse_repo_iff_example : NamesRepo "octo/cat" octo_cat
unfolding parse_repo split_once has_char
parse_repo_iff_example = (parse_repo_iff quote "octo/cat" octo_cat).0 refl

abbrev two_records : List VerifyRecord
two_records =
    record { conversation = "c-1"; outcome = "verified" }
    ∷ record { conversation = "c-2"; outcome = "diverged" }
    ∷ []

-- The first conversation verifies, though the second has diverged.
verify_report_iff_example :
    ((verify_report (λ rs. ok "[]") json_format (some "c-1") two_records).1 ≡ ok tt)
    ↔ ((r : VerifyRecord) → In r two_records → r.conversation ≡ "c-1" → r.outcome ≢ "diverged")
verify_report_iff_example =
    verify_report_iff (λ rs. ok "[]") json_format (some "c-1") two_records (λ rs. refl)

-- A broker as its dead-letter cap and its bound on deliveries
abbrev TestBroker : Type 0
TestBroker = ℕ × Option ℕ

abbrev brokers : Brokers ℕ TestBroker
brokers = record {
  open_sqlite = λ path. ok (0, none);
  connect_with_pool = λ url schema size. ok (0, none);
  connect_with_namespace = λ url namespace. ok (0, none);
  with_dead_letter_retention = λ cap b. (cap, b.1);
  with_lease = λ lease b. b;
  with_max_deliveries = λ n b. (b.0, some n);
  default_pool_size = 16;
  redact_credentials = λ e. "";
}

abbrev with_url : String → Env
with_url url name = if name == "WORKLANE_URL" then some url else none

abbrev postgres_settings : BrokerSettings ℕ
postgres_settings = record {
  retention = 1000;
  schema = none;
  namespace = none;
  pool_size = none;
  lease = none;
  max_deliveries = some 10;
}

same_set :
    (name : String)
    → is_set (with_url "postgres://secret" name) ≡ is_set (with_url "postgres://other" name)
same_set name = by_test (name == "WORKLANE_URL")
  where
    by_test :
        (b : Bool)
        → is_set (if b then some "postgres://secret" else none)
          ≡ is_set (if b then some "postgres://other" else none)
    by_test true = refl
    by_test false = refl

connect-hides_example :
    (connect brokers (with_url "postgres://secret") postgres "q.db" none postgres_settings).0
    ≡ (connect brokers (with_url "postgres://other") postgres "q.db" none postgres_settings).0
connect-hides_example =
    connect-hides brokers (with_url "postgres://secret") (with_url "postgres://other") postgres
      "q.db" none none postgres_settings same_set refl

-- `u32` and the others read one text.
abbrev parse_five : String → Result String ℕ
parse_five s = if s == "5" then ok 5 else err "invalid digit found in string"

abbrev parsers : Parsers
parsers = record { parse_usize = parse_five; parse_u64 = parse_five; parse_u32 = parse_five }

-- A policy is its cap.
abbrev policies : Policies ℕ
policies = record { new = 0; with_max_count = λ n p. n; with_max_age = λ n p. p }

keeps : Keeps policies brokers
keeps = record {
  max_count_of = λ p. some p;
  policy_of = λ b. b.0;
  deliveries_of = λ b. b.1;
  count-max_count = λ n p. refl;
  count-max_age = λ n p. refl;
  policy-retention = λ p b. refl;
  policy-lease = λ n b. refl;
  policy-deliveries = λ n b. refl;
  deliveries-max = λ n b. refl;
}

abbrev five_deliveries : Env
five_deliveries name = if name == "MIRRORLANE_WORKLANE_MAX_DELIVERIES" then some "5" else none

abbrev no_flags : Flags
no_flags = record {
  db = none;
  queue_db = none;
  broker = none;
  queue_url = none;
  provider = none;
  format = none;
  strategy = none;
  config = none;
  ollama_base_url = none;
  ollama_model = none;
  ollama_prompt_version = none;
  openai_base_url = none;
  openai_model = none;
  github_base_url = none;
}

-- What is resolved of the one variable
abbrev five_settings : Settings ℕ ℕ
five_settings = record {
  db = "mirrorlane.db";
  queue_db = "mirrorlane-queue.db";
  broker_kind = sqlite;
  queue_url = none;
  provider = mock;
  format = text_format;
  strategy_id = "projection";
  llm = resolve_llm {R = ℕ} no_flags no_config;
  github_base_url = "https://api.github.com";
  router = Routing.new;
  trace_cap = 10000;
  handler_timeout = 300;
  broker_settings = record {
    retention = 1000;
    schema = none;
    namespace = none;
    pool_size = none;
    lease = none;
    max_deliveries = some 5;
  };
}

resolve_settings-Resolved_example :
    Bounds {R = ℕ} ⦃f = hundredths⦄ quote parsers policies five_deliveries no_config five_settings
unfolding resolve_settings resolve_handler_timeout resolve_broker_settings resolve_db
    resolve_provider resolve_format resolve_strategy
resolve_settings-Resolved_example =
    (resolve_settings-Resolved {R = ℕ} ⦃f = hundredths⦄ quote parsers policies five_deliveries
        no_flags no_config).1
      five_settings refl

connect-bounded_example : keeps.max_count_of (keeps.policy_of (1000, some 5)) ≡ some 1000
unfolding resolve_settings resolve_handler_timeout resolve_broker_settings resolve_db
    resolve_provider resolve_format resolve_strategy connect
connect-bounded_example =
    (connect-bounded quote parsers policies five_deliveries brokers keeps no_flags no_config
      five_settings [] (1000, some 5) refl refl).1
