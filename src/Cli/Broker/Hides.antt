-- ===== src/Cli/Broker/Hides.antt =====
-- What crates/mirrorlane-cli/src/broker.rs prints: a connection URL may hold a credential, and no line
-- depends on it.
use mirrorlane.Base.{
  String, ◌≡◌, refl, sym, ap, ◌∙◌, [], Bool, true, false, Option, none, some, List, ◌++◌, arith,
}
use mirrorlane.Base.Result.{Result, ok, err, Printed, then_print}
use mirrorlane.Cli.Broker.{
  Env, BrokerKind, sqlite, postgres, redis, BrokerSettings, Brokers, resolve_url, connect, opened,
}

abbrev pub is_set : Option String → Bool
is_set none = false
is_set (some text) = true

-- The lines, and the error where there is one
abbrev pub shown : Printed (Result String String) → List String × Option String
shown (lines, ok url) = (lines, none)
shown (lines, err e) = (lines, some e)

resolve_url-hides :
    (env env' : Env) (url url' : Option String) (fallback_var backend : String)
    → is_set url ≡ is_set url'
    → is_set (env "WORKLANE_URL") ≡ is_set (env' "WORKLANE_URL")
    → is_set (env fallback_var) ≡ is_set (env' fallback_var)
    → shown (resolve_url env url fallback_var backend)
      ≡ shown (resolve_url env' url' fallback_var backend)
unfolding resolve_url
resolve_url-hides env env' url url' fallback_var backend h k l = ground arith

abbrev printed_of : List String × Option String → List String
printed_of (lines, none) = lines ++ []
printed_of (lines, some e) = lines

module _ {Retention B : Type 0} (brokers : Brokers Retention B) where
  then_print-opened :
      (kind : BrokerKind) (settings : BrokerSettings Retention) (r : Printed (Result String String))
      → (then_print r (opened brokers kind settings)).0 ≡ printed_of (shown r)
  then_print-opened kind settings (lines, ok url) = refl
  then_print-opened kind settings (lines, err e) = refl

  networked-hides :
      (env env' : Env) (k : BrokerKind) (fallback_var backend : String) (url url' : Option String)
      (settings : BrokerSettings Retention)
      → ((name : String) → is_set (env name) ≡ is_set (env' name))
      → is_set url ≡ is_set url'
      → (then_print (resolve_url env url fallback_var backend) (opened brokers k settings)).0
        ≡ (then_print (resolve_url env' url' fallback_var backend) (opened brokers k settings)).0
  networked-hides env env' k fallback_var backend url url' settings same h =
      then_print-opened k settings (resolve_url env url fallback_var backend)
      ∙ (ap printed_of (
            resolve_url-hides env env' url url' fallback_var backend h (same "WORKLANE_URL")
              (same fallback_var))
          ∙ sym (then_print-opened k settings (resolve_url env' url' fallback_var backend)))

  -- The lines that a connection prints depend on which of the setting and the variables are there, and
  -- not on what they hold: two environments that set the same variables, with a setting in both or in
  -- neither, print the same lines, whatever the broker's kind.
  pub connect-hides :
      (env env' : Env) (kind : BrokerKind) (queue_db : String) (url url' : Option String)
      (settings : BrokerSettings Retention)
      → ((name : String) → is_set (env name) ≡ is_set (env' name))
      → is_set url ≡ is_set url'
      → (connect brokers env kind queue_db url settings).0
        ≡ (connect brokers env' kind queue_db url' settings).0
  unfolding connect
  connect-hides env env' sqlite queue_db url url' settings same h = ground arith
  connect-hides env env' postgres queue_db url url' settings same h =
      networked-hides env env' postgres "DATABASE_URL" "postgres" url url' settings same h
  connect-hides env env' redis queue_db url url' settings same h =
      networked-hides env env' redis "REDIS_URL" "redis" url url' settings same h
