-- ===== src/Worker/Submission/Serves.antt =====
-- A submitted run (crates/mirrorlane-worker/src/submission.rs) from the request to what a reader of the
-- derived-output cache finds.
use mathlib.Core.Path.{fun_ext}
use mirrorlane.Base.{◌≡◌, refl, true, String, none, some, List, arith, string_eq, ◌≢◌}
use mirrorlane.Base.Lists.{Nodup, filter_map}
use mirrorlane.Base.HashMap
use mirrorlane.Base.OrdMap
use mirrorlane.Core.Message.{ConversationId, MessageEnvelope}
use mirrorlane.Core.MessageLog.Sessions.{mentions}
use mirrorlane.Core.MessageLog.Spec.{ids}
use mirrorlane.Core.MessageLog.{messages_for}
use mirrorlane.Core.Derivation.{ConversationDerivation, DerivedOutputCache, derivation_version}
use text.Mathlib.TextEquality.{eq_iff}
use mirrorlane.Worker.Composition.{Substrate, done, failed}
use mirrorlane.Worker.Derived.{content_hash, derivation_for}
use mirrorlane.Worker.Derived.Published.{populate_cache-serves}
use mirrorlane.Worker.Jobs.{StrategyContext, resolve}
use mirrorlane.Worker.Registry.{
  with_builtins, build, built, default_strategy, show_unknown_strategy,
}
use mirrorlane.Worker.Replay.{run_phases}
use mirrorlane.Worker.Replay.Stages.{ids_for}
use mirrorlane.Worker.Replay.Denotation.{
  KeepsKeys, Denotes, session_of, scope_of, warmup_of, hint_of, developers_of,
}
use mirrorlane.Worker.Replay.Deterministic.{run_phases-Denotes}
use mirrorlane.Worker.Submission.{StrategyRunRequest, strategy_run}

abbrev pub projection_run : StrategyRunRequest
projection_run = record { strategy = default_strategy }

module _ {R : Type 0} (ctx : StrategyContext R) (log : List MessageEnvelope) where
  -- The derivation of a conversation of the log, from the log and the ports alone
  unfoldable pub derivation_of : ConversationId → ConversationDerivation R
  derivation_of c = record {
    conversation = c;
    projections = session_of ctx log c;
    scope = scope_of ctx log c;
    warmup = ctx.build_warmup c (scope_of ctx log c) (session_of ctx log c);
    developers = developers_of ctx log c;
    hints = filter_map (hint_of ctx log) (ids_for c log);
  }

  derivation_for-Denotes :
      (substrate : Substrate) (c : ConversationId)
      → Denotes ctx log (run_phases substrate ctx log)
      → mentions c log ≡ true
      → derivation_for (run_phases substrate ctx log) log c ≡ some (derivation_of c)
  unfolding derivation_for derivation_of session_of warmup_of resolve messages_for
  derivation_for-Denotes substrate c d there =
      rw (d.warmups c, there, fun_ext d.projections, fun_ext d.hints, d.scopes c, d.developers c)
        refl

module _ {R S : Type 0} (quote : String → String) (digest : List String → String)
    (cache : DerivedOutputCache R S) (substrate : Substrate) (ctx : StrategyContext R)
    (log : List MessageEnvelope) where
  build-projection :
      build (with_builtins substrate) default_strategy ctx ≡ built (run_phases substrate ctx)
  unfolding build with_builtins
  build-projection = simp OrdMap.get-insert

  -- A submitted projection run succeeds, and leaves for each conversation of a log with unique ids, under
  -- the derivation version and the hash of the conversation's content, the derivation that the log and
  -- the ports determine, as the cache reads it back (in memory: itself), whatever the substrate delivers,
  -- if the ports answer under the keys that they were asked about.
  pub strategy_run-serves :
      KeepsKeys ctx
      → Nodup (ids log)
      → (s : S) (c : ConversationId) → mentions c log ≡ true
      → ((strategy_run quote digest cache (with_builtins substrate) ctx log projection_run s).0
          ≡ done)
        × (cache.get
              (derivation_version default_strategy ctx.version)
              c
              (content_hash digest log c)
              (strategy_run quote digest cache (with_builtins substrate) ctx log projection_run s).1
            ≡ some (cache.back (derivation_of ctx log c)))
  unfolding strategy_run
  strategy_run-serves keeps unique s c there =
      let (ds, s', ran, served) =
        populate_cache-serves digest cache (run_phases substrate ctx log)
          (derivation_version default_strategy ctx.version) log s c (derivation_of ctx log c) there
          (derivation_for-Denotes ctx log substrate c
            (run_phases-Denotes ctx keeps log substrate unique) there) in
      rw (build-projection, strategy_run) (rw ran (refl, served))

  get-with_builtins :
      (id : String)
      → id ≢ default_strategy
      → id ≢ "empty"
      → HashMap.get id (with_builtins {R = R} substrate) ≡ none
  unfolding with_builtins OrdMap.insert HashMap.get
  get-with_builtins id no_default no_empty =
      ground (arith, eq_iff default_strategy id, eq_iff "empty" id)

  -- A request for an id that is not built in fails with the id, and the cache stays as it was.
  pub strategy_run-unknown :
      (id : String) (s : S)
      → id ≢ default_strategy
      → id ≢ "empty"
      → strategy_run quote digest cache
          (with_builtins substrate)
          ctx
          log
          (record { strategy = id })
          s
        ≡ (failed (show_unknown_strategy quote id), s)
  unfolding strategy_run build
  strategy_run-unknown id s no_default no_empty =
      rw (get-with_builtins id no_default no_empty, strategy_run)
