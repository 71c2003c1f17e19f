-- ===== src/Tests/Runs.antt =====
-- The runtime, the worker and the commands at concrete inputs.
use mirrorlane.Base.{
  Bool, ap, sym, ℕ, suc, if◌then◌else◌, ◌==◌, triple_eq, ◌≡◌, refl, ◌<>◌, true, false, String,
  Option, none, some, List, [], ◌∷◌, map, string_eq, ◌≢◌,
}
use text.Mathlib.TextEquality.{eq_iff}
use mirrorlane.Base.HashMap
use mirrorlane.Base.Result.{some-inj}
use mirrorlane.Base.HashMap.Writes.{last_write, or_else}
use mirrorlane.Base.Lists.{In, Nodup}
use mirrorlane.Core.Derivation.{
  ConversationDerivation, InMemoryDerivedOutputCache, DerivedOutputCache, in_memory,
  derivation_version,
}
use mirrorlane.Core.MessageLog.Spec.{entries, ids, replace_or_push}
use mirrorlane.Core.MessageLog.Refines.{log_refines_entries}
use mirrorlane.Core.MessageLog.Sessions.{mentions}
use mirrorlane.Core.Routing.{
  Consumer, ConsumerRegistry, ok, dispatch, human, consumer_kind_eq, consumer_kind_beq,
}
use mirrorlane.Core.Projection.{Projection}
use mirrorlane.Base.Decimal.{show_ℕ}
use mirrorlane.Runtime.Cache.{
  Cached, InMemoryCache, in_memory_cache, cached_run, store_output, get, put,
}
use mirrorlane.Runtime.Cache.Laws.{in_memory_cache-CacheLaws}
use mirrorlane.Runtime.Cache.Frozen.{run_all, run_each, replay_frozen}
use mirrorlane.Worker.Composition.{done}
use mirrorlane.Worker.Derived.{
  content_hash, derivation_for, populate_cache, conversations, messages_in,
}
use mirrorlane.Worker.Derived.Reference.{publish_each, populate_cache-publish_each}
use mirrorlane.Worker.Derived.Published.{populate_cache-serves}
use mirrorlane.Worker.Jobs.{route, route_messages, RouteState}
use mirrorlane.Worker.Jobs.Writes.{decisions, route-last_write, route_returns, Accepting}
use mirrorlane.Worker.Registry.{with_builtins, default_strategy}
use mirrorlane.Worker.Replay.{run_phases}
use mirrorlane.Worker.Replay.Denotation.{Denotes}
use mirrorlane.Worker.Replay.Deterministic.{run_phases-Denotes}
use mirrorlane.Worker.Submission.{strategy_run}
use mirrorlane.Worker.Submission.Serves.{strategy_run-serves, derivation_of}
use mirrorlane.Cli.Context.{mock_context}
use mirrorlane.Cli.Context.Keys.{mock_context-KeepsKeys}
use mirrorlane.Cli.Commands.{WarmupOutput, VerifyRecord, session_context_from, warmup, verify}
use mirrorlane.Cli.Commands.Served.{warmup-served, verify_exact, recorded}
use mirrorlane.Provider.Routing as Routing
use mirrorlane.Storage.Derived.{DerivedTable, sqlite_derived_output_cache}
use mirrorlane.Tests.Fixtures.{
  hundredths, twice, three_messages, edited, lower, digest, quote, some_stores, a_derivation,
  auth_question,
}

abbrev State : Type 0
State = InMemoryDerivedOutputCache ℕ

abbrev cache : DerivedOutputCache ℕ State
cache = in_memory

-- A step that counts its calls in its world, and panics on `bad`
abbrev counting : Cached String String (InMemoryCache String) ℕ
counting = record {
  inner = record {
    kind = "k";
    version = "v0";
    run = λ input calls. (if input == "bad" then none else some (input <> show_ℕ calls), suc calls);
  };
  cache = in_memory_cache;
  version = "v1";
}

-- The cache after a pass over one input, and the count
abbrev after_one : InMemoryCache String × ℕ
after_one = ((("k", "v1", "a"), "a0") ∷ [], 1)

replay_frozen_example :
    run_all (λ i. i) counting ("a" ∷ []) (run_each (λ i. i) counting ("bad" ∷ "b" ∷ []) after_one)
    ≡ (some ("a0" ∷ []), run_each (λ i. i) counting ("bad" ∷ "b" ∷ []) after_one)
unfolding run_all cached_run in_memory_cache store_output get put HashMap.get HashMap.insert show_ℕ
replay_frozen_example =
    replay_frozen (λ i. i) counting in_memory_cache-CacheLaws ("a" ∷ []) ("bad" ∷ "b" ∷ [])
      ("a0" ∷ []) ([], 0) after_one refl

entries_once : Nodup (ids (entries three_messages))
entries_once = (log_refines_entries three_messages).2

c-1_mentioned : mentions "c-1" (entries three_messages) ≡ true
unfolding entries replace_or_push
c-1_mentioned = refl

strategy_run-serves_example :
    ((strategy_run quote digest cache
        (with_builtins twice)
        (mock_context lower)
        (entries three_messages)
        (record { strategy = default_strategy })
        []).0
      ≡ done)
    × (cache.get
          (derivation_version default_strategy (mock_context {R = ℕ} lower).version)
          "c-1"
          (content_hash digest (entries three_messages) "c-1")
          (strategy_run quote digest cache
            (with_builtins twice)
            (mock_context lower)
            (entries three_messages)
            (record { strategy = default_strategy })
            []).1
        ≡ some (derivation_of (mock_context lower) (entries three_messages) "c-1"))
unfolding derivation_of in_memory
strategy_run-serves_example =
    strategy_run-serves quote digest cache twice (mock_context lower) (entries three_messages)
      (mock_context-KeepsKeys lower) entries_once [] "c-1" c-1_mentioned

custom_is_not_projection : ◌≢◌ {A = String} "custom" default_strategy
custom_is_not_projection e = let clash : false ≡ true = (eq_iff "custom" "projection").1 e in cc

custom_is_not_empty : ◌≢◌ {A = String} "custom" "empty"
custom_is_not_empty e = let clash : false ≡ true = (eq_iff "custom" "empty").1 e in cc

run_phases-Denotes_example :
    Denotes
      (mock_context {R = ℕ} lower)
      (entries edited)
      (run_phases twice (mock_context lower) (entries edited))
run_phases-Denotes_example =
    run_phases-Denotes (mock_context lower) (mock_context-KeepsKeys lower) (entries edited) twice
      (log_refines_entries edited).2

populate_cache-publish_each_example :
    populate_cache digest cache some_stores "1:projection:mock:v1" three_messages []
    ≡ some (
        publish_each digest cache some_stores "1:projection:mock:v1" three_messages
          (conversations three_messages)
          [])
populate_cache-publish_each_example =
    populate_cache-publish_each digest cache some_stores "1:projection:mock:v1" three_messages []

derived : derivation_for some_stores three_messages "c-1" ≡ some a_derivation
unfolding derivation_for messages_in HashMap.get
derived = refl

populate_cache-serves_example :
    (ds : List (ConversationDerivation ℕ)) × (s' : State) × (populate_cache digest cache some_stores
        "v1" three_messages []
      ≡ some (ds, s'))
    × (cache.get "v1" "c-1" (content_hash digest three_messages "c-1") s' ≡ some a_derivation)
unfolding in_memory
populate_cache-serves_example =
    populate_cache-serves digest cache some_stores "v1" three_messages [] "c-1" a_derivation refl
      derived

warmup-served_example :
    (ds : List (ConversationDerivation ℕ)) × (s' : State) × (out : WarmupOutput ℕ) × (populate_cache
        digest cache some_stores "v1" three_messages []
      ≡ some (ds, s'))
    × (warmup digest cache (λ log. some_stores) "v1" three_messages Routing.new "c-1" s'
        ≡ some (out, s'))
    × (out.context ≡ some (session_context_from a_derivation "v1" Routing.new))
unfolding in_memory
warmup-served_example =
    warmup-served digest cache (λ log. some_stores) "v1" three_messages Routing.new
      (λ log. some_stores) [] "c-1" a_derivation refl derived

-- The durable cache, of a JSON that loses the hints of a derivation
abbrev lossy : DerivedOutputCache ℕ (DerivedTable (ConversationDerivation ℕ))
lossy = sqlite_derived_output_cache (λ d. d) (λ d. record d { hints = [] })

abbrev same_length : {A : Type 0} → List A → List A → Bool
same_length [] [] = true
same_length (x ∷ xs) (y ∷ ys) = same_length xs ys
same_length _ _ = false

abbrev same_hints : ConversationDerivation ℕ → ConversationDerivation ℕ → Bool
same_hints a b = same_length a.hints b.hints

verify_exact_example :
    (ds : List (ConversationDerivation ℕ)) × (t : DerivedTable (ConversationDerivation ℕ))
    × (records : List VerifyRecord) × (populate_cache digest lossy some_stores "v1" three_messages
          []
        ≡ some (ds, t))
    × (verify digest lossy (λ log. some_stores) "v1" three_messages same_hints t ≡ some records)
    × ((c : String) (d : ConversationDerivation ℕ)
        → mentions c three_messages ≡ true
        → derivation_for some_stores three_messages c ≡ some d
        → In
            (recorded digest lossy (λ log. some_stores) "v1" three_messages same_hints c d)
            records)
    × ((r : VerifyRecord)
        → In r records
        → (c : String) × (d : ConversationDerivation ℕ) × (mentions c three_messages ≡ true)
          × (derivation_for some_stores three_messages c ≡ some d)
          × (r ≡ recorded digest lossy (λ log. some_stores) "v1" three_messages same_hints c d))
verify_exact_example =
    verify_exact digest lossy (λ log. some_stores) "v1" three_messages same_hints []

abbrev projected : String → Option (Projection ℕ)
projected id = if id == "m-1" then some auth_question else none

-- A routing job over one message with a projection and one without
abbrev route_state : RouteState Unit
route_state = record { routes = []; traces = []; world = tt }

route-last_write_example :
    (HashMap.get "m-1"
        (route projected
          (Routing.route Routing.new)
          []
          (record { messages = "m-1" ∷ "m-9" ∷ [] })
          route_state).1.routes
      ≡ or_else
          (last_write
            (λ d. d.message_id)
            "m-1"
            (map
              (λ d. d.0)
              (decisions {World = Unit} projected
                (Routing.route Routing.new)
                []
                ("m-1" ∷ "m-9" ∷ []))))
          none)
unfolding route HashMap.get dispatch route_messages
route-last_write_example =
    (route-last_write projected (Routing.route Routing.new) []
      (record { messages = "m-1" ∷ "m-9" ∷ [] }) route_state "m-1" refl).0

-- A registry with one consumer, which accepts and counts
abbrev one_consumer : ConsumerRegistry ℕ ℕ
one_consumer = (human, λ d p w. (ok, suc w)) ∷ []

one_consumer-Accepting : Accepting {R = ℕ} projected (Routing.route Routing.new) one_consumer
unfolding HashMap.get
one_consumer-Accepting kind c h d p w = by_kind (consumer_kind_beq human kind) h
  where
    accepts : Consumer ℕ ℕ
    accepts d p w = (ok, suc w)

    by_kind : (b : Bool) → (if b then some accepts else none) ≡ some c → (c d p w).0 ≡ ok
    by_kind true e = ap (λ r. r.0) (ap (λ k. k d p w) (sym (some-inj e)))
    by_kind false e = absurd (cc)

-- A message for a kind that has no consumer, and one without a projection
route_returns_example :
    (route projected
      (Routing.route Routing.new)
      one_consumer
      (record { messages = "m-1" ∷ "m-9" ∷ [] })
      (record { routes = []; traces = []; world = 0 })).0
    ≡ done
route_returns_example =
    route_returns projected (Routing.route Routing.new) one_consumer one_consumer-Accepting
      (record { messages = "m-1" ∷ "m-9" ∷ [] }) (record { routes = []; traces = []; world = 0 })
