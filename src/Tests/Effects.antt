-- ===== src/Tests/Effects.antt =====
-- The parts that act on a world, at concrete inputs: fetches, queued work and the durable projector.
use mirrorlane.Base.{
  ℕ, zero, suc, ◌≡◌, refl, sym, ◌∙◌, Bool, true, false, String, Option, none, some, List, [], ◌∷◌,
  ◌++◌, string_eq, ◌==◌, if◌then◌else◌,
}
use mirrorlane.Base.Http.{Http, answered}
use mirrorlane.Base.HashMap
use mirrorlane.Base.Lists.{here, contains}
use mirrorlane.Base.Result.{Result, ok}
use mirrorlane.Cli.Ingest.{github_ingest_rest}
use mirrorlane.Cli.Ingest.Atomic.{AllOrNothing, github_ingest_rest-AllOrNothing}
use mirrorlane.Cli.Broker.{Env}
use mirrorlane.Cli.Config.{ollama}
use mirrorlane.Cli.Projector.{
  LlmSettings, Substrates, Opening, Disk, ProjectorStep, llm_projector, durable_projector,
  projector_for,
}
use mirrorlane.Cli.Projector.Durable.{run_messages, run_commands, KeptAs, projector_for-durable}
use mirrorlane.Core.Message.{MessageId, MessageEnvelope}
use mirrorlane.Core.Projection.{Projection, question, new_confidence}
use mirrorlane.Core.Routing as Routing
use mirrorlane.Core.Routing.{Outcome, worklane_job}
use mirrorlane.Llm.Ollama.{ollama_client, complete_json}
use mirrorlane.Llm.{run_llm}
use mirrorlane.Storage.Projections.{sqlite_projection_cache}
use mirrorlane.Provider.Caching.{caching_projector}
use mirrorlane.Runtime.Cache.{cached_run}
use mirrorlane.Provider.Developer.{snapshot}
use mirrorlane.Provider.Hint.{hint}
use mirrorlane.Provider.Scope.{scope}
use mirrorlane.Provider.Skill.{build_index}
use mirrorlane.Provider.Warmup.{build}
use mirrorlane.Core.Store.{InMemoryProjectionStore, get_projection}
use mirrorlane.Runtime.Cache.{Cached, InMemoryCache, in_memory_cache, cached_step}
use mirrorlane.Runtime.Cache.Frozen.{frozen}
use mirrorlane.Runtime.Cache.Laws.{in_memory_cache-CacheLaws}
use mirrorlane.Worker.Composition.{run_stage}
use mirrorlane.Worker.Replay.Frozen.{run_stage-frozen}
use mirrorlane.Worker.Jobs.{
  StrategyContext, process_message, process_message_step, Lookup, Router, RouteState, route,
}
use mirrorlane.Worker.RoutedWork.{EnqueueUnique, RoutedWorkPayload, unique_key}
use mirrorlane.Worker.RoutedWork.Unique.{Jobs, keys, KeepsUnique, OneEach}
use mirrorlane.Worker.RoutedWork.Once.{OthersKeepJobs, consumers, route-OneEach}
use mirrorlane.Core.MessageLog as MessageLog
use mirrorlane.Core.MessageLog.Refines.{Represents-new}
use mirrorlane.Github.Item.{Repo}
use mirrorlane.Github.Rest.{
  RestGitHubSource, IssueDto, CommentDto, request_of, get, comments_url, fetch_comments, try_fetch,
}
use mirrorlane.Github.Rest.Authorized.{Guarded, try_fetch-Guarded}
use mirrorlane.Tests.Fixtures.{twice, quote, hundredths, auth_question, digest, message}

abbrev octo_cat : Repo
octo_cat = record { owner = "octo"; name = "cat" }

-- A source with a token and another host
abbrev mirror : RestGitHubSource
mirror = record { base_url = "https://mirror.example"; token = some "secret" }

abbrev parse_none : String → Option ℕ
parse_none s = none

abbrev one_issue : String → Result String (List IssueDto)
one_issue s = ok (
    record {
      number = 7;
      title = some "broken";
      body = none;
      user = record { login = "ada" };
      pull_request = false;
    }
    ∷ [])

abbrev no_comments : String → Result String (List CommentDto)
no_comments s = ok []

try_fetch-Guarded_example : Guarded mirror (request_of mirror (comments_url mirror octo_cat))
unfolding try_fetch fetch_comments get
try_fetch-Guarded_example =
    try_fetch-Guarded (λ sent request. answered "[]") parse_none one_issue no_comments mirror
      octo_cat (request_of mirror (comments_url mirror octo_cat)) (here refl)

abbrev answering : Http ℕ
answering request calls = (answered "[]", suc calls)

github_ingest_rest-AllOrNothing_example :
    AllOrNothing quote answering parse_none one_issue no_comments mirror "octo/cat" MessageLog.new
      [] 0
      (github_ingest_rest quote answering parse_none one_issue no_comments mirror "octo/cat"
        MessageLog.new 0)
github_ingest_rest-AllOrNothing_example =
    github_ingest_rest-AllOrNothing quote answering parse_none one_issue no_comments mirror
      "octo/cat" MessageLog.new [] 0 Represents-new

-- A queue is its live jobs of the lane.
abbrev queued_or : Bool → String → RoutedWorkPayload ℕ → Jobs ℕ → Outcome String × Jobs ℕ
queued_or true key p w = (Routing.ok, w)
queued_or false key p w = (Routing.ok, w ++ (key, p) ∷ [])

abbrev enqueue : EnqueueUnique ℕ (Jobs ℕ)
enqueue lane kind key p w = queued_or (contains key (keys w)) key p w

enqueue_live :
    (key : String) (p : RoutedWorkPayload ℕ) (w : Jobs ℕ)
    → contains key (keys w) ≡ true
    → (queued_or (contains key (keys w)) key p w).1 ≡ w
enqueue_live key p w h = rw h refl

enqueue_new :
    (key : String) (p : RoutedWorkPayload ℕ) (w : Jobs ℕ)
    → contains key (keys w) ≡ false
    → (queued_or (contains key (keys w)) key p w).0 ≡ Routing.ok
    → (queued_or (contains key (keys w)) key p w).1 ≡ w ++ (key, p) ∷ []
enqueue_new key p w h returned = rw h refl

enqueue_never_fails :
    (b : Bool) (key : String) (p : RoutedWorkPayload ℕ) (w : Jobs ℕ) (e : String)
    → (queued_or b key p w).0 ≡ Routing.err e
    → (queued_or b key p w).1 ≡ w
enqueue_never_fails true key p w e h = refl
enqueue_never_fails false key p w e h = absurd (cc)

abbrev the_queue : KeepsUnique enqueue
the_queue = record {
  jobs = λ w. w;
  enqueue-live = enqueue_live;
  enqueue-new = enqueue_new;
  enqueue-failed = λ key p w. enqueue_never_fails (contains key (keys w)) key p w;
}

no_others : OthersKeepJobs enqueue the_queue []
no_others kind c h = absurd (cc (sym (HashMap.get-nil kind) ∙ h))

abbrev projected : Lookup MessageId (Projection ℕ)
projected id = if id == "m-1" then some auth_question else none

abbrev to_job : Router ℕ
to_job p = (
  record { message_id = p.message_id; target = worklane_job; reason = "work"; escalated = false },
  record { message_id = p.message_id; steps = [] },
)

abbrev empty_state : RouteState (Jobs ℕ)
empty_state = record { routes = []; traces = []; world = [] }

-- The same message twice in a request
route-OneEach_example :
    OneEach
      (route projected to_job
        (consumers enqueue the_queue [])
        (record { messages = "m-1" ∷ "m-1" ∷ [] })
        empty_state).1.world
unfolding unique_key
route-OneEach_example =
    (route-OneEach enqueue the_queue [] no_others projected to_job
      (record { messages = "m-1" ∷ "m-1" ∷ [] }) empty_state (refl, tt)).0

-- A model's server that answers with its count of calls
abbrev sub : Substrates ℕ (Projection ℕ) ℕ
sub = record {
  lower = λ s. s;
  http = answering;
  print = λ j. "{}";
  generate_json = λ body. some (record { response = body });
  chat_json = λ body. none;
  projection_json =
      λ body. some (record { intent = question; topics = []; entities = []; confidence = 80 });
  digest_text = λ s. "d";
  digest = digest;
  write = λ p. p;
  read = λ p. record p { confidence = record { value = 79 } };
}

abbrev llm : LlmSettings
llm = record {
  ollama = record { base_url = "http://localhost"; model = "m"; prompt_version = "v2" };
  openai = record { base_url = "http://localhost"; model = "m"; prompt_version = "v2" };
}

abbrev no_env : Env
no_env name = none

abbrev opening : Bool → Opening
opening prunes = record { open_error = none; prunes = prunes }

abbrev the_message : MessageEnvelope
the_message = message "m-1" "c-1" "is auth broken?"

abbrev Calls : Type 0
Calls = Disk {R = ℕ} ⦃f = hundredths⦄ sub

abbrev the_projector : ProjectorStep {R = ℕ} ⦃f = hundredths⦄ sub
the_projector = durable_projector sub (record {
  client =
      ollama_client answering (λ j. "{}") (λ body. some (record { response = body }))
        (record { base_url = "http://localhost" });
  model = "m";
  prompt_version = "v2";
})

abbrev after_first : Calls
after_first = (the_projector.run the_message ([], 0)).1

abbrev the_projection : Projection ℕ
the_projection = record {
  message_id = "m-1";
  intent = question;
  topics = [];
  entities = [];
  confidence = record { value = 80 };
}

abbrev another_message : MessageEnvelope
another_message = message "m-2" "c-1" "is it fixed?"

-- A second command, which prunes and runs another message
abbrev between : List (Opening × List MessageEnvelope)
between = (opening true, another_message ∷ []) ∷ []

-- And a third
abbrev reopened : Calls
reopened =
    (projector_for sub no_env llm (opening true) ollama
      (run_commands sub no_env llm ollama between after_first)).1

projector_for-durable_example :
    (kept : Projection ℕ) × KeptAs sub the_projection kept
    × (the_projector.run the_message reopened ≡ (some kept, reopened))
unfolding projector_for llm_projector durable_projector caching_projector cached_run
    sqlite_projection_cache HashMap.get run_llm complete_json new_confidence HashMap.insert
    run_messages
projector_for-durable_example =
    let (kept, kept_as, again) =
      projector_for-durable sub no_env llm ollama (opening false) the_projector the_message
        the_projection ([], 0) ([], 0) after_first refl refl in
    (kept, kept_as, again [] between (opening true) the_projector reopened refl)

abbrev a_context : StrategyContext ℕ
a_context = record {
  version = "v";
  project = λ m. none;
  scope = scope (λ s. s);
  build_warmup = build;
  build_skills = build_index;
  hint = hint;
  snapshot = snapshot;
}

-- A projector that panics on its first call
abbrev flaky : ℕ → Option (Projection ℕ)
flaky zero = none
flaky (suc calls) = some auth_question

abbrev flaky_cached : Cached MessageEnvelope (Projection ℕ) (InMemoryCache (Projection ℕ)) ℕ
flaky_cached = record {
  inner = record { kind = "k"; version = "v"; run = λ m calls. (flaky calls, suc calls) };
  cache = in_memory_cache;
  version = "v";
}

abbrev flaky_end : InMemoryProjectionStore ℕ × (InMemoryCache (Projection ℕ) × ℕ)
flaky_end =
    run_stage twice (process_message_step (cached_step (λ m. m.id) flaky_cached)) (the_message ∷ [])
      ([], ([], 0))

run_stage-frozen_example :
    get_projection "m-1" flaky_end.0
    ≡ get_projection "m-1" (
        run_stage twice
          (process_message
            (record a_context { project = λ m. frozen (λ x. x.id) flaky_cached m flaky_end.1 }))
          (the_message ∷ [])
          [])
run_stage-frozen_example =
    run_stage-frozen (λ m. m.id) flaky_cached in_memory_cache-CacheLaws twice a_context
      (the_message ∷ []) [] ([], 0) "m-1"
