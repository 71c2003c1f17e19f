-- ===== src/Worker/Replay.antt =====
-- crates/mirrorlane-worker/src/replay.rs: the six phases of the projection strategy, each a stage over
-- fresh stores. `log` is what `messages.all()` returns. Setting a stage up (registering the job,
-- enqueuing) is taken to succeed, as the `expect`s say.
pub mod Frozen
pub mod Stages
pub mod Denotation
pub mod Deterministic
use mirrorlane.Base.{Option, none, some, List, [], ◌∷◌, map, string_eq, get_or}
use mirrorlane.Base.HashMap
use mirrorlane.Core.Message.{ConversationId, MessageId, MessageEnvelope}
use mirrorlane.Core.Projection.{Projection, Topic}
use mirrorlane.Core.Routing.{RoutingHintRequest}
use mirrorlane.Core.Scope.{Scope, ScopeRequest}
use mirrorlane.Core.Skill.{SkillEntry, SkillRequest, DeveloperSnapshotRequest, TopicOwnership}
use mirrorlane.Core.Warmup.{WarmupRequest}
use mirrorlane.Core.Store.{
  InMemoryProjectionStore, InMemoryScopeStore, InMemoryWarmupStore, InMemorySkillStore,
  InMemoryRoutingHintStore, InMemoryDeveloperSnapshotStore, get_projection, get_scope, get_skill,
}
use mirrorlane.Worker.Composition.{Substrate, run_stage, per_message, per_conversation, global}
use mirrorlane.Worker.Grouping.{group_by_conversation, participants_by_conversation}
use mirrorlane.Worker.Jobs.{
  StrategyContext, Lookup, process_message, build_scope, build_warmup, build_skill,
  build_routing_hint, build_developer_snapshot,
}

pub record ReplayStores (R : Type 0) : Type 0 where
  pub projections : InMemoryProjectionStore R
  pub scopes : InMemoryScopeStore R
  pub warmups : InMemoryWarmupStore
  pub skills : InMemorySkillStore R
  pub hints : InMemoryRoutingHintStore R
  pub developers : InMemoryDeveloperSnapshotStore R

abbrev pub scope_request : ConversationId → List MessageId → ScopeRequest
scope_request c ids = record { conversation = c; messages = ids }

abbrev pub warmup_request : ConversationId → List MessageId → WarmupRequest
warmup_request c ids = record { conversation = c; messages = ids }

abbrev pub skill_request : List MessageEnvelope → SkillRequest
skill_request log = record {
  entries =
      map
        (λ m. record { author = m.author.id; display_name = m.author.display_name; message = m.id })
        log;
}

abbrev pub hint_request : List MessageEnvelope → RoutingHintRequest
hint_request log = record { messages = map (λ m. m.id) log }

abbrev pub developer_request :
    List MessageEnvelope → ConversationId → List MessageId → DeveloperSnapshotRequest
developer_request log c ids = record {
  conversation = c;
  participants = get_or (HashMap.get c (participants_by_conversation log)) [];
  messages = ids;
}

module _ {R : Type 0} (substrate : Substrate) (ctx : StrategyContext R)
    (log : List MessageEnvelope) where
  -- Phase 1
  unfoldable pub project_phase : InMemoryProjectionStore R
  project_phase = run_stage substrate (process_message ctx) (per_message log (λ m. m)) []

  -- Phase 2
  unfoldable pub scope_phase : Lookup MessageId (Projection R) → InMemoryScopeStore R
  scope_phase projections =
      run_stage substrate (build_scope projections ctx)
        (per_conversation (group_by_conversation log) scope_request) []

  -- Phase 3
  unfoldable pub warmup_phase :
      Lookup MessageId (Projection R) → Lookup ConversationId (Scope R) → InMemoryWarmupStore
  warmup_phase projections scopes =
      run_stage substrate (build_warmup projections scopes ctx)
        (per_conversation (group_by_conversation log) warmup_request) []

  -- Phase 4
  unfoldable pub skill_phase : Lookup MessageId (Projection R) → InMemorySkillStore R
  skill_phase projections =
      run_stage substrate (build_skill projections ctx) (global (skill_request log)) []

  -- Phase 5
  unfoldable pub hint_phase :
      Lookup MessageId (Projection R) → Lookup Topic (TopicOwnership R) → InMemoryRoutingHintStore R
  hint_phase projections skills =
      run_stage substrate (build_routing_hint projections skills ctx) (global (hint_request log)) []

  -- Phase 6
  unfoldable pub developer_phase :
      Lookup MessageId (Projection R)
      → Lookup Topic (TopicOwnership R)
      → InMemoryDeveloperSnapshotStore R
  developer_phase projections skills =
      run_stage substrate (build_developer_snapshot skills projections ctx)
        (per_conversation (group_by_conversation log) (developer_request log)) []

  -- `ProjectionStrategy::run_phases`
  unfoldable pub run_phases : ReplayStores R
  unfolding project_phase scope_phase warmup_phase skill_phase hint_phase developer_phase
  run_phases =
      let projections = project_phase in
      let get_p : Lookup MessageId (Projection R) = λ id. get_projection id projections in
      let scopes = scope_phase get_p in
      let warmups = warmup_phase get_p (λ c. get_scope c scopes) in
      let skills = skill_phase get_p in
      let get_s : Lookup Topic (TopicOwnership R) = λ t. get_skill t skills in
      let hints = hint_phase get_p get_s in
      let developers = developer_phase get_p get_s in
      record {
        projections = projections;
        scopes = scopes;
        warmups = warmups;
        skills = skills;
        hints = hints;
        developers = developers;
      }
