-- ===== src/Worker/Jobs.antt =====
-- crates/mirrorlane-worker/src/lib.rs: the handlers of the seven jobs. A store that a job only reads, an
-- `Arc<dyn ...Store>`, enters as its `get`; a store that it writes is its state. The ports
-- (`Projector` and so on) are the fields of a `StrategyContext`; a projector that panics returns
-- `none`.
pub mod Writes
pub mod Agree
pub mod Frozen
use mirrorlane.Base.{
  String, Bool, true, false, ◌≡◌, Option, none, some, List, [], ◌∷◌, ◌++◌, string_eq, ◌==◌,
  if◌then◌else◌,
}
use mirrorlane.Base.Lists.{contains, filter_map, foldl}
use mirrorlane.Core.Message.{MessageId, ConversationId, MessageEnvelope}
use mirrorlane.Core.Projection.{Projection, Topic}
use mirrorlane.Core.Routing.{
  RoutingDecision, RoutingTrace, RoutingHint, RoutingRequest, RoutingHintRequest, ConsumerRegistry,
  ConsumerError, Outcome, ok, err, dispatch, show_consumer_error,
}
use mirrorlane.Core.Scope.{Scope, ScopeRequest}
use mirrorlane.Core.Skill.{
  SkillContribution, SkillEntry, SkillIndex, SkillRequest, TopicOwnership, Participant,
  SessionDevelopers, DeveloperSnapshotRequest,
}
use mirrorlane.Core.Warmup.{WarmupDocument, WarmupRequest}
use mirrorlane.Core.Derivation.{StepVersion}
use mirrorlane.Core.Store.{
  InMemoryProjectionStore, InMemoryScopeStore, InMemoryWarmupStore, InMemorySkillStore,
  InMemoryRoutingStore, InMemoryRoutingTraceStore, InMemoryRoutingHintStore,
  InMemoryDeveloperSnapshotStore, upsert_projection, get_projection, upsert_scope, get_scope,
  upsert_warmup, upsert_skill, get_skill, upsert_routing, upsert_routing_trace, upsert_routing_hint,
  upsert_developers,
}
use mirrorlane.Runtime.Step.{Step}
use mirrorlane.Worker.Composition.{Handler, HandlerResult, done, failed, panicked}

-- `StrategyContext` of registry.rs, with the methods of its ports and the projector's version; the
-- ports are taken as functions of their arguments.
pub record StrategyContext (R : Type 0) : Type 0 where
  pub version : StepVersion
  pub project : MessageEnvelope → Option (Projection R)
  pub scope : ConversationId → List (Projection R) → Scope R
  pub build_warmup : ConversationId → Option (Scope R) → List (Projection R) → WarmupDocument
  pub build_skills : List (SkillContribution R) → SkillIndex R
  pub hint : Projection R → List (TopicOwnership R) → RoutingHint R
  pub snapshot : ConversationId → List Participant → List (TopicOwnership R) → SessionDevelopers R

-- A router, as `RouteJob` holds it.
abbrev pub Router : Type 0 → Type 0
Router R = Projection R → RoutingDecision × RoutingTrace

module _ {R : Type 0} (ctx : StrategyContext R) where
  -- `ProcessMessageJob::run`
  unfoldable pub process_message : Handler MessageEnvelope (InMemoryProjectionStore R)
  process_message payload store = elim (ctx.project payload) [
    | none ↦ (panicked, store)
    | some projection ↦ (done, upsert_projection projection store)
  ]

module _ {R W : Type 0} (step : Step MessageEnvelope (Projection R) W) where
  abbrev pub upsert_output :
      InMemoryProjectionStore R
      → Option (Projection R) × W
      → HandlerResult × (InMemoryProjectionStore R × W)
  upsert_output store (none, w) = (panicked, (store, w))
  upsert_output store (some projection, w) = (done, (upsert_projection projection store, w))

  -- `ProcessMessageJob::run` of a projector that acts on a world, as one behind a cache does
  unfoldable pub process_message_step : Handler MessageEnvelope (InMemoryProjectionStore R × W)
  process_message_step payload (store, w) = upsert_output store (step.run payload w)

-- The `get` of a store
abbrev pub Lookup : Type 0 → Type 0 → Type 0
Lookup K V = K → Option V

module _ {R : Type 0} (projections : Lookup MessageId (Projection R)) where
  -- `request.messages.iter().filter_map(|id| self.projections.get(id))`
  unfoldable pub resolve : List MessageId → List (Projection R)
  resolve ids = filter_map projections ids

  -- `BuildScopeJob::run`
  unfoldable pub build_scope : StrategyContext R → Handler ScopeRequest (InMemoryScopeStore R)
  build_scope ctx request scopes =
      (done, upsert_scope (ctx.scope request.conversation (resolve request.messages)) scopes)

  -- `BuildWarmupJob::run`
  unfoldable pub build_warmup :
      Lookup ConversationId (Scope R)
      → StrategyContext R
      → Handler WarmupRequest InMemoryWarmupStore
  build_warmup scopes ctx request warmups = (
    done,
    upsert_warmup
        (ctx.build_warmup request.conversation (scopes request.conversation)
          (resolve request.messages))
        warmups,
  )

  abbrev pub contribution : SkillEntry → Option (Projection R) → Option (SkillContribution R)
  contribution entry none = none
  contribution entry (some projection) = some (record {
    author = entry.author;
    display_name = entry.display_name;
    topics = projection.topics;
    confidence = projection.confidence;
  })

  -- The contributions of `BuildSkillJob::run`
  unfoldable pub contributions : List SkillEntry → List (SkillContribution R)
  contributions entries =
      filter_map (λ entry. contribution entry (projections entry.message)) entries

  -- `BuildSkillJob::run`
  unfoldable pub build_skill : StrategyContext R → Handler SkillRequest (InMemorySkillStore R)
  build_skill ctx request skills = (
    done,
    foldl (λ s ownership. upsert_skill ownership s) skills
        (ctx.build_skills (contributions request.entries)).ownerships,
  )

  -- The loop of `BuildRoutingHintJob::run`
  unfoldable pub hint_messages :
      Lookup Topic (TopicOwnership R)
      → StrategyContext R
      → List MessageId
      → InMemoryRoutingHintStore R
      → InMemoryRoutingHintStore R
  hint_messages skills ctx [] hints = hints
  hint_messages skills ctx (id ∷ ids) hints = hint_messages skills ctx ids (elim (projections id) [
    | none ↦ hints
    | some projection ↦
        upsert_routing_hint (ctx.hint projection (filter_map skills projection.topics)) hints
  ])

  -- `BuildRoutingHintJob::run`
  unfoldable pub build_routing_hint :
      Lookup Topic (TopicOwnership R)
      → StrategyContext R
      → Handler RoutingHintRequest (InMemoryRoutingHintStore R)
  unfolding hint_messages
  build_routing_hint skills ctx request hints =
      (done, hint_messages skills ctx request.messages hints)

module _ {R : Type 0} (skills : Lookup Topic (TopicOwnership R)) where
  abbrev pub push_ownership :
      Option (TopicOwnership R) → List (TopicOwnership R) → List (TopicOwnership R)
  push_ownership none ownerships = ownerships
  push_ownership (some ownership) ownerships = ownerships ++ ownership ∷ []

  -- The inner loop of `BuildDeveloperSnapshotJob::run`: the topics seen, and their ownerships.
  unfoldable pub collect_topics :
      List Topic → List Topic × List (TopicOwnership R) → List Topic × List (TopicOwnership R)
  collect_topics [] (seen, ownerships) = (seen, ownerships)
  collect_topics (topic ∷ topics) (seen, ownerships) = collect_topics topics (
      if contains topic seen
      then (seen, ownerships)
      else (topic ∷ seen, push_ownership (skills topic) ownerships))

  -- The outer loop
  unfoldable pub collect_ownerships :
      Lookup MessageId (Projection R)
      → List MessageId
      → List Topic × List (TopicOwnership R)
      → List Topic × List (TopicOwnership R)
  unfolding collect_topics
  collect_ownerships projections [] acc = acc
  collect_ownerships projections (id ∷ ids) acc =
      collect_ownerships projections ids (elim (projections id) [
        | none ↦ acc
        | some projection ↦ collect_topics projection.topics acc
      ])

  -- `BuildDeveloperSnapshotJob::run`
  unfoldable pub build_developer_snapshot :
      Lookup MessageId (Projection R)
      → StrategyContext R
      → Handler DeveloperSnapshotRequest (InMemoryDeveloperSnapshotStore R)
  unfolding collect_ownerships
  build_developer_snapshot projections ctx request developers = (
    done,
    upsert_developers
        (ctx.snapshot request.conversation request.participants
          (collect_ownerships projections request.messages ([], [])).1)
        developers,
  )

-- What `RouteJob` writes: the decisions, the traces, and what the consumers reach.
pub record RouteState (World : Type 0) : Type 0 where
  pub routes : InMemoryRoutingStore
  pub traces : InMemoryRoutingTraceStore
  pub world : World

module _ {R World : Type 0} (projections : Lookup MessageId (Projection R)) (router : Router R)
    (consumers : ConsumerRegistry R World) where
  -- One round of the loop of `RouteJob::run`
  unfoldable pub route_one : Projection R → RouteState World → HandlerResult × RouteState World
  route_one projection s =
      let (decision, trace) = router projection in
      let (outcome, world) = dispatch consumers decision projection s.world in
      (
        elim outcome [ ok ↦ done | err e ↦ failed (show_consumer_error e) ],
        record s {
          traces = upsert_routing_trace trace s.traces;
          routes = upsert_routing decision s.routes;
          world = world;
        },
      )

  abbrev pub and_then :
      HandlerResult × RouteState World
      → (RouteState World → HandlerResult × RouteState World)
      → HandlerResult × RouteState World
  and_then (done, s) rest = rest s
  and_then (failed e, s) rest = (failed e, s)
  and_then (panicked, s) rest = (panicked, s)

  -- The loop: a message with no projection is passed over, an error ends it.
  unfoldable pub route_messages :
      List MessageId → RouteState World → HandlerResult × RouteState World
  unfolding route_one
  route_messages [] s = (done, s)
  route_messages (id ∷ ids) s =
      let rest = route_messages ids in
      and_then
        (elim (projections id) [ none ↦ (done, s) | some projection ↦ route_one projection s ]) rest

  -- `RouteJob::run`
  unfoldable pub route : Handler RoutingRequest (RouteState World)
  unfolding route_messages
  route request s = route_messages request.messages s
