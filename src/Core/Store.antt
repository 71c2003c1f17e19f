-- ===== src/Core/Store.antt =====
-- crates/mirrorlane-core/src/store.rs: the seven in-memory stores. Each is a map from the key that the
-- stored value carries; `upsert` replaces, so writing the same value again changes nothing.
use mirrorlane.Base.{Option, string_eq}
use mirrorlane.Base.HashMap
use mirrorlane.Base.HashMap.{HashMap}
use mirrorlane.Core.Message.{MessageId, ConversationId}
use mirrorlane.Core.Projection.{Projection, Topic}
use mirrorlane.Core.Routing.{RoutingDecision, RoutingTrace, RoutingHint}
use mirrorlane.Core.Scope.{Scope}
use mirrorlane.Core.Skill.{TopicOwnership, SessionDevelopers}
use mirrorlane.Core.Warmup.{WarmupDocument}

abbrev pub InMemoryProjectionStore : Type 0 → Type 0
InMemoryProjectionStore R = HashMap MessageId (Projection R)

abbrev pub InMemoryScopeStore : Type 0 → Type 0
InMemoryScopeStore R = HashMap ConversationId (Scope R)

abbrev pub InMemoryWarmupStore : Type 0
InMemoryWarmupStore = HashMap ConversationId WarmupDocument

abbrev pub InMemorySkillStore : Type 0 → Type 0
InMemorySkillStore R = HashMap Topic (TopicOwnership R)

abbrev pub InMemoryRoutingStore : Type 0
InMemoryRoutingStore = HashMap MessageId RoutingDecision

abbrev pub InMemoryRoutingTraceStore : Type 0
InMemoryRoutingTraceStore = HashMap MessageId RoutingTrace

abbrev pub InMemoryRoutingHintStore : Type 0 → Type 0
InMemoryRoutingHintStore R = HashMap MessageId (RoutingHint R)

abbrev pub InMemoryDeveloperSnapshotStore : Type 0 → Type 0
InMemoryDeveloperSnapshotStore R = HashMap ConversationId (SessionDevelopers R)

abbrev pub upsert_projection :
    {R : Type 0} → Projection R → InMemoryProjectionStore R → InMemoryProjectionStore R
upsert_projection value store = HashMap.insert value.message_id value store

abbrev pub get_projection :
    {R : Type 0} → MessageId → InMemoryProjectionStore R → Option (Projection R)
get_projection id store = HashMap.get id store

abbrev pub upsert_scope : {R : Type 0} → Scope R → InMemoryScopeStore R → InMemoryScopeStore R
upsert_scope value store = HashMap.insert value.conversation value store

abbrev pub get_scope : {R : Type 0} → ConversationId → InMemoryScopeStore R → Option (Scope R)
get_scope id store = HashMap.get id store

abbrev pub upsert_warmup : WarmupDocument → InMemoryWarmupStore → InMemoryWarmupStore
upsert_warmup value store = HashMap.insert value.conversation value store

abbrev pub get_warmup : ConversationId → InMemoryWarmupStore → Option (WarmupDocument)
get_warmup id store = HashMap.get id store

abbrev pub upsert_skill :
    {R : Type 0} → TopicOwnership R → InMemorySkillStore R → InMemorySkillStore R
upsert_skill value store = HashMap.insert value.topic value store

abbrev pub get_skill : {R : Type 0} → Topic → InMemorySkillStore R → Option (TopicOwnership R)
get_skill id store = HashMap.get id store

abbrev pub upsert_routing : RoutingDecision → InMemoryRoutingStore → InMemoryRoutingStore
upsert_routing value store = HashMap.insert value.message_id value store

abbrev pub get_routing : MessageId → InMemoryRoutingStore → Option (RoutingDecision)
get_routing id store = HashMap.get id store

abbrev pub upsert_routing_trace :
    RoutingTrace → InMemoryRoutingTraceStore → InMemoryRoutingTraceStore
upsert_routing_trace value store = HashMap.insert value.message_id value store

abbrev pub get_routing_trace : MessageId → InMemoryRoutingTraceStore → Option (RoutingTrace)
get_routing_trace id store = HashMap.get id store

abbrev pub upsert_routing_hint :
    {R : Type 0} → RoutingHint R → InMemoryRoutingHintStore R → InMemoryRoutingHintStore R
upsert_routing_hint value store = HashMap.insert value.message_id value store

abbrev pub get_routing_hint :
    {R : Type 0} → MessageId → InMemoryRoutingHintStore R → Option (RoutingHint R)
get_routing_hint id store = HashMap.get id store

abbrev pub upsert_developers :
    {R : Type 0}
    → SessionDevelopers R
    → InMemoryDeveloperSnapshotStore R
    → InMemoryDeveloperSnapshotStore R
upsert_developers value store = HashMap.insert value.conversation value store

abbrev pub get_developers :
    {R : Type 0} → ConversationId → InMemoryDeveloperSnapshotStore R → Option (SessionDevelopers R)
get_developers id store = HashMap.get id store
