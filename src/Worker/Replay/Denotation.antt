-- ===== src/Worker/Replay/Denotation.antt =====
-- What a replay is to leave in each store, as a function of the log and the ports: no broker, no
-- stores and no order of deliveries (crates/mirrorlane-worker/src/replay.rs).
use mirrorlane.Base.{◌≡◌, Option, none, some, List, [], string_eq, if◌then◌else◌}
use mirrorlane.Base.Lists.{filter_map}
use mirrorlane.Base.HashMap
use mirrorlane.Base.HashMap.Writes.{last_write}
use mirrorlane.Core.Message.{ConversationId, MessageId, MessageEnvelope}
use mirrorlane.Core.MessageLog.Sessions.{mentions}
use mirrorlane.Core.MessageLog.Spec.{find_id}
use mirrorlane.Core.Projection.{Projection, Topic}
use mirrorlane.Core.Routing.{RoutingHint}
use mirrorlane.Core.Scope.{Scope}
use mirrorlane.Core.Skill.{TopicOwnership, SessionDevelopers, Participant}
use mirrorlane.Core.Warmup.{WarmupDocument}
use mirrorlane.Worker.Jobs.{StrategyContext, Lookup, resolve, contributions, collect_ownerships}
use mirrorlane.Worker.Replay.{ReplayStores, skill_request, developer_request}
use mirrorlane.Worker.Replay.Stages.{ids_for}

-- The ports answer for what they were asked about.
pub record KeepsKeys {R : Type 0} (ctx : StrategyContext R) : Type 0 where
  pub project :
      (m : MessageEnvelope) (p : Projection R) → ctx.project m ≡ some p → p.message_id ≡ m.id
  pub scope : (c : ConversationId) (ps : List (Projection R)) → (ctx.scope c ps).conversation ≡ c
  pub warmup :
      (c : ConversationId) (s : Option (Scope R)) (ps : List (Projection R))
      → (ctx.build_warmup c s ps).conversation ≡ c
  pub hint :
      (p : Projection R) (os : List (TopicOwnership R)) → (ctx.hint p os).message_id ≡ p.message_id
  pub snapshot :
      (c : ConversationId) (ps : List Participant) (os : List (TopicOwnership R))
      → (ctx.snapshot c ps os).conversation ≡ c

module _ {R : Type 0} (ctx : StrategyContext R) (log : List MessageEnvelope) where
  abbrev pub project_found : Option MessageEnvelope → Option (Projection R)
  project_found none = none
  project_found (some m) = ctx.project m

  -- The projection of the message with the id
  unfoldable pub projection_of : Lookup MessageId (Projection R)
  projection_of id = project_found (find_id id log)

  -- The projections of a session, in the order of its messages
  unfoldable pub session_of : ConversationId → List (Projection R)
  session_of c = resolve projection_of (ids_for c log)

  unfoldable pub scope_of : Lookup ConversationId (Scope R)
  scope_of c = if mentions c log then some (ctx.scope c (session_of c)) else none

  unfoldable pub warmup_of : Lookup ConversationId WarmupDocument
  warmup_of c =
      if mentions c log then some (ctx.build_warmup c (scope_of c) (session_of c)) else none

  -- The ownership of a topic in the one skill index over the whole log
  unfoldable pub skill_of : Lookup Topic (TopicOwnership R)
  skill_of topic =
      last_write (λ o. o.topic) topic
        (ctx.build_skills (contributions projection_of (skill_request log).entries)).ownerships

  abbrev pub hint_for : Option (Projection R) → Option (RoutingHint R)
  hint_for none = none
  hint_for (some p) = some (ctx.hint p (filter_map skill_of p.topics))

  unfoldable pub hint_of : Lookup MessageId (RoutingHint R)
  hint_of id = hint_for (projection_of id)

  unfoldable pub developers_of : Lookup ConversationId (SessionDevelopers R)
  developers_of c =
      if mentions c log
      then some (
          ctx.snapshot c (developer_request log c (ids_for c log)).participants
            (collect_ownerships skill_of projection_of (ids_for c log) ([], [])).1)
      else none

  -- Each store answers every lookup as the functions above say.
  pub record Denotes (stores : ReplayStores R) : Type 0 where
    pub projections : (id : MessageId) → HashMap.get id stores.projections ≡ projection_of id
    pub scopes : (c : ConversationId) → HashMap.get c stores.scopes ≡ scope_of c
    pub warmups : (c : ConversationId) → HashMap.get c stores.warmups ≡ warmup_of c
    pub skills : (t : Topic) → HashMap.get t stores.skills ≡ skill_of t
    pub hints : (id : MessageId) → HashMap.get id stores.hints ≡ hint_of id
    pub developers : (c : ConversationId) → HashMap.get c stores.developers ≡ developers_of c
