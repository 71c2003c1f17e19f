-- ===== src/Worker/Derived.antt =====
-- crates/mirrorlane-worker/src/derived.rs: the derived output of a run, conversation by conversation, and
-- its publication to a cache in one pass over the log. `DefaultHasher`, whose digest is fixed but is
-- not computed here, is a function of the texts that it is fed.
pub mod Reference
pub mod Published
use mirrorlane.Base.{
  Bool, true, false, String, Option, none, some, List, [], ◌∷◌, ◌++◌, map, string_eq, ◌==◌,
  if◌then◌else◌,
}
use mirrorlane.Base.Lists.{foldl, filter, filter_map}
use mirrorlane.Base.HashMap
use mirrorlane.Base.HashMap.{HashMap}
use mirrorlane.Core.Message.{ConversationId, MessageId, MessageEnvelope}
use mirrorlane.Core.MessageLog.{see}
use mirrorlane.Core.Derivation.{StepVersion, ConversationDerivation, DerivedOutputCache}
use mirrorlane.Core.Store.{get_projection, get_scope, get_warmup, get_routing_hint, get_developers}
use mirrorlane.Core.Warmup.{WarmupDocument}
use mirrorlane.Worker.Grouping.{Groups, group}
use mirrorlane.Worker.Replay.{ReplayStores}

unfoldable pub conversations : List MessageEnvelope → List ConversationId
conversations log = foldl see [] log

unfoldable pub messages_in : List MessageEnvelope → ConversationId → List MessageId
messages_in log conversation = map (λ m. m.id) (filter (λ m. m.conversation.id == conversation) log)

-- What the hasher is fed of a message
abbrev pub feed : List String → MessageEnvelope → List String
feed fed message = fed ++ message.id ∷ message.body ∷ []

module _ (digest : List String → String) where
  -- `hasher.finish()`, printed, after the loop over the whole log
  unfoldable pub content_hash : List MessageEnvelope → ConversationId → String
  content_hash log conversation =
      digest (foldl (λ fed m. if m.conversation.id == conversation then feed fed m else fed) [] log)

  unfoldable pub content_hash_of : List MessageEnvelope → String
  content_hash_of messages = digest (foldl feed [] messages)

module _ {R : Type 0} (stores : ReplayStores R) where
  -- Both derivations end with this, after the early return on a missing warm-up.
  abbrev pub derivation :
      ConversationId → List MessageId → Option WarmupDocument → Option (ConversationDerivation R)
  derivation conversation ids none = none
  derivation conversation ids (some warmup) = some (record {
    conversation = conversation;
    projections = filter_map (λ id. get_projection id stores.projections) ids;
    scope = get_scope conversation stores.scopes;
    warmup = warmup;
    developers = get_developers conversation stores.developers;
    hints = filter_map (λ id. get_routing_hint id stores.hints) ids;
  })

  abbrev pub derivation_with :
      ConversationId
      → List MessageEnvelope
      → Option WarmupDocument
      → Option (ConversationDerivation R)
  derivation_with conversation messages none = none
  derivation_with conversation messages (some warmup) = some (record {
    conversation = conversation;
    projections = filter_map (λ m. get_projection m.id stores.projections) messages;
    scope = get_scope conversation stores.scopes;
    warmup = warmup;
    developers = get_developers conversation stores.developers;
    hints = filter_map (λ m. get_routing_hint m.id stores.hints) messages;
  })

  unfoldable pub derivation_from_messages :
      ConversationId → List MessageEnvelope → Option (ConversationDerivation R)
  derivation_from_messages conversation messages =
      derivation_with conversation messages (get_warmup conversation stores.warmups)

  unfoldable pub derivation_for :
      List MessageEnvelope → ConversationId → Option (ConversationDerivation R)
  unfolding messages_in
  derivation_for log conversation =
      derivation conversation (messages_in log conversation)
        (get_warmup conversation stores.warmups)

module _ {R S : Type 0} (digest : List String → String) (cache : DerivedOutputCache R S)
    (stores : ReplayStores R) (version : StepVersion) where
  -- `cache.put` and `cache.reclaim_superseded` of one conversation
  unfoldable pub publish : ConversationId → String → ConversationDerivation R → S → S
  publish conversation content d s =
      cache.reclaim_superseded conversation version content
        (cache.put version conversation content d s)

  abbrev pub push_front :
      ConversationDerivation R
      → Option (List (ConversationDerivation R) × S)
      → Option (List (ConversationDerivation R) × S)
  push_front d none = none
  push_front d (some (ds, s)) = some (d ∷ ds, s)

  -- The `filter_map` over `order`; `&groups[&conversation]` panics at a missing key.
  unfoldable pub publish_groups :
      List ConversationId
      → HashMap ConversationId (List MessageEnvelope)
      → S
      → Option (List (ConversationDerivation R) × S)
  unfolding publish derivation_from_messages content_hash_of
  publish_groups [] groups s = some ([], s)
  publish_groups (conversation ∷ order) groups s = elim (HashMap.get conversation groups) [
    | none ↦ none
    | some messages ↦ elim (derivation_from_messages stores conversation messages) [
      | none ↦ publish_groups order groups s
      | some d ↦
          push_front d (
            publish_groups order groups
              (publish conversation (content_hash_of digest messages) d s))
    ]
  ]

  -- `none`: a panic
  unfoldable pub populate_cache :
      List MessageEnvelope → S → Option (List (ConversationDerivation R) × S)
  unfolding group publish_groups
  populate_cache log s = let g = group (λ m. m) log in publish_groups g.order g.grouped s
