-- ===== src/Core/MessageLog.antt =====
-- crates/mirrorlane-core/src/message_log.rs: the message log in memory, an id list beside a map.
-- A panic, as of `by_id[id]` at a missing id, is `none`. The methods that the trait derives from
-- `all` take the list that `all` returns.
pub mod Spec
pub mod Refines
pub mod Sessions
pub mod Idempotent
use mirrorlane.Base.{
  ℕ, Bool, true, false, not, Option, none, some, List, [], ◌∷◌, ◌++◌, ◌==◌, string_eq,
  if◌then◌else◌,
}
use mirrorlane.Base.Lists.{length, contains, filter, foldl}
use mirrorlane.Base.HashMap
use mirrorlane.Base.HashMap.{HashMap}
use mirrorlane.Core.Message.{MessageId, ConversationId, MessageEnvelope}

pub record Log : Type 0 where
  pub order : List MessageId
  pub by_id : HashMap MessageId MessageEnvelope

-- `InMemoryMessageStore::new`
abbrev pub new : Log
new = record { order = []; by_id = [] }

unfoldable pub len : Log → ℕ
len log = length log.order

unfoldable pub is_empty : Log → Bool
is_empty log = elim log.order [ [] ↦ true | _ ∷ _ ↦ false ]

unfoldable pub append : MessageEnvelope → Log → Log
append message log = record {
  order =
      if HashMap.contains_key message.id log.by_id then log.order else log.order ++ message.id ∷ [];
  by_id = HashMap.insert message.id message log.by_id;
}

unfoldable pub get : MessageId → Log → Option MessageEnvelope
get id log = HashMap.get id log.by_id

abbrev pub push_front :
    Option MessageEnvelope → Option (List MessageEnvelope) → Option (List MessageEnvelope)
push_front (some message) (some rest) = some (message ∷ rest)
push_front _ _ = none

-- `order.iter().map(|id| by_id[id].clone()).collect()`
unfoldable pub index_all :
    List MessageId → HashMap MessageId MessageEnvelope → Option (List MessageEnvelope)
index_all [] by_id = some []
index_all (id ∷ ids) by_id = push_front (HashMap.get id by_id) (index_all ids by_id)

unfoldable pub all : Log → Option (List MessageEnvelope)
unfolding index_all
all log = index_all log.order log.by_id

-- The loop of `conversation_ids`: `seen` so far, and a message.
abbrev pub see : List ConversationId → MessageEnvelope → List ConversationId
see seen message =
    if not (contains message.conversation.id seen)
    then seen ++ message.conversation.id ∷ []
    else seen

-- `MessageStore::conversation_ids`
unfoldable pub conversation_ids : List MessageEnvelope → List ConversationId
conversation_ids messages = foldl see [] messages

-- `MessageStore::messages_for`
unfoldable pub messages_for : ConversationId → List MessageEnvelope → List MessageEnvelope
messages_for conversation messages = filter (λ m. m.conversation.id == conversation) messages
