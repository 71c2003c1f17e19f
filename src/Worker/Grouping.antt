-- ===== src/Worker/Grouping.antt =====
-- The single pass that groups a log by conversation, in crates/mirrorlane-worker/src/replay.rs (ids)
-- and src/derived.rs (messages), and the participants of each conversation.
pub mod Exact
use mirrorlane.Base.{
  Bool, true, false, not, String, ◌≡◌, Option, none, some, List, [], ◌∷◌, ◌++◌, map, string_eq,
  ◌==◌, if◌then◌else◌, get_or,
}
use mirrorlane.Base.Lists.{foldl}
use mirrorlane.Base.HashMap
use mirrorlane.Base.HashMap.{HashMap}
use mirrorlane.Base.OrdMap
use mirrorlane.Base.OrdMap.{OrdMap}
use mirrorlane.Core.Skill.{Participant}
use mirrorlane.Core.Message.{ConversationId, MessageId, MessageEnvelope}

-- The variables of the loop: the conversations in first-seen order, and what each holds.
pub record Groups (A : Type 0) : Type 0 where
  pub order : List ConversationId
  pub grouped : HashMap ConversationId (List A)

module _ {A : Type 0} (item : MessageEnvelope → A) where
  -- The body of the loop; `item` is what it pushes of a message.
  unfoldable pub group_step : Groups A → MessageEnvelope → Groups A
  group_step g message = record {
    order =
        if not (HashMap.contains_key message.conversation.id g.grouped)
        then g.order ++ message.conversation.id ∷ []
        else g.order;
    grouped =
        HashMap.update message.conversation.id [] (λ items. items ++ item message ∷ []) g.grouped;
  }

  unfoldable pub group : List MessageEnvelope → Groups A
  unfolding group_step
  group log = foldl group_step (record { order = []; grouped = [] }) log

-- `order.into_iter().map(|c| (c, grouped.remove(&c).unwrap_or_default()))`
unfoldable pub drain :
    {A : Type 0}
    → List ConversationId
    → HashMap ConversationId (List A)
    → List (ConversationId × List A)
drain [] grouped = []
drain (c ∷ order) grouped =
    (c, get_or (HashMap.get c grouped) []) ∷ drain order (HashMap.remove c grouped)

-- replay.rs
unfoldable pub group_by_conversation : List MessageEnvelope → List (ConversationId × List MessageId)
unfolding group drain
group_by_conversation log = let g = group (λ m. m.id) log in drain g.order g.grouped

-- The body of the loop of `participants_by_conversation`: the last display name of an author stays.
unfoldable pub note_author :
    HashMap ConversationId (OrdMap String)
    → MessageEnvelope
    → HashMap ConversationId (OrdMap String)
note_author by_conversation message =
    HashMap.update message.conversation.id []
      (OrdMap.insert message.author.id message.author.display_name) by_conversation

abbrev pub participant : String × String → Participant
participant (author, display_name) = record { author = author; display_name = display_name }

abbrev pub participants :
    HashMap ConversationId (OrdMap String) → HashMap ConversationId (List Participant)
participants by_conversation = map (λ entry. (entry.0, map participant entry.1)) by_conversation

unfoldable pub participants_by_conversation :
    List MessageEnvelope → HashMap ConversationId (List Participant)
unfolding note_author
participants_by_conversation log = participants (foldl note_author [] log)
