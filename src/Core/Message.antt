-- ===== src/Core/Message.antt =====
-- crates/mirrorlane-core/src/message.rs. A newtype over `String` is the text itself.
use mirrorlane.Base.{String, Option}

abbrev pub MessageId : Type 0
MessageId = String

abbrev pub AuthorId : Type 0
AuthorId = String

abbrev pub ConversationId : Type 0
ConversationId = String

abbrev pub ThreadId : Type 0
ThreadId = String

pub data Source : Type 0 where
  discord slack github manual : Source

pub record Author : Type 0 where
  pub id : AuthorId
  pub display_name : String

pub record Conversation : Type 0 where
  pub id : ConversationId
  pub thread : Option ThreadId

pub record MessageEnvelope : Type 0 where
  pub id : MessageId
  pub source : Source
  pub author : Author
  pub conversation : Conversation
  pub body : String
