-- ===== src/Core/Warmup.antt =====
-- crates/mirrorlane-core/src/warmup.rs
use mirrorlane.Base.{String, List}
use mirrorlane.Core.Message.{ConversationId, MessageId}
use mirrorlane.Core.Scope.{Component}

pub record WarmupDocument : Type 0 where
  pub conversation : ConversationId
  pub focus : List Component
  pub decisions : List MessageId
  pub open_questions : List MessageId
  pub tasks : List MessageId
  pub summary : String

pub record WarmupRequest : Type 0 where
  pub conversation : ConversationId
  pub messages : List MessageId
