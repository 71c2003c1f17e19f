-- ===== src/Core/Scope.antt =====
-- crates/mirrorlane-core/src/scope.rs
use mirrorlane.Base.{String, List}
use mirrorlane.Core.Message.{ConversationId, MessageId}
use mirrorlane.Core.Projection.{Confidence}

abbrev pub Component : Type 0
Component = String

pub record Scope (R : Type 0) : Type 0 where
  pub conversation : ConversationId
  pub load : List Component
  pub ignore : List Component
  pub reason : String
  pub confidence : Confidence R

pub record ScopeRequest : Type 0 where
  pub conversation : ConversationId
  pub messages : List MessageId
