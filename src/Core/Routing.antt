-- ===== src/Core/Routing.antt =====
-- crates/mirrorlane-core/src/routing.rs. A consumer is a state-passing function: `consume` may fail,
-- and what it changed before it failed stays changed.
use mirrorlane.Base.{
  ◌≡◌, ◌↔◌, Bool, true, false, String, ◌<>◌, List, Option, none, some, [], arith, Eq,
}
use mirrorlane.Base.HashMap
use mirrorlane.Base.HashMap.{HashMap}
use mirrorlane.Core.Message.{MessageId}
use mirrorlane.Core.Projection.{Intent, Projection}
use mirrorlane.Core.Skill.{ExpertCandidate}

pub data ConsumerKind : Type 0 where
  human agent worklane_job github : ConsumerKind

abbrev pub consumer_kind_beq : ConsumerKind → ConsumerKind → Bool
consumer_kind_beq human human = true
consumer_kind_beq agent agent = true
consumer_kind_beq worklane_job worklane_job = true
consumer_kind_beq github github = true
consumer_kind_beq _ _ = false

pub consumer_kind_beq_iff : (a b : ConsumerKind) → (consumer_kind_beq a b ≡ true) ↔ (a ≡ b)
consumer_kind_beq_iff a b = ground arith

instance abbrev pub consumer_kind_eq : Eq ConsumerKind
consumer_kind_eq = record { beq = consumer_kind_beq; beq_iff = consumer_kind_beq_iff }

pub record RoutingRule : Type 0 where
  pub intent : Intent
  pub target : ConsumerKind

pub record RoutingDecision : Type 0 where
  pub message_id : MessageId
  pub target : ConsumerKind
  pub reason : String
  pub escalated : Bool

pub record EvaluationStep : Type 0 where
  pub rule_name : String
  pub matched : Bool
  pub resulting_target : Option ConsumerKind

pub record RoutingTrace : Type 0 where
  pub message_id : MessageId
  pub steps : List EvaluationStep

pub record RoutingHint (R : Type 0) : Type 0 where
  pub message_id : MessageId
  pub reviewers : List (ExpertCandidate R)
  pub human_hint : Option (ExpertCandidate R)

pub record ConsumerReceipt : Type 0 where
  pub kind : ConsumerKind
  pub message_id : MessageId

pub record RoutingRequest : Type 0 where
  pub messages : List MessageId

pub record RoutingHintRequest : Type 0 where
  pub messages : List MessageId

pub record ConsumerError : Type 0 where
  pub message : String

-- `Display`
unfoldable pub show_consumer_error : ConsumerError → String
show_consumer_error e = "consumer error: " <> e.message

-- `Result<(), E>`, and the `?` on it
pub data Outcome (E : Type 0) : Type 0 where
  ok : Outcome E
  err : E → Outcome E

-- What a consumer reaches: `World` is the state behind every `&self` and every connection.
abbrev pub Consumer : Type 0 → Type 0 → Type 0
Consumer R World = RoutingDecision → Projection R → World → Outcome ConsumerError × World

abbrev pub ConsumerRegistry : Type 0 → Type 0 → Type 0
ConsumerRegistry R World = HashMap ConsumerKind (Consumer R World)

module _ {R World : Type 0} where
  abbrev pub new_registry : ConsumerRegistry R World
  new_registry = []

  unfoldable pub register :
      ConsumerKind → Consumer R World → ConsumerRegistry R World → ConsumerRegistry R World
  register kind consumer consumers = HashMap.insert kind consumer consumers

  -- A decision for a kind with no consumer is a success that does nothing.
  unfoldable pub dispatch : ConsumerRegistry R World → Consumer R World
  dispatch consumers decision projection w = elim (HashMap.get decision.target consumers) [
    | none ↦ (ok, w)
    | some consumer ↦ consumer decision projection w
  ]
