-- ===== src/Provider/Routing.antt =====
-- crates/mirrorlane-provider/src/routing.rs: the rule router with its confidence threshold, and the
-- recording consumer.
pub mod Decides
use mirrorlane.Base.{
  Bool, true, false, String, ◌<>◌, Option, none, some, List, [], ◌∷◌, ◌==◌, if◌then◌else◌, Eq, ◌&&◌,
  ◌≡◌, ◌↔◌, arith,
}
use text.Mathlib.Text.{◌==◌ as str_eq}
use text.Mathlib.TextEquality.{eq_iff}
use mirrorlane.Base.Float.{Float}
use mirrorlane.Base.Lists.{contains}
use mirrorlane.Core.Message.{MessageId}
use mirrorlane.Core.Projection.{
  Intent, question, decision, proposal, task, issue, social, Projection, intent_eq,
}
use mirrorlane.Core.Routing.{
  ConsumerKind, human, agent, worklane_job, github, consumer_kind_beq, consumer_kind_beq_iff,
  RoutingRule, RoutingDecision, RoutingTrace, EvaluationStep, ConsumerReceipt, Consumer, Outcome,
  ok,
}

pub record RuleRouter (R : Type 0) : Type 0 where
  pub rules : List RoutingRule
  pub escalation_threshold : R
  pub default_target : ConsumerKind

abbrev rule : Intent → ConsumerKind → RoutingRule
rule intent target = record { intent = intent; target = target }

unfoldable pub default_rules : List RoutingRule
default_rules =
    rule question human
    ∷ rule decision agent
    ∷ rule proposal github
    ∷ rule issue github
    ∷ rule task worklane_job
    ∷ rule social human
    ∷ []

-- The `find` of `target_for`, with the default where no rule fits
unfoldable pub first_target : List RoutingRule → Intent → ConsumerKind → ConsumerKind
first_target [] intent default = default
first_target (r ∷ rules) intent default =
    if r.intent == intent then r.target else first_target rules intent default

unfoldable pub intent_label : Intent → String
intent_label question = "question"
intent_label decision = "decision"
intent_label proposal = "proposal"
intent_label task = "task"
intent_label issue = "issue"
intent_label social = "social"

unfoldable pub target_label : ConsumerKind → String
target_label human = "human"
target_label agent = "agent"
target_label worklane_job = "worklane-job"
target_label github = "github"

abbrev pub threshold_step : Bool → EvaluationStep
threshold_step below = record {
  rule_name = "confidence_threshold";
  matched = below;
  resulting_target = if below then some human else none;
}

abbrev pub intent_step : ConsumerKind → EvaluationStep
intent_step target = record {
  rule_name = "intent_routing";
  matched = true;
  resulting_target = some target;
}

module _ {R : Type 0} ⦃f : Float R⦄ where
  abbrev pub default_escalation_threshold : R
  default_escalation_threshold = f.tenths 6

  -- `RuleRouter::with_rules`
  abbrev pub with_rules : List RoutingRule → R → ConsumerKind → RuleRouter R
  with_rules rules threshold target = record {
    rules = rules;
    escalation_threshold = threshold;
    default_target = target;
  }

  -- `RuleRouter::new`
  unfoldable pub new : RuleRouter R
  new = with_rules default_rules default_escalation_threshold human

  unfoldable pub target_for : RuleRouter R → Intent → ConsumerKind
  unfolding first_target
  target_for router intent = first_target router.rules intent router.default_target

  -- `Router::route` of `RuleRouter`
  unfoldable pub route : RuleRouter R → Projection R → RoutingDecision × RoutingTrace
  unfolding target_for intent_label target_label
  route router projection =
      let confidence = projection.confidence.value in
      let threshold = router.escalation_threshold in
      let below = f.lt confidence threshold in
      let target = target_for router projection.intent in
      if below
      then (
        record {
          message_id = projection.message_id;
          target = human;
          reason =
              "confidence "
              <> (f.show_2 confidence
                  <> (" below " <> (f.show_2 threshold <> " threshold; escalated to human")));
          escalated = true;
        },
        record { message_id = projection.message_id; steps = threshold_step below ∷ [] },
      )
      else (
        record {
          message_id = projection.message_id;
          target = target;
          reason =
              "intent="
              <> (intent_label projection.intent <> (" routed to " <> target_label target));
          escalated = false;
        },
        record {
          message_id = projection.message_id;
          steps = threshold_step below ∷ intent_step target ∷ [];
        },
      )

abbrev pub receipt_beq : ConsumerReceipt → ConsumerReceipt → Bool
receipt_beq a b = consumer_kind_beq a.kind b.kind && str_eq a.message_id b.message_id

pub receipt_beq_iff : (a b : ConsumerReceipt) → (receipt_beq a b ≡ true) ↔ (a ≡ b)
receipt_beq_iff a b =
    ground (arith, consumer_kind_beq_iff a.kind b.kind, eq_iff a.message_id b.message_id)

instance abbrev pub receipt_eq : Eq ConsumerReceipt
receipt_eq = record { beq = receipt_beq; beq_iff = receipt_beq_iff }

-- The receipts of a `RecordingConsumer`, a `HashSet`: an insert of what is there changes nothing.
abbrev pub RecordingConsumer : Type 0
RecordingConsumer = List ConsumerReceipt

abbrev pub receipt_of : RoutingDecision → ConsumerReceipt
receipt_of routed = record { kind = routed.target; message_id = routed.message_id }

unfoldable pub received : ConsumerKind → MessageId → RecordingConsumer → Bool
received kind message_id receipts =
    contains (record { kind = kind; message_id = message_id }) receipts

-- `Consumer::consume` of `RecordingConsumer`
unfoldable pub consume_recording : {R : Type 0} → Consumer R RecordingConsumer
consume_recording routed projection receipts =
    (ok, if contains (receipt_of routed) receipts then receipts else receipt_of routed ∷ receipts)
