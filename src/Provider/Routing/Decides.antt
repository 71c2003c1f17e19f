-- ===== src/Provider/Routing/Decides.antt =====
-- The router of crates/mirrorlane-provider/src/routing.rs against the policy that it is to follow.
use mirrorlane.Base.{
  true, ◌≡◌, refl, Option, none, some, List, [], ◌∷◌, arith, ◌==◌, if◌then◌else◌, ◌||◌,
}
use mirrorlane.Base.Float.{Float}
use mirrorlane.Core.Message.{MessageId}
use mirrorlane.Core.Projection.{
  Intent, question, decision, proposal, task, issue, social, Projection, intent_eq,
}
use mirrorlane.Core.Routing.{
  ConsumerKind, human, agent, worklane_job, github, RoutingDecision, EvaluationStep,
}
use mirrorlane.Provider.Routing.{
  RuleRouter, route, first_target, default_rules, new, RecordingConsumer, consume_recording,
  received, receipt_beq_iff, receipt_of, receipt_eq,
}

-- Who gets a projection, as the reference mapping has it
abbrev pub policy : Intent → ConsumerKind
policy question = human
policy social = human
policy decision = agent
policy proposal = github
policy issue = github
policy task = worklane_job

-- The target that the last step of a trace names
abbrev pub last_target : List EvaluationStep → Option ConsumerKind
last_target [] = none
last_target (s ∷ []) = s.resulting_target
last_target (s ∷ t ∷ ss) = last_target (t ∷ ss)

default_target-policy : (intent : Intent) → first_target default_rules intent human ≡ policy intent
unfolding first_target default_rules
default_target-policy question = refl
default_target-policy decision = refl
default_target-policy proposal = refl
default_target-policy task = refl
default_target-policy issue = refl
default_target-policy social = refl

module _ {R : Type 0} ⦃f : Float R⦄ where
  -- The default router sends a projection below the threshold of 0.6 to a human and escalates it, and
  -- any other to the consumer that the reference mapping has for its intent, not escalated.
  pub route-policy :
      (p : Projection R)
      → ((route new p).0.target
          ≡ (if f.lt p.confidence.value (f.tenths 6) then human else policy p.intent))
        × ((route new p).0.escalated ≡ f.lt p.confidence.value (f.tenths 6))
  unfolding route new
  route-policy p = ground (arith, default_target-policy p.intent)

  -- Of every router: the decision and the trace name the message of the projection, the trace ends in the
  -- target that was decided, and the decision is an escalation exactly when the confidence is below
  -- the threshold, in which case the target is a human.
  pub route-traced :
      (router : RuleRouter R) (p : Projection R)
      → ((route router p).0.message_id ≡ p.message_id)
        × ((route router p).1.message_id ≡ p.message_id)
        × (last_target (route router p).1.steps ≡ some (route router p).0.target)
        × ((route router p).0.escalated ≡ f.lt p.confidence.value router.escalation_threshold)
        × ((route router p).0.escalated ≡ true → (route router p).0.target ≡ human)
  unfolding route
  route-traced router p = ground arith

-- The recorder holds a receipt for a kind and message after a decision if it held it before or the
-- decision is that one, and a decision that is delivered again changes nothing.
pub consume_recording_idempotent :
    {R : Type 0} (d : RoutingDecision) (p : Projection R) (kind : ConsumerKind) (id : MessageId)
    (s : RecordingConsumer)
    → (received kind id (consume_recording d p s).1
        ≡ (receipt_of d == record { kind = kind; message_id = id } || received kind id s))
      × (consume_recording d p (consume_recording d p s).1 ≡ consume_recording d p s)
unfolding received consume_recording
consume_recording_idempotent d p kind id s = (
  ground (arith, receipt_beq_iff (receipt_of d) (record { kind = kind; message_id = id })),
  ground (arith, receipt_beq_iff (receipt_of d) (receipt_of d)),
)
