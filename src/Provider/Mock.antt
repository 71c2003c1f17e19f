-- ===== src/Provider/Mock.antt =====
-- crates/mirrorlane-provider/src/mock.rs: the keyword projector. `lower` is the standard library's
-- `to_lowercase`, by the Unicode tables.
use mirrorlane.Base.{String, ◌+◌, ◌||◌, some, List, [], ◌∷◌, if◌then◌else◌}
use mirrorlane.Base.Float.{Float}
use mirrorlane.Base.Lists.{filter, length}
use mirrorlane.Base.Text.{str_contains}
use mirrorlane.Core.Message.{MessageEnvelope}
use mirrorlane.Core.Projection.{
  Intent, question, decision, proposal, task, issue, social, Topic, Entity, Projection,
  new_confidence,
}
use mirrorlane.Runtime.Step.{Step}

abbrev pub topic_keywords : List Topic
topic_keywords = "rust" ∷ "backend" ∷ "sdk" ∷ "infra" ∷ "ai" ∷ "auth" ∷ "oauth" ∷ "ci" ∷ []

abbrev pub entity_keywords : List Entity
entity_keywords = "postgres" ∷ "sqlite" ∷ "refresh-token" ∷ "authservice" ∷ "opentelemetry" ∷ []

unfoldable pub detect_intent : String → Intent
detect_intent body =
    if str_contains body "?"
    then question
    else if str_contains body "propose"
        || (str_contains body "proposal" || str_contains body "suggest")
    then proposal
    else if str_contains body "decided"
        || (str_contains body "let's" || str_contains body "we will")
    then decision
    else if str_contains body "bug" || (str_contains body "error" || str_contains body "broken")
    then issue
    else if str_contains body "todo" || (str_contains body "task" || str_contains body "need to")
    then task
    else social

module _ {R : Type 0} ⦃f : Float R⦄ (lower : String → String) where
  -- `Step::run` of `MockProjector`
  unfoldable pub project : MessageEnvelope → Projection R
  unfolding detect_intent
  project message =
      let body = lower message.body in
      let topics = filter (str_contains body) topic_keywords in
      let entities = filter (str_contains body) entity_keywords in
      record {
        message_id = message.id;
        intent = detect_intent body;
        topics = topics;
        entities = entities;
        confidence =
            new_confidence
              (f.add (f.tenths 5) (f.mul (f.tenths 1) (f.of_ℕ (length topics + length entities))));
      }

  -- `MockProjector` as a step
  abbrev pub mock_projector : {World : Type 0} → Step MessageEnvelope (Projection R) World
  mock_projector = record {
    kind = "mirrorlane.projection.mock";
    version = "mock:v1";
    run = λ message w. (some (project message), w);
  }
