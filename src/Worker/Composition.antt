-- ===== src/Worker/Composition.antt =====
-- crates/mirrorlane-worker/src/composition.rs: a stage, and the three ways to fan out payloads. Worklane
-- (a git submodule) is a parameter: the sequence of deliveries that it makes of a stage's payloads
-- until it is idle. Its documented contract is at-least-once: every payload is delivered, maybe
-- more than once and in any order, and nothing else is. A delivery whose handler fails or panics
-- keeps what it wrote; a later delivery of the payload is the retry.
use mirrorlane.Base.{List, [], ◌∷◌, map, String}
use mirrorlane.Base.Lists.{In, foldl}
use mirrorlane.Core.Message.{ConversationId, MessageId, MessageEnvelope}

pub record Substrate : Type 1 where
  pub deliver : (P : Type 0) → List P → List P
  pub only_enqueued :
      (P : Type 0) (payloads : List P) (p : P) → In p (deliver P payloads) → In p payloads
  pub at_least_once :
      (P : Type 0) (payloads : List P) (p : P) → In p payloads → In p (deliver P payloads)

-- How one delivery ends: the handler returns, returns an error, or panics.
pub data HandlerResult : Type 0 where
  done : HandlerResult
  failed : String → HandlerResult
  panicked : HandlerResult

abbrev pub Handler : Type 0 → Type 0 → Type 0
Handler P S = P → S → HandlerResult × S

unfoldable pub run_stage : {P S : Type 0} → Substrate → Handler P S → List P → S → S
run_stage {P} substrate job payloads s =
    foldl (λ s payload. (job payload s).1) s (substrate.deliver P payloads)

unfoldable pub per_message : {P : Type 0} → List MessageEnvelope → (MessageEnvelope → P) → List P
per_message log build = map build log

unfoldable pub per_conversation :
    {P : Type 0}
    → List (ConversationId × List MessageId)
    → (ConversationId → List MessageId → P)
    → List P
per_conversation conversations build = map (λ c. build c.0 c.1) conversations

unfoldable pub global : {P : Type 0} → P → List P
global payload = payload ∷ []
