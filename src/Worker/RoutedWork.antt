-- ===== src/Worker/RoutedWork.antt =====
-- crates/mirrorlane-worker/src/routed_work.rs: the consumer that enqueues downstream work. Worklane's
-- client is a parameter: `enqueue_unique` of a lane, a kind of job, a key and a payload acts on the
-- `World` that holds the queue; the text of its error is that of its `Display`.
pub mod Unique
pub mod Once
use mirrorlane.Base.{String, ◌<>◌}
use mirrorlane.Core.Message.{MessageId}
use mirrorlane.Core.Projection.{Projection}
use mirrorlane.Core.Routing.{RoutingDecision, Consumer, ConsumerError, Outcome, ok, err}
use mirrorlane.Worker.Composition.{Handler, done}
use mirrorlane.Worker.DeadLetters.{routed_work_lane}

pub record RoutedWorkPayload (R : Type 0) : Type 0 where
  pub message_id : MessageId
  pub projection : Projection R

-- `RoutedWork::run`, which does nothing
abbrev pub run_routed_work : {R World : Type 0} → Handler (RoutedWorkPayload R) World
run_routed_work payload w = (done, w)

abbrev pub routed_work_kind : String
routed_work_kind = "mirrorlane.routed_work"

unfoldable pub unique_key : MessageId → String
unique_key message_id = routed_work_lane <> (":" <> message_id)

abbrev pub EnqueueUnique : Type 0 → Type 0 → Type 0
EnqueueUnique R World =
    String → String → String → RoutedWorkPayload R → World → Outcome String × World

abbrev pub consumer_result :
    {World : Type 0} → Outcome String × World → Outcome ConsumerError × World
consumer_result (ok, w) = (ok, w)
consumer_result (err e, w) = (err (record { message = e }), w)

-- `consume` of `WorklaneJobConsumer`
unfoldable pub consume_job : {R World : Type 0} → EnqueueUnique R World → Consumer R World
unfolding unique_key
consume_job enqueue_unique decision projection w = consumer_result (
    enqueue_unique routed_work_lane routed_work_kind (unique_key decision.message_id)
      (record { message_id = decision.message_id; projection = projection }) w)
