-- ===== src/Github/Draft/Recorded.antt =====
-- The drafts that the consumer of crates/mirrorlane-github/src/consumer.rs holds.
use mirrorlane.Base.{◌≡◌, ap, ◌↔◌, some, arith, string_eq, ◌==◌, if◌then◌else◌}
use mirrorlane.Base.Float.{Float}
use mirrorlane.Base.HashMap
use mirrorlane.Core.Message.{MessageId}
use mirrorlane.Core.Projection.{Projection, proposal}
use mirrorlane.Core.Routing.{RoutingDecision, ok}
use mirrorlane.Github.Draft.{GitHubConsumer, pull_request_draft, draft_for, draft_of, consume_draft}

module _ {R : Type 0} ⦃f : Float R⦄ where
  -- After a delivery the draft of its message is the one made from the projection, a pull request
  -- exactly for a proposal, every other message keeps its draft, and a second delivery changes
  -- nothing.
  pub consume_draft-recorded :
      (d : RoutingDecision) (p : Projection R) (j : MessageId) (s : GitHubConsumer)
      → (draft_of j (consume_draft d p s).1
          ≡ (if p.message_id == j then some (draft_for p) else draft_of j s))
        × (((draft_for p).kind ≡ pull_request_draft) ↔ (p.intent ≡ proposal))
        × (consume_draft d p (consume_draft d p s).1 ≡ consume_draft d p s)
  unfolding consume_draft draft_of draft_for
  consume_draft-recorded d p j s = (
    HashMap.get-insert p.message_id j (draft_for p) s,
    ground arith,
    ap (λ t. (ok, t))
        (HashMap.insert_again p.message_id (draft_for p) _
          (HashMap.get-insert_self p.message_id (draft_for p) s)),
  )
