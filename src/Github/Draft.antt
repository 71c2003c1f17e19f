-- ===== src/Github/Draft.antt =====
-- crates/mirrorlane-github/src/consumer.rs: the draft of a projection, and the consumer that records it.
pub mod Recorded
use mirrorlane.Base.{ℕ, String, ◌<>◌, Option, some, List, [], ◌∷◌, string_eq, get_or}
use mirrorlane.Base.Float.{Float}
use mirrorlane.Base.HashMap
use mirrorlane.Base.HashMap.{HashMap}
use mirrorlane.Base.Lists.{length}
use mirrorlane.Base.Text.{join}
use mirrorlane.Core.Message.{MessageId}
use mirrorlane.Core.Projection.{
  Intent, question, decision, proposal, task, issue, social, Projection,
}
use mirrorlane.Core.Routing.{Consumer, Outcome, ok}

pub data DraftKind : Type 0 where
  issue_draft pull_request_draft : DraftKind

pub record GitHubDraft : Type 0 where
  pub kind : DraftKind
  pub message_id : MessageId
  pub title : String
  pub body : String

unfoldable pub intent_label : Intent → String
intent_label question = "question"
intent_label decision = "decision"
intent_label proposal = "proposal"
intent_label task = "task"
intent_label issue = "issue"
intent_label social = "social"

abbrev pub kind_for : Intent → DraftKind
kind_for proposal = pull_request_draft
kind_for question = issue_draft
kind_for decision = issue_draft
kind_for task = issue_draft
kind_for issue = issue_draft
kind_for social = issue_draft

abbrev pub first_or : String → List String → String
first_or d [] = d
first_or d (s ∷ ss) = s

abbrev pub title_for : DraftKind → String → Intent → String
title_for issue_draft primary intent = "[" <> (primary <> ("] " <> intent_label intent))
title_for pull_request_draft primary intent = "Proposal: " <> primary

-- A dash for a text with nothing in it
unfoldable pub or_dash : String → String
or_dash String.[] = "—"
or_dash (String.◌∷◌ c s) = String.◌∷◌ c s

module _ {R : Type 0} ⦃f : Float R⦄ where
  unfoldable pub draft_for : Projection R → GitHubDraft
  unfolding intent_label or_dash
  draft_for projection =
      let kind = kind_for projection.intent in
      record {
        kind = kind;
        message_id = projection.message_id;
        title = title_for kind (first_or "general" projection.topics) projection.intent;
        body =
            "Auto-drafted from message "
            <> (projection.message_id
                <> (" (confidence "
                    <> (f.show_2 projection.confidence.value
                        <> (").\n\nTopics: "
                            <> (or_dash (join ", " projection.topics)
                                <> ("\nEntities: " <> or_dash (join ", " projection.entities)))))));
      }

-- The drafts by message id
abbrev pub GitHubConsumer : Type 0
GitHubConsumer = HashMap MessageId GitHubDraft

abbrev pub new_consumer : GitHubConsumer
new_consumer = []

unfoldable pub draft_count : GitHubConsumer → ℕ
draft_count drafts = length drafts

unfoldable pub draft_of : MessageId → GitHubConsumer → Option GitHubDraft
draft_of message_id drafts = HashMap.get message_id drafts

-- `Consumer::consume` of `GitHubConsumer`
unfoldable pub consume_draft : {R : Type 0} ⦃f : Float R⦄ → Consumer R GitHubConsumer
consume_draft d projection drafts =
    (ok, HashMap.insert projection.message_id (draft_for projection) drafts)
