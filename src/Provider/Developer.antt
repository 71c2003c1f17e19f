-- ===== src/Provider/Developer.antt =====
-- crates/mirrorlane-provider/src/developer.rs: the participants of a session with their topics.
pub mod Ordered
use mirrorlane.Base.{Bool, not, ◌&&◌, ◌||◌, Option, none, some, List, map, string_eq, ◌==◌}
use mirrorlane.Base.Float.{Float}
use mirrorlane.Base.Lists.{find, filter_map}
use mirrorlane.Base.Sort.{sort_by}
use mirrorlane.Base.Text.{str_lt}
use mirrorlane.Core.Message.{AuthorId, ConversationId}
use mirrorlane.Core.Skill.{
  ExpertCandidate, TopicOwnership, TopicWeight, Participant, DeveloperSnapshot, SessionDevelopers,
}

module _ {R : Type 0} ⦃f : Float R⦄ where
  abbrev pub weight_as : TopicOwnership R → Option (ExpertCandidate R) → Option (TopicWeight R)
  weight_as ownership none = none
  weight_as ownership (some candidate) =
      some (record { topic = ownership.topic; weight = candidate.score.value })

  -- The candidate of an ownership who is the author
  unfoldable pub topic_weight : AuthorId → TopicOwnership R → Option (TopicWeight R)
  topic_weight author ownership =
      weight_as ownership (find (λ candidate. candidate.author == author) ownership.candidates)

  -- The comparison of the topics: by weight, highest first, then by topic
  abbrev pub weighs_before : TopicWeight R → TopicWeight R → Bool
  weighs_before a b =
      f.lt b.weight a.weight || (not (f.lt a.weight b.weight) && str_lt a.topic b.topic)

  unfoldable pub snapshot_one : List (TopicOwnership R) → Participant → DeveloperSnapshot R
  unfolding topic_weight
  snapshot_one ownerships participant = record {
    author = participant.author;
    display_name = participant.display_name;
    topics = sort_by weighs_before (filter_map (topic_weight participant.author) ownerships);
  }

  -- `DeveloperSnapshotBuilder::build` of `SkillDeveloperSnapshotter`
  unfoldable pub snapshot :
      ConversationId → List Participant → List (TopicOwnership R) → SessionDevelopers R
  unfolding snapshot_one
  snapshot conversation participants ownerships = record {
    conversation = conversation;
    developers =
        sort_by (λ a b. str_lt a.author b.author) (map (snapshot_one ownerships) participants);
  }
