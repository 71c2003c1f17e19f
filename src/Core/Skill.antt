-- ===== src/Core/Skill.antt =====
-- crates/mirrorlane-core/src/skill.rs
use mirrorlane.Base.{String, List}
use mirrorlane.Base.Float.{Float, clamp}
use mirrorlane.Core.Message.{AuthorId, ConversationId, MessageId}
use mirrorlane.Core.Projection.{Confidence, Topic}

-- The field is private in the source: `SkillScore::new` is the one way in.
pub record SkillScore (R : Type 0) : Type 0 where
  pub value : R

-- `SkillScore::new`, and so `From<f64>`
unfoldable pub new_skill_score : {R : Type 0} ⦃f : Float R⦄ → R → SkillScore R
new_skill_score ⦃f⦄ value = record { value = clamp value f.zero f.one }

pub record TopicWeight (R : Type 0) : Type 0 where
  pub topic : Topic
  pub weight : R

pub record DeveloperProfile (R : Type 0) : Type 0 where
  pub author : AuthorId
  pub display_name : String
  pub topics : List (TopicWeight R)

pub record ExpertCandidate (R : Type 0) : Type 0 where
  pub author : AuthorId
  pub display_name : String
  pub score : SkillScore R

pub record TopicOwnership (R : Type 0) : Type 0 where
  pub topic : Topic
  pub candidates : List (ExpertCandidate R)

pub record SkillIndex (R : Type 0) : Type 0 where
  pub profiles : List (DeveloperProfile R)
  pub ownerships : List (TopicOwnership R)

pub record SkillContribution (R : Type 0) : Type 0 where
  pub author : AuthorId
  pub display_name : String
  pub topics : List Topic
  pub confidence : Confidence R

pub record DeveloperSnapshot (R : Type 0) : Type 0 where
  pub author : AuthorId
  pub display_name : String
  pub topics : List (TopicWeight R)

pub record SessionDevelopers (R : Type 0) : Type 0 where
  pub conversation : ConversationId
  pub developers : List (DeveloperSnapshot R)

pub record Participant : Type 0 where
  pub author : AuthorId
  pub display_name : String

pub record DeveloperSnapshotRequest : Type 0 where
  pub conversation : ConversationId
  pub participants : List Participant
  pub messages : List MessageId

pub record SkillEntry : Type 0 where
  pub author : AuthorId
  pub display_name : String
  pub message : MessageId

pub record SkillRequest : Type 0 where
  pub entries : List SkillEntry
