-- ===== src/Provider/Skill.antt =====
-- crates/mirrorlane-provider/src/skill.rs: the skill index from the contributions of the messages.
pub mod Weights
pub mod Ranked
use mirrorlane.Base.{
  String, Bool, true, false, not, ◌&&◌, ◌||◌, List, [], ◌∷◌, ◌++◌, map, string_eq, if◌then◌else◌,
}
use mirrorlane.Base.Float.{Float, max}
use mirrorlane.Base.Lists.{foldl}
use mirrorlane.Base.OrdMap
use mirrorlane.Base.OrdMap.{OrdMap}
use mirrorlane.Base.Sort.{sort_by}
use mirrorlane.Base.Text.{str_lt}
use mirrorlane.Core.Message.{AuthorId}
use mirrorlane.Core.Projection.{Topic}
use mirrorlane.Core.Skill.{
  SkillScore, new_skill_score, TopicWeight, DeveloperProfile, ExpertCandidate, TopicOwnership,
  SkillIndex, SkillContribution,
}

-- author id -> (display name, topic -> weight)
abbrev pub PerAuthor : Type 0 → Type 0
PerAuthor R = OrdMap (String × OrdMap R)

-- topic -> (author id, display name, weight)
abbrev pub PerTopic : Type 0 → Type 0
PerTopic R = OrdMap (List (AuthorId × String × R))

module _ {R : Type 0} ⦃f : Float R⦄ where
  -- The inner loop over the topics of a contribution
  unfoldable pub credit_topics : R → List Topic → OrdMap R → OrdMap R
  credit_topics confidence [] weights = weights
  credit_topics confidence (topic ∷ topics) weights =
      credit_topics confidence topics
        (OrdMap.update topic f.zero (λ weight. f.add weight confidence) weights)

  -- One round of the outer loop: the last display name stands.
  unfoldable pub contribute : PerAuthor R → SkillContribution R → PerAuthor R
  unfolding credit_topics
  contribute per_author contribution =
      OrdMap.update contribution.author (contribution.display_name, [])
        (λ entry. (
          contribution.display_name,
          credit_topics contribution.confidence.value contribution.topics entry.1,
        ))
        per_author

  unfoldable pub collect : List (SkillContribution R) → PerAuthor R
  unfolding contribute
  collect contributions = foldl contribute [] contributions

  unfoldable pub profile : AuthorId × (String × OrdMap R) → DeveloperProfile R
  profile (author, (display_name, topics)) = record {
    author = author;
    display_name = display_name;
    topics = map (λ entry. record { topic = entry.0; weight = entry.1 }) topics;
  }

  -- The inner loop of the inversion
  unfoldable pub invert_topics : AuthorId → String → OrdMap R → PerTopic R → PerTopic R
  invert_topics author display_name [] per_topic = per_topic
  invert_topics author display_name ((topic, weight) ∷ topics) per_topic =
      invert_topics author display_name topics (
        OrdMap.update topic [] (λ contributors. contributors ++ (author, display_name, weight) ∷ [])
          per_topic)

  -- Its outer loop
  unfoldable pub invert : PerAuthor R → PerTopic R → PerTopic R
  unfolding invert_topics
  invert [] per_topic = per_topic
  invert ((author, (display_name, topics)) ∷ per_author) per_topic =
      invert per_author (invert_topics author display_name topics per_topic)

  -- `weight / max`, 0 without a positive maximum
  abbrev pub normalize : R → R → R
  normalize top weight = if f.lt f.zero top then f.div weight top else f.zero

  -- The comparison of the candidates: by score, highest first, then by author id
  abbrev pub ranks_before : ExpertCandidate R → ExpertCandidate R → Bool
  ranks_before a b =
      f.lt b.score.value a.score.value
      || (not (f.lt a.score.value b.score.value) && str_lt a.author b.author)

  unfoldable pub ownership : Topic × List (AuthorId × String × R) → TopicOwnership R
  ownership (topic, contributors) =
      let top = foldl (λ best c. max best c.2) f.zero contributors in
      record {
        topic = topic;
        candidates = sort_by ranks_before (
            map
              (λ c. record {
                author = c.0;
                display_name = c.1;
                score = new_skill_score (normalize top c.2);
              })
              contributors);
      }

  -- `SkillBuilder::build` of `MessageSkillBuilder`
  unfoldable pub build_index : List (SkillContribution R) → SkillIndex R
  unfolding collect profile invert ownership
  build_index contributions =
      let per_author = collect contributions in
      record {
        profiles = map profile per_author;
        ownerships = map ownership (invert per_author []);
      }
