-- ===== src/Provider/Hint.antt =====
-- crates/mirrorlane-provider/src/hint.rs: the reviewers for a message, from the ownerships of its topics.
pub mod Reviewers
use mirrorlane.Base.{String, not, Option, none, some, List, [], ◌∷◌, map, string_eq, if◌then◌else◌}
use mirrorlane.Base.Float.{Float, max}
use mirrorlane.Base.Lists.{contains, foldl}
use mirrorlane.Base.OrdMap
use mirrorlane.Base.OrdMap.{OrdMap}
use mirrorlane.Base.Sort.{sort_by}
use mirrorlane.Core.Message.{AuthorId}
use mirrorlane.Core.Projection.{Projection, Topic}
use mirrorlane.Core.Routing.{RoutingHint}
use mirrorlane.Core.Skill.{ExpertCandidate, TopicOwnership, new_skill_score}
use mirrorlane.Provider.Skill.{normalize, ranks_before}

abbrev pub first {ℓ} : {A : Type ℓ} → List A → Option A
first [] = none
first (x ∷ xs) = some x

module _ {R : Type 0} ⦃f : Float R⦄ where
  -- One round of the inner loop: the last display name stands.
  unfoldable pub total_candidate : OrdMap (String × R) → ExpertCandidate R → OrdMap (String × R)
  total_candidate totals candidate =
      OrdMap.update candidate.author (candidate.display_name, f.zero)
        (λ entry. (candidate.display_name, f.add entry.1 candidate.score.value)) totals

  -- The outer loop, which passes over a topic that the projection does not have.
  unfoldable pub total_ownerships :
      List Topic → List (TopicOwnership R) → OrdMap (String × R) → OrdMap (String × R)
  unfolding total_candidate
  total_ownerships topics [] totals = totals
  total_ownerships topics (ownership ∷ ownerships) totals = total_ownerships topics ownerships (
      if not (contains ownership.topic topics)
      then totals
      else foldl total_candidate totals ownership.candidates)

  unfoldable pub rank_totals : OrdMap (String × R) → List (ExpertCandidate R)
  rank_totals totals =
      let top = foldl (λ best entry. max best entry.1.1) f.zero totals in
      sort_by ranks_before (
        map
          (λ entry. record {
            author = entry.0;
            display_name = entry.1.0;
            score = new_skill_score (normalize top entry.1.1);
          })
          totals)

  -- `RoutingHinter::hint` of `SkillRoutingHinter`
  unfoldable pub hint : Projection R → List (TopicOwnership R) → RoutingHint R
  unfolding total_ownerships rank_totals
  hint projection ownerships =
      let reviewers = rank_totals (total_ownerships projection.topics ownerships []) in
      record {
        message_id = projection.message_id;
        reviewers = reviewers;
        human_hint = first reviewers;
      }
