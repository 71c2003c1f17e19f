-- ===== src/Tests/Ports.antt =====
-- The reference ports at concrete projections.
use mathlib.Core.List.{Perm}
use mirrorlane.Base.{
  ℕ, ◌≡◌, refl, true, false, String, Option, none, some, List, map, [], ◌∷◌, string_eq, ◌==◌,
  if◌then◌else◌,
}
use mirrorlane.Base.Lists.{contains}
use mirrorlane.Base.HashMap
use mirrorlane.Base.OrdMap
use mirrorlane.Base.Sort.{IsSorted}
use mirrorlane.Core.Projection.{decision, Projection}
use mirrorlane.Core.Routing.{human}
use mirrorlane.Core.Skill.{Participant}
use mirrorlane.Github.Draft.{consume_draft, draft_of, draft_for}
use mirrorlane.Github.Draft.Recorded.{consume_draft-recorded}
use mirrorlane.Llm.{ProjectionDto, LlmProjector, run_llm}
use mirrorlane.Llm.Parsed.{run_llm-keeps}
use mirrorlane.Provider.Developer.{snapshot}
use mirrorlane.Provider.Developer.Ordered.{named, snapshot-Describes}
use mirrorlane.Provider.Hint.{hint}
use mirrorlane.Provider.Hint.Reviewers.{hint-Owns}
use mirrorlane.Provider.Routing.{new, route}
use mirrorlane.Provider.Routing.Decides.{route-policy, route-traced, last_target}
use mirrorlane.Provider.Scope.{scope}
use mirrorlane.Provider.Scope.Partition.{scope-partition, evoked}
use mirrorlane.Provider.Skill.{ranks_before, collect}
use mirrorlane.Provider.Skill.Weights.{collect-credits, weight_of}
use mirrorlane.Provider.Warmup.{build}
use mirrorlane.Provider.Warmup.Groups.{build-with_intent, with_intent}
use mirrorlane.Tests.Fixtures.{
  hundredths, lower, auth_question, unsure_proposal, a_decision, two_contributions, two_ownerships,
  to_human, message,
}

route-policy_example :
    ((route new unsure_proposal).0.target ≡ human)
    × ((route new unsure_proposal).0.escalated ≡ true)
route-policy_example = route-policy unsure_proposal

route-traced_example :
    last_target (route new auth_question).1.steps ≡ some (route new auth_question).0.target
route-traced_example = (route-traced new auth_question).2

consume_draft-recorded_example :
    draft_of "m-2" (consume_draft to_human unsure_proposal []).1 ≡ some (draft_for unsure_proposal)
consume_draft-recorded_example = (consume_draft-recorded to_human unsure_proposal "m-2" []).0

collect-credits_example : weight_of "u-1" "rust" (collect two_contributions) ≡ some 160
collect-credits_example = collect-credits "u-1" "rust" two_contributions

hint-Owns_example : IsSorted ranks_before (hint auth_question two_ownerships).reviewers
hint-Owns_example = (hint-Owns auth_question two_ownerships).0

abbrev bob_and_ada : List Participant
bob_and_ada =
    record { author = "u-2"; display_name = "Bob" }
    ∷ record { author = "u-1"; display_name = "Ada" }
    ∷ []

snapshot-Describes_example :
    Perm (map named (snapshot "c-1" bob_and_ada two_ownerships).developers) bob_and_ada
snapshot-Describes_example = (snapshot-Describes "c-1" bob_and_ada two_ownerships).0

scope-partition_example :
    contains "auth-sdk" (scope lower "c-1" (auth_question ∷ [])).load
    ≡ evoked lower "auth-sdk" (auth_question ∷ [])
scope-partition_example = (scope-partition lower "c-1" (auth_question ∷ []) "auth-sdk").0

build-with_intent_example :
    (build "c-1" none (auth_question ∷ a_decision ∷ [])).decisions
    ≡ with_intent decision (auth_question ∷ a_decision ∷ [])
build-with_intent_example = (build-with_intent "c-1" none (auth_question ∷ a_decision ∷ [])).0

abbrev read_dto : String → Option (ProjectionDto ℕ)
read_dto response =
    if response == "{}"
    then some (record { intent = decision; topics = []; entities = []; confidence = 300 })
    else none

-- A model that counts its calls and answers `{}`.
abbrev counting : LlmProjector ℕ
counting = record {
  client = record {
    complete_json = λ model prompt calls. (some "{}", calls);
    provider_tag = "test";
  };
  model = "m";
  prompt_version = "v2";
}

run_llm-keeps_example :
    ((p : Projection ℕ)
      → (run_llm read_dto counting (message "m-1" "c-1" "hi") 3).0 ≡ some p
      → (p.message_id ≡ "m-1")
        × (hundredths.lt p.confidence.value 0 ≡ false)
        × (hundredths.lt 100 p.confidence.value ≡ false))
    × (read_dto "{}" ≡ none → run_llm read_dto counting (message "m-1" "c-1" "hi") 3 ≡ (none, 3))
run_llm-keeps_example = run_llm-keeps read_dto counting (message "m-1" "c-1" "hi") 3 3 "{}" refl
