-- ===== src/Provider/Scope.antt =====
-- crates/mirrorlane-provider/src/scope.rs: the catalog-based scope projector. `lower` is the standard
-- library's `to_lowercase`, by the Unicode tables.
pub mod Partition
use mirrorlane.Base.{
  ℕ, Bool, true, false, not, ◌||◌, String, ◌<>◌, Option, none, some, List, [], ◌∷◌, ◌++◌, ◌==◌,
  string_eq, if◌then◌else◌,
}
use mirrorlane.Base.Float.{Float}
use mirrorlane.Base.Lists.{contains, filter, foldl, length}
use mirrorlane.Base.OrdSet
use mirrorlane.Base.Text.{join}
use mirrorlane.Core.Message.{ConversationId}
use mirrorlane.Core.Projection.{Projection, Confidence, new_confidence}
use mirrorlane.Core.Scope.{Component, Scope}

abbrev pub catalog : List Component
catalog = "auth-sdk" ∷ "oauth2" ∷ "token-refresh" ∷ "web-ui" ∷ "analytics" ∷ "billing" ∷ []

-- The `match` on the lowered keyword
unfoldable pub component_of : String → Option Component
component_of k =
    if k == "auth" || k == "sdk"
    then some "auth-sdk"
    else if k == "oauth" || k == "oauth2"
    then some "oauth2"
    else if k == "refresh-token"
    then some "token-refresh"
    else if k == "web" || (k == "ui" || k == "web-ui")
    then some "web-ui"
    else if k == "analytics"
    then some "analytics"
    else if k == "billing"
    then some "billing"
    else none

-- The sentence on the components loaded
abbrev pub reason_for : List Component → String
reason_for [] = "No known components detected for this session."
reason_for (component ∷ names) = "Session focuses on " <> (join ", " (component ∷ names) <> ".")

-- The mean of the confidences, 0 without a projection
module _ {R : Type 0} ⦃f : Float R⦄ where
  abbrev pub confidence_for : R → List (Projection R) → Confidence R
  confidence_for confidence_sum [] = new_confidence f.zero
  confidence_for confidence_sum (p ∷ ps) =
      new_confidence (f.div confidence_sum (f.of_ℕ (length (p ∷ ps))))

module _ (lower : String → String) where
  unfoldable pub component_for : String → Option Component
  component_for keyword = component_of (lower keyword)

  -- The inner loop, over the keywords of a projection
  unfoldable pub load_keywords : List String → List Component → List Component
  load_keywords [] loaded = loaded
  load_keywords (keyword ∷ keywords) loaded = load_keywords keywords (elim (component_for keyword) [
    | none ↦ loaded
    | some component ↦ OrdSet.insert component loaded
  ])

  module _ {R : Type 0} ⦃f : Float R⦄ where
    -- The outer loop: the components loaded and the sum of the confidences
    unfoldable pub load_projections : List (Projection R) → List Component × R → List Component × R
    unfolding load_keywords
    load_projections [] acc = acc
    load_projections (p ∷ ps) (loaded, sum) =
        load_projections ps
          (load_keywords (p.topics ++ p.entities) loaded, f.add sum p.confidence.value)

    -- `ScopeProjector::scope` of `MockScopeProjector`
    unfoldable pub scope : ConversationId → List (Projection R) → Scope R
    unfolding load_projections
    scope conversation projections =
        let (load, confidence_sum) = load_projections projections ([], f.zero) in
        record {
          conversation = conversation;
          load = load;
          ignore = filter (λ c. not (contains c load)) catalog;
          reason = reason_for load;
          confidence = confidence_for confidence_sum projections;
        }
