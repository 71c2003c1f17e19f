-- ===== src/Core/Derivation.antt =====
-- crates/mirrorlane-core/src/derivation.rs: the derivation of one conversation, its version, and the
-- in-memory cache of derivations under (version, conversation, content).
use mirrorlane.Base.{
  String, ◌<>◌, ◌≡◌, refl, false, Option, some, List, string_eq, triple_eq, ◌==◌, if◌then◌else◌,
}
use mirrorlane.Base.HashMap
use mirrorlane.Base.HashMap.{HashMap}
use mirrorlane.Core.Message.{ConversationId}
use mirrorlane.Core.Projection.{Projection}
use mirrorlane.Core.Routing.{RoutingHint}
use mirrorlane.Core.Scope.{Scope}
use mirrorlane.Core.Skill.{SessionDevelopers}
use mirrorlane.Core.Warmup.{WarmupDocument}

abbrev pub StepVersion : Type 0
StepVersion = String

abbrev pub derivation_schema_version : String
derivation_schema_version = "1"

unfoldable pub derivation_version : String → StepVersion → StepVersion
derivation_version strategy projector =
    derivation_schema_version <> (":" <> (strategy <> (":" <> projector)))

pub record ConversationDerivation (R : Type 0) : Type 0 where
  pub conversation : ConversationId
  pub projections : List (Projection R)
  pub scope : Option (Scope R)
  pub warmup : WarmupDocument
  pub developers : Option (SessionDevelopers R)
  pub hints : List (RoutingHint R)

-- The state of an `InMemoryDerivedOutputCache`.
abbrev pub InMemoryDerivedOutputCache : Type 0 → Type 0
InMemoryDerivedOutputCache R = HashMap (String × String × String) (ConversationDerivation R)

module _ {R : Type 0} where
  unfoldable pub get :
      StepVersion
      → ConversationId
      → String
      → InMemoryDerivedOutputCache R
      → Option (ConversationDerivation R)
  get version conversation content cache = HashMap.get (version, conversation, content) cache

  unfoldable pub put :
      StepVersion
      → ConversationId
      → String
      → ConversationDerivation R
      → InMemoryDerivedOutputCache R
      → InMemoryDerivedOutputCache R
  put version conversation content value cache =
      HashMap.insert (version, conversation, content) value cache

-- The trait `DerivedOutputCache` over the state `S` of an implementation, with what its documentation
-- promises: a lookup hits only under the exact version, conversation and content, and reclaiming
-- keeps the other conversations and the entry that it names. `back d` is what a lookup returns of a
-- derivation `d` that was put: `d` itself in memory, and in SQLite what JSON reads back.
pub record DerivedOutputCache (R S : Type 0) : Type 0 where
  pub get : StepVersion → ConversationId → String → S → Option (ConversationDerivation R)
  pub put : StepVersion → ConversationId → String → ConversationDerivation R → S → S
  pub reclaim_superseded : ConversationId → StepVersion → String → S → S
  pub back : ConversationDerivation R → ConversationDerivation R
  pub get-put :
      (version : StepVersion) (c : ConversationId) (content : String) (d : ConversationDerivation R)
      (v : StepVersion) (j : ConversationId) (h : String) (s : S)
      → get v j h (put version c content d s) ≡ (
          if ◌==◌ ⦃e = triple_eq⦄ (version, c, content) (v, j, h)
          then some (back d)
          else get v j h s)
  pub get-reclaim_other :
      (c : ConversationId) (version : StepVersion) (content : String) (v : StepVersion)
      (j : ConversationId) (h : String) (s : S)
      → (c == j) ≡ false
      → get v j h (reclaim_superseded c version content s) ≡ get v j h s
  pub get-reclaim_kept :
      (c : ConversationId) (version : StepVersion) (content : String) (s : S)
      → get version c content (reclaim_superseded c version content s) ≡ get version c content s

module _ {R : Type 0} where
  pub in_memory-get-put :
      (version : StepVersion) (c : ConversationId) (content : String) (d : ConversationDerivation R)
      (v : StepVersion) (j : ConversationId) (h : String) (s : InMemoryDerivedOutputCache R)
      → get v j h (put version c content d s)
        ≡ (if ◌==◌ ⦃e = triple_eq⦄ (version, c, content) (v, j, h) then some d else get v j h s)
  unfolding get put
  in_memory-get-put version c content d v j h s =
      HashMap.get-insert (version, c, content) (v, j, h) d s

  -- The in-memory cache keeps the trait's default `reclaim_superseded`, which does nothing.
  unfoldable pub in_memory : DerivedOutputCache R (InMemoryDerivedOutputCache R)
  in_memory = record {
    get = get;
    put = put;
    reclaim_superseded = λ c version content s. s;
    back = λ d. d;
    get-put = in_memory-get-put;
    get-reclaim_other = λ c version content v j h s other. refl;
    get-reclaim_kept = λ c version content s. refl;
  }
