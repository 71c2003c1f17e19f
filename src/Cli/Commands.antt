-- ===== src/Cli/Commands.antt =====
-- crates/mirrorlane-cli/src/commands.rs: the commands over a log, a strategy and a derived-output cache.
-- The message store enters by what `all` returns; `none` is a panic.
pub mod Served
use mirrorlane.Base.{
  Bool, true, false, not, String, Option, none, some, List, [], ◌∷◌, map, string_eq, ◌==◌,
  if◌then◌else◌,
}
use mirrorlane.Base.Float.{Float}
use mirrorlane.Base.HashMap
use mirrorlane.Base.Lists.{contains, filter}
use mirrorlane.Core.Derivation.{
  StepVersion, ConversationDerivation, DerivedOutputCache, InMemoryDerivedOutputCache, in_memory,
}
use mirrorlane.Core.Message.{ConversationId, MessageId, MessageEnvelope}
use mirrorlane.Core.MessageLog.{messages_for}
use mirrorlane.Core.Projection.{Projection}
use mirrorlane.Core.Routing.{
  RoutingDecision, RoutingTrace, RoutingHint, ConsumerKind, github, consumer_kind_eq,
}
use mirrorlane.Core.Scope.{Scope}
use mirrorlane.Core.Skill.{SessionDevelopers}
use mirrorlane.Core.Store.{get_projection}
use mirrorlane.Core.Warmup.{WarmupDocument}
use mirrorlane.Github.Draft.{GitHubDraft, draft_for}
use mirrorlane.Provider.Routing.{RuleRouter, route}
use mirrorlane.Worker.Derived.{content_hash_of, messages_in, derivation_for, populate_cache}
use mirrorlane.Worker.Registry.{ReplayStrategy}
use mirrorlane.Worker.Replay.{ReplayStores}

abbrev pub session_context_schema : String
session_context_schema = "mirrorlane.session_context/1"

pub record SessionContext (R : Type 0) : Type 0 where
  pub schema : String
  pub derivation_version : String
  pub conversation : ConversationId
  pub warmup : WarmupDocument
  pub scope : Option (Scope R)
  pub developers : Option (SessionDevelopers R)
  pub hints : List (RoutingHint R)
  pub decisions : List RoutingDecision
  pub drafts : List GitHubDraft

pub record ReplayOutput (R : Type 0) : Type 0 where
  pub contexts : List (SessionContext R)
  pub unprojected : List MessageId

pub record WarmupOutput (R : Type 0) : Type 0 where
  pub context : Option (SessionContext R)
  pub unprojected : List MessageId

pub record VerifyRecord : Type 0 where
  pub conversation : ConversationId
  pub outcome : String

module _ {R : Type 0} ⦃f : Float R⦄ where
  abbrev pub for_github : Projection R × (RoutingDecision × RoutingTrace) → Bool
  for_github routed = ◌==◌ ⦃e = consumer_kind_eq⦄ routed.1.0.target github

  unfoldable pub session_context_from :
      ConversationDerivation R → String → RuleRouter R → SessionContext R
  session_context_from derivation version router =
      let routed =
        map (λ projection. (projection, route router projection)) derivation.projections in
      record {
        schema = session_context_schema;
        derivation_version = version;
        conversation = derivation.conversation;
        warmup = derivation.warmup;
        scope = derivation.scope;
        developers = derivation.developers;
        hints = derivation.hints;
        decisions = map (λ r. r.1.0) routed;
        drafts = map (λ r. draft_for r.0) (filter for_github routed);
      }

  abbrev pub context_of :
      String → RuleRouter R → Option (ConversationDerivation R) → Option (SessionContext R)
  context_of version router none = none
  context_of version router (some d) = some (session_context_from d version router)

abbrev pub is_none : {A : Type 0} → Option A → Bool
is_none none = true
is_none (some a) = false

unfoldable pub unprojected : {R : Type 0} → ReplayStores R → List MessageId → List MessageId
unprojected stores ids = filter (λ id. is_none (get_projection id stores.projections)) ids

module _ {R S : Type 0} ⦃f : Float R⦄ (digest : List String → String)
    (cache : DerivedOutputCache R S) (strategy : ReplayStrategy R) (version : StepVersion)
    (log : List MessageEnvelope) where
  abbrev pub replayed :
      RuleRouter R
      → ReplayStores R
      → Option (List (ConversationDerivation R) × S)
      → Option (ReplayOutput R × S)
  replayed router stores none = none
  replayed router stores (some (ds, s)) = some (
    record {
      contexts = map (λ d. session_context_from d version router) ds;
      unprojected = unprojected stores (map (λ m. m.id) log);
    },
    s,
  )

  unfoldable pub replay : RuleRouter R → S → Option (ReplayOutput R × S)
  unfolding session_context_from unprojected
  replay router s =
      let stores = strategy log in
      replayed router stores (populate_cache digest cache stores version log s)

  -- `warmup` on a miss
  abbrev pub warmed :
      RuleRouter R
      → ConversationId
      → ReplayStores R
      → Option (List (ConversationDerivation R) × S)
      → Option (WarmupOutput R × S)
  warmed router conversation stores none = none
  warmed router conversation stores (some (ds, s)) = some (
    record {
      context = context_of version router (derivation_for stores log conversation);
      unprojected = unprojected stores (messages_in log conversation);
    },
    s,
  )

  unfoldable pub warmup : RuleRouter R → ConversationId → S → Option (WarmupOutput R × S)
  unfolding session_context_from unprojected
  warmup router conversation s =
      elim (cache.get version conversation (content_hash_of digest (messages_for conversation log))
        s) [
          | some derivation ↦ some (
            record {
              context = some (session_context_from derivation version router);
              unprojected =
                  filter (λ id. not (contains id (map (λ p. p.message_id) derivation.projections)))
                    (messages_in log conversation);
            },
            s,
          )
          | none ↦
              let stores = strategy log in
              warmed router conversation stores (populate_cache digest cache stores version log s)
        ]

  -- `same` is the derived `==` of derivations.
  abbrev pub outcome_of :
      (ConversationDerivation R → ConversationDerivation R → Bool)
      → ConversationDerivation R
      → Option (ConversationDerivation R)
      → String
  outcome_of same fresh none = "not_cached"
  outcome_of same fresh (some stored) = if same stored fresh then "verified" else "diverged"

  abbrev pub verify_record :
      (ConversationDerivation R → ConversationDerivation R → Bool)
      → S
      → ConversationDerivation R
      → VerifyRecord
  verify_record same durable fresh = record {
    conversation = fresh.conversation;
    outcome = outcome_of same fresh (
        cache.get version fresh.conversation
          (content_hash_of digest (messages_for fresh.conversation log)) durable);
  }

  abbrev pub verified :
      (ConversationDerivation R → ConversationDerivation R → Bool)
      → S
      → Option (List (ConversationDerivation R) × InMemoryDerivedOutputCache R)
      → Option (List VerifyRecord)
  verified same durable none = none
  verified same durable (some (ds, scratch)) = some (map (verify_record same durable) ds)

  unfoldable pub verify :
      (ConversationDerivation R → ConversationDerivation R → Bool) → S → Option (List VerifyRecord)
  verify same durable =
      verified same durable (populate_cache digest in_memory (strategy log) version log [])
