-- ===== src/Worker/Derived/Reference.antt =====
-- The single pass of `populate_cache` against the per-conversation functions of
-- crates/mirrorlane-worker/src/derived.rs that scan the whole log each time.
use mathlib.Core.List.{map-id}
use mirrorlane.Base.{
  ◌≡◌, refl, ap, true, String, Option, none, some, List, [], ◌∷◌, map, arith, string_eq, ◌==◌,
  if◌then◌else◌, Bool-cases, Option-cases, inl, inr,
}
use text.Mathlib.TextEquality.{eq_iff}
use mirrorlane.Base.Lists.{foldl, filter, filter_map, contains}
use mirrorlane.Base.HashMap
use mirrorlane.Base.HashMap.{HashMap}
use mirrorlane.Core.Message.{ConversationId, MessageEnvelope}
use mirrorlane.Core.MessageLog.{conversation_ids}
use mirrorlane.Core.MessageLog.Sessions.{conversation_ids_exact}
use mirrorlane.Core.Derivation.{StepVersion, ConversationDerivation, DerivedOutputCache}
use mirrorlane.Worker.Grouping.{group}
use mirrorlane.Worker.Grouping.Exact.{group-IsGrouping}
use mirrorlane.Worker.Replay.{ReplayStores}
use mirrorlane.Worker.Derived.{
  conversations, content_hash, content_hash_of, feed, derivation_from_messages, derivation_for,
  publish, publish_groups, populate_cache,
}

abbrev pub in_conversation : ConversationId → List MessageEnvelope → List MessageEnvelope
in_conversation c log = filter (λ m. m.conversation.id == c) log

filter_map-map :
    {A B C : Type 0} (f : A → B) (g : B → Option C) (xs : List A)
    → filter_map g (map f xs) ≡ filter_map (λ x. g (f x)) xs
filter_map-map f g [] = refl
filter_map-map f g (x ∷ xs) = rw (filter_map-map f g xs)

derivation-in_conversation :
    {R : Type 0} (stores : ReplayStores R) (c : ConversationId) (log : List MessageEnvelope)
    → derivation_from_messages stores c (in_conversation c log) ≡ derivation_for stores log c
unfolding derivation_from_messages derivation_for
derivation-in_conversation stores c log = elim (Option-cases (HashMap.get c stores.warmups)) [
  | inl e ↦ rw e
  | inr (w, e) ↦ ground (
    arith,
    e,
    filter_map-map (λ (m : MessageEnvelope). m.id) (λ id. HashMap.get id stores.projections)
        (in_conversation c log),
    filter_map-map (λ (m : MessageEnvelope). m.id) (λ id. HashMap.get id stores.hints)
        (in_conversation c log),
  )
]

feed-in_conversation :
    (c : ConversationId) (fed : List String) (log : List MessageEnvelope)
    → foldl feed fed (in_conversation c log)
      ≡ foldl (λ fed m. if m.conversation.id == c then feed fed m else fed) fed log
feed-in_conversation c fed [] = refl
feed-in_conversation c fed (m ∷ log) = elim (Bool-cases (m.conversation.id == c)) [
  | inl e ↦ rw e (feed-in_conversation c (feed fed m) log)
  | inr e ↦ rw e (feed-in_conversation c fed log)
]

pub content_hash-in_conversation :
    (digest : List String → String) (c : ConversationId) (log : List MessageEnvelope)
    → content_hash_of digest (in_conversation c log) ≡ content_hash digest log c
unfolding content_hash content_hash_of
content_hash-in_conversation digest c log = ap digest (feed-in_conversation c [] log)

module _ {R S : Type 0} (digest : List String → String) (cache : DerivedOutputCache R S)
    (stores : ReplayStores R) (version : StepVersion) (log : List MessageEnvelope) where
  -- Each conversation for itself: its derivation and its content hash from a scan of the log.
  unfoldable pub publish_each : List ConversationId → S → List (ConversationDerivation R) × S
  publish_each [] s = ([], s)
  publish_each (c ∷ cs) s = elim (derivation_for stores log c) [
    | none ↦ publish_each cs s
    | some d ↦
        let (ds, s') =
          publish_each cs (publish digest cache stores version c (content_hash digest log c) d s) in
        (d ∷ ds, s')
  ]

  publish_groups-publish_each :
      (cs : List ConversationId) (groups : HashMap ConversationId (List MessageEnvelope)) (s : S)
      → ((c : ConversationId)
          → contains c cs ≡ true
          → HashMap.get c groups ≡ some (in_conversation c log))
      → publish_groups digest cache stores version cs groups s ≡ some (publish_each cs s)
  unfolding publish_groups publish_each
  publish_groups-publish_each [] groups s h = refl
  publish_groups-publish_each (c ∷ cs) groups s h =
      let found : HashMap.get c groups ≡ some (in_conversation c log) =
        h c (ground (arith, eq_iff c c)) in
      let rest : (t : S)
          → publish_groups digest cache stores version cs groups t ≡ some (publish_each cs t) =
        λ t. publish_groups-publish_each cs groups t (λ d i. h d (ground arith)) in
      elim (Option-cases (derivation_for stores log c)) [
        | inl e ↦ ground (arith, found, e, derivation-in_conversation stores c log, rest s)
        | inr (d, e) ↦ ground (
          arith,
          found,
          e,
          derivation-in_conversation stores c log,
          content_hash-in_conversation digest c log,
          rest (publish digest cache stores version c (content_hash digest log c) d s),
        )
      ]

  -- Publishing in one pass over the log does exactly what publishing each conversation by its own
  -- scans does, to the cache and in its result, and it never panics.
  pub populate_cache-publish_each :
      (s : S)
      → populate_cache digest cache stores version log s ≡ some (publish_each (conversations log) s)
  unfolding populate_cache conversations conversation_ids
  populate_cache-publish_each s =
      let g = group-IsGrouping (λ m. m) log in
      rw g.order (
        publish_groups-publish_each (conversation_ids log) (group (λ m. m) log).grouped s (λ c i.
          ground
            (arith, g.lookups c, (conversation_ids_exact log).1 c, map-id (in_conversation c log))))
