-- ===== src/Cli/Commands/Served.antt =====
-- What a read command of crates/mirrorlane-cli/src/commands.rs serves after a replay has filled the cache.
use text.Mathlib.TextEquality.{eq_iff}
use mirrorlane.Base.{
  ◌≡◌, refl, sym, ap, subst, ◌∙◌, Bool, true, not, if◌then◌else◌, String, Option, some, List, [],
  ◌∷◌, map, arith, string_eq, Option-cases, inl, inr,
}
use mirrorlane.Base.Float.{Float}
use mirrorlane.Base.HashMap
use mirrorlane.Base.Lists.{In, here, there, In-map, In-map_inv, In_of_contains, contains, filter}
use mirrorlane.Base.Result.{some-inj}
use mirrorlane.Core.Derivation.{StepVersion, ConversationDerivation, DerivedOutputCache, in_memory}
use mirrorlane.Core.Message.{ConversationId, MessageEnvelope}
use mirrorlane.Core.MessageLog.{messages_for, conversation_ids}
use mirrorlane.Core.MessageLog.Sessions.{mentions, conversation_ids_exact}
use mirrorlane.Provider.Routing.{RuleRouter}
use mirrorlane.Worker.Derived.{
  conversations, content_hash, content_hash_of, messages_in, derivation_for, populate_cache,
}
use mirrorlane.Worker.Derived.Published.{publish_each_self, populate_cache-serves}
use mirrorlane.Worker.Derived.Reference.{
  publish_each, populate_cache-publish_each, content_hash-in_conversation,
}
use mirrorlane.Worker.Registry.{ReplayStrategy}
use mirrorlane.Worker.Replay.{ReplayStores}
use mirrorlane.Cli.Commands.{
  VerifyRecord, WarmupOutput, session_context_from, warmup, verify, verify_record, outcome_of,
}

content_hash_of-messages_for :
    (digest : List String → String) (c : ConversationId) (log : List MessageEnvelope)
    → content_hash_of digest (messages_for c log) ≡ content_hash digest log c
unfolding messages_for
content_hash_of-messages_for digest c log = content_hash-in_conversation digest c log

derivation-conversation :
    {R : Type 0} (stores : ReplayStores R) (log : List MessageEnvelope) (c : ConversationId)
    (d : ConversationDerivation R)
    → derivation_for stores log c ≡ some d
    → d.conversation ≡ c
unfolding derivation_for
derivation-conversation stores log c d h = elim (Option-cases (HashMap.get c stores.warmups)) [
  | inl e ↦ absurd (ground (arith, e, h))
  | inr (w, e) ↦ ground (arith, e, h)
]

module _ {R S : Type 0} ⦃f : Float R⦄ (digest : List String → String)
    (cache : DerivedOutputCache R S) (strategy : ReplayStrategy R) (version : StepVersion)
    (log : List MessageEnvelope) where
  -- Once a replay has published to the cache, a warm-up of a conversation of the log with a derivation
  -- is the context of exactly that derivation, as the cache reads it back (in memory: itself), and leaves
  -- the cache as it is; whatever strategy the later command is given, it is not run.
  pub warmup-served :
      (router : RuleRouter R) (later : ReplayStrategy R) (s : S) (c : ConversationId)
      (d : ConversationDerivation R)
      → mentions c log ≡ true
      → derivation_for (strategy log) log c ≡ some d
      → (ds : List (ConversationDerivation R)) × (s' : S) × (out : WarmupOutput R) × (populate_cache
            digest cache
            (strategy log)
            version
            log
            s
          ≡ some (ds, s'))
        × (warmup digest cache later version log router c s' ≡ some (out, s'))
        × (out.context ≡ some (session_context_from (cache.back d) version router))
  unfolding warmup
  warmup-served router later s c d present e =
      let (ds, s', ran, served) =
        populate_cache-serves digest cache (strategy log) version log s c d present e in
      (
        ds,
        s',
        record {
          context = some (session_context_from (cache.back d) version router);
          unprojected =
              filter (λ id. not (contains id (map (λ p. p.message_id) (cache.back d).projections)))
                (messages_in log c);
        },
        ran,
        rw (content_hash_of-messages_for digest c log, served, warmup) refl,
        refl,
      )

  publish_each_sound :
      {T : Type 0} (store : DerivedOutputCache R T) (cs : List ConversationId) (s : T)
      (d : ConversationDerivation R)
      → In d (publish_each digest store (strategy log) version log cs s).0
      → (c : ConversationId) × (contains c cs ≡ true)
        × (derivation_for (strategy log) log c ≡ some d)
  unfolding publish_each
  publish_each_sound store [] s d i = elim i [ ]
  publish_each_sound store (c ∷ cs) s d i =
      elim (Option-cases (derivation_for (strategy log) log c)) [
        | inl e ↦
            let (j, k, h) = publish_each_sound store cs s d (rw (e, publish_each) at i) in
            (j, ground (arith, k), h)
        | inr (x, e) ↦ elim (rw (e, publish_each) at i) [
          | here same ↦ (c, ground (arith, eq_iff c c), e ∙ ap some (sym same))
          | there k ↦ let (j, l, h) = publish_each_sound store cs _ d k in (j, ground (arith, l), h)
        ]
      ]

  publish_each_complete :
      {T : Type 0} (store : DerivedOutputCache R T) (cs : List ConversationId) (s : T)
      (c : ConversationId) (d : ConversationDerivation R)
      → In c cs
      → derivation_for (strategy log) log c ≡ some d
      → In d (publish_each digest store (strategy log) version log cs s).0
  unfolding publish_each
  publish_each_complete store [] s c d i h = elim i [ ]
  publish_each_complete store (j ∷ cs) s c d i h =
      elim (Option-cases (derivation_for (strategy log) log j)) [
        | inl e ↦ elim i [
          | here same ↦ absurd (cc (ap (derivation_for (strategy log) log) same))
          | there k ↦ rw (e, publish_each) (publish_each_complete store cs s c d k h)
        ]
        | inr (x, e) ↦ elim i [
          | here same ↦
              rw (e, publish_each)
                (here (some-inj (sym h ∙ (ap (derivation_for (strategy log) log) same ∙ e))))
          | there k ↦ rw (e, publish_each) (there (publish_each_complete store cs _ c d k h))
        ]
      ]

  module _ (same : ConversationDerivation R → ConversationDerivation R → Bool) where
    -- What a verification has to say of a conversation with a derivation
    abbrev pub recorded : ConversationId → ConversationDerivation R → VerifyRecord
    recorded c d = record {
      conversation = c;
      outcome = if same (cache.back d) d then "verified" else "diverged";
    }

    stored-recorded :
        (s : S) (c : ConversationId) (d : ConversationDerivation R)
        → contains c (conversations log) ≡ true
        → derivation_for (strategy log) log c ≡ some d
        → verify_record digest cache strategy version log same
            (publish_each digest cache (strategy log) version log (conversations log) s).1
            d
          ≡ recorded c d
    unfolding conversations conversation_ids
    stored-recorded s c d k h =
        let after : S =
          (publish_each digest cache (strategy log) version log (conversations log) s).1 in
        let found : cache.get version c (content_hash_of digest (messages_for c log)) after
            ≡ some (cache.back d) =
          rw (content_hash_of-messages_for digest c log) (
            publish_each_self digest cache (strategy log) version log (conversation_ids log) c d s
              (conversation_ids_exact log).0 k h) in
        let say : ConversationId → Option (ConversationDerivation R) → VerifyRecord = λ j o.
          record {
            conversation = j;
            outcome = outcome_of digest cache strategy version log same d o;
          } in
        ap (λ j. say j (cache.get version j (content_hash_of digest (messages_for j log)) after))
          (derivation-conversation (strategy log) log c d h)
        ∙ ap (say c) found

    -- Once a replay has published to a cache, a verification with the same strategy, version and log has a
    -- record for each conversation of the log with a derivation, and only such records: verified
    -- exactly where what the cache reads back of the derivation is equal to it by the test of derivations,
    -- else diverged, and never not cached. The cache in memory reads back what was put; the one in SQLite
    -- reads back what JSON keeps of the numbers.
    pub verify_exact :
        (s : S)
        → (ds : List (ConversationDerivation R)) × (s' : S) × (records : List VerifyRecord)
          × (populate_cache digest cache (strategy log) version log s ≡ some (ds, s'))
          × (verify digest cache strategy version log same s' ≡ some records)
          × ((c : ConversationId) (d : ConversationDerivation R)
              → mentions c log ≡ true
              → derivation_for (strategy log) log c ≡ some d
              → In (recorded c d) records)
          × ((r : VerifyRecord)
              → In r records
              → (c : ConversationId) × (d : ConversationDerivation R) × (mentions c log ≡ true)
                × (derivation_for (strategy log) log c ≡ some d)
                × (r ≡ recorded c d))
    unfolding verify conversations conversation_ids
    verify_exact s =
        let (ds, s') = publish_each digest cache (strategy log) version log (conversations log) s in
        let fresh =
          (publish_each digest in_memory (strategy log) version log (conversations log) []).0 in
        let say = verify_record digest cache strategy version log same s' in
        (
          ds,
          s',
          map say fresh,
          populate_cache-publish_each digest cache (strategy log) version log s,
          rw (populate_cache-publish_each digest in_memory (strategy log) version log []) refl,
          λ c d there e.
              let present : contains c (conversations log) ≡ true =
                (conversation_ids_exact log).1 c ∙ there in
              subst (λ r. In r (map say fresh)) (stored-recorded s c d present e)
                (In-map say (
                  publish_each_complete in_memory (conversations log) [] c d
                    (In_of_contains c (conversations log) present) e)),
          λ r i.
              let (d, j, e) = In-map_inv say fresh i in
              let (c, k, h) = publish_each_sound in_memory (conversations log) [] d j in
              (c, d, sym ((conversation_ids_exact log).1 c) ∙ k, h, e ∙ stored-recorded s c d k h),
        )
