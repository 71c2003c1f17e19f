-- ===== src/Worker/Derived/Published.antt =====
-- What a reader of the cache finds after `populate_cache` of crates/mirrorlane-worker/src/derived.rs, for
-- every cache that keeps the contract of `DerivedOutputCache`.
use mirrorlane.Base.{
  ◌≡◌, refl, ap, ◌∙◌, true, false, String, some, List, [], ◌∷◌, arith, string_eq, triple_eq, ◌==◌,
  Bool-cases, Option-cases, inl, inr,
}
use text.Mathlib.TextEquality.{eq_iff}
use mirrorlane.Base.Lists.{contains, Nodup}
use mirrorlane.Core.Message.{ConversationId, MessageEnvelope}
use mirrorlane.Core.MessageLog.{conversation_ids}
use mirrorlane.Core.MessageLog.Sessions.{mentions, conversation_ids_exact}
use mirrorlane.Core.Derivation.{StepVersion, ConversationDerivation, DerivedOutputCache}
use mirrorlane.Worker.Replay.{ReplayStores}
use mirrorlane.Worker.Derived.{conversations, content_hash, derivation_for, publish, populate_cache}
use mirrorlane.Worker.Derived.Reference.{publish_each, populate_cache-publish_each}

module _ {R S : Type 0} (digest : List String → String) (cache : DerivedOutputCache R S)
    (stores : ReplayStores R) (version : StepVersion) where
  publish_self :
      (c : ConversationId) (h : String) (d : ConversationDerivation R) (s : S)
      → cache.get version c h (publish digest cache stores version c h d s) ≡ some (cache.back d)
  unfolding publish
  publish_self c h d s = ground (
    arith,
    cache.get-reclaim_kept c version h (cache.put version c h d s),
    cache.get-put version c h d version c h s,
    eq_iff version version,
    eq_iff c c,
    eq_iff h h,
  )

  publish-other :
      (j : ConversationId) (k : String) (d : ConversationDerivation R) (c : ConversationId)
      (h : String) (s : S)
      → (j == c) ≡ false
      → cache.get version c h (publish digest cache stores version j k d s)
        ≡ cache.get version c h s
  unfolding publish
  publish-other j k d c h s other = ground (
    arith,
    cache.get-reclaim_other j version k version c h (cache.put version j k d s),
    cache.get-put version j k d version c h s,
  )

  module _ (log : List MessageEnvelope) where
    publish_each-other :
        (cs : List ConversationId) (c : ConversationId) (h : String) (s : S)
        → contains c cs ≡ false
        → cache.get version c h (publish_each digest cache stores version log cs s).1
          ≡ cache.get version c h s
    unfolding publish_each
    publish_each-other [] c h s absent = refl
    publish_each-other (j ∷ cs) c h s absent = elim (Option-cases (derivation_for stores log j)) [
      | inl e ↦ rw (e, publish_each) (publish_each-other cs c h s (ground arith))
      | inr (d, e) ↦
          rw (e, publish_each)
            (publish_each-other cs c h _ (ground arith)
              ∙ publish-other j (content_hash digest log j) d c h s (ground arith))
    ]

    pub publish_each_self :
        (cs : List ConversationId) (c : ConversationId) (d : ConversationDerivation R) (s : S)
        → Nodup cs
        → contains c cs ≡ true
        → derivation_for stores log c ≡ some d
        → cache.get version c
            (content_hash digest log c)
            (publish_each digest cache stores version log cs s).1
          ≡ some (cache.back d)
    unfolding publish_each
    publish_each_self [] c d s u i e = absurd (cc)
    publish_each_self (j ∷ cs) c d s (fresh, u) i e = elim (Bool-cases (j == c)) [
      | inl same ↦
          let here' : j ≡ c = (eq_iff j c).0 same in
          let e' : derivation_for stores log j ≡ some d =
            ap (derivation_for stores log) here' ∙ e in
          rw (← here') (
            rw (e', publish_each)
              (publish_each-other cs j (content_hash digest log j) _ fresh
                ∙ publish_self j (content_hash digest log j) d s))
      | inr differ ↦ elim (Option-cases (derivation_for stores log j)) [
        | inl f ↦ rw (f, publish_each) (publish_each_self cs c d s u (ground arith) e)
        | inr (x, f) ↦ rw (f, publish_each) (publish_each_self cs c d _ u (ground arith) e)
      ]
    ]

    -- After publishing, the derivation of every conversation of the log that has one is found under the
    -- version and the hash of the conversation's present content, as the cache reads it back (in memory:
    -- itself).
    pub populate_cache-serves :
        (s : S) (c : ConversationId) (d : ConversationDerivation R)
        → mentions c log ≡ true
        → derivation_for stores log c ≡ some d
        → (ds : List (ConversationDerivation R)) × (s' : S) × (populate_cache digest cache stores
              version log s
            ≡ some (ds, s'))
          × (cache.get version c (content_hash digest log c) s' ≡ some (cache.back d))
    unfolding conversations conversation_ids
    populate_cache-serves s c d there e =
        let (ds, s') = publish_each digest cache stores version log (conversations log) s in
        (
          ds,
          s',
          populate_cache-publish_each digest cache stores version log s,
          publish_each_self (conversation_ids log) c d s (conversation_ids_exact log).0
              ((conversation_ids_exact log).1 c ∙ there) e,
        )
