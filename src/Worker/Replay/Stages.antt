-- ===== src/Worker/Replay/Stages.antt =====
-- What a lookup finds in the store that a stage of crates/mirrorlane-worker/src/replay.rs fills, whatever
-- the deliveries were: one lemma for each way of fanning out.
use text.Mathlib.TextEquality.{eq_iff}
use mirrorlane.Base.{
  ◌≡◌, refl, sym, ap, ◌∙◌, true, Option, none, some, List, [], ◌∷◌, map, arith, Eq, string_eq,
  if◌then◌else◌, Bool-cases, inl, inr, subst,
}
use mirrorlane.Base.Lists.{
  In, here, there, In-map, In-map_inv, contains_of_In, In_of_contains, foldl,
}
use mirrorlane.Base.HashMap
use mirrorlane.Base.HashMap.{HashMap}
use mirrorlane.Base.HashMap.Writes.{write_all, last_write, run_writes, Writes, get-run_writes}
use mirrorlane.Core.Message.{ConversationId, MessageId, MessageEnvelope}
use mirrorlane.Core.MessageLog.{conversation_ids, messages_for}
use mirrorlane.Core.MessageLog.Sessions.{mentions, conversation_ids_exact}
use mirrorlane.Worker.Composition.{Substrate, Handler, run_stage, per_conversation, global}
use mirrorlane.Worker.Grouping.{group_by_conversation}
use mirrorlane.Worker.Grouping.Exact.{group_by_conversation_exact}

module _ {K V P : Type 0} ⦃e : Eq K⦄ (substrate : Substrate) (job : Handler P (HashMap K V))
    (key : V → K) (writes : P → List V)
    (is_writing : (p : P) (m : HashMap K V) → (job p m).1 ≡ write_all key m (writes p)) where
  foldl-run_writes :
      (ds : List P) (m : HashMap K V) → foldl (λ s p. (job p s).1) m ds ≡ run_writes key writes m ds
  foldl-run_writes [] m = refl
  foldl-run_writes (p ∷ ds) m =
      ap (λ s. foldl (λ s p. (job p s).1) s ds) (is_writing p m)
      ∙ foldl-run_writes ds (write_all key m (writes p))

  pub stage-lookup :
      (spec : K → Option V) (payloads : List P)
      → Writes key writes spec payloads
      → (j : K) → HashMap.get j (run_stage substrate job payloads []) ≡ spec j
  unfolding run_stage
  stage-lookup spec payloads w j =
      ap (λ m. HashMap.get j m) (foldl-run_writes (substrate.deliver P payloads) [])
      ∙ get-run_writes key writes spec payloads (substrate.deliver P payloads) w
          (substrate.only_enqueued P payloads) (substrate.at_least_once P payloads) j

  -- One payload, delivered once or more, leaves its last write under each key.
  pub global-lookup :
      (p : P) (j : K)
      → HashMap.get j (run_stage substrate job (global p) []) ≡ last_write key j (writes p)
  unfolding global
  global-lookup p =
      stage-lookup (λ j. last_write key j (writes p)) (p ∷ [])
        (record {
          agree = λ q i j v h.
              let i' : q ≡ p = only i in subst (λ x. last_write key j (writes x) ≡ some v) i' h;
          reach = λ j v h. (p, here refl, (v, h));
        })
    where
      only : {q : P} → In q (p ∷ []) → q ≡ p
      only (here h) = h
      only (there h) = elim h [ ]

abbrev pub ids_for : ConversationId → List MessageEnvelope → List MessageId
ids_for c log = map (λ m. m.id) (messages_for c log)

module _ {V P : Type 0} (substrate : Substrate) (job : Handler P (HashMap ConversationId V))
    (build : ConversationId → List MessageId → P) (key : V → ConversationId) (value : P → V)
    (is_writing : (p : P) (m : HashMap ConversationId V)
      → (job p m).1 ≡ HashMap.insert (key (value p)) (value p) m)
    (keeps_key : (c : ConversationId) (ids : List MessageId) → key (value (build c ids)) ≡ c)
    (log : List MessageEnvelope) where
  abbrev build_pair : ConversationId × List MessageId → P
  build_pair c = build c.0 c.1

  abbrev with_ids : ConversationId → ConversationId × List MessageId
  with_ids c = (c, ids_for c log)

  abbrev payloads : List P
  payloads = map build_pair (map with_ids (conversation_ids log))

  abbrev spec : ConversationId → Option V
  spec c = if mentions c log then some (value (build c (ids_for c log))) else none

  payload_inv :
      (p : P)
      → In p payloads
      → (c : ConversationId) × (mentions c log ≡ true) × (p ≡ build c (ids_for c log))
  payload_inv p i =
      let (pair, j, h) = In-map_inv build_pair (map with_ids (conversation_ids log)) i in
      let (c, k, g) = In-map_inv with_ids (conversation_ids log) j in
      (c, sym ((conversation_ids_exact log).1 c) ∙ contains_of_In k, h ∙ ap build_pair g)

  conversation-Writes : Writes key (λ p. value p ∷ []) spec payloads
  conversation-Writes = record {
    agree = λ p i j v h.
        let (c, mentioned, built) = payload_inv p i in
        ground (arith, keeps_key c (ids_for c log), eq_iff (key (value p)) j, built, mentioned);
    reach = λ j v h. elim (Bool-cases (mentions j log)) [
      | inl yes' ↦ (
        build j (ids_for j log),
        In-map build_pair (
            In-map with_ids
              (In_of_contains j (conversation_ids log) ((conversation_ids_exact log).1 j ∙ yes'))),
        (value (build j (ids_for j log)), ground (arith, keeps_key j (ids_for j log), eq_iff j j)),
      )
      | inr no' ↦ absurd (ground arith)
    ];
  }

  -- A stage with a payload for each conversation leaves the value of each conversation of the log.
  pub conversation-lookup :
      (c : ConversationId)
      → HashMap.get c
          (run_stage substrate job (per_conversation (group_by_conversation log) build) [])
        ≡ (if mentions c log then some (value (build c (ids_for c log))) else none)
  unfolding per_conversation
  conversation-lookup c = rw group_by_conversation_exact (
      stage-lookup substrate job key (λ p. value p ∷ []) is_writing spec payloads
        conversation-Writes c)
