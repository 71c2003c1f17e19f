-- ===== src/Worker/Jobs/Agree.antt =====
-- Two stores of projections that agree but for what is still to be written, as the first stage of
-- crates/mirrorlane-worker/src/replay.rs goes on: lemmas on a step of it.
use text.Mathlib.TextEquality.{eq_iff}
use mirrorlane.Base.{
  ◌≡◌, ap, ◌∙◌, subst, ◌⊎◌, inl, inr, false, Option, none, some, List, ◌∷◌, arith, string_eq, ◌==◌,
  Bool-cases,
}
use mirrorlane.Base.HashMap
use mirrorlane.Base.Lists.{In, here, there}
use mirrorlane.Core.Message.{MessageId, MessageEnvelope}
use mirrorlane.Core.Projection.{Projection}
use mirrorlane.Core.Store.{InMemoryProjectionStore, upsert_projection}

module _ {R : Type 0} where
  -- One of the deliveries writes under the id.
  abbrev pub Writes :
      (MessageEnvelope → Option (Projection R)) → List MessageEnvelope → MessageId → Type 0
  Writes project ds j =
      (n : MessageEnvelope) × In n ds
      × ((p : Projection R) × (project n ≡ some p) × (p.message_id ≡ j))

  -- Two stores agree at each id, but for those that are still to be written.
  abbrev pub Agree :
      (MessageEnvelope → Option (Projection R))
      → List MessageEnvelope
      → InMemoryProjectionStore R
      → InMemoryProjectionStore R
      → Type 0
  Agree project ds store other =
      (j : MessageId) → (HashMap.get j store ≡ HashMap.get j other) ⊎ Writes project ds j

  some_same : {p q : Projection R} {o : Option (Projection R)} → o ≡ some p → o ≡ some q → p ≡ q
  some_same h k = cc

  -- The head writes under its own id only.
  not_written :
      (project : MessageEnvelope → Option (Projection R)) (m n : MessageEnvelope) (j : MessageId)
      (p q : Projection R)
      → project m ≡ some p
      → n ≡ m
      → project n ≡ some q
      → q.message_id ≡ j
      → (p.message_id == j) ≡ false
      → ⊥
  not_written project m n j p q e h is_q id_q apart =
      let same : p ≡ q = some_same e (subst (λ x. project x ≡ some q) h is_q) in
      cc (
        rw ((eq_iff p.message_id j).1 (ap (λ (x : Projection R). x.message_id) same ∙ id_q)) at
          apart)

  -- Both stores take the output.
  pub Agree-both :
      (project : MessageEnvelope → Option (Projection R)) (m : MessageEnvelope)
      (ds : List MessageEnvelope) (store other : InMemoryProjectionStore R) (p : Projection R)
      → project m ≡ some p
      → Agree project (m ∷ ds) store other
      → Agree project ds (upsert_projection p store) (upsert_projection p other)
  Agree-both project m ds store other p e agree j = elim (Bool-cases (p.message_id == j)) [
    | inl same ↦ inl (
        ground (
          arith,
          same,
          HashMap.get-insert p.message_id j p store,
          HashMap.get-insert p.message_id j p other,
        ))
    | inr apart ↦ elim (agree j) [
      | inl equal ↦ inl (
          ground (
            arith,
            apart,
            equal,
            HashMap.get-insert p.message_id j p store,
            HashMap.get-insert p.message_id j p other,
          ))
      | inr (n, here h, (q, is_q, id_q)) ↦
          absurd (not_written project m n j p q e h is_q id_q apart)
      | inr (n, there i, q) ↦ inr (n, i, q)
    ]
  ]

  -- Neither does.
  pub Agree-neither :
      (project : MessageEnvelope → Option (Projection R)) (m : MessageEnvelope)
      (ds : List MessageEnvelope) (store other : InMemoryProjectionStore R)
      → project m ≡ none
      → Agree project (m ∷ ds) store other
      → Agree project ds store other
  Agree-neither project m ds store other e agree j = elim (agree j) [
    | inl equal ↦ inl equal
    | inr (n, here h, (q, is_q, id_q)) ↦ absurd (cc (subst (λ x. project x ≡ some q) h is_q))
    | inr (n, there i, q) ↦ inr (n, i, q)
  ]

  -- One does, of an output that is written again later.
  pub Agree-late :
      (project : MessageEnvelope → Option (Projection R)) (m n : MessageEnvelope)
      (ds : List MessageEnvelope) (store other : InMemoryProjectionStore R) (p : Projection R)
      → project m ≡ some p
      → In n ds
      → project n ≡ some p
      → Agree project (m ∷ ds) store other
      → Agree project ds store (upsert_projection p other)
  Agree-late project m n ds store other p e i is_p agree j = elim (Bool-cases (p.message_id == j)) [
    | inl same ↦ inr (n, i, (p, is_p, (eq_iff p.message_id j).0 same))
    | inr apart ↦ elim (agree j) [
      | inl equal ↦ inl (ground (arith, apart, equal, HashMap.get-insert p.message_id j p other))
      | inr (n', here h, (q, is_q, id_q)) ↦
          absurd (not_written project m n' j p q e h is_q id_q apart)
      | inr (n', there k, q) ↦ inr (n', k, q)
    ]
  ]
