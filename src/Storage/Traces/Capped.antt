-- ===== src/Storage/Traces/Capped.antt =====
-- The cap on the traces of crates/mirrorlane-storage/src/sqlite_routing_trace_store.rs.
use text.Mathlib.TextEquality.{eq_iff}
use mirrorlane.Base.{
  ℕ, zero, suc, ap, ◌≤◌, ◌<◌, ◌≡◌, refl, true, false, some, [], ◌∷◌, arith, string_eq, Bool-cases,
  inl, inr,
}
use mirrorlane.Base.HashMap
use mirrorlane.Base.Lists.{length}
use mirrorlane.Core.Message.{MessageId}
use mirrorlane.Core.Routing.{RoutingTrace}
use mirrorlane.Storage.Traces.{TraceTable, limit, upsert_row, upsert_trace, get_trace}

module _ {P : Type 0} where
  length-limit : (max : ℕ) (t : TraceTable P) → length (limit max t) ≤ max
  length-limit zero t = omega arith
  length-limit (suc max) [] = omega arith
  length-limit (suc max) (row ∷ t) = ground (arith, length-limit max t)

  limit_all : (max : ℕ) (t : TraceTable P) → length t ≤ max → limit max t ≡ t
  limit_all zero [] h = refl
  limit_all zero (row ∷ t) h = absurd (omega arith)
  limit_all (suc max) [] h = refl
  limit_all (suc max) (row ∷ t) h = rw (limit_all max t (omega arith))

  length-insert_known :
      (id : MessageId) (payload : P) (t : TraceTable P)
      → HashMap.contains_key id t ≡ true
      → length (HashMap.insert id payload t) ≡ length t
  unfolding HashMap.contains_key HashMap.get HashMap.insert
  length-insert_known id payload [] h = absurd (cc)
  length-insert_known id payload ((j, p) ∷ t) h = ground (arith, length-insert_known id payload t)

module _ {P : Type 0} (write : RoutingTrace → P) (read : P → RoutingTrace) where
  front :
      ((trace : RoutingTrace) → read (write trace) ≡ trace)
      → (max : ℕ) (trace : RoutingTrace) (t : TraceTable P)
      → HashMap.contains_key trace.message_id t ≡ false
      → 0 < max
      → get_trace write read trace.message_id (upsert_trace write read (some max) trace t)
        ≡ some trace
  unfolding upsert_trace get_trace upsert_row HashMap.get
  front round zero trace t new h = absurd (omega arith)
  front round (suc max) trace t new h =
      rw (new, upsert_trace) (ground (arith, round trace, eq_iff trace.message_id trace.message_id))

  -- Of a store with a cap above 0 that holds no more than the cap, an upsert keeps it within the cap, and
  -- the trace that was written is there to be read.
  pub upsert_trace-capped :
      ((trace : RoutingTrace) → read (write trace) ≡ trace)
      → (max : ℕ) (trace : RoutingTrace) (t : TraceTable P) → 0 < max
      → length t ≤ max
      → (length (upsert_trace write read (some max) trace t) ≤ max)
        × (get_trace write read trace.message_id (upsert_trace write read (some max) trace t)
            ≡ some trace)
  unfolding upsert_trace get_trace upsert_row
  upsert_trace-capped round max trace t h k =
      elim (Bool-cases (HashMap.contains_key trace.message_id t)) [
        | inl old ↦
            let same = length-insert_known trace.message_id (write trace) t old in
            (
              length-limit max (upsert_row trace.message_id (write trace) t),
              rw
                  (
                    old,
                    limit_all max (HashMap.insert trace.message_id (write trace) t) (rw same k),
                    HashMap.get-insert_self trace.message_id (write trace) t,
                  )
                  (ap some (round trace)),
            )
        | inr new ↦ (
          length-limit max (upsert_row trace.message_id (write trace) t),
          front round max trace t new h,
        )
      ]
