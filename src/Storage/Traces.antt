-- ===== src/Storage/Traces.antt =====
-- crates/mirrorlane-storage/src/sqlite_routing_trace_store.rs: the durable routing traces, at most
-- `max_traces` of them where a cap is set. The list is the table by rowid, the highest first, which is
-- the order that the pruning reads. `write` and `read` are the JSON of a trace, which holds no number, in
-- the type `P` of texts; `read` is applied to texts of `write` only.
pub mod Capped
use mirrorlane.Base.{
  ℕ, zero, suc, Bool, true, false, String, Option, none, some, List, [], ◌∷◌, string_eq, ◌==◌,
  if◌then◌else◌,
}
use mirrorlane.Base.HashMap
use mirrorlane.Base.HashMap.{HashMap}
use mirrorlane.Core.Message.{MessageId}
use mirrorlane.Core.Routing.{RoutingTrace}

abbrev pub TraceTable : Type 0 → Type 0
TraceTable P = HashMap MessageId P

module _ {P : Type 0} where
  -- `ORDER BY rowid DESC LIMIT ?1`
  abbrev pub limit : ℕ → TraceTable P → TraceTable P
  limit zero t = []
  limit (suc max) [] = []
  limit (suc max) (row ∷ t) = row ∷ limit max t

  -- `INSERT .. ON CONFLICT(id) DO UPDATE`: a new row has the highest rowid, an old row keeps its own.
  unfoldable pub upsert_row : MessageId → P → TraceTable P → TraceTable P
  upsert_row id payload t =
      if HashMap.contains_key id t then HashMap.insert id payload t else (id, payload) ∷ t

  -- The `DELETE` where there is a cap
  abbrev pub prune_traces : Option ℕ → TraceTable P → TraceTable P
  prune_traces none t = t
  prune_traces (some max) t = limit max t

module _ {P : Type 0} (write : RoutingTrace → P) (read : P → RoutingTrace) where
  -- `upsert` of `SqliteRoutingTraceStore`
  unfoldable pub upsert_trace : Option ℕ → RoutingTrace → TraceTable P → TraceTable P
  unfolding upsert_row
  upsert_trace max_traces trace t =
      prune_traces max_traces (upsert_row trace.message_id (write trace) t)

  abbrev pub read_trace : Option P → Option RoutingTrace
  read_trace none = none
  read_trace (some payload) = some (read payload)

  -- `get`
  unfoldable pub get_trace : MessageId → TraceTable P → Option RoutingTrace
  get_trace id t = read_trace (HashMap.get id t)
