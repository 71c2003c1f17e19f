-- ===== src/Tests/Tables.antt =====
-- The SQLite stores at concrete rows. A payload is the value itself, which reads back as it was written.
use mirrorlane.Base.{
  ℕ, ◌≤◌, ◌≡◌, refl, String, Option, none, some, List, [], ◌∷◌, arith, string_eq, triple_eq, ◌==◌,
  if◌then◌else◌,
}
use mirrorlane.Base.HashMap
use mirrorlane.Base.Lists.{foldl, length}
use mirrorlane.Core.MessageLog.{messages_for, conversation_ids}
use mirrorlane.Core.MessageLog.Spec.{entries}
use mirrorlane.Core.Projection.{Projection}
use mirrorlane.Core.Routing.{RoutingTrace}
use mirrorlane.Storage.Log.Grouped.{table_conversation_ids-entries}
use mirrorlane.Storage.Log.{table_conversation_ids, append_row, all_rows, rows_for}
use mirrorlane.Storage.Log.Refines.{table_refines_entries, table-messages_for}
use mirrorlane.Storage.Projections.{
  ProjectionTable, get_cached, put_cached, prune_projections, projection_cache-exact,
}
use mirrorlane.Storage.Traces.{TraceTable, upsert_trace, get_trace}
use mirrorlane.Storage.Traces.Capped.{upsert_trace-capped}
use mirrorlane.Tests.Fixtures.{three_messages, auth_question}
use mirrorlane.Storage.Migrate.{migrated, migrate}
use mirrorlane.Storage.Migrate.Resumes.{migrate-again}

-- A step appends its name to the schema, and `bad` fails.
abbrev exec_step : String → List String → Option (List String)
exec_step step db = if step == "bad" then none else some (step ∷ db)

migrate-again_example :
    ((migrate exec_step ("v1" ∷ "v2" ∷ []) (record { db = []; user_version = 1 })).1.user_version
      ≡ 2)
    × ((retry : String → List String → Option (List String))
        → migrate retry
            ("v1" ∷ "v2" ∷ [])
            (migrate exec_step ("v1" ∷ "v2" ∷ []) (record { db = []; user_version = 1 })).1
          ≡ (
            migrated,
            (migrate exec_step ("v1" ∷ "v2" ∷ []) (record { db = []; user_version = 1 })).1,
          ))
unfolding migrate
migrate-again_example =
    migrate-again exec_step ("v1" ∷ "v2" ∷ []) (record { db = []; user_version = 1 }) refl

table_refines_entries_example :
    all_rows
      (λ m. m)
      some
      (λ m. m.conversation.id)
      (foldl (λ t m. append_row (λ x. x) some (λ x. x.conversation.id) m t) [] three_messages)
    ≡ some (entries three_messages)
table_refines_entries_example =
    (table_refines_entries (λ m. m) some (λ m. m.conversation.id) (λ m. refl) three_messages).0

table-messages_for_example :
    rows_for
      (λ m. m)
      some
      (λ m. m.conversation.id)
      "c-1"
      (foldl (λ t m. append_row (λ x. x) some (λ x. x.conversation.id) m t) [] three_messages)
    ≡ some (messages_for "c-1" (entries three_messages))
table-messages_for_example =
    table-messages_for (λ m. m) some (λ m. m.conversation.id) (λ m. refl) (λ m. refl) "c-1"
      three_messages

table_conversation_ids-entries_example :
    table_conversation_ids
      (λ m. m)
      some
      (λ m. m.conversation.id)
      (foldl (λ t m. append_row (λ x. x) some (λ x. x.conversation.id) m t) [] three_messages)
    ≡ conversation_ids (entries three_messages)
table_conversation_ids-entries_example =
    table_conversation_ids-entries (λ m. m) some (λ m. m.conversation.id) (λ m. refl) three_messages

-- Rows of two versions
abbrev kept_rows : ProjectionTable (Projection ℕ)
kept_rows = (("v0", "m-1"), auth_question) ∷ (("v1", "m-1"), auth_question) ∷ []

projection_cache-exact_example :
    (get_cached
        (λ p. p)
        (λ p. p)
        "k"
        "v1"
        "m-1"
        (put_cached (λ p. p) (λ p. p) "k" "v1" "m-1" auth_question kept_rows)
      ≡ some auth_question)
    × (get_cached (λ p. p) (λ p. p) "k" "v1" "m-1" (prune_projections "v1" kept_rows)
        ≡ get_cached (λ p. p) (λ p. p) "k" "v1" "m-1" kept_rows)
projection_cache-exact_example =
    projection_cache-exact (λ p. p) (λ p. p) "k" "v1" "m-1" auth_question "k" "v1" "m-1" kept_rows

abbrev a_trace : String → RoutingTrace
a_trace id = record { message_id = id; steps = [] }

-- Full at a cap of 2, with the newest row first
abbrev two_traces : TraceTable RoutingTrace
two_traces = ("m-2", a_trace "m-2") ∷ ("m-1", a_trace "m-1") ∷ []

upsert_trace-capped_example :
    (length (upsert_trace (λ t. t) (λ t. t) (some 2) (a_trace "m-3") two_traces) ≤ 2)
    × (get_trace
          (λ t. t)
          (λ t. t)
          "m-3"
          (upsert_trace (λ t. t) (λ t. t) (some 2) (a_trace "m-3") two_traces)
        ≡ some (a_trace "m-3"))
upsert_trace-capped_example =
    upsert_trace-capped (λ t. t) (λ t. t) (λ t. refl) 2 (a_trace "m-3") two_traces (omega arith)
      (omega arith)

-- A store that holds more than its cap, as when it is opened again with a lower one, drops the trace
-- that was just written where the trace was old.
upsert_trace_lowered :
    get_trace
      (λ t. t)
      (λ t. t)
      "m-1"
      (upsert_trace (λ t. t) (λ t. t) (some 1) (a_trace "m-1") two_traces)
    ≡ none
unfolding get_trace upsert_trace HashMap.get HashMap.insert HashMap.contains_key
upsert_trace_lowered = refl
