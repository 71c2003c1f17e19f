-- ===== src/Cli/Report.antt =====
-- crates/mirrorlane-cli/src/main.rs: what the commands over the log print and how they end. A text is
-- returned for each `println!`, without its last newline; an error is the text of the `Err` that
-- `main` returns. `to_string` is serde_json's of the value that a command prints, with the text of its
-- error; `print` is the `Display` of a `serde_json::Value`.
pub mod Inspect
pub mod Verified
use mirrorlane.Base.{
  ℕ, suc, String, ◌<>◌, Bool, true, false, Option, none, some, List, [], ◌∷◌, ◌++◌, map, string_eq,
  ◌==◌, if◌then◌else◌,
}
use mirrorlane.Base.Decimal.{show_ℕ}
use mirrorlane.Base.Json.{Json, text_value, array_value, object_value, field, no_fields, array_of}
use mirrorlane.Base.Lists.{length, filter}
use mirrorlane.Base.Number.{ltb}
use mirrorlane.Base.Result.{Result, ok, err, Printed, then_print}
use mirrorlane.Base.Text.{join}
use mirrorlane.Cli.Commands.{SessionContext, ReplayOutput, WarmupOutput, VerifyRecord}
use mirrorlane.Cli.Config.{Format, text_format, json_format}
use mirrorlane.Core.Message.{MessageId, ConversationId}

-- A command that ends well, or with an error
abbrev pub Ended : Type 0
Ended = Result String (Unit {0})

unfoldable pub fail_if_unprojected : List MessageId → Ended
fail_if_unprojected [] = ok tt
fail_if_unprojected (id ∷ ids) = err (
    show_ℕ (length (id ∷ ids))
    <> (" message(s) produced no projection (projector failed): "
        <> (join ", " (id ∷ ids) <> ". Re-run to retry — cached successes are not recomputed.")))

-- `println!` of a text that may have failed to be made
abbrev pub print_json : Result String String → Printed Ended
print_json (err e) = ([], err e)
print_json (ok line) = (line ∷ [], ok tt)

-- What is printed, and then how the command ends
abbrev pub then_end : Printed Ended → Ended → Printed Ended
then_end printed ended = elim (printed.1) [ err e ↦ (printed.0, err e) | ok u ↦ (printed.0, ended) ]

-- `Command::Ingest`
unfoldable pub ingest_report : (Json → String) → Format → Result String MessageId → Printed Ended
ingest_report print format (err e) = ([], err e)
ingest_report print text_format (ok id) = (("ingested " <> id) ∷ [], ok tt)
ingest_report print json_format (ok id) =
    (print (object_value (field "id" (text_value id) no_fields)) ∷ [], ok tt)

-- `Command::Github`
unfoldable pub github_report :
    (Json → String) → Format → String → Result String (List MessageId) → Printed Ended
github_report print format repo (err e) = ([], err e)
github_report print text_format repo (ok ids) =
    (("ingested " <> (show_ℕ (length ids) <> (" item(s) from " <> repo))) ∷ [], ok tt)
github_report print json_format repo (ok ids) = (
  print (
        object_value (
          field "repo" (text_value repo)
            (field "ingested" (array_value (array_of text_value ids)) no_fields)))
      ∷ [],
  ok tt,
)

module _ {R : Type 0} where
  abbrev pub no_conversations : List (SessionContext R) → List String
  no_conversations [] = "(no conversations in the log)" ∷ []
  no_conversations (context ∷ contexts) = []

  -- `Command::Replay`, of what the replay returned
  unfoldable pub replay_report :
      (List (SessionContext R) → Result String String) → Format → ReplayOutput R → Printed Ended
  unfolding fail_if_unprojected
  replay_report to_string text_format out = (
    no_conversations out.contexts ++ map (λ context. context.warmup.summary <> "\n") out.contexts,
    fail_if_unprojected out.unprojected,
  )
  replay_report to_string json_format out =
      then_end (print_json (to_string out.contexts)) (fail_if_unprojected out.unprojected)

  abbrev pub warmup_line : ConversationId → Option (SessionContext R) → String
  warmup_line conversation none = "no warm-up for conversation " <> conversation
  warmup_line conversation (some context) = context.warmup.summary

  -- `Command::Warmup`
  unfoldable pub warmup_report :
      (Option (SessionContext R) → Result String String)
      → Format
      → ConversationId
      → WarmupOutput R
      → Printed Ended
  unfolding fail_if_unprojected
  warmup_report to_string text_format conversation out =
      (warmup_line conversation out.context ∷ [], fail_if_unprojected out.unprojected)
  warmup_report to_string json_format conversation out =
      then_end (print_json (to_string out.context)) (fail_if_unprojected out.unprojected)

-- `records.retain(..)`, where a conversation is given
unfoldable pub retain : Option ConversationId → List VerifyRecord → List VerifyRecord
retain none records = records
retain (some wanted) records = filter (λ r. r.conversation == wanted) records

unfoldable pub count_outcome : String → List VerifyRecord → ℕ
count_outcome outcome records = length (filter (λ r. r.outcome == outcome) records)

abbrev pub verify_lines : List VerifyRecord → List String
verify_lines records =
    map (λ r. "  " <> (r.conversation <> ("  " <> r.outcome))) records
    ++ (show_ℕ (count_outcome "verified" records)
        <> (" verified, "
            <> (show_ℕ (count_outcome "diverged" records)
                <> (" diverged, "
                    <> (show_ℕ (count_outcome "not_cached" records) <> " not cached")))))
      ∷ []

-- The end of `Command::Verify`
abbrev pub fail_if_diverged : ℕ → Ended
fail_if_diverged diverged =
    if ltb 0 diverged
    then err (show_ℕ diverged <> " conversation(s) diverged from the durable cache")
    else ok tt

abbrev pub print_records :
    (List VerifyRecord → Result String String) → Format → List VerifyRecord → Printed Ended
print_records to_string text_format records = (verify_lines records, ok tt)
print_records to_string json_format records = print_json (to_string records)

-- `Command::Verify`, of the records that `verify` returned
unfoldable pub verify_report :
    (List VerifyRecord → Result String String)
    → Format
    → Option ConversationId
    → List VerifyRecord
    → Printed Ended
unfolding retain count_outcome
verify_report to_string format conversation records =
    let kept = retain conversation records in
    then_end (print_records to_string format kept)
      (fail_if_diverged (count_outcome "diverged" kept))
