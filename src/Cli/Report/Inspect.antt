-- ===== src/Cli/Report/Inspect.antt =====
-- crates/mirrorlane-cli/src/main.rs: what `inspect` prints of a message. `quote` is `{:?}` of a string,
-- and the `{:?}` of an enum is the derived one.
use mirrorlane.Base.{
  ℕ, suc, String, ◌<>◌, Bool, true, false, Option, none, some, List, [], ◌∷◌, map, if◌then◌else◌,
}
use mirrorlane.Base.Decimal.{show_ℕ}
use mirrorlane.Base.Float.{Float}
use mirrorlane.Base.Result.{Result, ok, Printed}
use mirrorlane.Base.Text.{join}
use mirrorlane.Cli.Config.{Format, text_format, json_format}
use mirrorlane.Cli.Projector.{InspectContext, Substrates}
use mirrorlane.Cli.Report.{Ended, print_json}
use mirrorlane.Core.Message.{MessageId}
use mirrorlane.Core.Projection.{Intent, question, decision, proposal, task, issue, social}
use mirrorlane.Core.Routing.{
  ConsumerKind, human, agent, worklane_job, github, EvaluationStep, RoutingTrace,
}

abbrev pub debug_intent : Intent → String
debug_intent question = "Question"
debug_intent decision = "Decision"
debug_intent proposal = "Proposal"
debug_intent task = "Task"
debug_intent issue = "Issue"
debug_intent social = "Social"

abbrev pub debug_kind : ConsumerKind → String
debug_kind human = "Human"
debug_kind agent = "Agent"
debug_kind worklane_job = "WorklaneJob"
debug_kind github = "GitHub"

abbrev pub debug_target : Option ConsumerKind → String
debug_target none = "None"
debug_target (some kind) = "Some(" <> (debug_kind kind <> ")")

abbrev pub show_bool : Bool → String
show_bool true = "true"
show_bool false = "false"

-- `{:?}` of a vector of strings
unfoldable pub debug_strings : (String → String) → List String → String
debug_strings quote names = "[" <> (join ", " (map quote names) <> "]")

-- The lines of the steps, counted from `i`
unfoldable pub step_lines : ℕ → List EvaluationStep → List String
step_lines i [] = []
step_lines i (step ∷ steps) =
    ("  "
      <> (show_ℕ (suc i)
          <> (". ["
              <> ((if step.matched then "MATCH" else " SKIP")
                  <> ("] "
                      <> (step.rule_name <> (" -> " <> debug_target step.resulting_target)))))))
    ∷ step_lines (suc i) steps

unfoldable pub trace_lines : Option RoutingTrace → List String
unfolding step_lines
trace_lines none = "\n(No trace recorded)" ∷ []
trace_lines (some trace) = "" ∷ "Rule Evaluations:" ∷ step_lines 0 trace.steps

module _ {R P World : Type 0} ⦃f : Float R⦄ (sub : Substrates R P World)
    (quote : String → String) where
  unfoldable pub inspect_lines : InspectContext sub → List String
  unfolding trace_lines debug_strings
  inspect_lines ctx =
      ("Message: " <> ctx.message.id)
      ∷ ("Author:  "
          <> (ctx.message.author.display_name <> (" (" <> (ctx.message.author.id <> ")"))))
      ∷ ("Conv:    " <> ctx.message.conversation.id)
      ∷ ""
      ∷ "Projection:"
      ∷ ("  Intent:     " <> debug_intent ctx.projection.intent)
      ∷ ("  Confidence: " <> f.show_2 ctx.projection.confidence.value)
      ∷ ("  Topics:     " <> debug_strings quote ctx.projection.topics)
      ∷ ("  Entities:   " <> debug_strings quote ctx.projection.entities)
      ∷ ""
      ∷ "Routing Decision:"
      ∷ ("  Target:    " <> debug_kind ctx.decision.target)
      ∷ ("  Escalated: " <> show_bool ctx.decision.escalated)
      ∷ ("  Reason:    " <> ctx.decision.reason)
      ∷ trace_lines ctx.trace

  abbrev pub inspect_text : MessageId → Option (InspectContext sub) → List String
  inspect_text message none = ("no message found with id " <> message) ∷ []
  inspect_text message (some ctx) = inspect_lines ctx

  -- `Command::Inspect`, of what `inspect` returned
  unfoldable pub inspect_report :
      (Option (InspectContext sub) → Result String String)
      → Format
      → MessageId
      → Option (InspectContext sub)
      → Printed Ended
  unfolding inspect_lines
  inspect_report to_string text_format message context = (inspect_text message context, ok tt)
  inspect_report to_string json_format message context = print_json (to_string context)
