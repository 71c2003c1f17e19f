-- ===== src/Provider/Warmup.antt =====
-- crates/mirrorlane-provider/src/warmup.rs: the warm-up builder and its summary.
pub mod Groups
use mirrorlane.Base.{String, ◌<>◌, Option, none, some, List, [], ◌∷◌, ◌++◌}
use mirrorlane.Base.Decimal.{show_ℕ}
use mirrorlane.Base.Lists.{length}
use mirrorlane.Base.Text.{join}
use mirrorlane.Core.Message.{ConversationId, MessageId}
use mirrorlane.Core.Projection.{
  Intent, question, decision, proposal, task, issue, social, Projection,
}
use mirrorlane.Core.Scope.{Component, Scope}
use mirrorlane.Core.Warmup.{WarmupDocument}

-- The three vectors of the loop
pub record Sorted : Type 0 where
  pub decisions : List MessageId
  pub open_questions : List MessageId
  pub tasks : List MessageId

-- The `match` on the intent of one projection
unfoldable pub sort_one : Intent → MessageId → Sorted → Sorted
sort_one decision id s = record s { decisions = s.decisions ++ id ∷ [] }
sort_one question id s = record s { open_questions = s.open_questions ++ id ∷ [] }
sort_one task id s = record s { tasks = s.tasks ++ id ∷ [] }
sort_one proposal id s = s
sort_one issue id s = s
sort_one social id s = s

abbrev pub focus_line : List Component → String
focus_line [] = "Focus: (no scope yet)"
focus_line (component ∷ names) = "Focus: " <> join ", " (component ∷ names)

module _ {R : Type 0} where
  abbrev pub why_line : Option (Scope R) → String
  why_line none = ""
  why_line (some s) = "\nWhy: " <> s.reason

  unfoldable pub sort_projections : List (Projection R) → Sorted → Sorted
  unfolding sort_one
  sort_projections [] s = s
  sort_projections (p ∷ ps) s = sort_projections ps (sort_one p.intent p.message_id s)

  unfoldable pub render :
      ConversationId
      → Option (Scope R)
      → List Component
      → List MessageId
      → List MessageId
      → List MessageId
      → String
  render conversation scope focus decisions open_questions tasks =
      "You are joining "
      <> (conversation
          <> (".\n"
              <> (focus_line focus
                  <> (why_line scope
                      <> ("\nRecent decisions: "
                          <> (show_ℕ (length decisions)
                              <> ("\nOpen questions: "
                                  <> (show_ℕ (length open_questions)
                                      <> ("\nTasks: " <> show_ℕ (length tasks))))))))))

  abbrev pub focus_of : Option (Scope R) → List Component
  focus_of none = []
  focus_of (some s) = s.load

  -- `WarmupBuilder::build` of `MockWarmupBuilder`
  unfoldable pub build : ConversationId → Option (Scope R) → List (Projection R) → WarmupDocument
  unfolding sort_projections render
  build conversation scope projections =
      let s =
        sort_projections projections (record { decisions = []; open_questions = []; tasks = [] }) in
      let focus = focus_of scope in
      record {
        conversation = conversation;
        focus = focus;
        decisions = s.decisions;
        open_questions = s.open_questions;
        tasks = s.tasks;
        summary = render conversation scope focus s.decisions s.open_questions s.tasks;
      }
