-- ===== src/Cli/Queue.antt =====
-- crates/mirrorlane-cli/src/main.rs: the commands over the durable queue, `submit`, `work` and `dlq`, once
-- their broker is connected. `B` is the state of the broker; the calls of it are parameters, with the
-- texts of their errors. A job id is its text, which `parse_id` takes for one or refuses.
pub mod Guards
use mirrorlane.Base.{ℕ, String, ◌<>◌, Option, none, some, List, [], ◌∷◌, map, true}
use mirrorlane.Base.Decimal.{show_ℕ}
use mirrorlane.Base.Json.{
  Json, text_value, number_value, bool_value, array_value, object_value, field, no_fields, array_of,
}
use mirrorlane.Base.Lists.{length}
use mirrorlane.Base.Result.{Result, ok, err, ◌>>=◌, map_err, ok_or, Printed}
use mirrorlane.Cli.Config.{Format, text_format, json_format}
use mirrorlane.Cli.Report.{Ended}
use mirrorlane.Worker.DeadLetters.{
  DeadLetter, DeadLetterStore, DeadLetters, strategy_run_lane, routed_work_dead_letters,
  strategy_run_dead_letters, read, count, requeue, purge,
}
use mirrorlane.Worker.Observer.{JobRecord, outcome_label, duration_ms}
use mirrorlane.Worker.Submission.{StrategyRunRequest}

pub data DlqLane : Type 0 where
  strategy_run routed_work : DlqLane

pub data DlqAction : Type 0 where
  read_action count_action requeue_action purge_action : DlqAction

abbrev pub lane_name : DlqLane → String
lane_name strategy_run = "strategy-run"
lane_name routed_work = "routed-work"

abbrev pub dead_letters_of : {B : Type 0} → DeadLetterStore B → DlqLane → DeadLetters B
dead_letters_of broker strategy_run = strategy_run_dead_letters broker
dead_letters_of broker routed_work = routed_work_dead_letters broker

abbrev pub letter_line : DeadLetter → String
letter_line d =
    "  "
    <> (d.envelope.id
        <> ("  "
            <> (d.envelope.kind
                <> ("  attempt " <> (show_ℕ d.envelope.attempts <> ("  " <> d.error))))))

abbrev pub letter_json : DeadLetter → Json
letter_json d = object_value (
    field "id" (text_value d.envelope.id) (
      field "kind" (text_value d.envelope.kind) (
        field "attempts" (number_value d.envelope.attempts)
          (field "error" (text_value d.error) no_fields))))

-- A pair under the lane's name
abbrev pub lane_json : DlqLane → String → Json → Json
lane_json lane name v =
    object_value (field "lane" (text_value (lane_name lane)) (field name v no_fields))

-- What a call that succeeds prints, and an error that it ends in
abbrev pub print_call : {A B : Type 0} → (A → List String) → Result String A × B → Printed Ended × B
print_call lines (ok a, b) = ((lines a, ok tt), b)
print_call lines (err e, b) = (([], err e), b)

module _ (print : Json → String) where
  unfoldable pub read_lines : Format → DlqLane → List DeadLetter → List String
  read_lines text_format lane dead =
      (show_ℕ (length dead) <> (" dead-lettered job(s) on " <> (lane_name lane <> ":")))
      ∷ map letter_line dead
  read_lines json_format lane dead =
      print (lane_json lane "dead_letters" (array_value (array_of letter_json dead))) ∷ []

  unfoldable pub count_lines : Format → DlqLane → ℕ → List String
  count_lines text_format lane n =
      (show_ℕ n <> (" dead-lettered job(s) on " <> lane_name lane)) ∷ []
  count_lines json_format lane n = print (lane_json lane "count" (number_value n)) ∷ []

  unfoldable pub requeue_lines : Format → DlqLane → String → List String
  requeue_lines text_format lane id = ("requeued " <> (id <> (" on " <> lane_name lane))) ∷ []
  requeue_lines json_format lane id = print (lane_json lane "requeued" (text_value id)) ∷ []

  unfoldable pub purge_lines : Format → DlqLane → ℕ → List String
  purge_lines text_format lane n =
      ("purged " <> (show_ℕ n <> (" dead-lettered job(s) from " <> lane_name lane))) ∷ []
  purge_lines json_format lane n = print (lane_json lane "purged" (number_value n)) ∷ []

  unfoldable pub submit_lines : Format → String → String → List String
  submit_lines text_format strategy_id id = ("submitted " <> (strategy_id <> (" run " <> id))) ∷ []
  submit_lines json_format strategy_id id =
      print (
        object_value
          (field "strategy" (text_value strategy_id) (field "job" (text_value id) no_fields)))
      ∷ []

module _ (quote : String → String) (parse_id : String → Result String String) where
  -- The id that `requeue` takes, with its text as it was given
  unfoldable pub required_id : Option String → Result String (String × String)
  required_id id = do
    given ← ok_or "--id is required for requeue" id
    job_id ← map_err (λ e. "invalid job id " <> (quote given <> (": " <> e))) (parse_id given)
    ok (given, job_id)

module _ {B : Type 0} (print : Json → String) where
  abbrev pub requeue_id :
      DeadLetters B → Format → DlqLane → Result String (String × String) → B → Printed Ended × B
  requeue_id dl format lane (err e) b = (([], err e), b)
  requeue_id dl format lane (ok (given, job_id)) b =
      print_call (λ u. requeue_lines print format lane given) (requeue dl job_id b)

  module _ (quote : String → String) (parse_id : String → Result String String) where
    -- `Command::Dlq`
    unfoldable pub dlq :
        DeadLetterStore B → Format → DlqLane → DlqAction → Option String → ℕ → B → Printed Ended × B
    unfolding read count requeue purge required_id read_lines count_lines requeue_lines purge_lines
    dlq broker format lane read_action id limit b =
        print_call (read_lines print format lane) (read (dead_letters_of broker lane) limit b)
    dlq broker format lane count_action id limit b =
        print_call (count_lines print format lane) (count (dead_letters_of broker lane) b)
    dlq broker format lane requeue_action id limit b =
        requeue_id (dead_letters_of broker lane) format lane (required_id quote parse_id id) b
    dlq broker format lane purge_action id limit b =
        print_call (purge_lines print format lane) (purge (dead_letters_of broker lane) b)

  -- `Command::Submit`; `enqueue` is the client's, on a lane.
  unfoldable pub submit :
      (String → StrategyRunRequest → B → Result String String × B)
      → Format
      → String
      → B
      → Printed Ended × B
  unfolding submit_lines
  submit enqueue format strategy_id b =
      print_call (submit_lines print format strategy_id)
        (enqueue strategy_run_lane (record { strategy = strategy_id }) b)

abbrev pub record_line : JobRecord → String
record_line r =
    "  " <> (r.kind <> ("  " <> (outcome_label r <> ("  " <> (show_ℕ (duration_ms r) <> "ms")))))

abbrev pub record_json : JobRecord → Json
record_json r = object_value (
    field "lane" (text_value r.lane) (
      field "kind" (text_value r.kind) (
        field "outcome" (text_value (outcome_label r))
          (field "duration_ms" (number_value (duration_ms r)) no_fields))))

-- The end of `Command::Work`, of the observer's records
unfoldable pub work_lines : (Json → String) → Format → List JobRecord → List String
work_lines print text_format records =
    ("worked the strategy-run queue to idle (" <> (show_ℕ (length records) <> " jobs)"))
    ∷ map record_line records
work_lines print json_format records =
    print (
      object_value (
        field "worked" (bool_value true)
          (field "jobs" (array_value (array_of record_json records)) no_fields)))
    ∷ []
