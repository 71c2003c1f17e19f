-- ===== src/Cli/Queue/Guards.antt =====
-- How the dead-letter command of crates/mirrorlane-cli/src/main.rs fails.
use mirrorlane.Base.{ℕ, String, ◌≡◌, refl, Option, List, []}
use mirrorlane.Base.Json.{Json}
use mirrorlane.Base.Result.{Result, ok, err}
use mirrorlane.Cli.Config.{Format}
use mirrorlane.Cli.Queue.{
  DlqLane, DlqAction, read_action, count_action, requeue_action, purge_action, dead_letters_of,
  print_call, requeue_id, required_id, dlq,
}
use mirrorlane.Worker.DeadLetters.{DeadLetterStore}

module _ {B : Type 0} (print : Json → String) (quote : String → String)
    (parse_id : String → Result String String) (broker : DeadLetterStore B) (format : Format)
    (lane : DlqLane) where
  print_call-quiet :
      {A : Type 0} (lines : A → List String) (r : Result String A × B) (e : String)
      → (print_call lines r).0.1 ≡ err e
      → (print_call lines r).0.0 ≡ []
  print_call-quiet lines (ok a, b) e h = absurd (cc)
  print_call-quiet lines (err x, b) e h = refl

  -- A dead-letter command that fails prints nothing; and a requeue with no id, or with one that does not
  -- parse, does not call the broker.
  pub dlq-fails :
      (action : DlqAction) (id : Option String) (limit : ℕ) (b : B)
      → ((e : String)
          → (dlq print quote parse_id broker format lane action id limit b).0.1 ≡ err e
          → (dlq print quote parse_id broker format lane action id limit b).0.0 ≡ [])
        × ((e : String)
            → required_id quote parse_id id ≡ err e
            → dlq print quote parse_id broker format lane requeue_action id limit b
              ≡ (([], err e), b))
  unfolding dlq
  dlq-fails action id limit b = (quiet action, λ e h. rw h refl)
    where
      of_id :
          (r : Result String (String × String)) (e : String)
          → (requeue_id print (dead_letters_of broker lane) format lane r b).0.1 ≡ err e
          → (requeue_id print (dead_letters_of broker lane) format lane r b).0.0 ≡ []
      of_id (err x) e h = refl
      of_id (ok (given, job_id)) e h = print_call-quiet _ _ e h

      quiet :
          (a : DlqAction) (e : String)
          → (dlq print quote parse_id broker format lane a id limit b).0.1 ≡ err e
          → (dlq print quote parse_id broker format lane a id limit b).0.0 ≡ []
      quiet read_action e h = print_call-quiet _ _ e h
      quiet count_action e h = print_call-quiet _ _ e h
      quiet requeue_action e h = of_id (required_id quote parse_id id) e h
      quiet purge_action e h = print_call-quiet _ _ e h
