-- ===== src/Worker/DeadLetters.antt =====
-- crates/mirrorlane-worker/src/dead_letters.rs: the dead letters of one lane of a broker, and the lanes
-- that routed_work.rs and submission.rs bind. The broker is a parameter, `DeadLetterStore`: `B` is its
-- state; its errors are texts. A lane is its name, which Worklane takes for valid.
use mirrorlane.Base.{ℕ, String, List}
use mirrorlane.Base.Result.{Result}

pub record JobEnvelope : Type 0 where
  pub id : String
  pub kind : String
  pub attempts : ℕ

-- `worklane::DeadLetter`, of which the commands print these
pub record DeadLetter : Type 0 where
  pub envelope : JobEnvelope
  pub error : String

-- The methods of `worklane::Broker` that are called
pub record DeadLetterStore (B : Type 0) : Type 0 where
  pub read_dead_letters : String → ℕ → B → Result String (List DeadLetter) × B
  pub count_dead_letters : String → B → Result String ℕ × B
  pub requeue_job : String → B → Result String (Unit {0}) × B
  pub purge_dead_letters : String → B → Result String ℕ × B

pub record DeadLetters (B : Type 0) : Type 0 where
  pub broker : DeadLetterStore B
  pub lane : String

module _ {B : Type 0} where
  abbrev pub new : DeadLetterStore B → String → DeadLetters B
  new broker lane = record { broker = broker; lane = lane }

  unfoldable pub read : DeadLetters B → ℕ → B → Result String (List DeadLetter) × B
  read dl limit = dl.broker.read_dead_letters dl.lane limit

  unfoldable pub count : DeadLetters B → B → Result String ℕ × B
  count dl = dl.broker.count_dead_letters dl.lane

  unfoldable pub requeue : DeadLetters B → String → B → Result String (Unit {0}) × B
  requeue dl id = dl.broker.requeue_job id

  unfoldable pub purge : DeadLetters B → B → Result String ℕ × B
  purge dl = dl.broker.purge_dead_letters dl.lane

abbrev pub routed_work_lane : String
routed_work_lane = "mirrorlane.routed_work"

abbrev pub strategy_run_lane : String
strategy_run_lane = "mirrorlane.strategy_run"

-- `RoutedWorkDeadLetters::new`
abbrev pub routed_work_dead_letters : {B : Type 0} → DeadLetterStore B → DeadLetters B
routed_work_dead_letters broker = new broker routed_work_lane

-- `StrategyRunDeadLetters::new`
abbrev pub strategy_run_dead_letters : {B : Type 0} → DeadLetterStore B → DeadLetters B
strategy_run_dead_letters broker = new broker strategy_run_lane
