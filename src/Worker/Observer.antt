-- ===== src/Worker/Observer.antt =====
-- crates/mirrorlane-worker/src/observer.rs: the record of the jobs that a worker finished. `JobEvent` and
-- `JobOutcome` are Worklane's; an outcome that it may add later is `other_outcome`. A duration is its
-- nanoseconds.
use Prim.Native.Nat.{◌/◌}
use mirrorlane.Base.{ℕ, String, List, [], ◌∷◌, ◌++◌}
use mirrorlane.Base.Lists.{foldl}

pub data JobOutcome : Type 0 where
  acked retried dead_lettered other_outcome : JobOutcome

pub record JobEvent : Type 0 where
  pub lane : String
  pub kind : String
  pub outcome : JobOutcome
  pub duration : ℕ

pub record JobRecord : Type 0 where
  pub lane : String
  pub kind : String
  pub outcome : JobOutcome
  pub duration : ℕ

unfoldable pub outcome_label : JobRecord → String
outcome_label r = elim r.outcome [
  | acked ↦ "acked"
  | retried ↦ "retried"
  | dead_lettered ↦ "dead_lettered"
  | other_outcome ↦ "unknown"
]

-- `Duration::as_millis` drops what is below a millisecond.
unfoldable pub duration_ms : JobRecord → ℕ
duration_ms r = r.duration / 1000000

-- `on_job_finished`, on the records so far
unfoldable pub on_job_finished : JobEvent → List JobRecord → List JobRecord
on_job_finished event records =
    records
    ++ record {
      lane = event.lane;
      kind = event.kind;
      outcome = event.outcome;
      duration = event.duration;
    }
      ∷ []

-- The records of an observer that was new, after the events of a run
unfoldable pub records_of : List JobEvent → List JobRecord
unfolding on_job_finished
records_of events = foldl (λ records event. on_job_finished event records) [] events
