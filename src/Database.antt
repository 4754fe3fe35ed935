-- ===== src/Database.antt =====
-- app/db/models.py: the rows that runs, participants, studies and jobs are kept in. A table is the
-- list of its rows in the order of `created_at`; a UUID is a natural number.
pub mod Session
pub mod Rows
use syn_koala.Prelude.{ℕ, String, ℤ, Bool, true, false, Option, none, some, List, ◌==◌, lookup}
use syn_koala.Graph.{Json, null, JsonObject}
use syn_koala.Simulation.{Event}

pub data RunStatus : Type 0 where
  running cancelling run_completed run_failed run_cancelled : RunStatus

pub data Source : Type 0 where
  synthetic human : Source

pub data ParticipantStatus : Type 0 where
  waiting in_session participant_completed participant_failed participant_abandoned :
      ParticipantStatus

pub data JobStatus : Type 0 where
  job_pending job_running job_done job_failed job_cancelled : JobStatus

pub data StudyStatus : Type 0 where
  draft ready study_running study_completed study_failed : StudyStatus

-- The JSON of `participant_runs.final_outcome`, in the shapes that the program writes.
pub data FinalOutcome (F : Type 0) : Type 0 where
  simulated :
      (task_progress : F)
      → (failure_reason : Option String) → (steps events_written : ℕ) → FinalOutcome F
  reported : JsonObject → FinalOutcome F
  run_was_cancelled : FinalOutcome F
  error : String → FinalOutcome F

pub record SimulationRun : Type 0 where
  pub id : ℕ
  pub study_id : ℕ
  pub task_id : Option ℕ
  pub population_size : ℕ
  pub status : RunStatus
  pub source : Source
  pub config : Option JsonObject
  pub seed : Option ℤ
  pub started_at : Option ℕ
  pub completed_at : Option ℕ

pub record ParticipantRun (F : Type 0) : Type 0 where
  pub id : ℕ
  pub simulation_run_id : ℕ
  pub participant_id : Option ℕ
  pub tester_label : Option String
  pub voice_note_url : Option String
  pub status : ParticipantStatus
  pub current_screen_id : Option ℕ
  pub final_outcome : Option (FinalOutcome F)
  pub started_at : Option ℕ
  pub completed_at : Option ℕ

-- A value of a job's payload: the `str` of a UUID, or the seed.
pub data Field : Type 0 where
  uuid : ℕ → Field
  seed_field : Option ℤ → Field

pub record Job : Type 0 where
  pub id : ℕ
  pub job_type : String
  pub payload : List (String × Field)
  pub status : JobStatus
  pub attempts : ℕ
  pub locked_at : Option ℕ

pub record Study : Type 0 where
  pub id : ℕ
  pub owner_id : ℕ
  pub name : String
  pub objective : Option String
  pub status : StudyStatus
  pub population_size : Option ℕ
  pub deleted : Bool

pub record Observation (F : Type 0) : Type 0 where
  pub participant_run_id : ℕ
  pub event : Event F

-- The payload of a `pg_notify` on the channel of a run.
pub record Snapshot : Type 0 where
  pub run_id : ℕ
  pub status : RunStatus
  pub completed : ℕ
  pub total : ℕ

-- `now` is what the clock answers, and `next_id` what the UUID generator answers next.
pub record Database (F : Type 0) : Type 0 where
  pub studies : List Study
  pub runs : List SimulationRun
  pub participant_runs : List (ParticipantRun F)
  pub jobs : List Job
  pub observations : List (Observation F)
  pub notified : List Snapshot
  pub next_id : ℕ
  pub now : ℕ

abbrev pub is_terminal_run : RunStatus → Bool
is_terminal_run running = false
is_terminal_run cancelling = false
is_terminal_run _ = true

-- `status in ("COMPLETED", "FAILED", "ABANDONED")`
abbrev pub is_terminal : ParticipantStatus → Bool
is_terminal waiting = false
is_terminal in_session = false
is_terminal _ = true

abbrev pub is_waiting : ParticipantStatus → Bool
is_waiting waiting = true
is_waiting _ = false

abbrev pub is_cancelling : RunStatus → Bool
is_cancelling cancelling = true
is_cancelling _ = false

abbrev pub is_completed_run : RunStatus → Bool
is_completed_run run_completed = true
is_completed_run _ = false

abbrev pub is_synthetic : Source → Bool
is_synthetic synthetic = true
is_synthetic human = false

abbrev pub is_job_pending : JobStatus → Bool
is_job_pending job_pending = true
is_job_pending _ = false

-- `final_outcome["error"].astext.isnot(None)`: a JSON null is no error, and neither is a missing key.
abbrev pub is_error : {F : Type 0} → Option (FinalOutcome F) → Bool
is_error none = false
is_error (some (simulated _ _ _ _)) = false
is_error (some (reported outcome)) = elim (lookup outcome "error") [
  | none ↦ false
  | some null ↦ false
  | some _ ↦ true
]
is_error (some run_was_cancelled) = false
is_error (some (error _)) = true
