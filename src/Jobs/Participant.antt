-- ===== src/Jobs/Participant.antt =====
-- app/workers/jobs/simulate_participant.py: the job that runs one participant, and the end of a run.
use syn_koala.Prelude.{
  str_eq, if◌then◌else◌, ℕ, String, ℤ, Bool, true, false, Option, none, some, List, [], ◌∷◌, ◌++◌,
  map, any, is_nonempty, length, lookup, Result, ok, err,
}
use Prim.Native.String.{◌++◌ as joined}
use syn_koala.Platform.{Platform}
use syn_koala.Graph.{
  ScreenGraph, null, text, other, container, JsonObject, ParticipantDraft, TaskContext,
  resolve_starting_screen,
}
use syn_koala.Participant.Baselines.{get_participant_model}
use syn_koala.Simulation.{
  SimulationDeps, Outcome, in_progress, completed, failed, abandoned, max_scan_attempts_default,
}
use syn_koala.Simulation.Nodes.{Sim}
use syn_koala.Simulation.Flow.{Config, Executor, RunError, run_simulation}
use syn_koala.Database.{
  Database, SimulationRun, RunStatus, run_completed, run_failed, ParticipantStatus,
  participant_completed, participant_failed, participant_abandoned, FinalOutcome, simulated, error,
  Observation, Snapshot, is_terminal, uuid,
}
use syn_koala.Database.Session.{
  Tx, ◌>>=◌, ◌>>◌, return, found_or, read, write, require, not_found, lifecycle_error, value_error,
  type_error, simulation_error,
}
use syn_koala.Runs.{
  get_by_id, lock_for_finalize, get_participant_run, is_run_complete, finalize_run, count_total,
  count_terminal, complete_participant_run,
}
use syn_koala.Studies.{TaskModel, ParticipantRecord, Catalog}
use syn_koala.Jobs.{Handlers, Fields, uuid_at, enqueue}

-- `_TERMINAL_STATUS.get(outcome, "FAILED")`
abbrev pub terminal_status : Outcome → ParticipantStatus
terminal_status completed = participant_completed
terminal_status failed = participant_failed
terminal_status abandoned = participant_abandoned
terminal_status in_progress = participant_failed

unfoldable pub task_context_from_orm : TaskModel → TaskContext
task_context_from_orm task = record {
  id = task.id;
  instruction = task.instruction;
  starting_point = task.starting_point;
  success_conditions = task.success_conditions;
  constraints = task.constraints;
  expected_critical_actions = task.expected_critical_actions;
}

-- `(run.config or {}).get("participant_model")` as a name for `PARTICIPANT_MODELS.get(name or ...)`: a number
-- or a truth value names no model, and for a list or an object with entries the look-up raises: no result.
unfoldable pub configured_model : Option JsonObject → Option (Option String)
configured_model none = some none
configured_model (some config) = elim (lookup config "participant_model") [
  | none ↦ some none
  | some null ↦ some none
  | some (text name) ↦ some (some name)
  | some (other _) ↦ some none
  | some (container truthy) ↦ if truthy then none else some none
]

-- Whether a run of this status is aggregated.
abbrev pub is_aggregated : RunStatus → Bool
is_aggregated run_completed = true
is_aggregated run_failed = true
is_aggregated _ = false

module _ {F : Type 0} where
  unfoldable pub aggregate_if : Bool → ℕ → Tx (Database F) (Unit {0})
  aggregate_if false run_id = return tt
  aggregate_if true run_id =
      write (enqueue "aggregate_run" (("simulation_run_id", uuid run_id) ∷ []))

  unfoldable pub finalize_if : Bool → ℕ → Tx (Database F) (Unit {0})
  unfolding aggregate_if
  finalize_if false run_id = return tt
  finalize_if true run_id = do
    run ← finalize_run run_id
    aggregate_if (is_aggregated run.status) run_id

  unfoldable pub notify : SimulationRun → ℕ → Database F → Database F
  notify run run_id db =
      let snapshot : Snapshot = record {
        run_id = run_id;
        status = run.status;
        completed = count_terminal run_id db;
        total = count_total run_id db;
      } in
      record db { notified = db.notified ++ snapshot ∷ [] }

  unfoldable pub announce : ℕ → Tx (Database F) (Unit {0})
  unfolding notify
  announce run_id = do run ← get_by_id run_id; write (notify run run_id)

  unfoldable pub finalize_run_and_notify : ℕ → Tx (Database F) (Unit {0})
  unfolding finalize_if announce
  finalize_run_and_notify run_id = do
    locked ← lock_for_finalize run_id
    complete ← read (is_run_complete run_id)
    finalize_if complete run_id
    announce run_id

  -- A participant whose job is given up has failed, unless it has an outcome.
  unfoldable pub fail_unless : Bool → ℕ → Database F → Database F
  fail_unless true id db = db
  fail_unless false id db =
      complete_participant_run id participant_failed (some (error "job_permanently_failed")) none db

  unfoldable pub handle_simulate_participant_permanent_failure : Fields → Tx (Database F) (Unit {0})
  unfolding fail_unless finalize_run_and_notify
  handle_simulate_participant_permanent_failure payload = do
    run_id ← uuid_at payload "simulation_run_id"
    participant_run_id ← uuid_at payload "participant_run_id"
    participant_run ← get_participant_run participant_run_id
    write (fail_unless (is_terminal participant_run.status) participant_run_id)
    finalize_run_and_notify run_id

-- `str` of a number and of a UUID, as f-strings print them.
pub record Printing : Type 0 where
  pub of_number : ℤ → String
  pub of_uuid : ℕ → String

unfoldable pub derive_participant_seed : Printing → Option ℤ → ℕ → String
derive_participant_seed printing run_seed participant_id =
    let prefix : String = elim run_seed [ none ↦ "unseeded" | some n ↦ printing.of_number n ] in
    joined (joined prefix ":") (printing.of_uuid participant_id)

module _ (p : Platform) (executor : Executor (Config p)) (printing : Printing)
    (catalog : Catalog p.F) where
  -- The dependencies of a run under the defaults of `run_simulation`.
  unfoldable pub deps_of : Option String → SimulationDeps p.F
  deps_of model_name = record {
    participant_model = get_participant_model p model_name;
    max_steps = 40;
    max_scan_attempts = max_scan_attempts_default;
  }

  unfoldable pub draft_of : ParticipantRecord p.F → ParticipantDraft p.F
  draft_of r = record { id = r.id; traits = r.traits; persona = r.persona; seed = none }

  -- `await run_simulation(...)`: what it raises leaves the handler.
  abbrev pub awaited : Result RunError (Sim p) → Tx (Database p.F) (Sim p)
  awaited (ok final) db = (db, ok final)
  awaited (err e) db = (db, err simulation_error)

  unfoldable pub outcome_of : Sim p → FinalOutcome p.F
  outcome_of final =
      simulated final.task_progress final.failure_reason final.step (length final.events)

  -- The observations and the end of the participant's run.
  unfoldable pub record_run : ℕ → Sim p → Database p.F → Database p.F
  unfolding outcome_of
  record_run participant_run_id final db =
      let observed : List (Observation p.F) =
        map (λ event. record { participant_run_id = participant_run_id; event = event })
          final.events in
      complete_participant_run participant_run_id (terminal_status final.outcome)
        (some (outcome_of final)) (some final.current_screen_id)
        (record db { observations = db.observations ++ observed })

  -- The guard on the screens, and the run of the participant on them.
  unfoldable pub simulate :
      SimulationRun → ParticipantRecord p.F → TaskModel → ScreenGraph → Tx (Database p.F) (Sim p)
  unfolding configured_model deps_of draft_of task_context_from_orm derive_participant_seed
  simulate run participant task graph = do
    require lifecycle_error (any (λ s. is_nonempty s.1.elements) graph.screens)
    model_name ← found_or type_error (configured_model run.config)
    start ← found_or value_error (resolve_starting_screen graph task.starting_point)
    awaited (
        run_simulation p executor (deps_of model_name) (draft_of participant)
          (task_context_from_orm task) graph start
          (derive_participant_seed printing run.seed participant.id))

  unfoldable pub handle_simulate_participant : Fields → Tx (Database p.F) (Unit {0})
  unfolding simulate record_run finalize_run_and_notify
  handle_simulate_participant payload = do
    run_id ← uuid_at payload "simulation_run_id"
    participant_run_id ← uuid_at payload "participant_run_id"
    participant_id ← uuid_at payload "participant_id"
    study_id ← uuid_at payload "study_id"
    task_id ← uuid_at payload "task_id"
    run ← get_by_id run_id
    participant_run ← get_participant_run participant_run_id
    participant ← found_or not_found (catalog.get_participant participant_id)
    task ← found_or not_found (catalog.get_task task_id)
    final ← simulate run participant task (catalog.get_screen_graph study_id)
    write (record_run participant_run_id final)
    finalize_run_and_notify run_id

  -- The entries of `HANDLERS` and `ON_PERMANENT_FAILURE` for a participant's job.
  unfoldable pub participant_handlers : Handlers p.F
  participant_handlers = record {
    handler = λ job_type.
        if str_eq job_type "simulate_participant" then some handle_simulate_participant else none;
    on_permanent_failure = λ job_type.
        if str_eq job_type "simulate_participant"
        then some handle_simulate_participant_permanent_failure
        else none;
  }
