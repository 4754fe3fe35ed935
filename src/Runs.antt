-- ===== src/Runs.antt =====
-- app/services/simulation_run_service.py: `SimulationRunService`, over the tables `simulation_runs`
-- and `participant_runs`.
pub mod Completion
use syn_koala.Prelude.{
  ℕ, ◌+◌, String, ℤ, Bool, true, false, not, ◌&&◌, ◌||◌, Option, none, some, List, [], ◌∷◌, ◌++◌,
  if◌then◌else◌, ltb, ◌==◌, str_eq, length, find_first, select, count_if,
}
use syn_koala.Graph.{JsonObject}
use syn_koala.Database.{
  Database, SimulationRun, ParticipantRun, RunStatus, running, cancelling, run_completed,
  run_failed, run_cancelled, Source, ParticipantStatus, waiting, in_session, participant_abandoned,
  FinalOutcome, run_was_cancelled, is_terminal, is_waiting, is_cancelling, is_completed_run,
  is_synthetic, is_error,
}
use syn_koala.Database.Session.{Tx, ◌>>=◌, ◌>>◌, return, found_or, read, write, not_found}
use syn_koala.Database.Rows.{amend}

-- `newest first`, for a table in the order of `created_at`
abbrev reversed : {A : Type 0} → List A → List A
reversed [] = []
reversed (x ∷ xs) = reversed xs ++ x ∷ []

-- `task_id is None`, or the run is of the task
abbrev of_task : Option ℕ → SimulationRun → Bool
of_task none run = true
of_task (some task_id) run = elim run.task_id [ none ↦ false | some id ↦ id == task_id ]

module _ {F : Type 0} where
  -- A change of the row of a run, and of a participant's run.
  unfoldable pub set_run : ℕ → (SimulationRun → SimulationRun) → Database F → Database F
  set_run run_id change db = record db { runs = amend (λ r. r.id == run_id) change db.runs }

  unfoldable pub set_participant_run :
      ℕ → (ParticipantRun F → ParticipantRun F) → Database F → Database F
  set_participant_run id change db = record db {
    participant_runs = amend (λ r. r.id == id) change db.participant_runs;
  }

  abbrev pub of_run : ℕ → ParticipantRun F → Bool
  of_run run_id r = r.simulation_run_id == run_id

  unfoldable pub new_run :
      ℕ → ℕ → Option JsonObject → Option ℤ → Option ℕ → Source → Database F → SimulationRun
  new_run study_id population_size config seed task_id source db = record {
    id = db.next_id;
    study_id = study_id;
    task_id = task_id;
    population_size = population_size;
    status = running;
    source = source;
    config = config;
    seed = seed;
    started_at = some db.now;
    completed_at = none;
  }

  unfoldable pub create_run :
      ℕ → ℕ → Option JsonObject → Option ℤ → Option ℕ → Source → Tx (Database F) SimulationRun
  unfolding new_run
  create_run study_id population_size config seed task_id source = do
    run ← read (new_run study_id population_size config seed task_id source)
    write (λ db. record db { runs = db.runs ++ run ∷ []; next_id = db.next_id + 1 })
    return run

  -- A synthetic participant waits for its job; a human tester's session has begun.
  unfoldable pub new_participant_run : ℕ → Option ℕ → Option String → Database F → ParticipantRun F
  new_participant_run run_id participant_id tester_label db = record {
    id = db.next_id;
    simulation_run_id = run_id;
    participant_id = participant_id;
    tester_label = tester_label;
    voice_note_url = none;
    status = elim participant_id [ none ↦ in_session | some _ ↦ waiting ];
    current_screen_id = none;
    final_outcome = none;
    started_at = elim participant_id [ none ↦ some db.now | some _ ↦ none ];
    completed_at = none;
  }

  unfoldable pub create_participant_run :
      ℕ → Option ℕ → Option String → Tx (Database F) (ParticipantRun F)
  unfolding new_participant_run
  create_participant_run run_id participant_id tester_label = do
    participant_run ← read (new_participant_run run_id participant_id tester_label)
    write (λ db. record db {
      participant_runs = db.participant_runs ++ participant_run ∷ [];
      next_id = db.next_id + 1;
    })
    return participant_run

  unfoldable pub increment_population_size : ℕ → Database F → Database F
  unfolding set_run
  increment_population_size run_id =
      set_run run_id (λ r. record r { population_size = r.population_size + 1 })

  -- `current_screen_id` is written only where it is given.
  unfoldable pub completed_row :
      ParticipantStatus
      → Option (FinalOutcome F)
      → Option ℕ
      → ℕ
      → ParticipantRun F
      → ParticipantRun F
  completed_row status final_outcome current_screen_id now r = record r {
    status = status;
    final_outcome = final_outcome;
    completed_at = some now;
    current_screen_id = elim current_screen_id [
      | none ↦ r.current_screen_id
      | some screen_id ↦ some screen_id
    ];
  }

  unfoldable pub complete_participant_run :
      ℕ → ParticipantStatus → Option (FinalOutcome F) → Option ℕ → Database F → Database F
  unfolding set_participant_run completed_row
  complete_participant_run id status final_outcome current_screen_id db =
      set_participant_run id (completed_row status final_outcome current_screen_id db.now) db

  unfoldable pub set_voice_note_url : ℕ → String → Database F → Database F
  unfolding set_participant_run
  set_voice_note_url id url = set_participant_run id (λ r. record r { voice_note_url = some url })

  unfoldable pub get_by_id : ℕ → Tx (Database F) SimulationRun
  get_by_id run_id db = found_or not_found (find_first (λ r. r.id == run_id) db.runs) db

  -- The row lock of `SELECT ... FOR UPDATE` is what makes one transaction follow another here.
  unfoldable pub lock_for_finalize : ℕ → Tx (Database F) SimulationRun
  unfolding get_by_id
  lock_for_finalize run_id = get_by_id run_id

  unfoldable pub mark_cancelling : ℕ → Database F → Database F
  unfolding set_run
  mark_cancelling run_id = set_run run_id (λ r. record r { status = cancelling })

  unfoldable pub abandoned_row : ℕ → ParticipantRun F → ParticipantRun F
  abandoned_row now r = record r {
    status = participant_abandoned;
    final_outcome = some run_was_cancelled;
    completed_at = some now;
  }

  unfoldable pub abandon_pending_participant_runs : ℕ → Database F → Database F
  unfolding abandoned_row
  abandon_pending_participant_runs run_id db = record db {
    participant_runs =
        amend (λ r. of_run run_id r && is_waiting r.status) (abandoned_row db.now)
          db.participant_runs;
  }

  unfoldable pub get_participant_run : ℕ → Tx (Database F) (ParticipantRun F)
  get_participant_run id db =
      found_or not_found (find_first (λ r. r.id == id) db.participant_runs) db

  unfoldable pub count_total : ℕ → Database F → ℕ
  count_total run_id db = count_if (of_run run_id) db.participant_runs

  unfoldable pub count_terminal : ℕ → Database F → ℕ
  count_terminal run_id db =
      count_if (λ r. of_run run_id r && is_terminal r.status) db.participant_runs

  unfoldable pub count_errored : ℕ → Database F → ℕ
  count_errored run_id db =
      count_if (λ r. of_run run_id r && is_error r.final_outcome) db.participant_runs

  unfoldable pub is_run_complete : ℕ → Database F → Bool
  unfolding count_total count_terminal
  is_run_complete run_id db =
      let total = count_total run_id db in ltb 0 total && (count_terminal run_id db == total)

  -- The status that `finalize_run` gives a run of the status `status`.
  unfoldable pub final_status : ℕ → Database F → RunStatus → RunStatus
  unfolding count_total count_errored
  final_status run_id db status =
      let total = count_total run_id db in
      if is_cancelling status
      then run_cancelled
      else if (total == 0) || (count_errored run_id db == total)
      then run_failed
      else run_completed

  unfoldable pub finalize_run : ℕ → Tx (Database F) SimulationRun
  unfolding get_by_id final_status set_run
  finalize_run run_id = do
    run ← get_by_id run_id
    db ← read (λ db. db)
    let final = record run {
      status = final_status run_id db run.status;
      completed_at = some db.now;
    }
    write (set_run run_id (λ r. final))
    return final

  unfoldable pub list_by_study : ℕ → Database F → List SimulationRun
  list_by_study study_id db = select (λ r. r.study_id == study_id) db.runs

  unfoldable pub list_sibling_runs : ℕ → Option ℕ → ℕ → Database F → List SimulationRun
  list_sibling_runs study_id task_id exclude_run_id db = reversed (
      select
        (λ r.
          (r.study_id == study_id)
          && (is_completed_run r.status
              && (is_synthetic r.source && (not (r.id == exclude_run_id) && of_task task_id r))))
        db.runs)
