-- ===== src/Samples/Records.antt =====
-- A small database: one study, one run of two participants, and their jobs.
use syn_koala.Prelude.{ℕ, pos, true, false, none, some, [], ◌∷◌}
use syn_koala.Database.{
  Database, Study, ready, SimulationRun, RunStatus, synthetic, ParticipantRun, ParticipantStatus,
  Job, JobStatus, job_pending, job_running,
}
use syn_koala.Launch.{job_payload}
use syn_koala.Studies.{TaskModel, ParticipantRecord, Catalog}
use syn_koala.Samples.Signup.{sign_up_graph, sign_up_task}

abbrev pub study : Study
study = record {
  id = 1;
  owner_id = 7;
  name = "Sign-up";
  objective = none;
  status = ready;
  population_size = some 2;
  deleted = false;
}

abbrev pub run_with : RunStatus → SimulationRun
run_with status = record {
  id = 10;
  study_id = 1;
  task_id = some 5;
  population_size = 2;
  status = status;
  source = synthetic;
  config = none;
  seed = some (pos 7);
  started_at = some 100;
  completed_at = none;
}

abbrev pub participant_job : ℕ → ℕ → JobStatus → Job
participant_job id participant_run_id status = record {
  id = id;
  job_type = "simulate_participant";
  payload = job_payload 10 participant_run_id 9 1 5 (some (pos 7));
  status = status;
  attempts = 0;
  locked_at = none;
}

module _ {F : Type 0} where
  abbrev pub participant_run : ℕ → ParticipantStatus → ParticipantRun F
  participant_run id status = record {
    id = id;
    simulation_run_id = 10;
    participant_id = some 9;
    tester_label = none;
    voice_note_url = none;
    status = status;
    current_screen_id = none;
    final_outcome = none;
    started_at = none;
    completed_at = none;
  }

  abbrev pub database : RunStatus → ParticipantStatus → ParticipantStatus → Database F
  database status first second = record {
    studies = study ∷ [];
    runs = run_with status ∷ [];
    participant_runs = participant_run 11 first ∷ participant_run 12 second ∷ [];
    jobs = participant_job 13 11 job_running ∷ participant_job 14 12 job_pending ∷ [];
    observations = [];
    notified = [];
    next_id = 20;
    now = 500;
  }

  -- The same study before its first run.
  abbrev pub empty_database : Database F
  empty_database = record {
    studies = study ∷ [];
    runs = [];
    participant_runs = [];
    jobs = [];
    observations = [];
    notified = [];
    next_id = 20;
    now = 500;
  }

abbrev pub task_model : TaskModel
task_model = record {
  id = 5;
  study_id = 1;
  instruction = "Create an account";
  starting_point = some "form";
  success_conditions = sign_up_task.success_conditions;
  constraints = none;
  expected_critical_actions = some ("sign_up" ∷ []);
}

module _ {F : Type 0} where
  abbrev pub participant_record : ℕ → ParticipantRecord F
  participant_record id = record { id = id; traits = []; persona = none }

  abbrev pub catalog : Catalog F
  catalog = record {
    get_task = λ id. some task_model;
    list_tasks = λ study_id. task_model ∷ [];
    latest_audience = λ study_id. some 3;
    list_participants = λ audience_id. participant_record 9 ∷ participant_record 8 ∷ [];
    get_participant = λ id. some (participant_record id);
    get_screen_graph = λ study_id. sign_up_graph;
    has_analyzed_screens = λ study_id. true;
  }
