-- ===== src/Launch.antt =====
-- app/usecases/simulations.py: `SimulationUseCase`, which starts, publishes, lists and cancels runs.
pub mod Cancel
pub mod Create
pub mod Single
use syn_koala.Prelude.{
  ℕ, String, ℤ, Bool, true, false, not, ◌&&◌, ◌||◌, Option, none, some, List, [], ◌∷◌,
  if◌then◌else◌, leb, ◌==◌, find_first, length, take, map, is_nonempty, list_or_empty, contains,
  string_eq, nonempty, lookup,
}
use syn_koala.Graph.{Json, null, text, other, container, JsonObject, ScreenGraph}
use syn_koala.Simulation.Conditions.{has_recognized_success_condition}
use syn_koala.Database.{
  Database, SimulationRun, RunStatus, Study, StudyStatus, draft, ready, study_running,
  study_completed, synthetic, is_terminal_run, uuid, seed_field,
}
use syn_koala.Database.Session.{
  Tx, ◌>>=◌, ◌>>◌, return, raise, found_or, read, write, require, ServiceError, not_found,
  lifecycle_error, type_error,
}
use syn_koala.Runs.{
  create_participant_run, get_by_id, mark_cancelling, abandon_pending_participant_runs,
  is_run_complete, finalize_run, count_total, count_terminal, list_by_study,
}
use syn_koala.Runs as Service
use syn_koala.Jobs.{Fields, enqueue, cancel_pending}
use syn_koala.Studies.{TaskModel, ParticipantRecord, Catalog, get_owned, update_study}

abbrev pub is_none : {A : Type 0} → Option A → Bool
is_none none = true
is_none (some _) = false

-- `population_size`, or the study's own
abbrev pub size_or : Option ℕ → Option ℕ → Option ℕ
size_or none study_size = study_size
size_or (some size) _ = some size

unfoldable pub task_has_finish_line : TaskModel → Bool
task_has_finish_line task =
    has_recognized_success_condition task.success_conditions
    || is_nonempty (list_or_empty task.expected_critical_actions)

-- `study.status in ("READY", "RUNNING", "COMPLETED")`
abbrev pub is_runnable : StudyStatus → Bool
is_runnable ready = true
is_runnable study_running = true
is_runnable study_completed = true
is_runnable _ = false

abbrev pub is_draft : StudyStatus → Bool
is_draft draft = true
is_draft _ = false

unfoldable pub screen_keys : ScreenGraph → List String
screen_keys graph = map (λ s. s.1.screen_key) graph.screens

-- `not key or key in real_keys`, for the starting point
unfoldable pub starts_there : List String → Option String → Bool
starts_there keys starting_point = elim (nonempty starting_point) [
  | none ↦ true
  | some key ↦ contains keys key
]

abbrev is_container : Option Json → Bool
is_container (some (container _)) = true
is_container _ = false

-- The same for a JSON value: only a string can be a screen's key.
abbrev pub is_key_or_unset : List String → Option Json → Bool
is_key_or_unset keys none = true
is_key_or_unset keys (some null) = true
is_key_or_unset keys (some (other truthy)) = not truthy
is_key_or_unset keys (some (container truthy)) = not truthy
is_key_or_unset keys (some (text key)) = starts_there keys (some key)

unfoldable pub success_screen_key : TaskModel → Option Json
success_screen_key task = elim task.success_conditions [
  | none ↦ none
  | some conditions ↦ lookup conditions "screen_key"
]

unfoldable pub screen_keys_exist : TaskModel → ScreenGraph → Bool
unfolding screen_keys starts_there success_screen_key
screen_keys_exist task graph =
    let real_keys = screen_keys graph in
    starts_there real_keys task.starting_point
    && is_key_or_unset real_keys (success_screen_key task)

-- What the check of the keys raises: `in` on a set raises for a list or an object, once the starting point
-- has passed.
unfoldable pub key_error : TaskModel → ScreenGraph → ServiceError
unfolding screen_keys starts_there success_screen_key
key_error task graph =
    if starts_there (screen_keys graph) task.starting_point
      && is_container (success_screen_key task)
    then type_error
    else lifecycle_error

-- The payload of a `simulate_participant` job.
unfoldable pub job_payload :
    (run_id participant_run_id participant_id study_id task_id : ℕ) → Option ℤ → Fields
job_payload run_id participant_run_id participant_id study_id task_id seed =
    ("simulation_run_id", uuid run_id)
    ∷ ("participant_run_id", uuid participant_run_id)
    ∷ ("participant_id", uuid participant_id)
    ∷ ("study_id", uuid study_id)
    ∷ ("task_id", uuid task_id)
    ∷ ("seed", seed_field seed)
    ∷ []

module _ {F : Type 0} where
  -- The loop over the selected participants: a participant's run and its job for each.
  unfoldable pub fan_out :
      (run_id study_id task_id : ℕ)
      → Option ℤ
      → List (ParticipantRecord F)
      → Tx (Database F) (Unit {0})
  unfolding job_payload
  fan_out run_id study_id task_id seed [] = return tt
  fan_out run_id study_id task_id seed (participant ∷ others) = do
    participant_run ← create_participant_run run_id (some participant.id) none
    write (
        enqueue "simulate_participant"
          (job_payload run_id participant_run.id participant.id study_id task_id seed))
    fan_out run_id study_id task_id seed others

  -- The run of the study that has not ended yet.
  unfoldable pub active_run : ℕ → Database F → Option SimulationRun
  active_run study_id db =
      find_first (λ r. not (is_terminal_run r.status)) (list_by_study study_id db)

module _ {F : Type 0} (catalog : Catalog F) where
  abbrev pub only_task : List TaskModel → Tx (Database F) TaskModel
  only_task [] = raise lifecycle_error
  only_task (task ∷ []) = return task
  only_task (task ∷ _ ∷ _) = raise lifecycle_error

  unfoldable pub resolve_task : ℕ → Option ℕ → Tx (Database F) TaskModel
  resolve_task study_id none = only_task (catalog.list_tasks study_id)
  resolve_task study_id (some task_id) = do
    task ← found_or not_found (catalog.get_task task_id)
    require not_found (task.study_id == study_id)
    return task

  unfoldable pub resolve_participants : ℕ → Tx (Database F) (List (ParticipantRecord F))
  resolve_participants study_id = do
    audience_id ← found_or not_found (catalog.latest_audience study_id)
    require lifecycle_error (is_nonempty (catalog.list_participants audience_id))
    return (catalog.list_participants audience_id)

  unfoldable pub create_run :
      (user_id study_id : ℕ)
      → Option ℕ
      → Option ℕ
      → Option JsonObject
      → Option ℤ
      → Tx (Database F) SimulationRun
  unfolding resolve_task task_has_finish_line screen_keys_exist key_error resolve_participants
      fan_out active_run
  create_run user_id study_id population_size task_id config seed = do
    study ← get_owned user_id study_id
    require lifecycle_error (is_runnable study.status)
    size ← found_or lifecycle_error (size_or population_size study.population_size)
    active ← read (active_run study_id)
    require lifecycle_error (is_none active)
    require lifecycle_error (catalog.has_analyzed_screens study_id)
    task ← resolve_task study_id task_id
    require lifecycle_error (task_has_finish_line task)
    let graph = catalog.get_screen_graph study_id
    require (key_error task graph) (screen_keys_exist task graph)
    participants ← resolve_participants study_id
    require lifecycle_error (leb size (length participants))
    run ← Service.create_run study_id size config seed (some task.id) synthetic
    fan_out run.id study_id task.id seed (take size participants)
    return run

  unfoldable pub publish : (user_id study_id : ℕ) → Tx (Database F) SimulationRun
  unfolding create_run
  publish user_id study_id = do
    study ← get_owned user_id study_id
    require lifecycle_error (is_draft study.status)
    require lifecycle_error (not (is_none study.population_size))
    updated ← update_study study none none (some ready) none
    create_run user_id study_id none none none none

module _ {F : Type 0} where
  unfoldable pub get_run : (user_id run_id : ℕ) → Tx (Database F) SimulationRun
  get_run user_id run_id = do
    run ← get_by_id run_id
    study ← get_owned user_id run.study_id
    return run

  unfoldable pub finalize_cancelled : Bool → ℕ → Tx (Database F) SimulationRun
  finalize_cancelled true run_id = finalize_run run_id
  finalize_cancelled false run_id = get_by_id run_id

  unfoldable pub cancel_run : (user_id run_id : ℕ) → Tx (Database F) SimulationRun
  unfolding get_run finalize_cancelled
  cancel_run user_id run_id = do
    run ← get_run user_id run_id
    require lifecycle_error (not (is_terminal_run run.status))
    write (mark_cancelling run_id)
    write (cancel_pending "simulate_participant" "simulation_run_id" run_id)
    write (abandon_pending_participant_runs run_id)
    complete ← read (is_run_complete run_id)
    finalize_cancelled complete run_id

  unfoldable pub get_progress : (user_id run_id : ℕ) → Tx (Database F) (RunStatus × ℕ × ℕ)
  unfolding get_run
  get_progress user_id run_id = do
    run ← get_run user_id run_id
    total ← read (count_total run_id)
    completed ← read (count_terminal run_id)
    return (run.status, completed, total)

  -- The runs of a study with the completion rates that `ResultsService` looks up.
  unfoldable pub list_runs :
      (List ℕ → ℕ → Option F)
      → (user_id study_id : ℕ) → Tx (Database F) (List (SimulationRun × Option F))
  list_runs get_completion_rates user_id study_id = do
    study ← get_owned user_id study_id
    runs ← read (list_by_study study_id)
    let rates = get_completion_rates (map (λ r. r.id) runs)
    return (map (λ r. (r, rates r.id)) runs)
