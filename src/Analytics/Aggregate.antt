-- ===== src/Analytics/Aggregate.antt =====
-- app/workers/jobs/aggregate_run.py: the job that stores the metrics of a run and passes it on.
use syn_koala.Prelude.{
  ℕ, String, ℤ, Bool, any, pos, not, Option, none, some, List, [], ◌∷◌, ◌++◌, if◌then◌else◌, ◌==◌,
  leb, map, select, nat_eq, list_or_empty, dedup, string_eq,
}
use syn_koala.Platform.{Platform}
use syn_koala.Graph.{ElementView, ScreenView, ScreenGraph, resolve_starting_screen}
use syn_koala.Participant.{ActionType, click, scroll, back, open_action, select_option, type_text}
use syn_koala.Simulation.{
  EventType, screen_enter, screen_exit, gaze, abandon, task_progress_event, task_success,
  task_failure, acted,
}
use syn_koala.Simulation.Conditions.{is_critical}
use syn_koala.Database.{
  Database, ParticipantRun, Observation, ParticipantStatus, waiting, in_session,
  participant_completed, participant_failed, participant_abandoned, uuid,
}
use syn_koala.Database.Session.{
  Tx, ◌>>=◌, ◌>>◌, return, found_or, read, write, require, not_found, integrity_error,
}
use syn_koala.Studies.{TaskModel, Catalog}
use syn_koala.Runs.{get_by_id}
use syn_koala.Jobs.{enqueue}
use syn_koala.Analytics.{shortest_path_baseline}
use syn_koala.Analytics.Metrics.{ObservationRow, ParticipantRunData, MetricRow}
use syn_koala.Analytics.Rows.{compute_metrics}
use syn_koala.Analytics.Segments.{SegmentRow, compute_segments}

-- The database with the tables `metrics` and `segment_results`, whose rows belong to a run. Their own keys
-- are left out: each row of `insight_evidence` stands as the run of the metric or segment result that its
-- foreign key refers to.
pub record Aggregates (F : Type 0) : Type 0 where
  pub db : Database F
  pub metrics : List (ℕ × MetricRow F)
  pub segment_results : List (ℕ × SegmentRow F)
  pub insight_evidence : List ℕ

-- A call of another service leaves those tables alone.
abbrev pub within : {F A : Type 0} → Tx (Database F) A → Tx (Aggregates F) A
within call s = (record s { db = (call s.db).0 }, (call s.db).1)

-- The texts of the columns `type` and `status`
unfoldable pub action_name : ActionType → String
action_name click = "CLICK"
action_name scroll = "SCROLL"
action_name back = "BACK"
action_name open_action = "OPEN"
action_name select_option = "SELECT"
action_name type_text = "TYPE"

unfoldable pub event_name : EventType → String
unfolding action_name
event_name screen_enter = "SCREEN_ENTER"
event_name screen_exit = "SCREEN_EXIT"
event_name gaze = "GAZE"
event_name abandon = "ABANDON"
event_name task_progress_event = "TASK_PROGRESS"
event_name task_success = "TASK_SUCCESS"
event_name task_failure = "TASK_FAILURE"
event_name (acted action) = action_name action

abbrev status_name : ParticipantStatus → String
status_name waiting = "PENDING"
status_name in_session = "IN_PROGRESS"
status_name participant_completed = "COMPLETED"
status_name participant_failed = "FAILED"
status_name participant_abandoned = "ABANDONED"

-- `set(critical_actions or [])` against the names of an element
unfoldable pub critical_element_ids : ScreenGraph → Option (List String) → List ℕ
unfolding is_critical
critical_element_ids graph actions = critical_on (dedup (list_or_empty actions)) graph.screens
  where
    ids_of : List String → List ElementView → List ℕ
    ids_of critical [] = []
    ids_of critical (e ∷ elements) =
        let rest = ids_of critical elements in if is_critical critical e then e.id ∷ rest else rest

    critical_on : List String → List (ℕ × ScreenView) → List ℕ
    critical_on critical [] = []
    critical_on critical ((id, screen) ∷ screens) =
        ids_of critical screen.elements ++ critical_on critical screens

-- The baseline: what the search comes to, and none where there is no start or no way.
abbrev pub baseline_from : ScreenGraph → Option (List String) → Option ℕ → Option (ℕ × ℕ)
baseline_from graph actions none = none
baseline_from graph actions (some start) = elim (shortest_path_baseline graph start actions) [
  | none ↦ none
  | some answer ↦ answer
]

-- `ORDER BY sequence_no`
abbrev insert_observation :
    {F : Type 0} → Observation F → List (Observation F) → List (Observation F)
insert_observation a [] = a ∷ []
insert_observation a (b ∷ bs) =
    let rest = insert_observation a bs in
    if leb a.event.sequence_no b.event.sequence_no then a ∷ b ∷ bs else b ∷ rest

unfoldable pub by_sequence : {F : Type 0} → List (Observation F) → List (Observation F)
by_sequence [] = []
by_sequence (o ∷ os) = insert_observation o (by_sequence os)

-- `elapsed_ms` is the difference of two times, in milliseconds; the two means are Python's `mean`.
module _ (p : Platform) (elapsed_ms : ℕ → ℕ → p.F) (mean_int : List ℤ → p.F)
    (mean_float : List p.F → p.F) (catalog : Catalog p.F) where
  abbrev task_time_ms : ParticipantRun p.F → Option p.F
  task_time_ms r = elim r.started_at [
    | none ↦ none
    | some started ↦ elim r.completed_at [
      | none ↦ none
      | some completed ↦ some (elapsed_ms started completed)
    ]
  ]

  unfoldable pub observation_row : Observation p.F → ObservationRow
  unfolding event_name
  observation_row o = record {
    type = event_name o.event.type;
    screen_id = o.event.screen_id;
    element_id = o.event.element_id;
    duration_ms = o.event.duration_ms;
    sequence_no = pos o.event.sequence_no;
  }

  abbrev traits_of : Option ℕ → Option (List (String × p.F))
  traits_of none = none
  traits_of (some id) = elim (catalog.get_participant id) [
    | none ↦ none
    | some participant ↦ some participant.traits
  ]

  unfoldable pub participant_data : Database p.F → ParticipantRun p.F → ParticipantRunData p.F
  unfolding observation_row by_sequence
  participant_data db r = record {
    id = r.id;
    status = status_name r.status;
    task_time_ms = task_time_ms r;
    traits = traits_of r.participant_id;
    observations =
        map observation_row
          (by_sequence (select (λ o. o.participant_run_id == r.id) db.observations));
  }

  -- The critical elements and the baseline of the run's task.
  unfoldable pub task_measures : ℕ → Option TaskModel → List ℕ × Option (ℕ × ℕ)
  unfolding critical_element_ids resolve_starting_screen shortest_path_baseline
  task_measures study_id none = ([], none)
  task_measures study_id (some task) =
      let graph = catalog.get_screen_graph study_id in
      (
        critical_element_ids graph task.expected_critical_actions,
        baseline_from graph task.expected_critical_actions
            (resolve_starting_screen graph task.starting_point),
      )

  -- `await tasks.get_by_id(run.task_id) if run.task_id is not None else None`
  abbrev pub find_task : Option ℕ → Tx (Aggregates p.F) (Option TaskModel)
  find_task none = return none
  find_task (some id) = found_or not_found (catalog.get_task id) >>= λ task. return (some task)

  -- Whether a row of the run is referred to: the keys of `insight_evidence` have no `ON DELETE`, so that to
  -- delete such a row raises, and aborts the transaction with all that it deleted.
  unfoldable pub is_cited : ℕ → Aggregates p.F → Bool
  is_cited run_id s = any (λ cited. cited == run_id) s.insight_evidence

  unfoldable pub replace_rows :
      ℕ → List (MetricRow p.F) → List (SegmentRow p.F) → Aggregates p.F → Aggregates p.F
  replace_rows run_id metric_rows segment_rows s = record s {
    metrics = select (λ e. not (e.0 == run_id)) s.metrics ++ map (λ row. (run_id, row)) metric_rows;
    segment_results =
        select (λ e. not (e.0 == run_id)) s.segment_results
        ++ map (λ row. (run_id, row)) segment_rows;
  }

  -- The participants of a run, with what each of them did.
  unfoldable pub run_data : ℕ → Database p.F → List (ParticipantRunData p.F)
  unfolding participant_data
  run_data run_id db =
      map (participant_data db) (select (λ r. r.simulation_run_id == run_id) db.participant_runs)

  unfoldable pub handle_aggregate_run : ℕ → Tx (Aggregates p.F) (Unit {0})
  unfolding get_by_id run_data task_measures compute_metrics compute_segments is_cited replace_rows
      enqueue
  handle_aggregate_run run_id = do
    run ← within (get_by_id run_id)
    data_of_run ← read (λ s. run_data run_id s.db)
    task ← find_task run.task_id
    let measures = task_measures run.study_id task
    cited ← read (is_cited run_id)
    require integrity_error (not cited)
    write (
        replace_rows run_id (compute_metrics p mean_int data_of_run measures.1)
          (compute_segments p mean_float data_of_run measures.0))
    within (write (enqueue "validate_run" (("simulation_run_id", uuid run_id) ∷ [])))
