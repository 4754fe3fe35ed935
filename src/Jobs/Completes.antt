-- ===== src/Jobs/Completes.antt =====
-- A participant's job runs through: the simulation of app/agents/graphs/simulation_graph.py inside
-- `handle_simulate_participant`.
use syn_koala.Prelude.{
  ℕ, ◌≡◌, refl, ap, ◌∙◌, arith, ℤ, String, true, Option, some, ◌==◌, any, is_nonempty, find_first,
  ok,
}
use syn_koala.Platform.{Platform}
use syn_koala.Graph.{ScreenGraph}
use syn_koala.Graph.Starts.{IsKeyed, resolve_starting_screen-Shows}
use syn_koala.Participant.Choices.{get_participant_model-Offers}
use syn_koala.Simulation.{Outcome, in_progress, completed, failed, abandoned}
use syn_koala.Simulation.Nodes.{Sim}
use syn_koala.Simulation.Flow.{Config, Executor}
use syn_koala.Simulation.Navigation.{IsClosed}
use syn_koala.Simulation.Termination.{run_simulation-returns}
use syn_koala.Database.{Database, SimulationRun, ParticipantRun, is_terminal}
use syn_koala.Database.Rows.{find_first-amend}
use syn_koala.Runs.{
  get_by_id, get_participant_run, complete_participant_run, set_participant_run, completed_row,
}
use syn_koala.Studies.{Catalog, TaskModel, ParticipantRecord}
use syn_koala.Jobs.Participant.{
  Printing, terminal_status, configured_model, deps_of, draft_of, task_context_from_orm,
  derive_participant_seed, simulate, record_run, handle_simulate_participant,
  finalize_run_and_notify, outcome_of,
}
use syn_koala.Jobs.Finalize.{Finds, finalize_run_and_notify_announces}
use syn_koala.Launch.{job_payload}

terminal_status-is_terminal : (o : Outcome) → is_terminal (terminal_status o) ≡ true
terminal_status-is_terminal in_progress = refl
terminal_status-is_terminal completed = refl
terminal_status-is_terminal failed = refl
terminal_status-is_terminal abandoned = refl

module _ {F : Type 0} where
  pub get_by_id-found :
      (run_id : ℕ) (db : Database F) (run : SimulationRun)
      → Finds run_id db run
      → get_by_id run_id db ≡ (db, ok run)
  unfolding get_by_id
  get_by_id-found run_id db run h = rw h refl

  pub get_participant_run-found :
      (id : ℕ) (db : Database F) (r : ParticipantRun F)
      → find_first (λ x. x.id == id) db.participant_runs ≡ some r
      → get_participant_run id db ≡ (db, ok r)
  unfolding get_participant_run
  get_participant_run-found id db r h = rw h refl

  -- `_finalize_run_and_notify` of a run that exists returns and leaves the participants' runs.
  pub notified-frame :
      (run_id : ℕ) (db : Database F) (run : SimulationRun)
      → Finds run_id db run
      → ((finalize_run_and_notify run_id db).1 ≡ ok tt)
        × ((finalize_run_and_notify run_id db).0.participant_runs ≡ db.participant_runs)
  notified-frame run_id db run h =
      let (returned, _, same, _) = finalize_run_and_notify_announces run_id db run h in
      (returned, same)

module _ (p : Platform) (executor : Executor (Config p)) (printing : Printing)
    (catalog : Catalog p.F) where
  simulate-returns :
      (run : SimulationRun) (participant : ParticipantRecord p.F) (task : TaskModel)
      (graph : ScreenGraph) (model_name : Option String) (db : Database p.F)
      → IsKeyed graph
      → IsClosed graph
      → any (λ s. is_nonempty s.1.elements) graph.screens ≡ true
      → configured_model run.config ≡ some model_name
      → (final : Sim p) × (simulate p executor printing catalog run participant task graph db
          ≡ (db, ok final))
  unfolding simulate deps_of
  simulate-returns run participant task graph model_name db keyed closed analyzed named =
      let (start, starts, shown, _) =
        resolve_starting_screen-Shows graph task.starting_point keyed analyzed in
      let (final, returns, _, _) =
        run_simulation-returns p executor (deps_of p executor printing catalog model_name)
          (draft_of p executor printing catalog participant) (task_context_from_orm task) graph
          start (derive_participant_seed printing run.seed participant.id)
          (get_participant_model-Offers p model_name) (omega arith) closed shown in
      (final, rw analyzed (rw named (rw starts (rw returns refl))))

  -- The participant's row that the handler writes.
  ended_row : Sim p → ℕ → ParticipantRun p.F → ParticipantRun p.F
  ended_row final now =
      completed_row (terminal_status final.outcome)
        (some (outcome_of p executor printing catalog final)) (some final.current_screen_id) now

  record_run-frame :
      (id : ℕ) (final : Sim p) (db : Database p.F) (r : ParticipantRun p.F)
      → find_first (λ x. x.id == id) db.participant_runs ≡ some r
      → let after = record_run p executor printing catalog id final db in
        (find_first (λ x. x.id == id) after.participant_runs ≡ some (ended_row final db.now r))
        × (after.runs ≡ db.runs)
  unfolding record_run complete_participant_run set_participant_run ended_row completed_row
  record_run-frame id final db r h = (
    find_first-amend (λ x. x.id == id) (ended_row final db.now) db.participant_runs r (λ x e. e) h,
    refl,
  )

  ended_row-is_terminal :
      (final : Sim p) (now : ℕ) (r : ParticipantRun p.F)
      → is_terminal (ended_row final now r).status ≡ true
  unfolding ended_row completed_row
  ended_row-is_terminal final now r = terminal_status-is_terminal final.outcome

  handle_simulate_participant_steps :
      (run_id id participant_id study_id task_id : ℕ) (seed : Option ℤ) (db : Database p.F)
      (run : SimulationRun) (r : ParticipantRun p.F) (participant : ParticipantRecord p.F)
      (task : TaskModel) (final : Sim p)
      → get_by_id run_id db ≡ (db, ok run)
      → get_participant_run id db ≡ (db, ok r)
      → catalog.get_participant participant_id ≡ some participant
      → catalog.get_task task_id ≡ some task
      → simulate p executor printing catalog run participant task
          (catalog.get_screen_graph study_id)
          db
        ≡ (db, ok final)
      → handle_simulate_participant p executor printing catalog
          (job_payload run_id id participant_id study_id task_id seed)
          db
        ≡ finalize_run_and_notify run_id (record_run p executor printing catalog id final db)
  unfolding handle_simulate_participant job_payload
  handle_simulate_participant_steps run_id id participant_id study_id task_id seed db run r
        participant task final a b c d e =
      rw a (rw b (rw c (rw d (rw e refl))))

  -- A job as `create_run` enqueues it, whose rows exist, whose study has a graph that is keyed by
  -- screen ids, has no transition out of the graph and has an element on some screen, and whose run's
  -- config has no list or object with entries as its participant model: the handler returns, and the
  -- participant's run is then COMPLETED, FAILED or ABANDONED.
  pub handle_simulate_participant-returns :
      (run_id id participant_id study_id task_id : ℕ) (seed : Option ℤ) (db : Database p.F)
      (run : SimulationRun) (r : ParticipantRun p.F) (participant : ParticipantRecord p.F)
      (task : TaskModel) (model_name : Option String)
      → Finds run_id db run
      → find_first (λ x. x.id == id) db.participant_runs ≡ some r
      → catalog.get_participant participant_id ≡ some participant
      → catalog.get_task task_id ≡ some task
      → IsKeyed (catalog.get_screen_graph study_id)
      → IsClosed (catalog.get_screen_graph study_id)
      → any (λ s. is_nonempty s.1.elements) (catalog.get_screen_graph study_id).screens ≡ true
      → configured_model run.config ≡ some model_name
      → let after =
          handle_simulate_participant p executor printing catalog
            (job_payload run_id id participant_id study_id task_id seed)
            db in
        (after.1 ≡ ok tt)
        × (ended : ParticipantRun p.F) × (find_first (λ x. x.id == id) after.0.participant_runs
            ≡ some ended)
        × (is_terminal ended.status ≡ true)
  handle_simulate_participant-returns run_id id participant_id study_id task_id seed db run r
        participant task model_name has_run has_row has_participant has_task keyed closed analyzed
        named =
      let (final, simulated) =
        simulate-returns run participant task (catalog.get_screen_graph study_id) model_name db
          keyed closed analyzed named in
      let recorded = record_run p executor printing catalog id final db in
      let (stored, runs) = record_run-frame id final db r has_row in
      let (returned, same) =
        notified-frame run_id recorded run (ap (find_first (λ x. x.id == run_id)) runs ∙ has_run) in
      let steps =
        handle_simulate_participant_steps run_id id participant_id study_id task_id seed db run r
          participant task final (get_by_id-found run_id db run has_run)
          (get_participant_run-found id db r has_row) has_participant has_task simulated in
      rw steps (
        returned,
        ended_row final db.now r,
        ap (find_first (λ x. x.id == id)) same ∙ stored,
        ended_row-is_terminal final db.now r,
      )
