-- ===== src/Launch/Create.antt =====
-- What `SimulationUseCase.create_run` starts.
use mathlib.Core.List.{append_assoc, append-nil}
use syn_koala.Prelude.{
  ℕ, zero, suc, ◌≤◌, ◌≡◌, refl, ap, sym, ◌∙◌, arith, ℤ, true, Option, none, some, List, [], ◌∷◌,
  ◌++◌, leb, length, take, ok, leb→le,
}
use syn_koala.Graph.{JsonObject}
use syn_koala.Database.{
  Database, SimulationRun, running, Job, job_pending, Study, ParticipantRun, waiting, synthetic,
}
use syn_koala.Database.Session.{resume, resume-ok}
use syn_koala.Runs.{create_participant_run, list_by_study}
use syn_koala.Runs as Service
use syn_koala.Jobs.{enqueue, new_job}
use syn_koala.Studies.{TaskModel, ParticipantRecord, Catalog, get_owned}
use syn_koala.Launch.{
  create_run, fan_out, job_payload, active_run, is_runnable, size_or, resolve_task,
  resolve_participants, task_has_finish_line, screen_keys_exist,
}

module _ {A : Type 0} where
  length-take : (n : ℕ) (xs : List A) → n ≤ length xs → length (take n xs) ≡ n
  length-take zero xs h = refl
  length-take (suc n) [] h = absurd (omega arith)
  length-take (suc n) (x ∷ xs) h = ap suc (length-take n xs (omega arith))

module _ {F : Type 0} where
  -- A PENDING run and a PENDING job for each participant, in the order of the participants; the job
  -- names the run and the participant.
  abbrev pub Enlisted :
      (run_id study_id task_id : ℕ)
      → Option ℤ
      → List (ParticipantRecord F)
      → List (ParticipantRun F)
      → List Job
      → Type 0
  Enlisted run_id study_id task_id seed [] [] [] = Unit
  Enlisted run_id study_id task_id seed (p ∷ ps) (r ∷ rs) (j ∷ js) =
      (r.simulation_run_id ≡ run_id)
      × (r.participant_id ≡ some p.id)
      × (r.status ≡ waiting)
      × (j.job_type ≡ "simulate_participant")
      × (j.status ≡ job_pending)
      × (j.attempts ≡ 0)
      × (j.payload ≡ job_payload run_id r.id p.id study_id task_id seed)
      × Enlisted run_id study_id task_id seed ps rs js
  Enlisted run_id study_id task_id seed _ _ _ = ⊥

  -- The tables that the loop over the participants has no business with.
  abbrev SameElsewhere : Database F → Database F → Type 0
  SameElsewhere db after =
      (after.studies ≡ db.studies)
      × (after.observations ≡ db.observations)
      × (after.notified ≡ db.notified)

  pub fan_out-Enlisted :
      (run_id study_id task_id : ℕ) (seed : Option ℤ) (ps : List (ParticipantRecord F))
      (db : Database F)
      → let after = fan_out run_id study_id task_id seed ps db in
        (rs : List (ParticipantRun F)) × (js : List Job) × (after.1 ≡ ok tt)
        × (after.0.runs ≡ db.runs)
        × SameElsewhere db after.0
        × (after.0.participant_runs ≡ db.participant_runs ++ rs)
        × (after.0.jobs ≡ db.jobs ++ js)
        × (length rs ≡ length ps)
        × Enlisted run_id study_id task_id seed ps rs js
  unfolding fan_out create_participant_run enqueue new_job
  fan_out-Enlisted run_id study_id task_id seed [] db = (
    [],
    [],
    refl,
    refl,
    (refl, refl, refl),
    sym (append-nil db.participant_runs),
    sym (append-nil db.jobs),
    refl,
    tt,
  )
  fan_out-Enlisted run_id study_id task_id seed (p ∷ ps) db =
      let (db1, _) = create_participant_run run_id (some p.id) none db in
      let r = Service.new_participant_run run_id (some p.id) none db in
      let payload = job_payload run_id r.id p.id study_id task_id seed in
      let db2 = enqueue "simulate_participant" payload db1 in
      let j = new_job db1.next_id "simulate_participant" payload in
      let (rs, js, returned, runs, elsewhere, participants, jobs, n, enlisted) =
        fan_out-Enlisted run_id study_id task_id seed ps db2 in
      (
        r ∷ rs,
        j ∷ js,
        returned,
        runs,
        elsewhere,
        participants ∙ append_assoc db.participant_runs (r ∷ []) rs,
        jobs ∙ append_assoc db.jobs (j ∷ []) js,
        ap suc n,
        (refl, refl, refl, refl, refl, refl, refl, enlisted),
      )

  -- The conditions under which `create_run` starts a run.
  pub record Startable (catalog : Catalog F) (user_id study_id : ℕ)
      (population_size task_id : Option ℕ) (db : Database F) : Type 0 where
    pub study : Study
    pub owned : get_owned user_id study_id db ≡ (db, ok study)
    pub runnable : is_runnable study.status ≡ true
    pub size : ℕ
    pub sized : size_or population_size study.population_size ≡ some size
    pub idle : active_run study_id db ≡ none
    pub analyzed : catalog.has_analyzed_screens study_id ≡ true
    pub task : TaskModel
    pub resolved : resolve_task catalog study_id task_id db ≡ (db, ok task)
    pub finish_line : task_has_finish_line task ≡ true
    pub keys : screen_keys_exist task (catalog.get_screen_graph study_id) ≡ true
    pub participants : List (ParticipantRecord F)
    pub listed : resolve_participants catalog study_id db ≡ (db, ok participants)
    pub enough : leb size (length participants) ≡ true

  -- What a started run is, in the database after it.
  pub record Started (catalog : Catalog F) (study_id : ℕ) (size : ℕ) (task : TaskModel)
      (selected : List (ParticipantRecord F)) (seed : Option ℤ) (db after : Database F)
      (run : SimulationRun) : Type 0 where
    pub is_running : run.status ≡ running
    pub of_study : run.study_id ≡ study_id
    pub of_size : run.population_size ≡ size
    pub runs : after.runs ≡ db.runs ++ run ∷ []
    pub studies : after.studies ≡ db.studies
    pub observations : after.observations ≡ db.observations
    pub notified : after.notified ≡ db.notified
    pub new_participants : List (ParticipantRun F)
    pub new_jobs : List Job
    pub participants : after.participant_runs ≡ db.participant_runs ++ new_participants
    pub jobs : after.jobs ≡ db.jobs ++ new_jobs
    pub as_many : length new_participants ≡ size
    pub enlisted : Enlisted run.id study_id task.id seed selected new_participants new_jobs

  create_run_steps :
      (catalog : Catalog F) (user_id study_id : ℕ) (population_size task_id : Option ℕ)
      (config : Option JsonObject) (seed : Option ℤ) (db : Database F)
      (c : Startable catalog user_id study_id population_size task_id db)
      → let run = Service.new_run study_id c.size config seed (some c.task.id) synthetic db in
        create_run catalog user_id study_id population_size task_id config seed db
        ≡ resume
            (fan_out run.id study_id c.task.id seed
              (take c.size c.participants)
              (Service.create_run study_id c.size config seed (some c.task.id) synthetic db).0)
            (λ _ after. (after, ok run))
  unfolding create_run Service.create_run
  create_run_steps catalog user_id study_id population_size task_id config seed db c = rw c.owned (
      rw c.runnable (
        rw c.sized (
          rw c.idle (
            rw c.analyzed
              (rw c.resolved (rw c.finish_line (rw c.keys (rw c.listed (rw c.enough refl)))))))))

  -- For a study of the user that is READY, RUNNING or COMPLETED, has no run that has not ended, has
  -- analyzed screens and as many participants as the run is to have, and for a task of it that has a
  -- finish line and names no screen key that the study lacks, `create_run` returns a RUNNING run of the
  -- study with that population size. It adds that run, and for each of the first `size` participants of
  -- the audience one PENDING run and one PENDING `simulate_participant` job that names them; the studies,
  -- the observations, the notifications, and the runs, participants' runs and jobs that there were stay.
  pub create_run-Started :
      (catalog : Catalog F) (user_id study_id : ℕ) (population_size task_id : Option ℕ)
      (config : Option JsonObject) (seed : Option ℤ) (db : Database F)
      (c : Startable catalog user_id study_id population_size task_id db)
      → let after = create_run catalog user_id study_id population_size task_id config seed db in
        (run : SimulationRun) × (after.1 ≡ ok run)
        × Started catalog study_id c.size c.task (take c.size c.participants) seed db after.0 run
  unfolding Service.create_run
  create_run-Started catalog user_id study_id population_size task_id config seed db c =
      let run = Service.new_run study_id c.size config seed (some c.task.id) synthetic db in
      let made = (Service.create_run study_id c.size config seed (some c.task.id) synthetic db).0 in
      let (rs, js, returned, runs, elsewhere, participants, jobs, n, enlisted) =
        fan_out-Enlisted run.id study_id c.task.id seed (take c.size c.participants) made in
      let enrolled = fan_out run.id study_id c.task.id seed (take c.size c.participants) made in
      rw
        (create_run_steps catalog user_id study_id population_size task_id config seed db c
          ∙ resume-ok enrolled (λ _ after. (after, ok run)) tt returned)
        (
          run,
          refl,
          record {
            is_running = refl;
            of_study = refl;
            of_size = refl;
            runs = runs;
            studies = elsewhere.0;
            observations = elsewhere.1;
            notified = elsewhere.2;
            new_participants = rs;
            new_jobs = js;
            participants = participants;
            jobs = jobs;
            as_many = n ∙ length-take c.size c.participants (leb→le _ _ c.enough);
            enlisted = enlisted;
          },
        )
