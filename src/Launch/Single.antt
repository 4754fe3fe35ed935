-- ===== src/Launch/Single.antt =====
-- A study has one run in progress: the guard of `SimulationUseCase.create_run`.
use syn_koala.Prelude.{
  ℕ, ◌≡◌, ◌⊎◌, refl, ap, ◌∙◌, arith, ℤ, Bool, true, not, ◌&&◌, Option, none, some, List, [], ◌∷◌,
  ◌==◌, ==_iff, if◌then◌else◌, find_first, select, count_if, leb, length, take, is_nonempty,
  Bool-cases, inl, inr, Result, ok, err,
}
use syn_koala.Graph.{JsonObject, ScreenGraph}
use syn_koala.Database.{Database, SimulationRun, running, synthetic, is_terminal_run}
use syn_koala.Database.Rows.{count_if-append}
use syn_koala.Database.Session.{
  Tx, ◌>>=◌, ◌>>◌, return, ServiceError, resume, resume-ok, resume-passes, found_or, require,
  found_or-same, require-same, require-ok, not_found, lifecycle_error,
}
use syn_koala.Runs.{list_by_study}
use syn_koala.Runs as Service
use syn_koala.Studies.{TaskModel, ParticipantRecord, Catalog, get_owned}
use syn_koala.Launch.{
  create_run, active_run, fan_out, is_none, is_runnable, size_or, only_task, resolve_task,
  resolve_participants, task_has_finish_line, screen_keys_exist, key_error,
}
use syn_koala.Launch.Create.{fan_out-Enlisted}

none_counted :
    {A : Type 0} (p q : A → Bool) (rows : List A)
    → find_first q (select p rows) ≡ none
    → count_if (λ r. p r && q r) rows ≡ 0
none_counted p q [] h = refl
none_counted p q (r ∷ rows) h = elim (Bool-cases (p r)) [
  | inl e ↦ elim (Bool-cases (q r)) [
    | inl f ↦ cc (rw f at (rw e at h))
    | inr f ↦ rw e (rw f (none_counted p q rows (rw f at (rw e at h))))
  ]
  | inr e ↦ rw e (none_counted p q rows (rw e at h))
]

is_none-none : {A : Type 0} (o : Option A) → is_none o ≡ true → o ≡ none
is_none-none none h = refl
is_none-none (some a) h = cc

-- A run of the study that has not ended.
abbrev pub in_progress_of : ℕ → SimulationRun → Bool
in_progress_of study_id r = (r.study_id == study_id) && not (is_terminal_run r.status)

started_counts :
    (study_id : ℕ) (run : SimulationRun)
    → run.status ≡ running
    → run.study_id ≡ study_id
    → count_if (in_progress_of study_id) (run ∷ []) ≡ 1
started_counts study_id run s o =
    ap (λ b. count_of b)
      (ap (λ b. b && not (is_terminal_run run.status)) ((==_iff run.study_id study_id).1 o)
        ∙ ap (λ s. not (is_terminal_run s)) s)
  where
    count_of : Bool → ℕ
    count_of b = if b then 1 else 0

module _ {F : Type 0} where
  -- `create_run` failed and wrote nothing, or one run of the study is in progress.
  abbrev pub OneActive : ℕ → Database F → Database F × Result ServiceError SimulationRun → Type 0
  OneActive study_id db r =
      ((e : ServiceError) × (r.1 ≡ err e) × (r.0 ≡ db))
      ⊎ ((run : SimulationRun) × (r.1 ≡ ok run) × (count_if (in_progress_of study_id) r.0.runs ≡ 1))

  module _ (catalog : Catalog F) (study_id : ℕ) (db : Database F) where
    graph : ScreenGraph
    graph = catalog.get_screen_graph study_id

    failed : (e : ServiceError) → OneActive study_id db (db, err e)
    failed e = inl (e, refl, refl)

    resolve_task-same : (task_id : Option ℕ) → (resolve_task catalog study_id task_id db).0 ≡ db
    unfolding resolve_task
    resolve_task-same none = only (catalog.list_tasks study_id)
      where
        only : (tasks : List TaskModel) → (only_task catalog tasks db).0 ≡ db
        only [] = refl
        only (task ∷ []) = refl
        only (task ∷ other ∷ tasks) = refl
    resolve_task-same (some task_id) =
        resume-passes (λ r. r.0 ≡ db) db (found_or not_found (catalog.get_task task_id) db) _
          (found_or-same not_found (catalog.get_task task_id) db) (λ e. refl)
          (λ task _.
            resume-passes (λ r. r.0 ≡ db) db (require not_found (task.study_id == study_id) db) _
              (require-same not_found (task.study_id == study_id) db) (λ e. refl) (λ _ _. refl))

    resolve_participants-same : (resolve_participants catalog study_id db).0 ≡ db
    unfolding resolve_participants
    resolve_participants-same =
        resume-passes (λ r. r.0 ≡ db) db (found_or not_found (catalog.latest_audience study_id) db)
          _ (found_or-same not_found (catalog.latest_audience study_id) db) (λ e. refl)
          (λ audience_id _.
            let listed = is_nonempty (catalog.list_participants audience_id) in
            resume-passes (λ r. r.0 ≡ db) db (require lifecycle_error listed db) _
              (require-same lifecycle_error listed db) (λ e. refl) (λ _ _. refl))

    -- A look-up that is passed leaves the database as it is, and so does a guard.
    looked_up :
        {A : Type 0} (r : Database F × Result ServiceError A)
        (after : A → Tx (Database F) SimulationRun)
        → r.0 ≡ db
        → ((a : A) → OneActive study_id db (after a db))
        → OneActive study_id db (resume r after)
    looked_up r after same goes =
        resume-passes (OneActive study_id db) db r after same failed (λ a _. goes a)

    guarded :
        (e : ServiceError) (test : Bool) (after : Tx (Database F) SimulationRun)
        → (test ≡ true → OneActive study_id db (after db))
        → OneActive study_id db (resume (require e test db) (λ _. after))
    guarded e test after goes =
        resume-passes (OneActive study_id db) db (require e test db) (λ _. after)
          (require-same e test db) failed (λ u h. goes (require-ok e test db u h))

    -- The rows that a run starts with, where no run of the study was in progress.
    started :
        (size task_id : ℕ) (config : Option JsonObject) (seed : Option ℤ)
        (selected : List (ParticipantRecord F))
        → is_none (active_run study_id db) ≡ true
        → let run = Service.new_run study_id size config seed (some task_id) synthetic db in
          let made = (Service.create_run study_id size config seed (some task_id) synthetic db).0 in
          OneActive study_id db (
            resume
              (fan_out run.id study_id task_id seed selected made)
              (λ _ after. (after, ok run)))
    unfolding Service.create_run active_run list_by_study
    started size task_id config seed selected idle =
        let run = Service.new_run study_id size config seed (some task_id) synthetic db in
        let made = (Service.create_run study_id size config seed (some task_id) synthetic db).0 in
        let enrolled = fan_out run.id study_id task_id seed selected made in
        let (_, _, returned, runs, _, _, _, _, _) =
          fan_out-Enlisted run.id study_id task_id seed selected made in
        let before : count_if (in_progress_of study_id) db.runs ≡ 0 =
          none_counted (λ r. r.study_id == study_id) (λ r. not (is_terminal_run r.status)) db.runs
            (is_none-none (active_run study_id db) idle) in
        let new = started_counts study_id run refl refl in
        rw (resume-ok enrolled (λ _ after. (after, ok run)) tt returned) (
          inr (
            run,
            refl,
            ap (count_if (in_progress_of study_id)) runs
                ∙ (count_if-append (in_progress_of study_id) db.runs (run ∷ [])
                    ∙ omega (arith, before, new)),
          ))

    -- The choice of the task and of the participants, and the start.
    chosen :
        (size : ℕ) (task_id : Option ℕ) (config : Option JsonObject) (seed : Option ℤ)
        → is_none (active_run study_id db) ≡ true
        → OneActive study_id db (
            resume (resolve_task catalog study_id task_id db) (λ task.
              require lifecycle_error (task_has_finish_line task)
              >> (require (key_error task graph) (screen_keys_exist task graph)
                  >> (resolve_participants catalog study_id >>= (λ participants.
                      require lifecycle_error (leb size (length participants))
                      >> (Service.create_run study_id size config seed (some task.id) synthetic
                          >>= (λ run.
                              fan_out run.id study_id task.id seed (take size participants)
                              >> return run)))))))
    unfolding Service.create_run graph
    chosen size task_id config seed idle =
        looked_up (resolve_task catalog study_id task_id db) _ (resolve_task-same task_id) (λ task.
          guarded lifecycle_error (task_has_finish_line task) _ (λ _.
            guarded (key_error task graph) (screen_keys_exist task graph) _ (λ _.
              looked_up (resolve_participants catalog study_id db) _ resolve_participants-same
                (λ participants.
                  guarded lifecycle_error (leb size (length participants)) _
                    (λ _. started size task.id config seed (take size participants) idle)))))

  -- Whatever it is asked for, `create_run` either raises and changes no row and no id, or returns a run, and
  -- then exactly one run of the study is in progress.
  pub create_run-OneActive :
      (catalog : Catalog F) (user_id study_id : ℕ) (population_size task_id : Option ℕ)
      (config : Option JsonObject) (seed : Option ℤ) (db : Database F)
      → OneActive study_id db
          (create_run catalog user_id study_id population_size task_id config seed db)
  unfolding create_run Service.create_run get_owned graph
  create_run-OneActive catalog user_id study_id population_size task_id config seed db =
      looked_up catalog study_id db (get_owned user_id study_id db) _ (found_or-same not_found _ db)
        (λ study. guarded catalog study_id db lifecycle_error (is_runnable study.status) _ (λ _.
          let size = size_or population_size study.population_size in
          looked_up catalog study_id db (found_or lifecycle_error size db) _
            (found_or-same lifecycle_error size db)
            (λ size.
              guarded catalog study_id db lifecycle_error (is_none (active_run study_id db)) _
                (λ idle.
                  guarded catalog study_id db lifecycle_error
                    (catalog.has_analyzed_screens study_id) _
                    (λ _. chosen catalog study_id db size task_id config seed idle)))))
