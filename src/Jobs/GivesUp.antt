-- ===== src/Jobs/GivesUp.antt =====
-- What is left where app/workers/runner.py gives a participant's job up.
use syn_koala.Prelude.{
  ℕ, ◌≡◌, refl, ap, ◌∙◌, ℤ, Bool, true, false, Option, some, ◌==◌, find_first, Result, ok, err,
}
use syn_koala.Platform.{Platform}
use syn_koala.Simulation.Flow.{Config, Executor}
use syn_koala.Database.{
  Database, SimulationRun, ParticipantRun, Job, job_failed, job_running, is_terminal,
}
use syn_koala.Database.Session.{ServiceError}
use syn_koala.Database.Rows.{find_first-amend}
use syn_koala.Runs.{
  get_participant_run, complete_participant_run, set_participant_run, completed_row,
}
use syn_koala.Studies.{Catalog}
use syn_koala.Jobs.{
  Handlers, find_job, set_job, record_failure, fail_job, settle, process_found, process_job,
}
use syn_koala.Jobs.Queue.{at_id, found_after_append}
use syn_koala.Jobs.Participant.{
  Printing, fail_unless, finalize_run_and_notify, handle_simulate_participant_permanent_failure,
  participant_handlers, handle_simulate_participant,
}
use syn_koala.Jobs.Finalize.{Finds}
use syn_koala.Jobs.Lawful.{permanent_failure-OnlyQueues}
use syn_koala.Jobs.Completes.{notified-frame, get_participant_run-found}
use syn_koala.Launch.{job_payload}

module _ {F : Type 0} where
  -- The participant's run has an outcome.
  abbrev pub HasEnded : ℕ → Database F → Type 0
  HasEnded id db =
      (ended : ParticipantRun F) × (find_first (λ x. x.id == id) db.participant_runs ≡ some ended)
      × (is_terminal ended.status ≡ true)

  failed_unless :
      (test : Bool) (id : ℕ) (db : Database F) (r : ParticipantRun F)
      → is_terminal r.status ≡ test
      → find_first (λ x. x.id == id) db.participant_runs ≡ some r
      → HasEnded id (fail_unless test id db) × ((fail_unless test id db).runs ≡ db.runs)
  unfolding fail_unless complete_participant_run set_participant_run completed_row
  failed_unless true id db r e h = ((r, h, e), refl)
  failed_unless false id db r e h =
      ((_, find_first-amend (λ x. x.id == id) _ db.participant_runs r (λ x t. t) h, refl), refl)

  permanent_failure_steps :
      (run_id id participant_id study_id task_id : ℕ) (seed : Option ℤ) (db : Database F)
      (r : ParticipantRun F)
      → get_participant_run id db ≡ (db, ok r)
      → handle_simulate_participant_permanent_failure
          (job_payload run_id id participant_id study_id task_id seed)
          db
        ≡ finalize_run_and_notify run_id (fail_unless (is_terminal r.status) id db)
  unfolding handle_simulate_participant_permanent_failure job_payload
  permanent_failure_steps run_id id participant_id study_id task_id seed db r h = rw h refl

  permanent_failure-HasEnded :
      (run_id id participant_id study_id task_id : ℕ) (seed : Option ℤ) (db : Database F)
      (run : SimulationRun) (r : ParticipantRun F)
      → Finds run_id db run
      → find_first (λ x. x.id == id) db.participant_runs ≡ some r
      → HasEnded id
          (handle_simulate_participant_permanent_failure
            (job_payload run_id id participant_id study_id task_id seed)
            db).0
  permanent_failure-HasEnded run_id id participant_id study_id task_id seed db run r has_run
        has_row =
      let failed = fail_unless (is_terminal r.status) id db in
      let ((ended, stored, terminal), runs) =
        failed_unless (is_terminal r.status) id db r refl has_row in
      let (_, same) =
        notified-frame run_id failed run (ap (find_first (λ x. x.id == run_id)) runs ∙ has_run) in
      rw
        (permanent_failure_steps run_id id participant_id study_id task_id seed db r
          (get_participant_run-found id db r has_row))
        (ended, ap (find_first (λ x. x.id == id)) same ∙ stored, terminal)

  -- The bookkeeping of a failure touches the one job.
  record_failure-frame :
      (job_id : ℕ) (db : Database F) (job : Job)
      → find_first (at_id job_id) db.jobs ≡ some job
      → let after = record_failure job_id 3 db in
        (after.runs ≡ db.runs)
        × (after.participant_runs ≡ db.participant_runs)
        × (find_first (at_id job_id) after.jobs
            ≡ some (record job { attempts = 3; status = job_failed }))
  unfolding record_failure set_job
  record_failure-frame job_id db job h =
      (refl, refl, find_first-amend (at_id job_id) _ db.jobs job (λ x t. t) h)

  settle-err :
      (handlers : Handlers F) (job : Job) (db : Database F)
      (r : Database F × Result ServiceError (Unit {0})) (e : ServiceError)
      → r.1 ≡ err e
      → settle handlers job db r ≡ fail_job handlers job db
  unfolding settle
  settle-err handlers job db (db', ok a) e h = cc
  settle-err handlers job db (db', err x) e h = refl

-- A participant's job as `create_run` enqueues it, claimed after two failed attempts.
abbrev pub tired_job :
    (job_id run_id id participant_id study_id task_id : ℕ) → Option ℤ → Option ℕ → Job
tired_job job_id run_id id participant_id study_id task_id seed locked_at = record {
  id = job_id;
  job_type = "simulate_participant";
  payload = job_payload run_id id participant_id study_id task_id seed;
  status = job_running;
  attempts = 2;
  locked_at = locked_at;
}

module _ (p : Platform) (executor : Executor (Config p)) (printing : Printing)
    (catalog : Catalog p.F) where
  gives_up :
      (job_id run_id id participant_id study_id task_id : ℕ) (seed : Option ℤ)
      (locked_at : Option ℕ) (db : Database p.F) (e : ServiceError)
      → let job = tired_job job_id run_id id participant_id study_id task_id seed locked_at in
        find_first (at_id job_id) db.jobs ≡ some job
        → (handle_simulate_participant p executor printing catalog job.payload db).1 ≡ err e
        → process_job (participant_handlers p executor printing catalog) job_id db
          ≡ (handle_simulate_participant_permanent_failure job.payload
              (record_failure job_id 3 db)).0
  unfolding process_job process_found find_job fail_job participant_handlers
  gives_up job_id run_id id participant_id study_id task_id seed locked_at db e found raises =
      rw found (
        settle-err (participant_handlers p executor printing catalog)
          (tired_job job_id run_id id participant_id study_id task_id seed locked_at) db
          (handle_simulate_participant p executor printing catalog
            (job_payload run_id id participant_id study_id task_id seed) db)
          e raises)

  -- A participant's job that has failed twice and whose handler raises once more, where its rows exist:
  -- whatever the handler had written, after `_process_job` the job is FAILED with three attempts, and
  -- the participant's run has an outcome, so that it does not keep its run from ending.
  pub process_job-HasEnded :
      (job_id run_id id participant_id study_id task_id : ℕ) (seed : Option ℤ)
      (locked_at : Option ℕ) (db : Database p.F) (run : SimulationRun) (r : ParticipantRun p.F)
      (e : ServiceError)
      → let job = tired_job job_id run_id id participant_id study_id task_id seed locked_at in
        find_first (at_id job_id) db.jobs ≡ some job
        → Finds run_id db run
        → find_first (λ x. x.id == id) db.participant_runs ≡ some r
        → (handle_simulate_participant p executor printing catalog job.payload db).1 ≡ err e
        → let after = process_job (participant_handlers p executor printing catalog) job_id db in
          HasEnded id after
          × (find_first (at_id job_id) after.jobs
              ≡ some (record job { attempts = 3; status = job_failed }))
  process_job-HasEnded job_id run_id id participant_id study_id task_id seed locked_at db run r e
        found has_run has_row raises =
      let failed = record_failure job_id 3 db in
      let payload = job_payload run_id id participant_id study_id task_id seed in
      let (same_runs, same_rows, recorded) = record_failure-frame job_id db _ found in
      let (new, jobs, _, _) = permanent_failure-OnlyQueues payload failed in
      rw
        (gives_up job_id run_id id participant_id study_id task_id seed locked_at db e found raises)
        (
          permanent_failure-HasEnded run_id id participant_id study_id task_id seed failed run r
              (ap (find_first (λ x. x.id == run_id)) same_runs ∙ has_run)
              (ap (find_first (λ x. x.id == id)) same_rows ∙ has_row),
          ap (find_first (at_id job_id)) jobs
              ∙ found_after_append (at_id job_id) failed.jobs new _ recorded,
        )
