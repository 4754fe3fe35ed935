-- ===== src/Jobs.antt =====
-- The queue: app/services/job_service.py, and app/workers/runner.py, which works it off. The runner
-- takes the handlers of app/workers/jobs/__init__.py as a parameter.
pub mod Participant
pub mod Finalize
pub mod Queue
pub mod Pool
pub mod Exclusive
pub mod Lawful
pub mod Completes
pub mod GivesUp
use syn_koala.Prelude.{
  ℕ, ◌+◌, String, Bool, true, false, ◌&&◌, Option, none, some, List, [], ◌∷◌, ◌++◌, if◌then◌else◌,
  ltb, ◌==◌, str_eq, find_first, lookup, Result, ok, err,
}
use syn_koala.Database.{
  Database, Job, Field, uuid, seed_field, JobStatus, job_pending, job_running, job_done, job_failed,
  job_cancelled, is_job_pending,
}
use syn_koala.Database.Session.{
  Tx, ◌>>=◌, ◌>>◌, return, raise, read, write, ServiceError, payload_error, no_handler,
}
use syn_koala.Database.Rows.{amend}

abbrev pub max_attempts : ℕ
max_attempts = 3

abbrev pub Fields : Type 0
Fields = List (String × Field)

abbrev pub uuid_of : {D : Type 0} → Option Field → Tx D ℕ
uuid_of none db = (db, err payload_error)
uuid_of (some (uuid id)) db = (db, ok id)
uuid_of (some (seed_field _)) db = (db, err payload_error)

-- `uuid.UUID(payload[key])`
abbrev pub uuid_at : {D : Type 0} → Fields → String → Tx D ℕ
uuid_at payload key = uuid_of (lookup payload key)

-- `payload[key].astext == value`, for a value that is a UUID
abbrev pub has_uuid : String → ℕ → Fields → Bool
has_uuid key value payload = elim (lookup payload key) [
  | none ↦ false
  | some (uuid id) ↦ id == value
  | some (seed_field _) ↦ false
]

unfoldable pub new_job : ℕ → String → Fields → Job
new_job id job_type payload = record {
  id = id;
  job_type = job_type;
  payload = payload;
  status = job_pending;
  attempts = 0;
  locked_at = none;
}

module _ {F : Type 0} where
  unfoldable pub enqueue : String → Fields → Database F → Database F
  unfolding new_job
  enqueue job_type payload db = record db {
    jobs = db.jobs ++ new_job db.next_id job_type payload ∷ [];
    next_id = db.next_id + 1;
  }

  unfoldable pub cancel_pending : String → String → ℕ → Database F → Database F
  cancel_pending job_type payload_key payload_value db = record db {
    jobs =
        amend
          (λ j.
            str_eq j.job_type job_type
            && (has_uuid payload_key payload_value j.payload && is_job_pending j.status))
          (λ j. record j { status = job_cancelled }) db.jobs;
  }

  unfoldable pub set_job : ℕ → (Job → Job) → Database F → Database F
  set_job job_id change db = record db { jobs = amend (λ j. j.id == job_id) change db.jobs }

  unfoldable pub find_job : ℕ → Database F → Option Job
  find_job job_id db = find_first (λ j. j.id == job_id) db.jobs

  unfoldable pub claim_at : Option Job → Database F → Database F × Option ℕ
  unfolding set_job
  claim_at none db = (db, none)
  claim_at (some job) db = (
    set_job job.id (λ j. record j { status = job_running; locked_at = some db.now }) db,
    some job.id,
  )

  -- The oldest PENDING job; the statement locks its row until the commit.
  unfoldable pub claim_one_job : Database F → Database F × Option ℕ
  unfolding claim_at
  claim_one_job db = claim_at (find_first (λ j. is_job_pending j.status) db.jobs) db

abbrev pub status_after : ℕ → JobStatus
status_after attempts = if ltb attempts max_attempts then job_pending else job_failed

-- `HANDLERS` and `ON_PERMANENT_FAILURE`
pub record Handlers (F : Type 0) : Type 0 where
  pub handler : String → Option (Fields → Tx (Database F) (Unit {0}))
  pub on_permanent_failure : String → Option (Fields → Tx (Database F) (Unit {0}))

module _ {F : Type 0} where
  -- `handler = HANDLERS.get(job_type)`, and its call
  abbrev pub handle :
      Option (Fields → Tx (Database F) (Unit {0})) → Fields → Tx (Database F) (Unit {0})
  handle none payload db = (db, err no_handler)
  handle (some handler) payload db = handler payload db

  -- The call of `on_permanent_failure`: an exception is logged, and what was written stays.
  abbrev pub keep_books :
      Option (Fields → Tx (Database F) (Unit {0})) → Fields → Database F → Database F
  keep_books none payload db = db
  keep_books (some books) payload db = (books payload db).0

  -- The `except` branch: the job's attempts and status, in the database after the rollback.
  unfoldable pub record_failure : ℕ → ℕ → Database F → Database F
  unfolding set_job
  record_failure job_id attempts =
      set_job job_id (λ j. record j { attempts = attempts; status = status_after attempts })

  unfoldable pub fail_job : Handlers F → Job → Database F → Database F
  unfolding record_failure
  fail_job handlers job db =
      let attempts = job.attempts + 1 in
      let failed = record_failure job.id attempts db in
      if ltb attempts max_attempts
      then failed
      else keep_books (handlers.on_permanent_failure job.job_type) job.payload failed

  -- The handler's end, in the database from before it.
  unfoldable pub settle :
      Handlers F → Job → Database F → Database F × Result ServiceError (Unit {0}) → Database F
  unfolding set_job fail_job
  settle handlers job before (db, ok _) = set_job job.id (λ j. record j { status = job_done }) db
  settle handlers job before (db, err e) = fail_job handlers job before

  unfoldable pub process_found : Handlers F → Option Job → Database F → Database F
  unfolding settle
  process_found handlers none db = db
  process_found handlers (some job) db =
      settle handlers job db (handle (handlers.handler job.job_type) job.payload db)

  unfoldable pub process_job : Handlers F → ℕ → Database F → Database F
  unfolding process_found find_job
  process_job handlers job_id db = process_found handlers (find_job job_id db) db
