-- ===== src/Jobs/Pool.antt =====
-- The workers of app/workers/runner.py over one queue: each claims a job and processes it, in any
-- order, while requests enqueue and cancel jobs.
pub mod Entries
pub mod Requests
use syn_koala.Prelude.{
  ℕ, zero, suc, ◌+◌, ◌≤◌, ◌<◌, ◌≡◌, ◌≢◌, refl, ap, sym, subst, ◌∙◌, arith, String, Bool, true,
  false, ◌&&◌, Option, none, some, List, [], ◌∷◌, ◌++◌, if◌then◌else◌, ◌==◌, ltb, str_eq, length,
  find_first, Bool-cases, Option-cases, inl, inr, All, All-append, Result, ok, err, find_first-All,
}
use syn_koala.Database.{
  Database, Job, JobStatus, job_pending, job_running, job_done, job_failed, job_cancelled,
  is_job_pending,
}
use syn_koala.Database.Session.{Tx}
use syn_koala.Database.Rows.{amend, amend-All, find_first-amend, find_first-passes}
use syn_koala.Jobs.{
  Fields, Handlers, handle, keep_books, has_uuid, new_job, enqueue, cancel_pending, set_job,
  find_job, claim_at, claim_one_job, record_failure, fail_job, settle, process_found, process_job,
  max_attempts, status_after,
}
use syn_koala.Jobs.Queue.{
  Ascending, Kept, IsKept, at_id, Ascending-append, Ascending-amend, found_by_id, amend_one-All,
  found_after_amend, found_after_append,
}

abbrev pub num_workers : ℕ
num_workers = 5

-- A list without one of its entries.
pub data Takes : ℕ → List ℕ → List ℕ → Type 0 where
  here : (id : ℕ) (rest : List ℕ) → Takes id (id ∷ rest) rest
  later :
      {id : ℕ} {held rest : List ℕ} (other : ℕ)
      → Takes id held rest
      → Takes id (other ∷ held) (other ∷ rest)

abbrev pub Distinct : List ℕ → Type 0
Distinct [] = Unit
Distinct (id ∷ ids) = All (λ other. id ≢ other) ids × Distinct ids

-- The database, and the jobs that workers have claimed and not finished.
pub record Pool (F : Type 0) : Type 0 where
  pub db : Database F
  pub held : List ℕ

module _ {F : Type 0} (handlers : Handlers F) where
  pub data Step : Pool F → Pool F → Type 0 where
    claim :
        (db db' : Database F) (held : List ℕ) (id : ℕ)
        → length held < num_workers
        → claim_one_job db ≡ (db', some id)
        → Step (record { db = db; held = held }) (record { db = db'; held = id ∷ held })
    process :
        (db : Database F) (held rest : List ℕ) (id : ℕ)
        → Takes id held rest
        → Step
            (record { db = db; held = held })
            (record { db = process_job handlers id db; held = rest })
    request :
        (db : Database F) (held : List ℕ) (job_type : String) (payload : Fields)
        → Step
            (record { db = db; held = held })
            (record { db = enqueue job_type payload db; held = held })
    withdraw :
        (db : Database F) (held : List ℕ) (job_type payload_key : String) (value : ℕ)
        → Step
            (record { db = db; held = held })
            (record { db = cancel_pending job_type payload_key value db; held = held })

  pub data Reach (start : Pool F) : Pool F → Type 0 where
    begin : Reach start start
    step : {s t : Pool F} → Reach start s → Step s t → Reach start t

module _ {F : Type 0} where
  -- Between the two databases jobs were only enqueued.
  abbrev pub Enqueues : Database F → Database F → Type 0
  Enqueues db after =
      (new : List Job) × (after.jobs ≡ db.jobs ++ new)
      × Ascending db.next_id after.next_id new
      × All (λ j. Kept j.status j.attempts) new

  -- A handler only enqueues, whether it returns or raises.
  pub record OnlyEnqueue (handlers : Handlers F) : Type 0 where
    pub handling :
        (job_type : String) (payload : Fields) (db : Database F)
        → Enqueues db (handle (handlers.handler job_type) payload db).0
    pub bookkeeping :
        (job_type : String) (payload : Fields) (db : Database F)
        → Enqueues db (keep_books (handlers.on_permanent_failure job_type) payload db)

  abbrev pub IsHeld : Database F → ℕ → Type 0
  IsHeld db id = (j : Job) × (find_first (at_id id) db.jobs ≡ some j) × (j.status ≡ job_running)

  pub record IsSound (pool : Pool F) : Type 0 where
    pub ascending : Ascending 0 pool.db.next_id pool.db.jobs
    pub kept : All IsKept pool.db.jobs
    pub held : All (IsHeld pool.db) pool.held
    pub distinct : Distinct pool.held
