-- ===== src/Jobs/Exclusive.antt =====
-- No two workers of app/workers/runner.py hold one job, and no job is tried more than three times.
use syn_koala.Prelude.{
  ℕ, ◌+◌, ◌<◌, ◌≡◌, ◌≢◌, refl, ap, sym, subst, ◌∙◌, Bool, true, false, List, ◌∷◌, if◌then◌else◌,
  ltb, Result, ok, err, find_first-All, ==_iff,
}
use syn_koala.Database.{Database, Job, job_running, job_done}
use syn_koala.Database.Session.{ServiceError}
use syn_koala.Database.Rows.{find_first-passes}
use syn_koala.Jobs.{
  Handlers, handle, set_job, find_job, claim_one_job, record_failure, fail_job, settle,
  process_found, process_job, max_attempts, status_after,
}
use syn_koala.Jobs.Queue.{IsKept, at_id, Ascending-amend, amend_one-All, found_after_amend}
use syn_koala.Jobs.Pool.{
  Takes, Pool, Step, claim, process, request, withdraw, Reach, begin, step, Enqueues, OnlyEnqueue,
  IsHeld, IsSound,
}
use syn_koala.Jobs.Pool.Entries.{
  Takes-All, Takes-Distinct, All-map2, ne→beq, running_room, status_after-Kept,
}
use syn_koala.Jobs.Pool.Requests.{claimed, enqueued, withdrawn, enqueue-Enqueues}

module _ {F : Type 0} where
  -- A worker lets go of the job that it updates.
  released :
      (db : Database F) (held rest : List ℕ) (id : ℕ) (change : Job → Job)
      → ((r : Job) → (change r).id ≡ r.id)
      → ((r : Job) → r.status ≡ job_running → IsKept r → IsKept (change r))
      → Takes id held rest
      → IsSound (record { db = db; held = held })
      → IsSound (record { db = set_job id change db; held = rest })
  unfolding set_job
  released db held rest id change same keeps takes sound =
      let ((j, found, status), others) = Takes-All (IsHeld db) takes sound.held in
      let (fresh, distinct) = Takes-Distinct takes sound.distinct in
      record {
        ascending = Ascending-amend (at_id id) change 0 db.next_id db.jobs same sound.ascending;
        kept =
            amend_one-All IsKept id 0 db.next_id change db.jobs j sound.ascending found
              (keeps j status (find_first-All IsKept (at_id id) db.jobs j sound.kept found))
              sound.kept;
        held = All-map2 (IsHeld db) (λ k. id ≢ k) _ rest still others fresh;
        distinct = distinct;
      }
    where
      still : (k : ℕ) → IsHeld db k → id ≢ k → IsHeld (set_job id change db) k
      still k (r, found, status) other = (
        r,
        found_after_amend k (at_id id) change db.jobs r same found (
            ne→beq id r.id
              (λ e. other (e ∙ (==_iff r.id k).0 (find_first-passes (at_id k) db.jobs r found)))),
        status,
      )

  -- The bookkeeping of a permanent failure, where the attempts are used up.
  booked :
      (again : Bool) (failed after : Database F) (rest : List ℕ)
      → Enqueues failed after
      → IsSound (record { db = failed; held = rest })
      → IsSound (record { db = if again then failed else after; held = rest })
  booked true failed after rest new sound = sound
  booked false failed after rest new sound = enqueued failed after rest new sound

  settled :
      (handlers : Handlers F)
      → OnlyEnqueue handlers
      → (db : Database F) (held rest : List ℕ) (j : Job)
      → (r : Database F × Result ServiceError (Unit {0})) → Takes j.id held rest
      → j.attempts < max_attempts
      → Enqueues db r.0
      → IsSound (record { db = db; held = held })
      → IsSound (record { db = settle handlers j db r; held = rest })
  unfolding settle fail_job record_failure
  settled handlers law db held rest j (db', ok _) takes room new sound =
      released db' held rest j.id (λ r. record r { status = job_done }) (λ r. refl)
        (λ r e k. running_room r e k) takes (enqueued db db' held new sound)
  settled handlers law db held rest j (db', err e) takes room new sound =
      let failed = record_failure j.id (j.attempts + 1) db in
      let recorded : IsSound (record { db = failed; held = rest }) =
        released db held rest j.id
          (λ r. record r { attempts = j.attempts + 1; status = status_after (j.attempts + 1) })
          (λ r. refl) (λ r e k. status_after-Kept j.attempts room) takes sound in
      booked (ltb (j.attempts + 1) max_attempts) failed _ rest
        (law.bookkeeping j.job_type j.payload failed) recorded

  processed :
      (handlers : Handlers F)
      → OnlyEnqueue handlers
      → (db : Database F) (held rest : List ℕ) (id : ℕ) → Takes id held rest
      → IsSound (record { db = db; held = held })
      → IsSound (record { db = process_job handlers id db; held = rest })
  unfolding process_job process_found find_job
  processed handlers law db held rest id takes sound =
      let ((j, found, status), _) = Takes-All (IsHeld db) takes sound.held in
      let own : j.id ≡ id = (==_iff j.id id).0 (find_first-passes (at_id id) db.jobs j found) in
      rw found (
        settled handlers law db held rest j (handle (handlers.handler j.job_type) j.payload db)
          (subst (λ k. Takes k held rest) (sym own) takes)
          (running_room j status (find_first-All IsKept (at_id id) db.jobs j sound.kept found))
          (law.handling j.job_type j.payload db) sound)

  Step-IsSound :
      (handlers : Handlers F)
      → OnlyEnqueue handlers
      → {s t : Pool F} → Step handlers s t
      → IsSound s
      → IsSound t
  unfolding claim_one_job
  Step-IsSound handlers law (claim db db' held id room h) sound =
      subst (λ d. IsSound (record { db = d; held = id ∷ held })) (ap (λ r. r.0) h)
        (claimed db held _ id refl (ap (λ r. r.1) h) sound)
  Step-IsSound handlers law (process db held rest id takes) sound =
      processed handlers law db held rest id takes sound
  Step-IsSound handlers law (request db held job_type payload) sound =
      enqueued db _ held (enqueue-Enqueues job_type payload db) sound
  Step-IsSound handlers law (withdraw db held job_type payload_key value) sound =
      withdrawn db held job_type payload_key value sound

  -- However the workers' claims, their processing of jobs and the requests that enqueue and cancel jobs
  -- interleave, under handlers that only enqueue jobs, a pool that began sound stays sound: no job is
  -- held by two workers, every job that a worker holds is RUNNING, no job has been tried more than
  -- three times, and a job is FAILED exactly where it was tried three times.
  pub Reach-IsSound :
      (handlers : Handlers F)
      → OnlyEnqueue handlers
      → {s t : Pool F} → IsSound s
      → Reach handlers s t
      → IsSound t
  Reach-IsSound handlers law sound begin = sound
  Reach-IsSound handlers law sound (step reach next) =
      Step-IsSound handlers law next (Reach-IsSound handlers law sound reach)
