-- ===== src/Jobs/Lawful.antt =====
-- The handlers of app/workers/jobs/simulate_participant.py only enqueue jobs, whether they return or
-- raise: they satisfy what the pool of workers asks of a handler.
use mathlib.Core.List.{append_assoc, append-nil}
use syn_koala.Prelude.{
  ℕ, ◌≡◌, ◌<◌, refl, subst, List, All, All-map, ap, sym, ◌∙◌, arith, String, any, is_nonempty, Bool,
  true, false, Option, none, some, [], ◌++◌, if◌then◌else◌, str_eq, All-append, Result, ok, err,
  lookup,
}
use syn_koala.Platform.{Platform}
use syn_koala.Simulation.Flow.{Config, Executor, RunError}
use syn_koala.Simulation.Nodes.{Sim}
use syn_koala.Database.{
  Database, is_terminal, SimulationRun, Job, job_pending, Field, uuid, seed_field,
}
use syn_koala.Database.Session.{
  Tx, ◌>>=◌, ◌>>◌, resume, found_or, require, ServiceError, not_found, lifecycle_error, value_error,
  type_error,
}
use syn_koala.Runs.{
  get_by_id, lock_for_finalize, get_participant_run, is_run_complete, finalize_run,
  complete_participant_run, set_run, set_participant_run,
}
use syn_koala.Studies.{Catalog, TaskModel, ParticipantRecord}
use syn_koala.Graph.{ScreenGraph, resolve_starting_screen}
use syn_koala.Jobs.{
  Fields, Handlers, uuid_at, uuid_of, handle, keep_books, enqueue, new_job, max_attempts,
}
use syn_koala.Jobs.Queue.{Kept, Ascending, Ascending-append}
use syn_koala.Jobs.Pool.{Enqueues, OnlyEnqueue}
use syn_koala.Jobs.Participant.{
  Printing, aggregate_if, finalize_if, announce, notify, finalize_run_and_notify, fail_unless,
  handle_simulate_participant_permanent_failure, handle_simulate_participant, awaited, record_run,
  is_aggregated, configured_model, simulate, participant_handlers,
}

-- A job that waits, was never tried, and is for the analytics engine.
abbrev pub IsQueued : Job → Type 0
IsQueued j = (j.status ≡ job_pending) × (j.attempts ≡ 0) × (j.job_type ≡ "aggregate_run")

IsQueued-Kept : (j : Job) → IsQueued j → Kept j.status j.attempts
IsQueued-Kept j (waits, untried, _) =
    subst (λ s. Kept s j.attempts) (sym waits)
      (subst (λ n. n < max_attempts) (sym untried) (omega arith))

module _ {F : Type 0} where
  -- Between the two databases such jobs were added behind the others, under new ids, and no job changed.
  abbrev pub Queues : Database F → Database F → Type 0
  Queues db after =
      (new : List Job) × (after.jobs ≡ db.jobs ++ new)
      × Ascending db.next_id after.next_id new
      × All IsQueued new

  -- Such jobs are what a handler may leave.
  pub Queues-Enqueues : (db after : Database F) → Queues db after → Enqueues db after
  Queues-Enqueues db after (new, jobs, above, queued) =
      (new, jobs, above, All-map IsQueued (λ j. Kept j.status j.attempts) IsQueued-Kept new queued)

  abbrev pub OnlyQueues : {A : Type 0} → Tx (Database F) A → Type 0
  OnlyQueues m = (db : Database F) → Queues db (m db).0

  -- A step that touches neither the queue nor the ids.
  no_new : (db : Database F) → Queues db db
  no_new db = ([], sym (append-nil db.jobs), omega arith, tt)

  then-Queues : (db mid after : Database F) → Queues db mid → Queues mid after → Queues db after
  then-Queues db mid after (first, jobs, above, kept) (second, jobs', above', kept') = (
    first ++ second,
    jobs' ∙ (ap (λ js. js ++ second) jobs ∙ append_assoc db.jobs first second),
    Ascending-append db.next_id mid.next_id after.next_id first second above above',
    All-append IsQueued first second kept kept',
  )

  module _ {A B : Type 0} where
    resumed :
        (db : Database F) (r : Database F × Result ServiceError A) (after : A → Tx (Database F) B)
        → Queues db r.0
        → ((a : A) → OnlyQueues (after a))
        → Queues db (resume r after).0
    resumed db (mid, ok a) after e f = then-Queues db mid (after a mid).0 e (f a mid)
    resumed db (mid, err x) after e f = e

    -- A sequence of steps that only enqueue only enqueues.
    sequenced :
        (m : Tx (Database F) A) (after : A → Tx (Database F) B)
        → OnlyQueues m
        → ((a : A) → OnlyQueues (after a))
        → OnlyQueues (m >>= after)
    sequenced m after e f db = resumed db (m db) after (e db) f

  followed :
      {A B : Type 0} (m : Tx (Database F) A) (after : Tx (Database F) B)
      → OnlyQueues m
      → OnlyQueues after
      → OnlyQueues (m >> after)
  followed m after e f db = resumed db (m db) (λ _. after) (e db) (λ _. f)

  found-OnlyQueues : {A : Type 0} (e : ServiceError) (o : Option A) → OnlyQueues (found_or e o)
  found-OnlyQueues e none db = no_new db
  found-OnlyQueues e (some a) db = no_new db

  require-OnlyQueues : (e : ServiceError) (test : Bool) → OnlyQueues (require e test)
  require-OnlyQueues e true db = no_new db
  require-OnlyQueues e false db = no_new db

  uuid_of-OnlyQueues : (field : Option Field) → OnlyQueues (uuid_of field)
  uuid_of-OnlyQueues none db = no_new db
  uuid_of-OnlyQueues (some (uuid id)) db = no_new db
  uuid_of-OnlyQueues (some (seed_field n)) db = no_new db

  uuid_at-OnlyQueues : (payload : Fields) (key : String) → OnlyQueues (uuid_at payload key)
  uuid_at-OnlyQueues payload key db = uuid_of-OnlyQueues (lookup payload key) db

  get_by_id-OnlyQueues : (run_id : ℕ) → OnlyQueues (get_by_id run_id)
  unfolding get_by_id
  get_by_id-OnlyQueues run_id db = found-OnlyQueues _ _ db

  get_participant_run-OnlyQueues : (id : ℕ) → OnlyQueues (get_participant_run id)
  unfolding get_participant_run
  get_participant_run-OnlyQueues id db = found-OnlyQueues _ _ db

  finalize_run-OnlyQueues : (run_id : ℕ) → OnlyQueues (finalize_run run_id)
  unfolding finalize_run set_run
  finalize_run-OnlyQueues run_id =
      sequenced (get_by_id run_id) _ (get_by_id-OnlyQueues run_id) (λ run db. no_new db)

  aggregate_if-OnlyQueues : (test : Bool) (run_id : ℕ) → OnlyQueues (aggregate_if test run_id)
  unfolding aggregate_if enqueue new_job
  aggregate_if-OnlyQueues true run_id db =
      (_, refl, (omega arith, omega arith), ((refl, refl, refl), tt))
  aggregate_if-OnlyQueues false run_id db = no_new db

  finalize_if-OnlyQueues : (test : Bool) (run_id : ℕ) → OnlyQueues (finalize_if test run_id)
  unfolding finalize_if
  finalize_if-OnlyQueues true run_id db =
      sequenced (finalize_run run_id) _ (finalize_run-OnlyQueues run_id)
        (λ run. aggregate_if-OnlyQueues (is_aggregated run.status) run_id) db
  finalize_if-OnlyQueues false run_id db = no_new db

  announce-OnlyQueues : (run_id : ℕ) → OnlyQueues (announce run_id)
  unfolding announce notify
  announce-OnlyQueues run_id =
      sequenced (get_by_id run_id) _ (get_by_id-OnlyQueues run_id) (λ run db. no_new db)

  finalize_run_and_notify-OnlyQueues : (run_id : ℕ) → OnlyQueues (finalize_run_and_notify run_id)
  unfolding finalize_run_and_notify lock_for_finalize
  finalize_run_and_notify-OnlyQueues run_id =
      sequenced (get_by_id run_id) _ (get_by_id-OnlyQueues run_id) (λ locked db.
        sequenced (finalize_if (is_run_complete run_id db) run_id) _
          (finalize_if-OnlyQueues (is_run_complete run_id db) run_id)
          (λ _. announce-OnlyQueues run_id) db)

  fail_unless-untouched :
      (test : Bool) (id : ℕ) (db : Database F) → Queues db (fail_unless test id db)
  unfolding fail_unless complete_participant_run set_participant_run
  fail_unless-untouched true id db = no_new db
  fail_unless-untouched false id db = no_new db

  pub permanent_failure-OnlyQueues :
      (payload : Fields) → OnlyQueues (handle_simulate_participant_permanent_failure payload)
  unfolding handle_simulate_participant_permanent_failure
  permanent_failure-OnlyQueues payload =
      sequenced (uuid_at payload "simulation_run_id") _
        (uuid_at-OnlyQueues payload "simulation_run_id")
        (λ run_id.
          sequenced (uuid_at payload "participant_run_id") _
            (uuid_at-OnlyQueues payload "participant_run_id")
            (λ id. sequenced (get_participant_run id) _ (get_participant_run-OnlyQueues id) (λ r db.
              let failed = fail_unless (is_terminal r.status) id db in
              then-Queues db failed (finalize_run_and_notify run_id failed).0
                (fail_unless-untouched (is_terminal r.status) id db)
                (finalize_run_and_notify-OnlyQueues run_id failed))))

module _ (p : Platform) (executor : Executor (Config p)) (printing : Printing)
    (catalog : Catalog p.F) where
  awaited-OnlyQueues :
      (r : Result RunError (Sim p)) → OnlyQueues (awaited p executor printing catalog r)
  awaited-OnlyQueues (ok final) db = no_new db
  awaited-OnlyQueues (err e) db = no_new db

  record_run-untouched :
      (id : ℕ) (final : Sim p) (db : Database p.F)
      → Queues db (record_run p executor printing catalog id final db)
  unfolding record_run complete_participant_run set_participant_run
  record_run-untouched id final db = no_new db

  simulate-OnlyQueues :
      (run : SimulationRun) (participant : ParticipantRecord p.F) (task : TaskModel)
      (graph : ScreenGraph)
      → OnlyQueues (simulate p executor printing catalog run participant task graph)
  unfolding simulate
  simulate-OnlyQueues run participant task graph =
      let screens = any (λ s. is_nonempty s.1.elements) graph.screens in
      let start = resolve_starting_screen graph task.starting_point in
      followed (require lifecycle_error screens) _ (require-OnlyQueues lifecycle_error screens) (
        sequenced (found_or type_error (configured_model run.config)) _
          (found-OnlyQueues type_error (configured_model run.config))
          (λ name.
            sequenced (found_or value_error start) _ (found-OnlyQueues value_error start)
              (λ first. awaited-OnlyQueues _)))

  -- What follows the look-ups of the payload.
  simulate_participant-OnlyQueues :
      (payload : Fields)
      → OnlyQueues (handle_simulate_participant p executor printing catalog payload)
  unfolding handle_simulate_participant
  simulate_participant-OnlyQueues payload =
      sequenced (uuid_at payload "simulation_run_id") _
        (uuid_at-OnlyQueues payload "simulation_run_id")
        (λ run_id.
          sequenced (uuid_at payload "participant_run_id") _
            (uuid_at-OnlyQueues payload "participant_run_id")
            (λ id.
              sequenced (uuid_at payload "participant_id") _
                (uuid_at-OnlyQueues payload "participant_id")
                (λ participant_id.
                  sequenced (uuid_at payload "study_id") _ (uuid_at-OnlyQueues payload "study_id")
                    (λ study_id.
                      sequenced (uuid_at payload "task_id") _ (uuid_at-OnlyQueues payload "task_id")
                        (λ task_id.
                          sequenced (get_by_id run_id) _ (get_by_id-OnlyQueues run_id) (λ run.
                            sequenced (get_participant_run id) _ (get_participant_run-OnlyQueues id)
                              (λ r.
                                sequenced
                                  (found_or not_found (catalog.get_participant participant_id)) _
                                  (found-OnlyQueues not_found
                                    (catalog.get_participant participant_id))
                                  (λ participant.
                                    sequenced (found_or not_found (catalog.get_task task_id)) _
                                      (found-OnlyQueues not_found (catalog.get_task task_id))
                                      (λ task.
                                        sequenced
                                          (simulate p executor printing catalog run participant task
                                            (catalog.get_screen_graph study_id))
                                          _
                                          (simulate-OnlyQueues run participant task
                                            (catalog.get_screen_graph study_id))
                                          (λ final db.
                                            let recorded =
                                              record_run p executor printing catalog id final db in
                                            then-Queues db recorded
                                              (finalize_run_and_notify run_id recorded).0
                                              (record_run-untouched id final db)
                                              (finalize_run_and_notify-OnlyQueues run_id
                                                recorded)))))))))))

  -- The two handlers of a participant's job change no job that there is, in any database, and whether they
  -- return or raise: they only add `aggregate_run` jobs behind the others, under new ids, each PENDING and
  -- without attempts.
  pub participant_handlers-Queues :
      (job_type : String) (payload : Fields) (db : Database p.F)
      → let handlers = participant_handlers p executor printing catalog in
        Queues db (handle (handlers.handler job_type) payload db).0
        × Queues db (keep_books (handlers.on_permanent_failure job_type) payload db)
  unfolding participant_handlers
  participant_handlers-Queues job_type payload db = by_name (str_eq job_type "simulate_participant")
    where
      by_name :
          (known : Bool)
          → Queues db
              (handle
                (if known
                  then some (handle_simulate_participant p executor printing catalog)
                  else none)
                payload
                db).0
            × Queues db (
                keep_books
                  (if known then some handle_simulate_participant_permanent_failure else none)
                  payload
                  db)
      by_name true =
          (simulate_participant-OnlyQueues payload db, permanent_failure-OnlyQueues payload db)
      by_name false = (no_new db, no_new db)

  handlers : Handlers p.F
  handlers = participant_handlers p executor printing catalog

  -- So they satisfy the law of the pool.
  pub participant-OnlyEnqueue : OnlyEnqueue (participant_handlers p executor printing catalog)
  unfolding handlers
  participant-OnlyEnqueue = record {
    handling = λ job_type payload db.
        Queues-Enqueues db (handle (handlers.handler job_type) payload db).0
          (participant_handlers-Queues job_type payload db).0;
    bookkeeping = λ job_type payload db.
        Queues-Enqueues db (keep_books (handlers.on_permanent_failure job_type) payload db)
          (participant_handlers-Queues job_type payload db).1;
  }
