-- ===== src/Examples/Queueing.antt =====
-- The theorems on the workers' queue, and on one participant's job, at a small database.
use syn_koala.Prelude.{
  ℕ, ◌≡◌, refl, arith, pos, true, some, [], ◌∷◌, ok, ◌==◌, find_first, err, none,
}
use syn_koala.Graph.{resolve_starting_screen}
use syn_koala.Graph.Starts.{resolve_starting_screen-Shows, Has, Starts}
use syn_koala.Database.{ParticipantRun, running, waiting, is_terminal, Database, job_failed}
use syn_koala.Jobs.{process_job, Handlers, handle, keep_books}
use syn_koala.Jobs.Pool.{Pool, here, begin, step, process, IsSound}
use syn_koala.Jobs.Exclusive.{Reach-IsSound}
use syn_koala.Jobs.Lawful.{Queues, participant_handlers-Queues, participant-OnlyEnqueue}
use syn_koala.Jobs.Participant.{Printing, participant_handlers, handle_simulate_participant}
use syn_koala.Jobs.Completes.{handle_simulate_participant-returns}
use syn_koala.Launch.{job_payload}
use syn_koala.Database.Session.{not_found}
use syn_koala.Runs.{get_by_id, get_participant_run}
use syn_koala.Studies.{Catalog}
use syn_koala.Jobs.Queue.{at_id}
use syn_koala.Jobs.GivesUp.{HasEnded, tired_job, process_job-HasEnded}
use syn_koala.Samples.Fixed.{fixed, executor}
use syn_koala.Samples.Signup.{sign_up_graph, sign_up-IsClosed}
use syn_koala.Samples.Records.{
  run_with, database, catalog, task_model, participant_record, participant_run,
}

abbrev printing : Printing
printing = record { of_number = λ n. "7"; of_uuid = λ id. "9" }

handlers : Handlers fixed.F
handlers = participant_handlers fixed executor printing catalog

participant_handlers-Queues_example :
    let handlers = participant_handlers fixed executor printing catalog in
    let payload = job_payload 10 11 9 1 5 (some (pos 7)) in
    let db = database running waiting waiting in
    Queues db (handle (handlers.handler "simulate_participant") payload db).0
    × Queues db (keep_books (handlers.on_permanent_failure "simulate_participant") payload db)
participant_handlers-Queues_example =
    participant_handlers-Queues fixed executor printing catalog "simulate_participant"
      (job_payload 10 11 9 1 5 (some (pos 7))) (database running waiting waiting)

-- A worker holds job 13.
abbrev busy : Pool fixed.F
busy = record { db = database running waiting waiting; held = 13 ∷ [] }

busy-IsSound : IsSound busy
busy-IsSound = record {
  ascending = (omega arith, (omega arith, omega arith));
  kept = (omega arith, (omega arith, tt));
  held = ((_, refl, refl), tt);
  distinct = (tt, tt);
}

abbrev after : Pool fixed.F
after = record {
  db = process_job (participant_handlers fixed executor printing catalog) 13 busy.db;
  held = [];
}

Reach-IsSound_example : IsSound after
Reach-IsSound_example =
    Reach-IsSound (participant_handlers fixed executor printing catalog)
      (participant-OnlyEnqueue fixed executor printing catalog) busy-IsSound
      (step begin (process busy.db (13 ∷ []) [] 13 (here 13 [])))

resolve_starting_screen-Shows_example :
    (start : ℕ) × (resolve_starting_screen sign_up_graph (some "done") ≡ some start)
    × Has sign_up_graph.screens start
    × Starts sign_up_graph.screens (some "done") start
resolve_starting_screen-Shows_example =
    resolve_starting_screen-Shows sign_up_graph (some "done") (refl, (refl, tt)) refl

handle_simulate_participant-returns_example :
    let after =
      handle_simulate_participant fixed executor printing catalog
        (job_payload 10 11 9 1 5 (some (pos 7)))
        (database running waiting waiting) in
    (after.1 ≡ ok tt)
    × (ended : ParticipantRun fixed.F) × (find_first (λ x. x.id == 11) after.0.participant_runs
        ≡ some ended)
    × (is_terminal ended.status ≡ true)
unfolding syn_koala.Jobs.Participant.configured_model
handle_simulate_participant-returns_example =
    handle_simulate_participant-returns fixed executor printing catalog 10 11 9 1 5 (some (pos 7))
      (database running waiting waiting) (run_with running) (participant_run 11 waiting)
      (participant_record 9) task_model none refl refl refl refl (refl, (refl, tt)) sign_up-IsClosed
      refl refl

-- The task is gone, so that the handler raises, for the third time.
abbrev without_task : Catalog fixed.F
without_task = record catalog { get_task = λ id. none }

abbrev tired : Database fixed.F
tired = record (database running waiting waiting) {
  jobs = tired_job 13 10 11 9 1 5 none (some 400) ∷ [];
}

raises :
    (handle_simulate_participant fixed executor printing without_task
      (job_payload 10 11 9 1 5 none)
      tired).1
    ≡ err not_found
unfolding handle_simulate_participant job_payload get_by_id get_participant_run
raises = refl

process_job-HasEnded_example :
    let after = process_job (participant_handlers fixed executor printing without_task) 13 tired in
    HasEnded 11 after
    × (find_first (at_id 13) after.jobs
        ≡ some (record (tired_job 13 10 11 9 1 5 none (some 400)) {
          attempts = 3;
          status = job_failed;
        }))
process_job-HasEnded_example =
    process_job-HasEnded fixed executor printing without_task 13 10 11 9 1 5 none (some 400) tired
      (run_with running) (participant_run 11 waiting) not_found refl refl refl raises
