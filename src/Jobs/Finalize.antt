-- ===== src/Jobs/Finalize.antt =====
-- The end of a run in app/workers/jobs/simulate_participant.py: `_finalize_run_and_notify`.
use syn_koala.Prelude.{
  ℕ, ◌≡◌, ◌≢◌, refl, ap, subst, ◌∙◌, Bool, true, false, ◌&&◌, some, List, [], count_if, Bool-cases,
  inl, inr, ◌∷◌, ◌++◌, ◌==◌, if◌then◌else◌, find_first, ok,
}
use syn_koala.Database.{
  Database, SimulationRun, RunStatus, run_completed, run_cancelled, cancelling, Job, uuid,
  ParticipantRun, Snapshot, is_terminal,
}
use syn_koala.Database.Session.{resume, resume-ok}
use syn_koala.Runs.{
  is_run_complete, count_total, count_terminal, final_status, get_by_id, lock_for_finalize, set_run,
}
use syn_koala.Runs.Completion.{AllErrored, finalize_run-found, final_status-simulated}
use syn_koala.Jobs.{new_job, enqueue}
use syn_koala.Jobs.Participant.{
  finalize_run_and_notify, finalize_if, aggregate_if, is_aggregated, notify, announce,
}

module _ {F : Type 0} where
  abbrev pub Finds : ℕ → Database F → SimulationRun → Type 0
  Finds run_id db run = find_first (λ r. r.id == run_id) db.runs ≡ some run

  abbrev pub final_row : ℕ → Database F → SimulationRun → SimulationRun
  final_row run_id db run = record run {
    status = final_status run_id db run.status;
    completed_at = some db.now;
  }

  abbrev pub aggregate_job : ℕ → Database F → Job
  aggregate_job run_id db =
      new_job db.next_id "aggregate_run" (("simulation_run_id", uuid run_id) ∷ [])

  -- `aggregate_run` is enqueued for the statuses that it is meant for, and no row of a run changes.
  aggregate_if-frame :
      (test : Bool) (run_id : ℕ) (db : Database F)
      → let after = aggregate_if test run_id db in
        (after.1 ≡ ok tt)
        × (after.0.runs ≡ db.runs)
        × (after.0.jobs ≡ (if test then db.jobs ++ aggregate_job run_id db ∷ [] else db.jobs))
        × (after.0.participant_runs ≡ db.participant_runs)
        × (after.0.notified ≡ db.notified)
  unfolding aggregate_if enqueue
  aggregate_if-frame true run_id db = (refl, refl, refl, refl, refl)
  aggregate_if-frame false run_id db = (refl, refl, refl, refl, refl)

  -- The progress of a run as it is announced: its status, and of how many of its participants' runs how
  -- many have ended.
  abbrev pub progress_of : ℕ → SimulationRun → Database F → Snapshot
  progress_of run_id run db = record {
    run_id = run_id;
    status = run.status;
    completed =
        count_if (λ r. (r.simulation_run_id == run_id) && is_terminal r.status) db.participant_runs;
    total = count_if (λ r. r.simulation_run_id == run_id) db.participant_runs;
  }

  announce-frame :
      (run_id : ℕ) (db : Database F) (run : SimulationRun)
      → Finds run_id db run
      → let after = announce run_id db in
        (after.1 ≡ ok tt)
        × (after.0.runs ≡ db.runs)
        × (after.0.jobs ≡ db.jobs)
        × (after.0.participant_runs ≡ db.participant_runs)
        × (after.0.notified ≡ db.notified ++ progress_of run_id run db ∷ [])
  unfolding announce get_by_id notify count_total count_terminal
  announce-frame run_id db run h = rw h (refl, refl, refl, refl, refl)

  finalize_if_complete :
      (run_id : ℕ) (db : Database F) (run : SimulationRun)
      → Finds run_id db run
      → let final = final_row run_id db run in
        finalize_if true run_id db
        ≡ aggregate_if (is_aggregated final.status) run_id (set_run run_id (λ r. final) db)
  unfolding finalize_if
  finalize_if_complete run_id db run h = rw ((finalize_run-found run_id db run h).0)

  finalize_run_and_notify_steps :
      (run_id : ℕ) (db : Database F) (run : SimulationRun) (complete : Bool)
      → Finds run_id db run
      → is_run_complete run_id db ≡ complete
      → finalize_run_and_notify run_id db
        ≡ resume (finalize_if complete run_id db) (λ _. announce run_id)
  unfolding finalize_run_and_notify lock_for_finalize get_by_id
  finalize_run_and_notify_steps run_id db run complete h c = rw h (rw c)

  -- What follows the end of a complete run: the rows, the jobs and the announcement.
  complete-frame :
      (run_id : ℕ) (db : Database F) (run : SimulationRun)
      → Finds run_id db run
      → is_run_complete run_id db ≡ true
      → let final = final_row run_id db run in
        let after = finalize_run_and_notify run_id db in
        (after.1 ≡ ok tt)
        × Finds run_id after.0 final
        × (after.0.jobs ≡ (
            if is_aggregated final.status
            then db.jobs ++ aggregate_job run_id db ∷ []
            else db.jobs))
        × (after.0.participant_runs ≡ db.participant_runs)
        × (after.0.notified ≡ db.notified ++ progress_of run_id final db ∷ [])
  unfolding set_run
  complete-frame run_id db run h c =
      let final = final_row run_id db run in
      let ended = set_run run_id (λ r. final) db in
      let aggregated = aggregate_if (is_aggregated final.status) run_id ended in
      let (returned, runs, jobs, participants, told) =
        aggregate_if-frame (is_aggregated final.status) run_id ended in
      let stored : Finds run_id aggregated.0 final =
        ap (find_first (λ r. r.id == run_id)) runs ∙ (finalize_run-found run_id db run h).1 in
      let (returned', runs', jobs', participants', told') =
        announce-frame run_id aggregated.0 final stored in
      let steps : finalize_run_and_notify run_id db ≡ announce run_id aggregated.0 =
        finalize_run_and_notify_steps run_id db run true h c
        ∙ (ap (λ r. resume r (λ _. announce run_id)) (finalize_if_complete run_id db run h)
            ∙ resume-ok aggregated (λ _. announce run_id) tt returned) in
      rw steps (
        returned',
        ap (find_first (λ r. r.id == run_id)) runs' ∙ stored,
        jobs' ∙ jobs,
        participants' ∙ participants,
        told'
            ∙ (ap (λ ns. ns ++ progress_of run_id final aggregated.0 ∷ []) told
                ∙ ap (λ rs. db.notified ++ counted run_id final rs ∷ []) participants),
      )
    where
      counted : ℕ → SimulationRun → List (ParticipantRun F) → Snapshot
      counted run_id final rs = progress_of run_id final (record db { participant_runs = rs })

  -- Once every participant of a run that exists has an outcome, `_finalize_run_and_notify` returns, and
  -- it gives the run its final status under its own id. It enqueues one `aggregate_run` job for the
  -- run if that status is COMPLETED or FAILED, and none if it is CANCELLED, and changes no
  -- participant's run.
  pub finalize_run_and_notify_complete :
      (run_id : ℕ) (db : Database F) (run : SimulationRun)
      → Finds run_id db run
      → is_run_complete run_id db ≡ true
      → let final = final_row run_id db run in
        let after = finalize_run_and_notify run_id db in
        (after.1 ≡ ok tt)
        × Finds run_id after.0 final
        × (after.0.jobs ≡ (
            if is_aggregated final.status
            then db.jobs ++ aggregate_job run_id db ∷ []
            else db.jobs))
        × (after.0.participant_runs ≡ db.participant_runs)
  finalize_run_and_notify_complete run_id db run h c =
      let (returned, stored, jobs, participants, _) = complete-frame run_id db run h c in
      (returned, stored, jobs, participants)

  -- For a run that exists, whether its participants have ended or not, `_finalize_run_and_notify` returns
  -- and sends one notification, behind those that were sent: the run's id, the status that its row then
  -- has, and how many of its participants' runs have ended and how many there are. No participant's run
  -- changes; and while one of them has not ended, no row of a run and no job does.
  pub finalize_run_and_notify_announces :
      (run_id : ℕ) (db : Database F) (run : SimulationRun)
      → Finds run_id db run
      → let after = finalize_run_and_notify run_id db in
        (after.1 ≡ ok tt)
        × ((stored : SimulationRun) × Finds run_id after.0 stored
            × (after.0.notified ≡ db.notified ++ progress_of run_id stored db ∷ []))
        × (after.0.participant_runs ≡ db.participant_runs)
        × (is_run_complete run_id db ≡ false → (after.0.runs ≡ db.runs) × (after.0.jobs ≡ db.jobs))
  unfolding finalize_if
  finalize_run_and_notify_announces run_id db run h =
      elim (Bool-cases (is_run_complete run_id db)) [
        | inl c ↦
            let (returned, stored, _, participants, told) = complete-frame run_id db run h c in
            (returned, (final_row run_id db run, stored, told), participants, (λ waits. cc))
        | inr c ↦
            let (returned, runs, jobs, participants, told) = announce-frame run_id db run h in
            rw (finalize_run_and_notify_steps run_id db run false h c) (
              returned,
              (run, ap (find_first (λ r. r.id == run_id)) runs ∙ h, told),
              participants,
              (λ waits. (runs, jobs)),
            )
      ]

  -- `_finalize_run_and_notify` on a run that is CANCELLED already, with every participant's run ended
  -- and one of them not an error: the run becomes COMPLETED, and an `aggregate_run` job is enqueued.
  pub finalize_run_and_notify_revives :
      (run_id : ℕ) (db : Database F) (run : SimulationRun)
      → Finds run_id db run
      → is_run_complete run_id db ≡ true
      → run.status ≡ run_cancelled
      → ¬ AllErrored run_id db
      → let after = finalize_run_and_notify run_id db in
        Finds run_id after.0 (record run { status = run_completed; completed_at = some db.now })
        × (after.0.jobs ≡ db.jobs ++ aggregate_job run_id db ∷ [])
  finalize_run_and_notify_revives run_id db run h c cancelled simulated =
      let (_, stored, jobs, _) = finalize_run_and_notify_complete run_id db run h c in
      let revived : final_status run_id db run.status ≡ run_completed =
        final_status-simulated run_id db run.status (ne cancelled) simulated in
      (
        subst
            (λ s.
              Finds run_id (finalize_run_and_notify run_id db).0
                (record run { status = s; completed_at = some db.now }))
            revived stored,
        subst
            (λ s.
              (finalize_run_and_notify run_id db).0.jobs
              ≡ (if is_aggregated s then db.jobs ++ aggregate_job run_id db ∷ [] else db.jobs))
            revived jobs,
      )
    where
      ne : {s : RunStatus} → s ≡ run_cancelled → s ≢ cancelling
      ne e f = cc
