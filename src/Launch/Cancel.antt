-- ===== src/Launch/Cancel.antt =====
-- What `SimulationUseCase.cancel_run` leaves.
use syn_koala.Prelude.{
  ℕ, ◌≡◌, refl, ap, sym, subst, ◌∙◌, Bool, true, false, ◌&&◌, some, ◌==◌, str_eq, if◌then◌else◌, ok,
  All,
}
use syn_koala.Database.{
  Database, SimulationRun, run_cancelled, cancelling, Study, is_waiting, is_job_pending,
  is_terminal_run,
}
use syn_koala.Database.Rows.{amend-clears, find_first-amend}
use syn_koala.Runs.{
  is_run_complete, final_status, get_by_id, set_run, mark_cancelling,
  abandon_pending_participant_runs, of_run, abandoned_row,
}
use syn_koala.Runs.Completion.{finalize_run-found, final_status-cancelling, is_run_complete-frame}
use syn_koala.Jobs.{cancel_pending, has_uuid}
use syn_koala.Jobs.Finalize.{Finds}
use syn_koala.Studies.{get_owned}
use syn_koala.Launch.{cancel_run, get_run, finalize_cancelled}

abbrev marked : SimulationRun → SimulationRun
marked run = record run { status = cancelling }

module _ {F : Type 0} where
  -- No participant of the run waits for a job, and no job of the run waits for a worker.
  abbrev pub NobodyWaits : ℕ → Database F → Type 0
  NobodyWaits run_id db =
      All (λ r. (of_run run_id r && is_waiting r.status) ≡ false) db.participant_runs
      × All
          (λ j.
            (str_eq j.job_type "simulate_participant"
              && (has_uuid "simulation_run_id" run_id j.payload && is_job_pending j.status))
            ≡ false)
          db.jobs

  -- The database in which `cancel_run` asks whether the run is complete.
  abbrev withdrawn : ℕ → Database F → Database F
  withdrawn run_id db =
      abandon_pending_participant_runs run_id (
        cancel_pending "simulate_participant" "simulation_run_id" run_id
          (mark_cancelling run_id db))

  withdrawn-NobodyWaits : (run_id : ℕ) (db : Database F) → NobodyWaits run_id (withdrawn run_id db)
  unfolding abandon_pending_participant_runs cancel_pending mark_cancelling set_run abandoned_row
  withdrawn-NobodyWaits run_id db = (
    amend-clears (λ r. of_run run_id r && is_waiting r.status) _ db.participant_runs
        (λ r e. both_false (of_run run_id r)),
    amend-clears
        (λ j.
          str_eq j.job_type "simulate_participant"
          && (has_uuid "simulation_run_id" run_id j.payload && is_job_pending j.status))
        _ db.jobs
        (λ j e.
          all_false (str_eq j.job_type "simulate_participant")
            (has_uuid "simulation_run_id" run_id j.payload)),
  )
    where
      both_false : (b : Bool) → (b && false) ≡ false
      both_false true = refl
      both_false false = refl

      all_false : (b c : Bool) → (b && (c && false)) ≡ false
      all_false true c = both_false c
      all_false false c = refl

  withdrawn-Finds :
      (run_id : ℕ) (db : Database F) (run : SimulationRun)
      → Finds run_id db run
      → Finds run_id (withdrawn run_id db) (marked run)
  unfolding abandon_pending_participant_runs cancel_pending mark_cancelling set_run
  withdrawn-Finds run_id db run h =
      find_first-amend (λ r. r.id == run_id) marked db.runs run (λ r e. e) h

  cancel_run_steps :
      (user_id run_id : ℕ) (db : Database F) (run : SimulationRun) (study : Study)
      → Finds run_id db run
      → get_owned user_id run.study_id db ≡ (db, ok study)
      → is_terminal_run run.status ≡ false
      → cancel_run user_id run_id db
        ≡ finalize_cancelled
            (is_run_complete run_id (withdrawn run_id db))
            run_id
            (withdrawn run_id db)
  unfolding cancel_run get_run get_by_id
  cancel_run_steps user_id run_id db run study h owned active = rw h (rw owned (rw active refl))

  -- The run that `finalize_cancelled` stores and returns, by whether the run is complete.
  ends_as :
      (run_id : ℕ) (complete : Bool) (db : Database F) (run : SimulationRun)
      → Finds run_id db run
      → run.status ≡ cancelling
      → let after = finalize_cancelled complete run_id db in
        (final : SimulationRun) × (after.1 ≡ ok final)
        × Finds run_id after.0 final
        × (final.status ≡ (if complete then run_cancelled else cancelling))
        × (after.0.participant_runs ≡ db.participant_runs)
        × (after.0.jobs ≡ db.jobs)
  unfolding finalize_cancelled get_by_id set_run
  ends_as run_id false db run h c = (run, rw h refl, rw h h, c, rw h refl, rw h refl)
  ends_as run_id true db run h c =
      let final = record run {
        status = final_status run_id db run.status;
        completed_at = some db.now;
      } in
      let (answer, stored) = finalize_run-found run_id db run h in
      (
        final,
        rw answer refl,
        rw answer stored,
        ap (final_status run_id db) c ∙ final_status-cancelling run_id db,
        rw answer refl,
        rw answer refl,
      )

  -- `cancel_run` of a run that has not ended, by the owner of its study, returns. Then no participant
  -- of the run is PENDING and no `simulate_participant` job of the run is PENDING, and the run stored
  -- under its id has the status CANCELLED if every participant of it has an outcome, and CANCELLING
  -- if one is still running.
  pub cancel_run-NobodyWaits :
      (user_id run_id : ℕ) (db : Database F) (run : SimulationRun) (study : Study)
      → Finds run_id db run
      → get_owned user_id run.study_id db ≡ (db, ok study)
      → is_terminal_run run.status ≡ false
      → let after = cancel_run user_id run_id db in
        (final : SimulationRun) × (after.1 ≡ ok final)
        × Finds run_id after.0 final
        × (final.status ≡ (if is_run_complete run_id after.0 then run_cancelled else cancelling))
        × NobodyWaits run_id after.0
  cancel_run-NobodyWaits user_id run_id db run study h owned active =
      let w = withdrawn run_id db in
      let complete = is_run_complete run_id w in
      let (final, answer, stored, status, participants, jobs) =
        ends_as run_id complete w (marked run) (withdrawn-Finds run_id db run h) refl in
      let (nobody, none_queued) = withdrawn-NobodyWaits run_id db in
      let same : is_run_complete run_id (finalize_cancelled complete run_id w).0 ≡ complete =
        is_run_complete-frame run_id _ w participants in
      rw (cancel_run_steps user_id run_id db run study h owned active) (
        final,
        answer,
        stored,
        subst (λ b. final.status ≡ (if b then run_cancelled else cancelling)) (sym same) status,
        (
          subst (All (λ r. (of_run run_id r && is_waiting r.status) ≡ false)) (sym participants)
              nobody,
          subst
              (All (λ j.
                (str_eq j.job_type "simulate_participant"
                  && (has_uuid "simulation_run_id" run_id j.payload && is_job_pending j.status))
                ≡ false))
              (sym jobs) none_queued,
        ),
      )
