-- ===== src/Runs/Completion.antt =====
-- When a run is complete, and how `finalize_run` ends it.
use syn_koala.Prelude.{
  ℕ, ◌<◌, ◌≤◌, ◌≡◌, ◌≢◌, ◌↔◌, refl, ap, ◌∙◌, arith, true, false, ◌&&◌, ◌||◌, some, All, ltb, ◌==◌,
  find_first, count_if, Bool-cases, inl, inr, ok,
}
use syn_koala.Database.{
  Database, SimulationRun, RunStatus, cancelling, run_completed, run_failed, run_cancelled, running,
  is_terminal, is_error, is_cancelling,
}
use syn_koala.Database.Rows.{
  count_if-both_iff, count_if-both_le, find_first-passes, find_first-amend,
}
use syn_koala.Runs.{
  of_run, count_total, count_terminal, count_errored, is_run_complete, final_status, get_by_id,
  finalize_run, set_run,
}

not_cancelling : (status : RunStatus) → status ≢ cancelling → is_cancelling status ≡ false
not_cancelling cancelling h = absurd (h refl)
not_cancelling running h = refl
not_cancelling run_completed h = refl
not_cancelling run_failed h = refl
not_cancelling run_cancelled h = refl

module _ {F : Type 0} where
  -- Every participant of the run has an outcome, and there is one.
  abbrev pub AllTerminal : ℕ → Database F → Type 0
  AllTerminal run_id db =
      All (λ r. of_run run_id r ≡ true → is_terminal r.status ≡ true) db.participant_runs

  abbrev pub AllErrored : ℕ → Database F → Type 0
  AllErrored run_id db =
      All (λ r. of_run run_id r ≡ true → is_error r.final_outcome ≡ true) db.participant_runs

  -- `is_run_complete`, which counts, says exactly that the run has a participant and that every
  -- participant of the run is COMPLETED, FAILED or ABANDONED.
  pub is_run_complete_iff :
      (run_id : ℕ) (db : Database F)
      → (is_run_complete run_id db ≡ true) ↔ ((0 < count_total run_id db) × AllTerminal run_id db)
  unfolding is_run_complete count_total count_terminal
  is_run_complete_iff run_id db = (to, from)
    where
      counted :
          (count_if (λ r. of_run run_id r && is_terminal r.status) db.participant_runs
            ≡ count_if (of_run run_id) db.participant_runs)
          ↔ AllTerminal run_id db
      counted = count_if-both_iff (of_run run_id) (λ r. is_terminal r.status) db.participant_runs

      split : (a b : ℕ) → (ltb 0 a && (b == a)) ≡ true → (0 < a) × (b ≡ a)
      split a b h = (ground arith, ground arith)

      joined : (a b : ℕ) → 0 < a → b ≡ a → (ltb 0 a && (b == a)) ≡ true
      joined a b h e = ground arith

      to : is_run_complete run_id db ≡ true → (0 < count_total run_id db) × AllTerminal run_id db
      to h = let (some_one, all) = split _ _ h in (some_one, counted.0 all)

      from : (0 < count_total run_id db) × AllTerminal run_id db → is_run_complete run_id db ≡ true
      from (some_one, all) = joined _ _ some_one (counted.1 all)

  errored_iff :
      (run_id : ℕ) (db : Database F)
      → (((count_total run_id db == 0) || (count_errored run_id db == count_total run_id db))
          ≡ true)
        ↔ AllErrored run_id db
  unfolding count_total count_errored
  errored_iff run_id db = (λ h. counted.0 (decided _ _ bound h), λ all. holds _ _ (counted.1 all))
    where
      counted :
          (count_if (λ r. of_run run_id r && is_error r.final_outcome) db.participant_runs
            ≡ count_if (of_run run_id) db.participant_runs)
          ↔ AllErrored run_id db
      counted =
          count_if-both_iff (of_run run_id) (λ r. is_error r.final_outcome) db.participant_runs

      bound :
          count_if (λ r. of_run run_id r && is_error r.final_outcome) db.participant_runs
          ≤ count_if (of_run run_id) db.participant_runs
      bound = count_if-both_le (of_run run_id) (λ r. is_error r.final_outcome) db.participant_runs

      decided : (e t : ℕ) → e ≤ t → ((t == 0) || (e == t)) ≡ true → e ≡ t
      decided e t h d = ground arith

      holds : (e t : ℕ) → e ≡ t → ((t == 0) || (e == t)) ≡ true
      holds e t h = ground arith

  pub final_status-cancelling :
      (run_id : ℕ) (db : Database F) → final_status run_id db cancelling ≡ run_cancelled
  unfolding final_status
  final_status-cancelling run_id db = refl

  pub final_status-errored :
      (run_id : ℕ) (db : Database F) (status : RunStatus)
      → status ≢ cancelling
      → AllErrored run_id db
      → final_status run_id db status ≡ run_failed
  unfolding final_status
  final_status-errored run_id db status other all =
      rw (not_cancelling status other) (rw ((errored_iff run_id db).1 all))

  pub final_status-simulated :
      (run_id : ℕ) (db : Database F) (status : RunStatus)
      → status ≢ cancelling
      → ¬ AllErrored run_id db
      → final_status run_id db status ≡ run_completed
  unfolding final_status
  final_status-simulated run_id db status other some_ok =
      elim (Bool-cases
        ((count_total run_id db == 0) || (count_errored run_id db == count_total run_id db))) [
          | inl e ↦ absurd (some_ok ((errored_iff run_id db).0 e))
          | inr e ↦ rw (not_cancelling status other) (rw e)
        ]

  -- The status that `finalize_run` gives a run that has the status `status`: CANCELLED exactly after a
  -- cancellation was asked for, FAILED exactly where else every participant's run of the run carries
  -- an error (or there is none), and COMPLETED otherwise.
  pub final_status-cases :
      (run_id : ℕ) (db : Database F) (status : RunStatus)
      → (status ≡ cancelling → final_status run_id db status ≡ run_cancelled)
        × (status ≢ cancelling → AllErrored run_id db → final_status run_id db status ≡ run_failed)
        × (status ≢ cancelling
            → ¬ AllErrored run_id db
            → final_status run_id db status ≡ run_completed)
  final_status-cases run_id db status = (
    λ e. ap (final_status run_id db) e ∙ final_status-cancelling run_id db,
    final_status-errored run_id db status,
    final_status-simulated run_id db status,
  )

  -- `finalize_run` of a run that exists returns it with that status and the time, stores it under its
  -- id, and changes nothing else.
  pub finalize_run-found :
      (run_id : ℕ) (db : Database F) (run : SimulationRun)
      → find_first (λ r. r.id == run_id) db.runs ≡ some run
      → let final = record run {
        status = final_status run_id db run.status;
        completed_at = some db.now;
      } in
        (finalize_run run_id db ≡ (set_run run_id (λ r. final) db, ok final))
        × (find_first (λ r. r.id == run_id) (set_run run_id (λ r. final) db).runs ≡ some final)
  unfolding finalize_run get_by_id set_run
  finalize_run-found run_id db run h = (
    rw h,
    find_first-amend (λ r. r.id == run_id) _ db.runs run
        (λ r e. find_first-passes (λ r. r.id == run_id) db.runs run h) h,
  )

  -- Completeness is a matter of the participants' runs alone.
  pub is_run_complete-frame :
      (run_id : ℕ) (db db' : Database F)
      → db.participant_runs ≡ db'.participant_runs
      → is_run_complete run_id db ≡ is_run_complete run_id db'
  unfolding is_run_complete count_total count_terminal
  is_run_complete-frame run_id db db' h =
      ap
        (λ rows.
          ltb 0 (count_if (of_run run_id) rows)
          && (count_if (λ r. of_run run_id r && is_terminal r.status) rows
              == count_if (of_run run_id) rows))
        h
