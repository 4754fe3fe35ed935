-- ===== src/Examples/Orchestration.antt =====
-- The theorems on runs and jobs at a small database.
use syn_koala.Prelude.{
  ◌<◌, ◌≡◌, ◌≢◌, ◌↔◌, refl, ℤ, pos, true, false, none, some, [], ◌∷◌, ◌++◌, ok, if◌then◌else◌, take,
  ◌⊎◌, err,
}
use syn_koala.Database.{
  Database, SimulationRun, running, cancelling, run_completed, run_failed, run_cancelled, waiting,
  participant_completed, participant_abandoned, Study, study_running,
}
use syn_koala.Simulation.Conditions.{has_recognized_success_condition}
use syn_koala.Runs.{list_by_study, is_run_complete, count_total, final_status}
use syn_koala.Runs.Completion.{AllTerminal, AllErrored, is_run_complete_iff, final_status-cases}
use syn_koala.Jobs.Participant.{finalize_run_and_notify, is_aggregated}
use syn_koala.Jobs.Finalize.{
  Finds, final_row, aggregate_job, progress_of, finalize_run_and_notify_complete,
  finalize_run_and_notify_announces, finalize_run_and_notify_revives,
}
use syn_koala.Launch.{
  cancel_run, create_run, active_run, resolve_task, task_has_finish_line, screen_keys_exist,
  resolve_participants,
}
use syn_koala.Launch.Cancel.{NobodyWaits, cancel_run-NobodyWaits}
use syn_koala.Launch.Create.{Startable, Started, create_run-Started}
use syn_koala.Studies.{get_owned, update_study}
use syn_koala.Studies.Lifecycle.{Follows, update_study-Follows}
use syn_koala.Launch.Single.{OneActive, create_run-OneActive}
use syn_koala.Database.Session.{lifecycle_error}
use syn_koala.Samples.Records.{
  study, run_with, database, empty_database, catalog, task_model, participant_record,
}

-- Both participants have ended, and the run with them.
abbrev ended : Database ℤ
ended = database running participant_completed participant_abandoned

abbrev revived : Database ℤ
revived = database run_cancelled participant_completed participant_abandoned

abbrev half : Database ℤ
half = database running participant_completed waiting

complete : is_run_complete 10 ended ≡ true
unfolding is_run_complete
complete = refl

finalize_run_and_notify_complete_example :
    let final = final_row 10 ended (run_with running) in
    let after = finalize_run_and_notify 10 ended in
    (after.1 ≡ ok tt)
    × Finds 10 after.0 final
    × (after.0.jobs ≡ (
        if is_aggregated final.status
        then ended.jobs ++ aggregate_job 10 ended ∷ []
        else ended.jobs))
    × (after.0.participant_runs ≡ ended.participant_runs)
finalize_run_and_notify_complete_example =
    finalize_run_and_notify_complete 10 ended (run_with running) refl complete

is_run_complete_iff_example :
    (is_run_complete 10 ended ≡ true) ↔ ((0 < count_total 10 ended) × AllTerminal 10 ended)
is_run_complete_iff_example = is_run_complete_iff 10 ended

final_status-cases_example :
    (cancelling ≡ cancelling → final_status 10 ended cancelling ≡ run_cancelled)
    × (cancelling ≢ cancelling
        → AllErrored 10 ended
        → final_status 10 ended cancelling ≡ run_failed)
    × (cancelling ≢ cancelling
        → ¬ AllErrored 10 ended
        → final_status 10 ended cancelling ≡ run_completed)
final_status-cases_example = final_status-cases 10 ended cancelling

finalize_run_and_notify_announces_example :
    let after = finalize_run_and_notify 10 half in
    (after.1 ≡ ok tt)
    × ((stored : SimulationRun) × Finds 10 after.0 stored
        × (after.0.notified ≡ half.notified ++ progress_of 10 stored half ∷ []))
    × (after.0.participant_runs ≡ half.participant_runs)
    × (is_run_complete 10 half ≡ false → (after.0.runs ≡ half.runs) × (after.0.jobs ≡ half.jobs))
finalize_run_and_notify_announces_example =
    finalize_run_and_notify_announces 10 half (run_with running) refl

over : is_run_complete 10 revived ≡ true
unfolding is_run_complete
over = refl

some_simulated : ¬ AllErrored 10 revived
some_simulated all = cc (all.0 refl)

finalize_run_and_notify_revives_example :
    let after = finalize_run_and_notify 10 revived in
    Finds 10 after.0
      (record (run_with run_cancelled) { status = run_completed; completed_at = some 500 })
    × (after.0.jobs ≡ revived.jobs ++ aggregate_job 10 revived ∷ [])
finalize_run_and_notify_revives_example =
    finalize_run_and_notify_revives 10 revived (run_with run_cancelled) refl over refl
      some_simulated

study_owned :
    (status : Database ℤ) → status.studies ≡ study ∷ [] → get_owned 7 1 status ≡ (status, ok study)
unfolding get_owned
study_owned db h = rw h refl

cancel_run-NobodyWaits_example :
    let after = cancel_run 7 10 half in
    (final : SimulationRun) × (after.1 ≡ ok final)
    × Finds 10 after.0 final
    × (final.status ≡ (if is_run_complete 10 after.0 then run_cancelled else cancelling))
    × NobodyWaits 10 after.0
cancel_run-NobodyWaits_example =
    cancel_run-NobodyWaits 7 10 half (run_with running) study refl (study_owned half refl) refl

startable : Startable {F = ℤ} catalog 7 1 none none empty_database
unfolding active_run resolve_task task_has_finish_line screen_keys_exist resolve_participants
    list_by_study has_recognized_success_condition
startable = record {
  study = study;
  owned = study_owned empty_database refl;
  runnable = refl;
  size = 2;
  sized = refl;
  idle = refl;
  analyzed = refl;
  task = task_model;
  resolved = refl;
  finish_line = refl;
  keys = refl;
  participants = participant_record 9 ∷ participant_record 8 ∷ [];
  listed = refl;
  enough = refl;
}

create_run-Started_example :
    let after = create_run {F = ℤ} catalog 7 1 none none none (some (pos 3)) empty_database in
    (run : SimulationRun) × (after.1 ≡ ok run)
    × Started catalog 1 startable.size startable.task
        (take startable.size startable.participants)
        (some (pos 3))
        empty_database
        after.0
        run
create_run-Started_example =
    create_run-Started catalog 7 1 none none none (some (pos 3)) empty_database startable

create_run-OneActive_example :
    OneActive 1 empty_database
      (create_run {F = ℤ} catalog 7 1 none none none (some (pos 3)) empty_database)
create_run-OneActive_example =
    create_run-OneActive catalog 7 1 none none none (some (pos 3)) empty_database

update_study-Follows_example :
    let after = update_study study none none (some study_running) none half in
    ((updated : Study) × (after.1 ≡ ok updated) × Follows study.status updated.status)
    ⊎ (after ≡ (half, err lifecycle_error))
update_study-Follows_example = update_study-Follows study none none (some study_running) none half
