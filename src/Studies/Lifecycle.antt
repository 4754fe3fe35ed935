-- ===== src/Studies/Lifecycle.antt =====
-- The lifecycle of a study's status under `StudyService.update`.
use syn_koala.Prelude.{
  ℕ, ◌≡◌, ◌⊎◌, refl, String, true, Option, none, some, Bool-cases, inl, inr, ok, err,
}
use syn_koala.Database.{
  Database, Study, StudyStatus, draft, ready, study_running, study_completed, study_failed,
}
use syn_koala.Database.Session.{lifecycle_error}
use syn_koala.Studies.{
  may_become, status_allowed, or_keep, updated_study, update_study, study_status_transitions,
}

-- PRD FR-01: DRAFT → READY → RUNNING → COMPLETED or FAILED, and READY back to DRAFT.
pub data Follows : StudyStatus → StudyStatus → Type 0 where
  stays : (s : StudyStatus) → Follows s s
  published : Follows draft ready
  withdrawn : Follows ready draft
  started : Follows ready study_running
  succeeded : Follows study_running study_completed
  failed : Follows study_running study_failed

-- The table of transitions allows exactly the steps of the lifecycle.
may_become-Follows : (from to : StudyStatus) → may_become from to ≡ true → Follows from to
unfolding may_become study_status_transitions
may_become-Follows draft draft h = stays draft
may_become-Follows draft ready h = published
may_become-Follows draft study_running h = cc
may_become-Follows draft study_completed h = cc
may_become-Follows draft study_failed h = cc
may_become-Follows ready draft h = withdrawn
may_become-Follows ready ready h = stays ready
may_become-Follows ready study_running h = started
may_become-Follows ready study_completed h = cc
may_become-Follows ready study_failed h = cc
may_become-Follows study_running draft h = cc
may_become-Follows study_running ready h = cc
may_become-Follows study_running study_running h = stays study_running
may_become-Follows study_running study_completed h = succeeded
may_become-Follows study_running study_failed h = failed
may_become-Follows study_completed study_completed h = stays study_completed
may_become-Follows study_completed draft h = cc
may_become-Follows study_completed ready h = cc
may_become-Follows study_completed study_running h = cc
may_become-Follows study_completed study_failed h = cc
may_become-Follows study_failed study_failed h = stays study_failed
may_become-Follows study_failed draft h = cc
may_become-Follows study_failed ready h = cc
may_become-Follows study_failed study_running h = cc
may_become-Follows study_failed study_completed h = cc

allowed-Follows :
    (from : StudyStatus) (to : Option StudyStatus)
    → status_allowed from to ≡ true
    → Follows from (or_keep from to)
unfolding status_allowed
allowed-Follows from none h = stays from
allowed-Follows from (some to) h = may_become-Follows from to h

module _ {F : Type 0} where
  -- `StudyService.update` either returns the study with a status that the lifecycle allows after the one
  -- that it had, or raises a lifecycle error and writes nothing.
  pub update_study-Follows :
      (study : Study) (name objective : Option String) (status : Option StudyStatus)
      (population_size : Option ℕ) (db : Database F)
      → let after = update_study study name objective status population_size db in
        ((updated : Study) × (after.1 ≡ ok updated) × Follows study.status updated.status)
        ⊎ (after ≡ (db, err lifecycle_error))
  unfolding update_study updated_study
  update_study-Follows study name objective status population_size db =
      elim (Bool-cases (status_allowed study.status status)) [
        | inl e ↦ inl (
          updated_study study name objective status population_size,
          rw e refl,
          allowed-Follows study.status status e,
        )
        | inr e ↦ inr (rw e refl)
      ]
