-- ===== src/Uploads/Requested.antt =====
-- `request_analysis` of app/usecases/stimulus.py: one job for each stimulus of the owner's study.
use mathlib.Core.List.{append-nil, append_assoc}
use syn_koala.Prelude.{
  ℕ, ◌≡◌, ◌⊎◌, refl, sym, ap, ◌∙◌, true, false, not, ◌&&◌, some, List, [], ◌∷◌, ◌++◌, if◌then◌else◌,
  ◌==◌, str_eq, is_nonempty, find_first, lookup, Bool-cases, Option-cases, inl, inr, ok, err,
}
use syn_koala.Database.{Database, Job, Study, job_pending, uuid}
use syn_koala.Database.Session.{not_found}
use syn_koala.Studies.{get_owned}
use syn_koala.Jobs.{enqueue, new_job}
use syn_koala.Stimuli.{Stimulus}
use syn_koala.Stimuli.Screens.{list_for_study}
use syn_koala.Uploads.{Workspace, enqueue_analysis, enqueue_all, request_analysis}

-- A job that waits to analyze the stimulus, or to import it.
pub record IsFor (stimulus : Stimulus) (job : Job) : Type 0 where
  pub type :
      job.job_type
      ≡ (if str_eq stimulus.type "figma" then "import_figma_prototype" else "analyze_stimulus")
  pub names : lookup job.payload "stimulus_id" ≡ some (uuid stimulus.id)
  pub pending : job.status ≡ job_pending

-- One job for each, in order.
abbrev pub AreFor : List Stimulus → List Job → Type 0
AreFor [] [] = Unit
AreFor [] (job ∷ jobs) = true ≡ false
AreFor (stimulus ∷ stimuli) [] = true ≡ false
AreFor (stimulus ∷ stimuli) (job ∷ jobs) = IsFor stimulus job × AreFor stimuli jobs

module _ {F : Type 0} (user_id : ℕ) where
  enqueue_analysis-IsFor :
      (stimulus : Stimulus) (db : Database F)
      → (job : Job) × ((enqueue_analysis user_id stimulus db).jobs ≡ db.jobs ++ job ∷ [])
        × IsFor stimulus job
  unfolding enqueue_analysis enqueue new_job
  enqueue_analysis-IsFor stimulus db = elim (Bool-cases (str_eq stimulus.type "figma")) [
    | inl e ↦ (
      new_job db.next_id "import_figma_prototype"
          (("stimulus_id", uuid stimulus.id) ∷ ("user_id", uuid user_id) ∷ []),
      rw e refl,
      record { type = rw e refl; names = refl; pending = refl },
    )
    | inr e ↦ (
      new_job db.next_id "analyze_stimulus" (("stimulus_id", uuid stimulus.id) ∷ []),
      rw e refl,
      record { type = rw e refl; names = refl; pending = refl },
    )
  ]

  enqueue_all-AreFor :
      (stimuli : List Stimulus) (db : Database F)
      → (added : List Job) × ((enqueue_all user_id stimuli db).jobs ≡ db.jobs ++ added)
        × AreFor stimuli added
  unfolding enqueue_all
  enqueue_all-AreFor [] db = ([], sym (append-nil db.jobs), tt)
  enqueue_all-AreFor (stimulus ∷ stimuli) db =
      let next = enqueue_analysis user_id stimulus db in
      let (job, one, is_for) = enqueue_analysis-IsFor stimulus db in
      let (added, all, are_for) = enqueue_all-AreFor stimuli next in
      (
        job ∷ added,
        all ∙ (ap (λ jobs. jobs ++ added) one ∙ append_assoc db.jobs (job ∷ []) added),
        (is_for, are_for),
      )

  -- What a request that is granted does.
  pub record IsRequested (study_id : ℕ) (before after : Workspace F) : Type 0 where
    pub study : Study
    pub owned : (get_owned user_id study_id before.db).1 ≡ ok study
    pub given : is_nonempty (list_for_study study_id before.assets) ≡ true
    pub assets : after.assets ≡ before.assets
    pub added : List Job
    pub jobs : after.db.jobs ≡ before.db.jobs ++ added
    pub are_for : AreFor (list_for_study study_id before.assets) added

  -- The request is refused and changes nothing, or the study is the user's own, has a stimulus, and one
  -- pending job is queued for each of its stimuli, in order, of the type that its own type asks for.
  pub request_analysis-IsRequested :
      (study_id : ℕ) (s : Workspace F)
      → let after = request_analysis user_id study_id s in
        ((after.1 ≡ err not_found) × (after.0 ≡ s))
        ⊎ ((after.1 ≡ ok tt) × IsRequested study_id s after.0)
  unfolding request_analysis get_owned
  request_analysis-IsRequested study_id s =
      elim (Option-cases (
        find_first (λ x. (x.id == study_id) && ((x.owner_id == user_id) && not x.deleted))
          s.db.studies)) [
            | inl e ↦ inl (rw (e, request_analysis) refl, rw (e, request_analysis) refl)
            | inr (study, e) ↦ elim (Bool-cases (is_nonempty (list_for_study study_id s.assets))) [
              | inr f ↦ inl (
                rw (e, request_analysis) (rw (f, request_analysis) refl),
                rw (e, request_analysis) (rw (f, request_analysis) refl),
              )
              | inl f ↦
                  let (added, jobs, are_for) =
                    enqueue_all-AreFor (list_for_study study_id s.assets) s.db in
                  inr (
                    rw (e, request_analysis) (rw (f, request_analysis) refl),
                    rw (e, request_analysis)
                        (rw (f, request_analysis)
                          (record {
                            study = study;
                            owned = rw (e, get_owned) refl;
                            given = f;
                            assets = refl;
                            added = added;
                            jobs = jobs;
                            are_for = are_for;
                          })),
                  )
            ]
          ]
