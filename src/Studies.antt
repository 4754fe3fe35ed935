-- ===== src/Studies.antt =====
-- app/services/study_service.py and the transitions of app/domain/schemas/study.py; and what the runs
-- read of the services that keep tasks, audiences and stimuli.
pub mod Lifecycle
use syn_koala.Prelude.{
  ℕ, ◌+◌, String, Bool, true, false, not, ◌&&◌, Option, none, some, List, [], ◌∷◌, ◌++◌,
  if◌then◌else◌, ◌==◌, find_first, any,
}
use syn_koala.Graph.{JsonObject, ScreenGraph}
use syn_koala.Database.{
  Database, Study, StudyStatus, draft, ready, study_running, study_completed, study_failed,
}
use syn_koala.Database.Session.{
  Tx, ◌>>=◌, ◌>>◌, return, found_or, read, write, require, not_found, lifecycle_error,
}
use syn_koala.Database.Rows.{amend}

-- A row of `tasks`.
pub record TaskModel : Type 0 where
  pub id : ℕ
  pub study_id : ℕ
  pub instruction : String
  pub starting_point : Option String
  pub success_conditions : Option JsonObject
  pub constraints : Option JsonObject
  pub expected_critical_actions : Option (List String)

-- A row of `participants`.
pub record ParticipantRecord (F : Type 0) : Type 0 where
  pub id : ℕ
  pub traits : List (String × F)
  pub persona : Option JsonObject

-- What a run reads through `TaskService`, `AudienceService` and `StimulusService`, and never writes.
pub record Catalog (F : Type 0) : Type 0 where
  pub get_task : ℕ → Option TaskModel
  pub list_tasks : ℕ → List TaskModel
  pub latest_audience : ℕ → Option ℕ
  pub list_participants : ℕ → List (ParticipantRecord F)
  pub get_participant : ℕ → Option (ParticipantRecord F)
  pub get_screen_graph : ℕ → ScreenGraph
  pub has_analyzed_screens : ℕ → Bool

abbrev pub study_beq : StudyStatus → StudyStatus → Bool
study_beq draft draft = true
study_beq ready ready = true
study_beq study_running study_running = true
study_beq study_completed study_completed = true
study_beq study_failed study_failed = true
study_beq _ _ = false

-- `STUDY_STATUS_TRANSITIONS`
unfoldable pub study_status_transitions : StudyStatus → List StudyStatus
study_status_transitions draft = ready ∷ []
study_status_transitions ready = study_running ∷ draft ∷ []
study_status_transitions study_running = study_completed ∷ study_failed ∷ []
study_status_transitions study_completed = []
study_status_transitions study_failed = []

-- `status == study.status`, or an allowed transition
unfoldable pub may_become : StudyStatus → StudyStatus → Bool
unfolding study_status_transitions
may_become from to =
    if study_beq to from then true else any (study_beq to) (study_status_transitions from)

abbrev pub or_keep : {A : Type 0} → A → Option A → A
or_keep old none = old
or_keep old (some new) = new

unfoldable pub status_allowed : StudyStatus → Option StudyStatus → Bool
unfolding may_become
status_allowed from none = true
status_allowed from (some to) = may_become from to

-- The fields that are given replace those of the study.
unfoldable pub updated_study :
    Study → Option String → Option String → Option StudyStatus → Option ℕ → Study
updated_study study name objective status population_size = record study {
  name = or_keep study.name name;
  objective = elim objective [ none ↦ study.objective | some text ↦ some text ];
  status = or_keep study.status status;
  population_size = elim population_size [ none ↦ study.population_size | some n ↦ some n ];
}

module _ {F : Type 0} where
  unfoldable pub new_study : ℕ → String → Option String → Option ℕ → Database F → Study
  new_study owner_id name objective population_size db = record {
    id = db.next_id;
    owner_id = owner_id;
    name = name;
    objective = objective;
    status = draft;
    population_size = population_size;
    deleted = false;
  }

  unfoldable pub create_study : ℕ → String → Option String → Option ℕ → Tx (Database F) Study
  unfolding new_study
  create_study owner_id name objective population_size = do
    study ← read (new_study owner_id name objective population_size)
    write (λ db. record db { studies = db.studies ++ study ∷ []; next_id = db.next_id + 1 })
    return study

  -- A study of another owner, or a deleted one, is not found.
  unfoldable pub get_owned : ℕ → ℕ → Tx (Database F) Study
  get_owned user_id study_id db =
      found_or not_found
        (find_first (λ s. (s.id == study_id) && ((s.owner_id == user_id) && not s.deleted))
          db.studies)
        db

  unfoldable pub set_study : ℕ → (Study → Study) → Database F → Database F
  set_study study_id change db = record db {
    studies = amend (λ s. s.id == study_id) change db.studies;
  }

  unfoldable pub update_study :
      Study → Option String → Option String → Option StudyStatus → Option ℕ → Tx (Database F) Study
  unfolding status_allowed set_study updated_study
  update_study study name objective status population_size = do
    require lifecycle_error (status_allowed study.status status)
    let updated = updated_study study name objective status population_size
    write (set_study study.id (λ s. updated))
    return updated

  unfoldable pub delete_study : ℕ → Database F → Database F
  unfolding set_study
  delete_study study_id = set_study study_id (λ s. record s { deleted = true })
