-- ===== src/Uploads.antt =====
-- app/usecases/stimulus.py: the uploads of a study's owner, and the analysis that the owner asks for.
pub mod Tidy
pub mod Requested
use syn_koala.Prelude.{
  ℕ, String, Bool, true, false, not, ◌&&◌, Option, none, some, List, [], ◌∷◌, if◌then◌else◌, str_eq,
  is_nonempty, Result, ok, err,
}
use syn_koala.Database.{Database, uuid}
use syn_koala.Database.Session.{
  Tx, ServiceError, ◌>>=◌, ◌>>◌, return, read, write, require, request, not_found, lifecycle_error,
}
use syn_koala.Studies.{get_owned}
use syn_koala.Jobs.{enqueue}
use syn_koala.Stimuli.{Stimulus, Assets}
use syn_koala.Stimuli.Nulls.{Members}
use syn_koala.Stimuli.Service.{Media, create_with_asset}
use syn_koala.Stimuli.Screens.{list_for_study}

-- The tables of studies and jobs, and those of stimuli and screens.
pub record Workspace (F : Type 0) : Type 0 where
  pub db : Database F
  pub assets : Assets

module _ {F A : Type 0} where
  -- A call of a service that has only the tables of the one part, or of the other.
  abbrev pub on_db : Tx (Database F) A → Tx (Workspace F) A
  on_db call s = (record s { db = (call s.db).0 }, (call s.db).1)

  abbrev pub on_assets : Tx Assets A → Tx (Workspace F) A
  on_assets call s = (record s { assets = (call s.assets).0 }, (call s.assets).1)

-- One file of a bulk upload.
pub record StimulusFileUpload (File : Type 0) : Type 0 where
  pub file_bytes : File
  pub filename : String

module _ (m : Media) where
  open m use {File}

  -- The uploads of `create_bulk`, one after the other.
  unfoldable pub upload_all :
      ℕ → String → List (StimulusFileUpload File) → Tx Assets (List Stimulus)
  unfolding create_with_asset
  upload_all study_id stimulus_type [] = return []
  upload_all study_id stimulus_type (upload ∷ uploads) = do
    stimulus ←
        create_with_asset m study_id stimulus_type none (some upload.file_bytes) none
          (some upload.filename)
    stimuli ← upload_all study_id stimulus_type uploads
    return (stimulus ∷ stimuli)

module _ {F : Type 0} (m : Media) where
  open m use {File}

  unfoldable pub create_bulk :
      ℕ → ℕ → String → List (StimulusFileUpload File) → Tx (Workspace F) (List Stimulus)
  unfolding get_owned upload_all
  create_bulk user_id study_id stimulus_type files = do
    study ← on_db (get_owned user_id study_id)
    on_assets (upload_all m study_id stimulus_type files)

-- `FigmaOAuthService.get_connection(user.id) is not None`, and what uploads call, are parameters.
module _ {F : Type 0} (m : Media) (is_connected : ℕ → Bool) where
  open m use {File}

  -- The transaction of `create`, which is committed where it returns.
  unfoldable pub create_stimulus :
      ℕ
      → ℕ
      → String
      → Option String
      → Option File
      → Option Members
      → Option String
      → Tx (Workspace F) Stimulus
  unfolding get_owned create_with_asset
  create_stimulus user_id study_id stimulus_type source_url file metadata original_filename = do
    study ← on_db (get_owned user_id study_id)
    require lifecycle_error (not (str_eq stimulus_type "figma" && not (is_connected user_id)))
    on_assets
        (create_with_asset m study_id stimulus_type source_url file metadata original_filename)

module _ {F : Type 0} where
  unfoldable pub list_stimuli : ℕ → ℕ → Tx (Workspace F) (List Stimulus)
  unfolding get_owned list_for_study
  list_stimuli user_id study_id = do
    study ← on_db (get_owned user_id study_id)
    read (λ s. list_for_study study_id s.assets)

  -- The job of one stimulus. The jobs that `request_analysis` returns are those that it adds to the table.
  unfoldable pub enqueue_analysis : ℕ → Stimulus → Database F → Database F
  unfolding enqueue
  enqueue_analysis user_id stimulus =
      if str_eq stimulus.type "figma"
      then enqueue "import_figma_prototype"
          (("stimulus_id", uuid stimulus.id) ∷ ("user_id", uuid user_id) ∷ [])
      else enqueue "analyze_stimulus" (("stimulus_id", uuid stimulus.id) ∷ [])

  unfoldable pub enqueue_all : ℕ → List Stimulus → Database F → Database F
  unfolding enqueue_analysis
  enqueue_all user_id [] db = db
  enqueue_all user_id (stimulus ∷ stimuli) db =
      enqueue_all user_id stimuli (enqueue_analysis user_id stimulus db)

  unfoldable pub request_analysis : ℕ → ℕ → Tx (Workspace F) (Unit {0})
  unfolding get_owned list_for_study enqueue_all
  request_analysis user_id study_id = do
    study ← on_db (get_owned user_id study_id)
    stimuli ← read (λ s. list_for_study study_id s.assets)
    require not_found (is_nonempty stimuli)
    on_db (write (enqueue_all user_id stimuli))
