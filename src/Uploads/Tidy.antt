-- ===== src/Uploads/Tidy.antt =====
-- The uploads of app/usecases/stimulus.py keep the screen keys of the study distinct.
use syn_koala.Prelude.{ℕ, ◌≡◌, String, none, some, List, [], ◌∷◌}
use syn_koala.Database.Session.{resume, resume-keeps, return}
use syn_koala.Stimuli.{Assets}
use syn_koala.Stimuli.Service.{Media, create_with_asset}
use syn_koala.Stimuli.Distinct.{IsTidy, create_with_asset-IsTidy}
use syn_koala.Uploads.{Workspace, on_db, on_assets, StimulusFileUpload, upload_all, create_bulk}
use syn_koala.Studies.{get_owned}

module _ (m : Media) (injective : (i j : ℕ) → m.show i ≡ m.show j → i ≡ j) where
  upload_all-IsTidy :
      (study_id : ℕ) (stimulus_type : String) (uploads : List (StimulusFileUpload m.File))
      (a : Assets)
      → IsTidy study_id a
      → IsTidy study_id (upload_all m study_id stimulus_type uploads a).0
  unfolding upload_all
  upload_all-IsTidy study_id stimulus_type [] a tidy = tidy
  upload_all-IsTidy study_id stimulus_type (upload ∷ uploads) a tidy =
      resume-keeps (IsTidy study_id)
        (create_with_asset m study_id stimulus_type none (some upload.file_bytes) none
          (some upload.filename) a)
        (λ stimulus b.
          resume (upload_all m study_id stimulus_type uploads b)
            (λ stimuli. return (stimulus ∷ stimuli)))
        (create_with_asset-IsTidy m injective study_id stimulus_type none (some upload.file_bytes)
          none (some upload.filename) a tidy)
        (λ stimulus b h.
          resume-keeps (IsTidy study_id) (upload_all m study_id stimulus_type uploads b)
            (λ stimuli. return (stimulus ∷ stimuli))
            (upload_all-IsTidy study_id stimulus_type uploads b h) (λ stimuli c k. k))

-- A bulk upload, of any files and wherever it stops, by the owner or by somebody else, keeps the screens of
-- the study in order: each of a stimulus whose id was given out, and no two with the same key; where `str`
-- gives different numbers different texts.
pub create_bulk-IsTidy :
    {F : Type 0} (m : Media)
    → ((i j : ℕ) → m.show i ≡ m.show j → i ≡ j)
    → (user_id study_id : ℕ) (stimulus_type : String) (files : List (StimulusFileUpload m.File))
      (s : Workspace F)
    → IsTidy study_id s.assets
    → IsTidy study_id ((create_bulk m user_id study_id stimulus_type files s).0).assets
unfolding create_bulk
create_bulk-IsTidy m injective user_id study_id stimulus_type files s tidy =
    resume-keeps (λ w. IsTidy study_id w.assets) (on_db (get_owned user_id study_id) s)
      (λ study. on_assets (upload_all m study_id stimulus_type files)) tidy
      (λ study w h. upload_all-IsTidy m injective study_id stimulus_type files w.assets h)
