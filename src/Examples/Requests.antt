-- ===== src/Examples/Requests.antt =====
-- The owner of the sign-up study uploads two screens and asks for their analysis.
use syn_koala.Prelude.{ℕ, ℤ, ◌≡◌, ◌⊎◌, refl, length, List, [], ◌∷◌, ok, err}
use syn_koala.Database.{run_completed, participant_completed}
use syn_koala.Database.Session.{not_found}
use syn_koala.Stimuli.Distinct.{IsTidy}
use syn_koala.Studies.{get_owned}
use syn_koala.Jobs.{enqueue}
use syn_koala.Stimuli.Screens.{list_for_study}
use syn_koala.Uploads.{
  enqueue_all, enqueue_analysis, Workspace, StimulusFileUpload, create_bulk, request_analysis,
}
use syn_koala.Uploads.Tidy.{create_bulk-IsTidy}
use syn_koala.Uploads.Requested.{IsRequested, request_analysis-IsRequested}
use syn_koala.Samples.Records.{study, database}
use syn_koala.Samples.Flow.{sign_up_assets, tally_media, tally-injective}
use syn_koala.Examples.Flows.{sign_up_assets-IsTidy}

abbrev workspace : Workspace ℤ
workspace = record {
  db = record (database run_completed participant_completed participant_completed) {
    studies = record study { id = 7 } ∷ [];
  };
  assets = sign_up_assets;
}

abbrev files : List (StimulusFileUpload ℕ)
files =
    record { file_bytes = 3; filename = "form.png" }
    ∷ record { file_bytes = 4; filename = "form.png" }
    ∷ []

create_bulk-IsTidy_example :
    IsTidy 7 ((create_bulk tally_media 7 7 "image" files workspace).0).assets
create_bulk-IsTidy_example =
    create_bulk-IsTidy tally_media tally-injective 7 7 "image" files workspace sign_up_assets-IsTidy

request_analysis-IsRequested_example :
    ((((request_analysis 7 7 workspace).1) ≡ err not_found)
      × ((request_analysis 7 7 workspace).0 ≡ workspace))
    ⊎ (((request_analysis 7 7 workspace).1 ≡ ok tt)
        × IsRequested 7 7 workspace (request_analysis 7 7 workspace).0)
request_analysis-IsRequested_example = request_analysis-IsRequested 7 7 workspace

two_jobs : length (request_analysis 7 7 workspace).0.db.jobs ≡ 4
unfolding request_analysis get_owned list_for_study enqueue_all enqueue_analysis enqueue
two_jobs = refl
