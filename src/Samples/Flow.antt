-- ===== src/Samples/Flow.antt =====
-- The sign-up flow as rows, the second screen not yet analyzed, and a vision model that answers the same
-- each time and names a screen that does not exist.
use syn_koala.Prelude.{
  ℕ, zero, suc, refl, sym, ◌∙◌, String, pos, true, none, some, List, [], ◌∷◌, ◌+◌, ok, ◌≡◌, arith,
  ap,
}
use Prim.Native.String.{count, ◌++◌ as ◌<>◌}
use package.text.Mathlib.TextLemmas.{length-append}
use syn_koala.Stimuli.{UiElement, Screen, Stimulus, Assets}
use syn_koala.Stimuli.Nulls.{end, member, text}
use syn_koala.Stimuli.Service.{Media}
use syn_koala.Vision.{entry, success, ScreenRole}
use syn_koala.Vision.Edges.{InferredTransition}
use syn_koala.Vision.Analyze.{Vision}

abbrev pub sign_up_row : UiElement
sign_up_row = record {
  id = 11;
  element_key = "sign_up";
  type = "button";
  text = some "Sign up";
  bbox = (pos 10, pos 20, pos 100, pos 40);
  properties = some (record { semantic_role = some "submit"; interactable = some true });
}

abbrev pub form_row : Screen
form_row = record {
  id = 1;
  stimulus_id = 50;
  screen_key = "form";
  image_url = some "form.png";
  width = some (pos 390);
  height = some (pos 844);
  analysis = some (member "elements" (text "one") end);
  elements = sign_up_row ∷ [];
}

abbrev pub done_row : Screen
done_row = record form_row {
  id = 2;
  stimulus_id = 51;
  screen_key = "done";
  image_url = some "done.png";
  analysis = none;
  elements = [];
}

abbrev pub sign_up_rows : List Screen
sign_up_rows = form_row ∷ done_row ∷ []

abbrev upload : ℕ → Stimulus
upload id = record { id = id; study_id = 7; type = "image"; source_url = none; metadata = none }

abbrev pub form_upload : Stimulus
form_upload = upload 50

abbrev pub done_upload : Stimulus
done_upload = upload 51

abbrev pub sign_up_assets : Assets
sign_up_assets = record {
  stimuli = form_upload ∷ done_upload ∷ [];
  screens = sign_up_rows;
  transitions = [];
  next_id = 100;
}

abbrev reported : String → String → InferredTransition
reported element_key to_screen_key = record {
  from_screen_key = "form";
  element_key = element_key;
  action = "TAP";
  to_screen_key = to_screen_key;
}

-- The second names an element that is not there, the third is a self-loop, and the last contradicts the
-- first.
abbrev pub reported_edges : List InferredTransition
reported_edges =
    reported "sign_up" "done"
    ∷ reported "help" "done"
    ∷ reported "sign_up" "form"
    ∷ reported "sign_up" "elsewhere"
    ∷ []

-- Both screens are called the entry, and a screen is reported that is not there.
abbrev pub reported_roles : List ScreenRole
reported_roles =
    record { screen_key = "form"; summary = "A form"; role = entry; duplicate_of = none }
    ∷ record { screen_key = "done"; summary = "The end"; role = entry; duplicate_of = some "form" }
    ∷ record { screen_key = "ghost"; summary = "?"; role = success; duplicate_of = some "done" }
    ∷ []

abbrev pub clear_roles : List ScreenRole
clear_roles =
    record { screen_key = "form"; summary = "A form"; role = entry; duplicate_of = none }
    ∷ record { screen_key = "done"; summary = "The end"; role = success; duplicate_of = none }
    ∷ []

abbrev pub fixed_vision : Vision
fixed_vision = record {
  analyze_screen = λ url size. ok (record {
    elements =
        record {
          element_key = "close";
          type = "button";
          text = none;
          bbox = (pos 0, pos 0, pos 10, pos 10);
          semantic_role = "close";
          interactable = true;
        }
        ∷ [];
    dumped = end;
  });
  classify_screens = λ summaries. ok clear_roles;
  infer_transitions = λ attempt summaries. ok reported_edges;
}

-- A number as that many strokes.
abbrev pub tally : ℕ → String
tally zero = ""
tally (suc n) = "1" <> tally n

count-tally : (n : ℕ) → count (tally n) ≡ n
count-tally zero = refl
count-tally (suc n) =
    let split : count (tally (suc n)) ≡ 1 + count (tally n) = length-append "1" (tally n) in
    omega (arith, split, count-tally n)

pub tally-injective : (m n : ℕ) → tally m ≡ tally n → m ≡ n
tally-injective m n h = sym (count-tally m) ∙ (ap count h ∙ count-tally n)

-- Every file is stored, and no image is read.
abbrev pub tally_media : Media
tally_media = record {
  File = ℕ;
  upload_object = λ id file. ok "stored.png";
  image_dimensions = λ file. none;
  show = tally;
  lower = λ name. 102 ∷ 111 ∷ 114 ∷ 109 ∷ [];
  of_codes = λ codes. "form";
}
