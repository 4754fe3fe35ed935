-- ===== src/Samples/Signup.antt =====
-- A sign-up flow of two screens, as the examples run it.
use syn_koala.Prelude.{ℤ, pos, none, some, [], ◌∷◌, true, refl}
use syn_koala.Graph.{ElementView, ScreenView, ScreenGraph, TaskContext, ParticipantDraft, text}
use syn_koala.Simulation.{SimulationDeps}
use syn_koala.Simulation.Navigation.{Shows, IsClosed}
use syn_koala.Participant.{ParticipantModel, scroll}
use syn_koala.Participant.Baselines.{get_participant_model}
use syn_koala.Samples.Fixed.{fixed}

abbrev pub sign_up_button : ElementView
sign_up_button = record {
  id = 11;
  element_key = "sign_up";
  type = "button";
  text = some "Sign up";
  bbox = (pos 10, pos 20, pos 100, pos 40);
  semantic_role = none;
  interactable = true;
}

abbrev pub form_screen : ScreenView
form_screen = record {
  id = 1;
  screen_key = "form";
  width = some (pos 390);
  height = some (pos 844);
  elements = sign_up_button ∷ [];
}

abbrev pub done_screen : ScreenView
done_screen = record {
  id = 2;
  screen_key = "done";
  width = some (pos 390);
  height = some (pos 844);
  elements = [];
}

abbrev pub sign_up_graph : ScreenGraph
sign_up_graph = record {
  screens = (1, form_screen) ∷ (2, done_screen) ∷ [];
  transitions =
      record { from_screen_id = 1; trigger_element_id = 11; action = "CLICK"; to_screen_id = 2 }
      ∷ [];
}

abbrev pub sign_up_task : TaskContext
sign_up_task = record {
  id = 5;
  instruction = "Create an account";
  starting_point = some "form";
  success_conditions = some (("screen_key", text "done") ∷ []);
  constraints = none;
  expected_critical_actions = some ("sign_up" ∷ []);
}

unfoldable pub tester : ParticipantDraft fixed.F
unfolding fixed
tester = record { id = 9; traits = ("patience", pos 80) ∷ []; persona = none; seed = none }

unfoldable pub sign_up_deps : SimulationDeps fixed.F
unfolding fixed
sign_up_deps = record {
  participant_model = get_participant_model fixed none;
  max_steps = 40;
  max_scan_attempts = 10;
}

pub sign_up-IsClosed : IsClosed sign_up_graph
sign_up-IsClosed = ((done_screen, refl), tt)

pub sign_up_shown : Shows sign_up_graph 1
sign_up_shown = (form_screen, refl)

-- A participant who looks at the button and scrolls.
abbrev pub steady : ParticipantModel ℤ
steady = record {
  select_attention = λ context. record {
    candidates =
        record {
          element_id = 11;
          visual_saliency = pos 0;
          task_relevance = pos 0;
          persona_relevance = pos 0;
          state_relevance = pos 0;
          attention_score = pos 50;
        }
        ∷ [];
  };
  select_action = λ context. record {
    candidates =
        record { action = scroll; target = none; utility = pos 50; confidence = pos 50 } ∷ [];
  };
}

unfoldable pub steady_deps : SimulationDeps fixed.F
unfolding fixed
steady_deps = record { participant_model = steady; max_steps = 2; max_scan_attempts = 2 }
