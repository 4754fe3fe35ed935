-- ===== src/Vision/Analyze.antt =====
-- The job of app/workers/jobs/analyze_stimulus.py. The vision model and the storage are parameters:
-- what `infer_transitions` answers depends on the attempt, since a model may answer differently.
use syn_koala.Prelude.{
  ℕ, zero, suc, ◌+◌, String, ℤ, pos, Bool, true, false, Option, none, some, List, [], ◌∷◌,
  if◌then◌else◌, ◌==◌, ltb, str_eq, eq_ℤ, map, select, any, is_nonempty, find_first, length, lookup,
  nonempty, contains, nat_eq, Result, ok, err,
}
use mathlib.Core.Option
use syn_koala.Graph.{TransitionView}
use syn_koala.Database.Session.{
  Tx, ServiceError, ◌>>=◌, ◌>>◌, return, raise, found_or, read, write, lifecycle_error, value_error,
}
use syn_koala.Stimuli.{Screen, UiElement, Assets, properties_of, list_screens_for_study}
use syn_koala.Stimuli.Nulls.{Document, Members, member, end, scalar, text, object}
use syn_koala.Stimuli.Service.{get_with_screens, lift}
use syn_koala.Stimuli.Screens.{
  ElementDraft, save_screen_analysis, save_screen_roles, replace_transitions_for_study,
}
use syn_koala.Vision.{
  FlowRole, entry, step, success, error_role, other_role, role_eq, ScreenRole, Role, Roles,
  resolve_screen_roles, canonical_screen_keys,
}
use syn_koala.Vision.Edges.{InferredTransition, resolve_transitions, reachable_screen_ids}

pub record ElementSummary : Type 0 where
  pub element_key : String
  pub type : String
  pub text : Option String
  pub semantic_role : String
  pub interactable : Bool

pub record ScreenSummary : Type 0 where
  pub screen_key : String
  pub elements : List ElementSummary

pub record ScreenAnalysis : Type 0 where
  pub elements : List ElementDraft
  -- `analysis.model_dump()`
  pub dumped : Members

pub record Vision : Type 0 where
  -- `download_object` and `analyze_screen`
  pub analyze_screen : String → Option (ℤ × ℤ) → Result ServiceError ScreenAnalysis
  pub classify_screens : List ScreenSummary → Result ServiceError (List ScreenRole)
  pub infer_transitions :
      (attempt : ℕ) → List ScreenSummary → Result ServiceError (List InferredTransition)

abbrev element_summary : UiElement → ElementSummary
element_summary e = record {
  element_key = e.element_key;
  type = e.type;
  text = e.text;
  semantic_role = elim (properties_of e).semantic_role [ none ↦ "" | some role ↦ role ];
  interactable = elim (properties_of e).interactable [ none ↦ false | some given ↦ given ];
}

unfoldable pub screen_summary : Screen → ScreenSummary
screen_summary screen = record {
  screen_key = screen.screen_key;
  elements = map element_summary screen.elements;
}

abbrev role_name : FlowRole → String
role_name entry = "entry"
role_name step = "step"
role_name success = "success"
role_name error_role = "error"
role_name other_role = "other"

abbrev optional_text : Option String → Document
optional_text none = scalar
optional_text (some s) = text s

unfoldable pub role_document : String × Role → String × Document
role_document (key, role) = (
  key,
  object (
      member "summary" (text role.summary) (
        member "role" (text (role_name role.role))
          (member "duplicate_of" (optional_text role.duplicate_of) end))),
)

-- The `set` of the reachable screens; `Reach` shows that the loop never runs out of fuel.
abbrev pub reached_ids : List Screen → List TransitionView → String → List ℕ
reached_ids screens ts entry_key = elim (reachable_screen_ids screens ts entry_key) [
  | none ↦ []
  | some ids ↦ ids
]

-- `success_key is not None and success_id in reached`
unfoldable pub connects : List Screen → Option String → List ℕ → Bool
connects screens none reached = false
connects screens (some success_key) reached =
    elim (find_first (λ s. str_eq s.screen_key success_key) screens) [
      | none ↦ false
      | some s ↦ contains reached s.id
    ]

-- `best_transitions` and `best_reached`, of which -1 is `none`
pub record Best : Type 0 where
  pub transitions : List TransitionView
  pub reached : Option ℕ

abbrev pub is_better : Option ℕ → ℕ → Bool
is_better none reached = true
is_better (some best) reached = ltb best reached

unfoldable pub keep_best : Best → List TransitionView → ℕ → Best
keep_best best ts reached =
    if is_better best.reached reached
    then record { transitions = ts; reached = some reached }
    else best

abbrev pub max_transition_inference_attempts : ℕ
max_transition_inference_attempts = 3

module _ (vision : Vision) (study_screens surviving : List Screen)
    (canonical : List (String × String)) where
  -- One attempt of `infer_transitions`, resolved.
  unfoldable pub infer_once : ℕ → Result ServiceError (List TransitionView)
  unfolding screen_summary
  infer_once attempt = elim (vision.infer_transitions attempt (map screen_summary surviving)) [
    | err e ↦ err e
    | ok inferred ↦ ok (resolve_transitions study_screens canonical inferred)
  ]

  -- The attempts that are left, of which the next has this number.
  unfoldable pub infer_attempts :
      String → Option String → (left attempt : ℕ) → Best → Result ServiceError (List TransitionView)
  unfolding infer_once connects keep_best
  infer_attempts entry_key success_key zero attempt best = ok best.transitions
  infer_attempts entry_key success_key (suc left) attempt best = elim (infer_once attempt) [
    | err e ↦ err e
    | ok ts ↦
        let reached = reached_ids study_screens ts entry_key in
        let best' = keep_best best ts (length reached) in
        elim (connects study_screens success_key reached) [
          | true ↦ ok best'.transitions
          | false ↦ infer_attempts entry_key success_key left (attempt + 1) best'
        ]
  ]

  unfoldable pub infer_best_transitions :
      Option String → Option String → Result ServiceError (List TransitionView)
  unfolding infer_attempts infer_once
  infer_best_transitions none success_key = infer_once 0
  infer_best_transitions (some entry_key) success_key =
      infer_attempts entry_key success_key max_transition_inference_attempts 0
        (record { transitions = []; reached = none })

-- `(screen.width, screen.height) if screen.width and screen.height else None`
abbrev image_size : Screen → Option (ℤ × ℤ)
image_size screen = elim screen.width [
  | none ↦ none
  | some w ↦ elim screen.height [
    | none ↦ none
    | some h ↦ if eq_ℤ w (pos 0) then none else if eq_ℤ h (pos 0) then none else some (w, h)
  ]
]

abbrev pub is_surviving : List (String × String) → Screen → Bool
is_surviving canonical screen = elim (lookup canonical screen.screen_key) [
  | none ↦ false
  | some root ↦ str_eq root screen.screen_key
]

abbrev pub key_with : FlowRole → Roles → Option String
key_with role roles = Option.map (λ e. e.0) (find_first (λ e. role_eq e.1.role role) roles)

abbrev pub is_missing : Option Members → Bool
is_missing none = true
is_missing (some ms) = false

module _ (vision : Vision) where
  -- The body of the loop over the screens of the stimulus, for a screen without elements.
  unfoldable pub analyze_one : Screen → Tx Assets (Unit {0})
  unfolding save_screen_analysis
  analyze_one screen = elim (nonempty screen.image_url) [
    | none ↦ raise lifecycle_error
    | some url ↦ do
      analysis ← lift (vision.analyze_screen url (image_size screen))
      write (save_screen_analysis screen.id analysis.elements analysis.dumped)
  ]

  unfoldable pub analyze_screens : List Screen → Tx Assets (Unit {0})
  unfolding analyze_one
  analyze_screens [] = return tt
  analyze_screens (screen ∷ screens) = do
    (if is_nonempty screen.elements then return tt else analyze_one screen)
    analyze_screens screens

  -- The end of the job: the attempts at the transitions, and the best of them saved.
  unfoldable pub draw_transitions :
      ℕ → List Screen → Roles → List (String × String) → Tx Assets (Unit {0})
  unfolding infer_best_transitions replace_transitions_for_study
  draw_transitions study_id study_screens roles canonical = do
    let surviving = select (is_surviving canonical) study_screens
    transitions ← lift (
        infer_best_transitions vision study_screens surviving canonical (key_with entry roles)
          (key_with success roles))
    write (replace_transitions_for_study study_id transitions)

  unfoldable pub draw_roles : ℕ → List Screen → Roles → Tx Assets (Unit {0})
  unfolding role_document canonical_screen_keys save_screen_roles draw_transitions
  draw_roles study_id study_screens roles = do
    write (save_screen_roles study_screens (map role_document roles))
    canonical ← found_or value_error (canonical_screen_keys roles)
    draw_transitions study_id study_screens roles canonical

  -- The graph of the study, drawn anew from its analyzed screens.
  unfoldable pub redraw : ℕ → List Screen → Tx Assets (Unit {0})
  unfolding screen_summary resolve_screen_roles draw_roles
  redraw study_id study_screens = do
    inferred ← lift (vision.classify_screens (map screen_summary study_screens))
    draw_roles study_id study_screens (resolve_screen_roles study_screens inferred)

  -- The job draws the graph only where every screen of the study is analyzed, so that `study_screens`
  -- are all of them, and there are two.
  unfoldable pub redraw_if_ready : ℕ → List Screen → Tx Assets (Unit {0})
  unfolding redraw
  redraw_if_ready study_id screens =
      if any (λ s. is_missing s.analysis) screens
      then return tt
      else if ltb (length screens) 2
      then return tt
      else redraw study_id screens

  unfoldable pub handle_analyze_stimulus : ℕ → Tx Assets (Unit {0})
  unfolding get_with_screens analyze_screens redraw_if_ready list_screens_for_study
  handle_analyze_stimulus stimulus_id = do
    stimulus ← get_with_screens stimulus_id
    screens ← read (λ a. select (λ s. s.stimulus_id == stimulus_id) a.screens)
    analyze_screens screens
    all_study_screens ← read (list_screens_for_study stimulus.study_id)
    redraw_if_ready stimulus.study_id all_study_screens
