-- ===== src/Stimuli.antt =====
-- app/services/stimulus_service.py: the stimuli of a study, their screens with the elements that were
-- detected on them, and the transitions between the screens.
pub mod Nulls
pub mod Service
pub mod Screens
pub mod Keys
pub mod Distinct
use syn_koala.Prelude.{
  ℕ, suc, zero, ◌+◌, String, ℤ, Bool, true, false, Option, none, some, List, [], ◌∷◌, ◌++◌, ◌&&◌,
  not, if◌then◌else◌, ◌==◌, str_eq, map, any, select, find_first, length, is_nonempty, put, lookup,
  contains, string_eq, ◌||◌,
}
use Prim.Native.String.{◌++◌ as ◌<>◌}
use syn_koala.Graph.{ElementView, ScreenView, ScreenGraph, TransitionView}
use syn_koala.Database.Session.{Tx, ◌>>=◌, ◌>>◌, return, found_or, read, write, not_found}
use syn_koala.Database.Rows.{amend}
use syn_koala.Stimuli.Nulls.{Document, Members, member, end, text, object, strip, strip_members}

-- The JSON of `ui_elements.properties`, in the shape that the program writes; a key may be missing.
pub record Properties : Type 0 where
  pub semantic_role : Option String
  pub interactable : Option Bool

pub record UiElement : Type 0 where
  pub id : ℕ
  pub element_key : String
  pub type : String
  pub text : Option String
  pub bbox : ℤ × ℤ × ℤ × ℤ
  pub properties : Option Properties

-- A row of `screens`, with its elements in the order of `created_at`.
pub record Screen : Type 0 where
  pub id : ℕ
  pub stimulus_id : ℕ
  pub screen_key : String
  pub image_url : Option String
  pub width : Option ℤ
  pub height : Option ℤ
  pub analysis : Option Members
  pub elements : List UiElement

pub record Stimulus : Type 0 where
  pub id : ℕ
  pub study_id : ℕ
  pub type : String
  pub source_url : Option String
  pub metadata : Option Members

pub record Assets : Type 0 where
  pub stimuli : List Stimulus
  pub screens : List Screen
  pub transitions : List TransitionView
  pub next_id : ℕ

-- `_infer_interactable`
unfoldable pub infer_interactable : String → Option Bool → Bool
infer_interactable element_type (some given) = given
infer_interactable element_type none =
    contains ("button" ∷ "input" ∷ "link" ∷ "select" ∷ "checkbox" ∷ "radio" ∷ []) element_type

abbrev pub properties_of : UiElement → Properties
properties_of element = elim element.properties [
  | none ↦ record { semantic_role = none; interactable = none }
  | some properties ↦ properties
]

-- `_element_view_from_orm`
unfoldable pub element_view : UiElement → ElementView
unfolding infer_interactable
element_view element = record {
  id = element.id;
  element_key = element.element_key;
  type = element.type;
  text = element.text;
  bbox = element.bbox;
  semantic_role = (properties_of element).semantic_role;
  interactable = infer_interactable element.type (properties_of element).interactable;
}

unfoldable pub screen_view : Screen → ScreenView
unfolding element_view
screen_view screen = record {
  id = screen.id;
  screen_key = screen.screen_key;
  width = screen.width;
  height = screen.height;
  elements = map element_view screen.elements;
}

-- The join of `screens` with the stimuli of a study.
unfoldable pub in_study : Assets → ℕ → ℕ → Bool
in_study assets study_id stimulus_id =
    any (λ s. (s.id == stimulus_id) && (s.study_id == study_id)) assets.stimuli

unfoldable pub list_screens_for_study : ℕ → Assets → List Screen
unfolding in_study
list_screens_for_study study_id assets =
    select (λ screen. in_study assets study_id screen.stimulus_id) assets.screens

-- The join of `screen_transitions` with the screens that they leave.
unfoldable pub leaves_study : Assets → ℕ → TransitionView → Bool
unfolding list_screens_for_study
leaves_study assets study_id t =
    any (λ screen. screen.id == t.from_screen_id) (list_screens_for_study study_id assets)

unfoldable pub list_transitions_for_study : ℕ → Assets → List TransitionView
unfolding leaves_study
list_transitions_for_study study_id assets =
    select (leaves_study assets study_id) assets.transitions

-- `{screen.id: ScreenView(...) for screen in screens}`
unfoldable pub screens_by_id : List (ℕ × ScreenView) → List Screen → List (ℕ × ScreenView)
unfolding screen_view
screens_by_id views [] = views
screens_by_id views (screen ∷ screens) =
    screens_by_id (put views screen.id (screen_view screen)) screens

unfoldable pub get_screen_graph : ℕ → Assets → ScreenGraph
unfolding screens_by_id list_screens_for_study list_transitions_for_study
get_screen_graph study_id assets = record {
  screens = screens_by_id [] (list_screens_for_study study_id assets);
  transitions = list_transitions_for_study study_id assets;
}

unfoldable pub element_keys : List (ℕ × String) → List UiElement → List (ℕ × String)
element_keys keys [] = keys
element_keys keys (e ∷ elements) = element_keys (put keys e.id e.element_key) elements

unfoldable pub element_keys_of : List (ℕ × String) → List Screen → List (ℕ × String)
unfolding element_keys
element_keys_of keys [] = keys
element_keys_of keys (screen ∷ screens) =
    element_keys_of (element_keys keys screen.elements) screens

unfoldable pub get_element_key_map : ℕ → Assets → List (ℕ × String)
unfolding element_keys_of list_screens_for_study
get_element_key_map study_id assets = element_keys_of [] (list_screens_for_study study_id assets)

unfoldable pub screen_keys_of : List (ℕ × String) → List Screen → List (ℕ × String)
screen_keys_of keys [] = keys
screen_keys_of keys (screen ∷ screens) =
    screen_keys_of (put keys screen.id screen.screen_key) screens

unfoldable pub get_screen_key_map : ℕ → Assets → List (ℕ × String)
unfolding screen_keys_of list_screens_for_study
get_screen_key_map study_id assets = screen_keys_of [] (list_screens_for_study study_id assets)

unfoldable pub has_analyzed_screens : ℕ → Assets → Bool
unfolding list_screens_for_study
has_analyzed_screens study_id assets =
    any (λ screen. is_nonempty screen.elements) (list_screens_for_study study_id assets)

-- The keys of `_unique_screen_key`, on fuel; `none` is a loop that has run out of it.
unfoldable pub free_suffix : (ℕ → String) → List String → String → ℕ → ℕ → Option String
free_suffix show existing base_key zero suffix = none
free_suffix show existing base_key (suc fuel) suffix =
    let key = base_key <> ("_" <> show suffix) in
    elim (contains existing key) [
      | true ↦ free_suffix show existing base_key fuel (suffix + 1)
      | false ↦ some key
    ]

-- There are as many suffixes to try as there are keys, and one more.
unfoldable pub unique_screen_key : (ℕ → String) → ℕ → String → Assets → Option String
unfolding free_suffix list_screens_for_study
unique_screen_key show study_id base_key assets =
    let existing = map (λ screen. screen.screen_key) (list_screens_for_study study_id assets) in
    if contains existing base_key
    then free_suffix show existing base_key (suc (length existing)) 2
    else some base_key
