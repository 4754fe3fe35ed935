-- ===== src/Graph.antt =====
-- app/agents/types.py: the shapes that the simulation engine passes around.
pub mod Starts
use syn_koala.Prelude.{
  ℕ, String, ℤ, Bool, Option, none, some, List, [], ◌∷◌, ◌==◌, str_eq, if◌then◌else◌, nonempty,
  find_first, select,
}

-- A JSON value, as far as the program looks at it: it compares strings, tests truth, and looks values up
-- in sets and dictionaries, which raises for a list or an object (`container`), as they have no hash.
pub data Json : Type 0 where
  null : Json
  text : String → Json
  other : (truthy : Bool) → Json
  container : (truthy : Bool) → Json

abbrev pub JsonObject : Type 0
JsonObject = List (String × Json)

pub record ElementView : Type 0 where
  pub id : ℕ
  pub element_key : String
  pub type : String
  pub text : Option String
  pub bbox : ℤ × ℤ × ℤ × ℤ
  pub semantic_role : Option String
  pub interactable : Bool

pub record ScreenView : Type 0 where
  pub id : ℕ
  pub screen_key : String
  pub width : Option ℤ
  pub height : Option ℤ
  pub elements : List ElementView

-- `ScreenView.element`
unfoldable pub element : ScreenView → ℕ → Option ElementView
element screen element_id = find_first (λ e. e.id == element_id) screen.elements

pub record TransitionView : Type 0 where
  pub from_screen_id : ℕ
  pub trigger_element_id : ℕ
  pub action : String
  pub to_screen_id : ℕ

pub record ScreenGraph : Type 0 where
  pub screens : List (ℕ × ScreenView)
  pub transitions : List TransitionView

unfoldable pub transitions_from : ScreenGraph → ℕ → List TransitionView
transitions_from graph screen_id = select (λ t. t.from_screen_id == screen_id) graph.transitions

pub screen_named : String → List (ℕ × ScreenView) → Option ℕ
screen_named key [] = none
screen_named key ((_, screen) ∷ screens) =
    if str_eq screen.screen_key key then some screen.id else screen_named key screens

pub first_key : List (ℕ × ScreenView) → Option ℕ
first_key [] = none
first_key ((screen_id, _) ∷ _) = some screen_id

-- The screen that a starting point names, if it is given.
abbrev pub named_start : List (ℕ × ScreenView) → Option String → Option ℕ
named_start screens none = none
named_start screens (some key) = screen_named key screens

abbrev pub or_first : Option ℕ → Option ℕ → Option ℕ
or_first none first = first
or_first (some screen_id) first = some screen_id

-- `none` is the `ValueError` of a graph with no screens.
unfoldable pub resolve_starting_screen : ScreenGraph → Option String → Option ℕ
unfolding screen_named first_key
resolve_starting_screen graph starting_point =
    or_first (named_start graph.screens (nonempty starting_point)) (first_key graph.screens)

pub record ParticipantDraft (F : Type 0) : Type 0 where
  pub id : ℕ
  pub traits : List (String × F)
  pub persona : Option JsonObject
  pub seed : Option ℤ

pub record TaskContext : Type 0 where
  pub id : ℕ
  pub instruction : String
  pub starting_point : Option String
  pub success_conditions : Option JsonObject
  pub constraints : Option JsonObject
  pub expected_critical_actions : Option (List String)
