-- ===== src/Stimuli/Screens.antt =====
-- What app/services/stimulus_service.py writes of screens, elements and transitions.
use mathlib.Core.Option
use syn_koala.Prelude.{
  ℕ, ◌+◌, String, ℤ, Bool, not, ◌&&◌, Option, none, some, List, [], ◌∷◌, ◌++◌, if◌then◌else◌, ◌==◌,
  str_eq, map, select, find_first, length, lookup,
}
use syn_koala.Graph.{TransitionView}
use syn_koala.Database.Session.{Tx, ◌>>=◌, ◌>>◌, return, read, write}
use syn_koala.Database.Rows.{amend}
use syn_koala.Stimuli.{UiElement, Screen, Stimulus, Assets, leaves_study}
use syn_koala.Stimuli.Nulls.{
  Document, Members, member, end, text, strip, strip_members, without_nulls,
}

-- An element as a vision model or a Figma file describes it.
pub record ElementDraft : Type 0 where
  pub element_key : String
  pub type : String
  pub text : Option String
  pub bbox : ℤ × ℤ × ℤ × ℤ
  pub semantic_role : String
  pub interactable : Bool

-- `_strip_null_bytes` on such a dictionary: its texts are stripped.
unfoldable pub strip_draft : ElementDraft → ElementDraft
unfolding without_nulls
strip_draft d = record d {
  element_key = without_nulls d.element_key;
  type = without_nulls d.type;
  text = Option.map without_nulls d.text;
  semantic_role = without_nulls d.semantic_role;
}

unfoldable pub new_element : ℕ → ElementDraft → UiElement
new_element id d = record {
  id = id;
  element_key = d.element_key;
  type = d.type;
  text = d.text;
  bbox = d.bbox;
  properties =
      some (record { semantic_role = some d.semantic_role; interactable = some d.interactable });
}

-- Rows with the next ids.
unfoldable pub new_elements : ℕ → List ElementDraft → List UiElement
unfolding new_element
new_elements id [] = []
new_elements id (d ∷ ds) = new_element id d ∷ new_elements (id + 1) ds

unfoldable pub set_screen : ℕ → (Screen → Screen) → Assets → Assets
set_screen screen_id change a = record a {
  screens = amend (λ s. s.id == screen_id) change a.screens;
}

-- The analysis and the new elements of one screen.
unfoldable pub analyzed : Members → List UiElement → Screen → Screen
analyzed raw_analysis added s = record s {
  analysis = some (strip_members raw_analysis);
  elements = s.elements ++ added;
}

unfoldable pub save_screen_analysis : ℕ → List ElementDraft → Members → Assets → Assets
unfolding set_screen new_elements strip_draft analyzed
save_screen_analysis screen_id elements raw_analysis a =
    let added = new_elements a.next_id (map strip_draft elements) in
    record (set_screen screen_id (analyzed raw_analysis added) a) {
      next_id = a.next_id + length elements;
    }

-- `{**d, key: value}`
unfoldable pub with_member : Members → String → Document → Members
with_member end key value = member key value end
with_member (member k v ms) key value =
    if str_eq k key then member k value ms else member k v (with_member ms key value)

abbrev pub members_or_empty : Option Members → Members
members_or_empty none = end
members_or_empty (some ms) = ms

unfoldable pub save_role : Document → Screen → Screen
unfolding with_member
save_role role screen = record screen {
  analysis = some (with_member (members_or_empty screen.analysis) "flow" (strip role));
}

unfoldable pub save_screen_roles : List Screen → List (String × Document) → Assets → Assets
unfolding save_role set_screen
save_screen_roles [] roles a = a
save_screen_roles (screen ∷ screens) roles a =
    let rest = save_screen_roles screens roles in
    elim (lookup roles screen.screen_key) [
      | none ↦ rest a
      | some role ↦ rest (set_screen screen.id (save_role role) a)
    ]

figma_analysis : String → Members
figma_analysis name = member "source" (text "figma") (member "name" (text name) end)

abbrev new_figma_screen : ℕ → ℕ → String → Screen
new_figma_screen id stimulus_id screen_key = record {
  id = id;
  stimulus_id = stimulus_id;
  screen_key = screen_key;
  image_url = none;
  width = none;
  height = none;
  analysis = none;
  elements = [];
}

-- The row of `(stimulus_id, screen_key)`, or a new one.
unfoldable pub figma_row : ℕ → String → Tx Assets ℕ
figma_row stimulus_id screen_key a =
    elim (find_first (λ s. (s.stimulus_id == stimulus_id) && str_eq s.screen_key screen_key)
      a.screens) [
        | some screen ↦ return screen.id a
        | none ↦ return a.next_id (record a {
          screens = a.screens ++ new_figma_screen a.next_id stimulus_id screen_key ∷ [];
          next_id = a.next_id + 1;
        })
      ]

-- A re-import replaces the elements of the screen.
unfoldable pub save_figma_screen :
    ℕ → String → String → ℤ → ℤ → Option String → List ElementDraft → Tx Assets (ℕ × List UiElement)
unfolding figma_row figma_analysis set_screen new_elements
save_figma_screen stimulus_id screen_key name width height image_url elements = do
  screen_id ← figma_row stimulus_id screen_key
  added ← read (λ a. new_elements a.next_id elements)
  write (λ a.
      record (set_screen screen_id
        (λ s. record s {
          width = some width;
          height = some height;
          image_url = image_url;
          analysis = some (figma_analysis name);
          elements = added;
        })
        a) { next_id = a.next_id + length elements })
  return (screen_id, added)

unfoldable pub save_import_metadata : ℕ → Document → Assets → Assets
unfolding with_member
save_import_metadata stimulus_id journey_map a = record a {
  stimuli =
      amend (λ s. s.id == stimulus_id)
        (λ s. record s {
          metadata = some (with_member (members_or_empty s.metadata) "journey_map" journey_map);
        })
        a.stimuli;
}

unfoldable pub replace_transitions_for_study : ℕ → List TransitionView → Assets → Assets
unfolding leaves_study
replace_transitions_for_study study_id transitions a = record a {
  transitions = select (λ t. not (leaves_study a study_id t)) a.transitions ++ transitions;
}

unfoldable pub list_for_study : ℕ → Assets → List Stimulus
list_for_study study_id a = select (λ s. s.study_id == study_id) a.stimuli
