-- ===== src/Simulation/Conditions.antt =====
-- The task's conditions in app/agents/graphs/simulation_graph.py: the finish line, the milestones
-- and the intended element of a screen.
use syn_koala.Prelude.{
  ℕ, String, Bool, true, false, Option, none, some, List, [], ◌∷◌, ◌&&◌, ◌||◌, str_eq,
  if◌then◌else◌, lookup, get, find_first, any, is_nonempty, string_eq, dedup, inter, union,
  list_or_empty,
}
use syn_koala.Graph.{
  null, text, other, container, JsonObject, ElementView, ScreenView, ScreenGraph, TaskContext,
  element,
}
use syn_koala.Participant.{ActionEntry}

-- The loop over `screen_graph.screens.values()`.
find_on_screens : List (ℕ × ScreenView) → ℕ → Option ElementView
unfolding element
find_on_screens [] element_id = none
find_on_screens ((_, screen) ∷ screens) element_id =
    let later = find_on_screens screens element_id in
    elim (element screen element_id) [ some e ↦ some e | none ↦ later ]

unfoldable pub find_element : ScreenGraph → Option ℕ → Option ElementView
unfolding find_on_screens
find_element graph none = none
find_element graph (some target) = find_on_screens graph.screens target

-- `key in success_conditions`, also where the value is null
abbrev has_key : JsonObject → String → Bool
has_key conditions key = elim (lookup conditions key) [ none ↦ false | some _ ↦ true ]

unfoldable pub has_recognized_success_condition : Option JsonObject → Bool
has_recognized_success_condition none = false
has_recognized_success_condition (some conditions) =
    has_key conditions "screen_key"
    || (has_key conditions "element_key" || has_key conditions "semantic_role")

-- `value is not None and s == value`, for `value = conditions.get(key)`
unfoldable pub condition_is : JsonObject → String → Option String → Bool
condition_is conditions key none = false
condition_is conditions key (some s) = elim (lookup conditions key) [
  | none ↦ false
  | some null ↦ false
  | some (text t) ↦ str_eq s t
  | some (other _) ↦ false
  | some (container _) ↦ false
]

-- An entry of the history whose element has the wanted key or role.
entry_satisfies : ScreenGraph → JsonObject → ActionEntry → Bool
unfolding find_element condition_is
entry_satisfies graph conditions entry = elim (find_element graph entry.target) [
  | none ↦ false
  | some e ↦
      condition_is conditions "element_key" (some e.element_key)
      || condition_is conditions "semantic_role" e.semantic_role
]

unfoldable pub success_condition_met : ScreenGraph → Option JsonObject → ℕ → List ActionEntry → Bool
unfolding has_recognized_success_condition condition_is entry_satisfies
success_condition_met graph none current_screen_id history = false
success_condition_met graph (some conditions) current_screen_id history =
    let on_screen : Bool = elim (get graph.screens current_screen_id) [
      | none ↦ false
      | some screen ↦ condition_is conditions "screen_key" (some screen.screen_key)
    ] in
    has_recognized_success_condition (some conditions)
    && (on_screen || any (entry_satisfies graph conditions) history)

-- `{element.element_key, element.semantic_role or ""}`
unfoldable pub element_names : ElementView → List String
element_names e =
    let role : String = elim e.semantic_role [ none ↦ "" | some r ↦ r ] in
    dedup (e.element_key ∷ role ∷ [])

-- `{element.element_key, element.semantic_role or ""} & critical_actions`, as a test
unfoldable pub is_critical : List String → ElementView → Bool
unfolding element_names
is_critical critical e = is_nonempty (inter (element_names e) critical)

unfoldable pub intended_element_for_screen : ScreenView → List String → Option ElementView
unfolding is_critical
intended_element_for_screen screen critical =
    if is_nonempty critical then find_first (is_critical critical) screen.elements else none

-- `set(task.expected_critical_actions or [])`
unfoldable pub critical_set : TaskContext → List String
critical_set task = dedup (list_or_empty task.expected_critical_actions)

-- The critical actions that the history has matched.
unfoldable pub matched_actions : ScreenGraph → List String → List ActionEntry → List String
unfolding find_element element_names
matched_actions graph critical [] = []
matched_actions graph critical (entry ∷ history) =
    let rest = matched_actions graph critical history in
    elim (find_element graph entry.target) [
      | none ↦ rest
      | some e ↦ union (inter (element_names e) critical) rest
    ]
