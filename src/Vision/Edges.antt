-- ===== src/Vision/Edges.antt =====
-- `_resolve_transitions` and `_reachable_screen_ids` of app/workers/jobs/analyze_stimulus.py.
use syn_koala.Prelude.{
  find_last, ℕ, zero, suc, String, Bool, true, false, ◌&&◌, Option, none, some, List, [], ◌∷◌, ◌++◌,
  if◌then◌else◌, ◌==◌, str_eq, length, lookup_or, contains, nat_eq, get, put,
}
use mathlib.Core.List.{foldl}
use syn_koala.Graph.{TransitionView}
use syn_koala.Stimuli.{Screen, UiElement}

-- What `infer_transitions` reports of one edge.
pub record InferredTransition : Type 0 where
  pub from_screen_key : String
  pub element_key : String
  pub action : String
  pub to_screen_key : String

-- `screens_by_key.get(key)`
unfoldable pub screen_by_key : List Screen → String → Option Screen
screen_by_key screens key = find_last (λ s. str_eq s.screen_key key) screens

-- `elements_by_screen_and_key.get((screen_key, element_key))`
unfoldable pub element_by_key : List Screen → String → String → Option UiElement
element_by_key [] screen_key element_key = none
element_by_key (screen ∷ screens) screen_key element_key =
    elim (element_by_key screens screen_key element_key) [
      | some later ↦ some later
      | none ↦
          if str_eq screen.screen_key screen_key
          then find_last (λ e. str_eq e.element_key element_key) screen.elements
          else none
    ]

-- The edge between rows that the reported one stands for: both ends and the trigger are there, and it
-- is no self-loop.
abbrev pub between :
    Option Screen → Option Screen → Option UiElement → String → Option TransitionView
between (some source) (some target) (some trigger) action =
    if source.id == target.id
    then none
    else some (record {
      from_screen_id = source.id;
      trigger_element_id = trigger.id;
      action = action;
      to_screen_id = target.id;
    })
between _ _ _ action = none

unfoldable pub resolve_edge :
    List Screen → List (String × String) → InferredTransition → Option TransitionView
unfolding screen_by_key element_by_key
resolve_edge screens canonical edge =
    let from_key = lookup_or canonical edge.from_screen_key edge.from_screen_key in
    let to_key = lookup_or canonical edge.to_screen_key edge.to_screen_key in
    between (screen_by_key screens from_key) (screen_by_key screens to_key)
      (element_by_key screens from_key edge.element_key) edge.action

-- The transitions so far, and `seen_triggers`.
pub record Resolved : Type 0 where
  pub transitions : List TransitionView
  pub seen_triggers : List ((ℕ × ℕ) × ℕ)

abbrev pub trigger_of : TransitionView → ℕ × ℕ
trigger_of t = (t.from_screen_id, t.trigger_element_id)

abbrev pub same_trigger : ℕ × ℕ → ℕ × ℕ → Bool
same_trigger (a, b) (c, d) = (a == c) && (b == d)

unfoldable pub is_seen : List ((ℕ × ℕ) × ℕ) → ℕ × ℕ → Bool
is_seen [] trigger = false
is_seen ((key, destination) ∷ seen) trigger =
    if same_trigger key trigger then true else is_seen seen trigger

-- The first destination of a trigger stands; another one is dropped, and so is a repetition.
unfoldable pub accept_edge :
    List Screen → List (String × String) → Resolved → InferredTransition → Resolved
unfolding resolve_edge is_seen
accept_edge screens canonical r edge = elim (resolve_edge screens canonical edge) [
  | none ↦ r
  | some t ↦ if is_seen r.seen_triggers (trigger_of t) then r else record {
    transitions = r.transitions ++ t ∷ [];
    seen_triggers = r.seen_triggers ++ (trigger_of t, t.to_screen_id) ∷ [];
  }
]

unfoldable pub resolve_transitions :
    List Screen → List (String × String) → List InferredTransition → List TransitionView
unfolding accept_edge
resolve_transitions screens canonical inferred =
    (foldl (accept_edge screens canonical) (record { transitions = []; seen_triggers = [] })
      inferred).transitions

-- `adjacency`, a dictionary of lists
abbrev pub neighbours : List (ℕ × List ℕ) → ℕ → List ℕ
neighbours adjacency id = elim (get adjacency id) [ none ↦ [] | some ids ↦ ids ]

unfoldable pub adjacency_of : List (ℕ × List ℕ) → List TransitionView → List (ℕ × List ℕ)
adjacency_of adjacency [] = adjacency
adjacency_of adjacency (t ∷ ts) =
    adjacency_of
      (put adjacency t.from_screen_id
        (neighbours adjacency t.from_screen_id ++ t.to_screen_id ∷ []))
      ts

-- The loop over the neighbours of a screen: `seen`, and the queue.
unfoldable pub enqueue_new : List ℕ → List ℕ → List ℕ → List ℕ × List ℕ
enqueue_new [] seen queue = (seen, queue)
enqueue_new (id ∷ ids) seen queue = elim (contains seen id) [
  | true ↦ enqueue_new ids seen queue
  | false ↦ enqueue_new ids (id ∷ seen) (queue ++ id ∷ [])
]

-- `while queue`, on fuel; `none` is a loop that has run out of it.
unfoldable pub reach_from : List (ℕ × List ℕ) → ℕ → List ℕ → List ℕ → Option (List ℕ)
unfolding enqueue_new
reach_from adjacency fuel seen [] = some seen
reach_from adjacency zero seen (id ∷ queue) = none
reach_from adjacency (suc fuel) seen (id ∷ queue) =
    let next = enqueue_new (neighbours adjacency id) seen queue in
    reach_from adjacency fuel next.0 next.1

-- One turn for each transition, and one for the start.
unfoldable pub reachable_screen_ids : List Screen → List TransitionView → String → Option (List ℕ)
unfolding screen_by_key adjacency_of reach_from
reachable_screen_ids screens transitions start_key = elim (screen_by_key screens start_key) [
  | none ↦ some []
  | some start ↦
      reach_from (adjacency_of [] transitions) (suc (length transitions)) (start.id ∷ [])
        (start.id ∷ [])
]
