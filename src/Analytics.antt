-- ===== src/Analytics.antt =====
-- app/services/analytics_engine.py: the baseline of a run without friction.
pub mod Baseline
pub mod Metrics
pub mod Elements
pub mod Rows
pub mod Groups
pub mod Tracks
pub mod DeadEnds
pub mod Scans
pub mod Settled
pub mod Rates
pub mod Segments
pub mod Aggregate
pub mod Replaced
pub mod Shortest
pub mod Levels
use syn_koala.Prelude.{
  ℕ, zero, suc, ◌+◌, String, Bool, true, false, Option, none, some, List, [], ◌∷◌, ◌++◌, length,
  any, contains, inter, dedup, is_nonempty, list_or_empty, get, nat_eq, string_eq, if◌then◌else◌,
}
use syn_koala.Graph.{ScreenView, ScreenGraph, TransitionView, transitions_from}
use syn_koala.Simulation.Conditions.{element_names}

-- `_has_critical`, on a screen that was looked up
abbrev pub shows_critical : List String → Option ScreenView → Bool
shows_critical critical none = false
shows_critical critical (some screen) =
    any (λ e. is_nonempty (inter (element_names e) critical)) screen.elements

unfoldable pub has_critical : ScreenGraph → List String → ℕ → Bool
unfolding element_names
has_critical graph critical screen_id = shows_critical critical (get graph.screens screen_id)

-- What the loop over the transitions of a screen comes to: the hops at which it returns, or the visited
-- screens and the queue.
pub data Visit : Type 0 where
  hit : (hops : ℕ) → Visit
  onward : (visited : List ℕ) (queue : List (ℕ × ℕ)) → Visit

unfoldable pub visit :
    ScreenGraph → List String → ℕ → List TransitionView → List ℕ → List (ℕ × ℕ) → Visit
unfolding has_critical
visit graph critical next_hops [] visited queue = onward visited queue
visit graph critical next_hops (t ∷ ts) visited queue = elim (contains visited t.to_screen_id) [
  | true ↦ visit graph critical next_hops ts visited queue
  | false ↦ elim (has_critical graph critical t.to_screen_id) [
    | true ↦ hit next_hops
    | false ↦
        visit graph critical next_hops ts (t.to_screen_id ∷ visited)
          (queue ++ (t.to_screen_id, next_hops) ∷ [])
  ]
]

-- `while queue`, on fuel: the outer `none` is a loop that has run out of it.
unfoldable pub search :
    ScreenGraph → List String → ℕ → List ℕ → List (ℕ × ℕ) → Option (Option (ℕ × ℕ))
unfolding visit transitions_from
search graph critical fuel visited [] = some none
search graph critical zero visited (entry ∷ queue) = none
search graph critical (suc fuel) visited ((screen_id, hops) ∷ queue) =
    elim (visit graph critical (hops + 1) (transitions_from graph screen_id) visited queue) [
      | hit next_hops ↦ some (some (next_hops + 1, next_hops))
      | onward visited' queue' ↦ search graph critical fuel visited' queue'
    ]

-- Every screen is queued once, when a transition first leads to it, so that the loop takes at most one
-- turn for each transition, and one for the start.
unfoldable pub shortest_path_baseline :
    ScreenGraph → ℕ → Option (List String) → Option (Option (ℕ × ℕ))
unfolding has_critical search
shortest_path_baseline graph start_screen_id critical_actions =
    let critical = dedup (list_or_empty critical_actions) in
    if is_nonempty critical
    then elim (get graph.screens start_screen_id) [
      | none ↦ some none
      | some _ ↦
          if has_critical graph critical start_screen_id
          then some (some (1, 0))
          else search graph critical (suc (length graph.transitions)) (start_screen_id ∷ [])
              ((start_screen_id, 0) ∷ [])
    ]
    else some none
