-- ===== src/Simulation/Progress.antt =====
-- Every node of the graph runs without an exception on a state that is ready for it, leaves the
-- state ready for the next node, and brings the run nearer to its end.
pub mod Scan
pub mod Moves
pub mod Check
use syn_koala.Prelude.{
  ℕ, String, ◌+◌, ◌<◌, ◌≡◌, ◌≢◌, refl, sym, ap, ◌∙◌, subst, Option, none, some, List, [], ◌∷◌,
  arith, get, Bool, true, false, find_first, ◌==◌, leb, ltb, ◌&&◌, Bool-cases, inl, inr,
  if◌then◌else◌, Result, ok, err, Option-cases, ◌⊎◌, is_nonempty, ==_iff,
}
use mathlib.Core.Option.{some-injective}
use syn_koala.Platform.{Platform}
use syn_koala.Graph.{ElementView, ScreenView, element}
use syn_koala.Participant.{AttentionCandidate, ActionCandidate, ParticipantModel, SimulationContext}
use syn_koala.Simulation.{
  SimulationState, SimulationDeps, is_in_progress, emit, make_event, build_context, NodeError,
}
use syn_koala.Simulation.Sampling.{softmax_sample, softmax_sample-cons}
use syn_koala.Simulation.Conditions.{intended_element_for_screen, is_critical, critical_set}
use syn_koala.Simulation.Nodes.{
  Sim, point_of, orient, perceive, gaze_at, attend, intended_id, scans, element_opt, action_on,
  act_on_intended, scan_exhausted, interpret, select_action,
}
use syn_koala.Simulation.Actions.{
  perform, execute_action, is_noted, progress_of, update_state, is_stuck, abandon_pressure,
  check_screen, check_task,
}
use syn_koala.Simulation.Flow.{
  Node, orient_node, perceive_node, attend_node, act_node, exhausted_node, interpret_node,
  select_node, execute_node, update_node, check_node, end_node, route_after_perceive, route_scan,
  route_after_attend, route_after_check_task, Config, run_node, at,
}
use syn_koala.Simulation.Measure.{
  measure, rounds_from, round_cost, scans_left, attend-lt-perceive, rounds_from-suc,
  scans_left-rescan, scans_left-pos,
}
use syn_koala.Simulation.Navigation.{Shows, IsNavigable, perform-IsNavigable, outcome-perform}

-- What a node relies on.
abbrev pub Ready : {F : Type 0} → Node → SimulationState F → Type 0
Ready orient_node s = Unit
Ready end_node s = is_in_progress s.outcome ≡ false
Ready act_node s =
    (is_in_progress s.outcome ≡ true)
    × (screen : ScreenView) × (e : ElementView) × (get s.screen_graph.screens s.current_screen_id
        ≡ some screen)
    × (element_opt screen s.intended_element_id ≡ some e)
Ready {F} execute_node s =
    (is_in_progress s.outcome ≡ true) × (a : ActionCandidate F) × (s.action ≡ some a)
Ready _ s = is_in_progress s.outcome ≡ true

pub not_leb : (a b : ℕ) → leb a b ≡ false → b < a
not_leb a b h = ground arith

module _ (p : Platform) (deps : SimulationDeps p.F) where
  abbrev pub Advances : Node → Sim p → p.Random → Type 0
  Advances node s rng =
      (c : Config p) × (run_node p deps node s rng ≡ ok c)
      × IsNavigable c.state
      × Ready c.node c.state
      × (measure deps c.node c.state < measure deps node s)

  pub same_rounds :
      (s t : Sim p)
      → t.step ≡ s.step
      → rounds_from deps (t.step + 1) ≡ rounds_from deps (s.step + 1)
  same_rounds s t k = ap (λ (n : ℕ). rounds_from deps (n + 1)) k
