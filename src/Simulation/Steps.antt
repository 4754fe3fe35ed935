-- ===== src/Simulation/Steps.antt =====
-- How many actions a run takes: `step` and `action_history` of
-- app/agents/graphs/simulation_graph.py against the budget of `check_task`.
use syn_koala.Prelude.{
  ℕ, zero, suc, ◌+◌, ◌≤◌, ◌<◌, ◌≡◌, refl, sym, ap, ◌∙◌, arith, String, false, ◌&&◌, Option, some,
  none, List, [], ◌∷◌, ◌++◌, ok, Bool-cases, inl, inr, ltb, leb, map,
}
use mathlib.Core.List.{map-append}
use syn_koala.Platform.{Platform}
use syn_koala.Graph.{ElementView, ScreenView, ScreenGraph, ParticipantDraft, TaskContext}
use syn_koala.Participant.{AttentionCandidate, ActionCandidate}
use syn_koala.Simulation.{SimulationState, SimulationDeps}
use syn_koala.Simulation.Conditions.{intended_element_for_screen, critical_set}
use syn_koala.Simulation.Nodes.{
  Sim, orient, perceive_at, perceive, gaze_at, scan_exhausted, interpret,
}
use syn_koala.Simulation.Actions.{
  perform, is_noted, progress_of, update_state, succeed, abandon_with, is_stuck, abandon_pressure,
  check_screen,
}
use syn_koala.Simulation.Flow.{
  Node, update_node, check_node, end_node, Config, Executor, run_simulation, initial_state,
}
use syn_koala.Simulation.Invariant.{Rule, run_keeps, scanned}

-- The numbers below `n`, in order.
abbrev pub below : ℕ → List ℕ
below zero = []
below (suc n) = below n ++ n ∷ []

-- Until `execute_action` there is room for one more action.
abbrev HasRoom : ℕ → Node → ℕ → Type 0
HasRoom max_steps update_node n = n ≤ max_steps
HasRoom max_steps check_node n = n ≤ max_steps
HasRoom max_steps end_node n = n ≤ max_steps
HasRoom max_steps _ n = n < max_steps

HasRoom-any : (max_steps : ℕ) (node : Node) (n : ℕ) → n < max_steps → HasRoom max_steps node n
HasRoom-any max_steps update_node n h = omega (arith, h)
HasRoom-any max_steps check_node n h = omega (arith, h)
HasRoom-any max_steps end_node n h = omega (arith, h)
HasRoom-any max_steps _ n h = h

leb-false : (a b : ℕ) → leb a b ≡ false → b < a
leb-false a b h = ground arith

module _ {F : Type 0} where
  -- The actions are numbered from 0 in the order in which they were taken.
  abbrev pub IsNumbered : SimulationState F → Type 0
  IsNumbered s = map (λ a. a.step) s.action_history ≡ below s.step

  abbrev Counts : ℕ → Node → SimulationState F → Type 0
  Counts max_steps node s = IsNumbered s × HasRoom max_steps node s.step

module _ (p : Platform) (max_steps : ℕ) where
  perceived :
      (o : Option ScreenView) (s : Sim p)
      → IsNumbered s
      → s.step < max_steps
      → let t = perceive_at p o s in IsNumbered t × (t.step < max_steps)
  unfolding perceive_at
  perceived none s i h = (i, h)
  perceived (some screen) s i h = (i, h)

  gazed :
      (screen : ScreenView) (intended : Option ElementView)
      (sampled : Option (AttentionCandidate p.F)) (s : Sim p) (rng : p.Random)
      → IsNumbered s
      → s.step < max_steps
      → let t = (gaze_at p screen intended sampled s rng).0 in IsNumbered t × (t.step < max_steps)
  unfolding gaze_at
  gazed screen intended none s rng i h = (i, h)
  gazed screen intended (some c) s rng i h = (i, h)

  performed :
      (a : ActionCandidate p.F) (point : Option p.F × Option p.F) (s : Sim p)
      → IsNumbered s
      → s.step < max_steps
      → let t = perform p a point s in IsNumbered t × (t.step ≤ max_steps)
  unfolding perform
  performed a point s i h =
      let next : s.step + 1 ≡ suc s.step = omega arith in
      (
        map-append (λ a. a.step) s.action_history _
            ∙ ap (λ xs. xs ++ s.step ∷ []) i
            ∙ sym (ap below next),
        omega (arith, h),
      )

  updated :
      (s : Sim p) → Counts max_steps check_node s → Counts max_steps check_node (update_state p s)
  unfolding update_state
  updated s h = elim (Bool-cases (is_noted p (progress_of p s) s)) [
    | inl noted ↦ rw noted h
    | inr quiet ↦ rw quiet h
  ]

  checked :
      (screen : ScreenView) (s : Sim p)
      → IsNumbered s
      → s.step < max_steps
      → let t = check_screen p s screen in IsNumbered t × (t.step < max_steps)
  unfolding check_screen
  checked screen s i h = elim (Bool-cases (is_stuck p screen s)) [
    | inl stuck ↦ rw stuck (i, h)
    | inr free ↦ elim (Bool-cases (p.lt (p.lit 75) (abandon_pressure p s) && ltb 5 s.step)) [
      | inl tired ↦ rw free (rw tired (i, h))
      | inr patient ↦ rw free (rw patient (i, h))
    ]
  ]

  anywhere :
      (node : Node) (s : Sim p) → IsNumbered s × (s.step < max_steps) → Counts max_steps node s
  anywhere node s (i, h) = (i, HasRoom-any max_steps node s.step h)

steps_rule : (p : Platform) (deps : SimulationDeps p.F) → Rule p deps (Counts deps.max_steps)
unfolding orient perceive scan_exhausted interpret succeed abandon_with
steps_rule p deps = record {
  at_orient = λ s x. x;
  at_perceive =
      λ s (i, h). anywhere p deps.max_steps _ (perceive p s) (perceived p deps.max_steps _ s i h);
  at_attend = λ s screen decision sampled rng shown (i, h).
      let intended = intended_element_for_screen screen (critical_set s.task) in
      anywhere p deps.max_steps _
        (gaze_at p screen intended sampled (scanned p s intended decision) rng).0
        (gazed p deps.max_steps screen intended sampled (scanned p s intended decision) rng i h);
  at_act = λ s screen a shown chosen x. x;
  at_exhausted = λ s (i, h). anywhere p deps.max_steps end_node (scan_exhausted p s) (i, h);
  at_interpret = λ s x. x;
  at_select = λ s screen rng shown x. x;
  at_execute = λ s screen a point shown chosen (i, h). performed p deps.max_steps a point s i h;
  at_update = λ s x. updated p deps.max_steps s x;
  at_success = λ s done x. x;
  at_budget = λ s x. x;
  at_check = λ s screen left (i, h).
      anywhere p deps.max_steps _ (check_screen p s screen)
        (checked p deps.max_steps screen s i (leb-false deps.max_steps s.step left));
}

-- With a budget of at least one step, whatever the model and the draws, a run that `run_simulation`
-- returns took at most `max_steps` actions, and its history has exactly as many entries as its step
-- counter says, numbered from 0 in order.
pub run_simulation-IsNumbered :
    (p : Platform) (executor : Executor (Config p)) (deps : SimulationDeps p.F)
    (participant : ParticipantDraft p.F) (task : TaskContext) (graph : ScreenGraph) (start : ℕ)
    (seed : String) (final : Sim p)
    → 0 < deps.max_steps
    → run_simulation p executor deps participant task graph start seed ≡ ok final
    → IsNumbered final × (final.step ≤ deps.max_steps)
unfolding initial_state
run_simulation-IsNumbered p executor deps participant task graph start seed final room h =
    run_keeps p deps (Counts deps.max_steps) (steps_rule p deps) executor participant task graph
      start seed final h (refl, room)
