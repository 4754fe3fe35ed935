-- ===== src/Simulation/Backtracks.antt =====
-- How often a run goes back: BACK is offered by the model, sampled, and taken by `execute_action` of
-- app/agents/graphs/simulation_graph.py.
use syn_koala.Prelude.{
  ℕ, ◌≤◌, ◌<◌, ◌≡◌, ◌≢◌, refl, sym, ap, subst, ◌∙◌, arith, String, Bool, true, false, ◌&&◌, ◌==◌,
  Option, some, none, List, ok, ok-injective, Bool-cases, inl, inr, if◌then◌else◌, ltb,
}
use mathlib.Core.Option.{some-injective}
use syn_koala.Platform.{Platform}
use syn_koala.Graph.{
  ElementView, ScreenView, ScreenGraph, TransitionView, ParticipantDraft, TaskContext,
}
use syn_koala.Participant.{ActionType, click, back, AttentionCandidate, ActionCandidate}
use syn_koala.Participant.Choices.{KeepsBudget, back_budget, default_action_for-ne-back}
use syn_koala.Simulation.{SimulationState, SimulationDeps, is_in_progress, build_context, emit}
use syn_koala.Simulation.Sampling.{softmax_sample-All}
use syn_koala.Simulation.Conditions.{intended_element_for_screen, critical_set}
use syn_koala.Simulation.Nodes.{
  Sim, orient, perceive_at, perceive, gaze_at, action_on, scan_exhausted, interpret,
}
use syn_koala.Simulation.Actions.{
  pop_last, back_to, follow, navigate, follows_links, transition_of, enter_screen, action_event,
  perform, is_noted, progress_of, update_state, succeed, abandon_with, is_stuck, abandon_pressure,
  check_screen,
}
use syn_koala.Simulation.Flow.{
  Node, execute_node, Config, Executor, run_simulation, initial_state, route_scan,
  route_after_perceive, route_after_attend, route_after_check_task,
}
use syn_koala.Simulation.Invariant.{Rule, run_keeps, scanned}

module _ {F : Type 0} where
  back_to-le :
      (o : Option (List ℕ × ℕ)) (s : SimulationState F)
      → s.backtrack_count < back_budget
      → (back_to o s).backtrack_count ≤ back_budget
  unfolding back_to
  back_to-le none s h = omega arith
  back_to-le (some (before, last)) s h = omega arith

  linked :
      (test : Bool) (o : Option TransitionView) (s : SimulationState F)
      → (if test then follow o s else s).backtrack_count ≡ s.backtrack_count
  unfolding follow
  linked true none s = refl
  linked true (some t) s = refl
  linked false o s = refl

  navigate-le :
      (a : ActionType) (target : Option ℕ) (s : SimulationState F)
      → (a ≡ back → s.backtrack_count < back_budget)
      → s.backtrack_count ≤ back_budget
      → (navigate a target s).backtrack_count ≤ back_budget
  unfolding navigate
  navigate-le back target s room h = back_to-le (pop_last s.screen_history) s (room refl)
  navigate-le click none s room h = h
  navigate-le _ none s room h = h
  navigate-le a (some i) s room h =
      subst (λ n. n ≤ back_budget) (sym (linked (follows_links a) (transition_of s i) s)) h

  entered :
      (from : ℕ) (s : SimulationState F) → (enter_screen from s).backtrack_count ≡ s.backtrack_count
  unfolding enter_screen
  entered from s = elim (Bool-cases (s.current_screen_id == from)) [
    | inl same ↦ rw same
    | inr moved ↦ rw moved
  ]

module _ (p : Platform) where
  -- Before it is executed, BACK is chosen only while there is room for it.
  abbrev Allowed : Node → Sim p → Type 0
  Allowed execute_node s =
      (a : ActionCandidate p.F)
      → s.action ≡ some a
      → a.action ≡ back
      → s.backtrack_count < back_budget
  Allowed _ s = Unit

  abbrev IsWithin : Node → Sim p → Type 0
  IsWithin node s = (s.backtrack_count ≤ back_budget) × Allowed node s

  perceived :
      (o : Option ScreenView) (s : Sim p)
      → s.backtrack_count ≤ back_budget
      → IsWithin (route_after_perceive (perceive_at p o s)) (perceive_at p o s)
  unfolding perceive_at route_after_perceive
  perceived none s h = (h, tt)
  perceived (some screen) s h = elim (Bool-cases (is_in_progress s.outcome)) [
    | inl e ↦ rw e (h, tt)
    | inr e ↦ rw e (h, tt)
  ]

  gazed :
      (screen : ScreenView) (intended : Option ElementView)
      (sampled : Option (AttentionCandidate p.F)) (s : Sim p) (rng : p.Random)
      → s.backtrack_count ≤ back_budget
      → (gaze_at p screen intended sampled s rng).0.backtrack_count ≤ back_budget
  unfolding gaze_at
  gazed screen intended none s rng h = h
  gazed screen intended (some c) s rng h = h

  routed :
      (o : Option ℕ) (found exhausted : Bool) (s : Sim p) → Allowed (route_scan o found exhausted) s
  unfolding route_scan
  routed none found exhausted s = tt
  routed (some id) true exhausted s = tt
  routed (some id) false true s = tt
  routed (some id) false false s = tt

  action_on-ne-back :
      (o : Option ElementView) (a : ActionCandidate p.F) → action_on p o ≡ ok a → a.action ≢ back
  unfolding action_on
  action_on-ne-back none a h taken = cc
  action_on-ne-back (some e) a h back_chosen =
      default_action_for-ne-back p e (ap (λ c. c.action) (ok-injective _ a h) ∙ back_chosen)

  performed_within :
      (a : ActionCandidate p.F) (point : Option p.F × Option p.F) (s : Sim p)
      → (a.action ≡ back → s.backtrack_count < back_budget)
      → s.backtrack_count ≤ back_budget
      → (perform p a point s).backtrack_count ≤ back_budget
  unfolding perform
  performed_within a point s room h =
      let acted_on = emit (action_event p a s.current_screen_id point) s in
      let moved = navigate a.action a.target acted_on in
      subst (λ n. n ≤ back_budget) (sym (entered s.current_screen_id moved))
        (navigate-le a.action a.target acted_on room h)

  updated :
      (s : Sim p)
      → s.backtrack_count ≤ back_budget
      → (update_state p s).backtrack_count ≤ back_budget
  unfolding update_state
  updated s h = elim (Bool-cases (is_noted p (progress_of p s) s)) [
    | inl noted ↦ rw noted h
    | inr quiet ↦ rw quiet h
  ]

  checked :
      (screen : ScreenView) (s : Sim p)
      → s.backtrack_count ≤ back_budget
      → let t = check_screen p s screen in IsWithin (route_after_check_task t) t
  unfolding check_screen route_after_check_task
  checked screen s h = elim (Bool-cases (is_stuck p screen s)) [
    | inl stuck ↦ rw stuck (h, tt)
    | inr free ↦ elim (Bool-cases (p.lt (p.lit 75) (abandon_pressure p s) && ltb 5 s.step)) [
      | inl tired ↦ rw free (rw tired (h, tt))
      | inr patient ↦ rw free (rw patient (h, tt))
    ]
  ]

  budget_rule :
      (deps : SimulationDeps p.F) → KeepsBudget deps.participant_model → Rule p deps IsWithin
  unfolding orient perceive scan_exhausted interpret succeed abandon_with route_after_attend
      build_context
  budget_rule deps keeps = record {
    at_orient = λ s x. x;
    at_perceive = λ s x. perceived _ s x.0;
    at_attend = λ s screen decision sampled rng shown x.
        let intended = intended_element_for_screen screen (critical_set s.task) in
        (gazed screen intended sampled (scanned p s intended decision) rng x.0, routed _ _ _ _);
    at_act = λ s screen a shown chosen x. (
      x.0,
      λ b same taken.
          absurd
            (action_on-ne-back _ a chosen (ap (λ c. c.action) (some-injective a b same) ∙ taken)),
    );
    at_exhausted = λ s x. x;
    at_interpret = λ s x. x;
    at_select = λ s screen rng shown x. (
      x.0,
      λ a chosen.
          softmax_sample-All p (λ c. c.action ≡ back → s.backtrack_count < back_budget)
            (deps.participant_model.select_action (build_context s screen)).candidates
            (λ c. c.utility) rng a (keeps (build_context s screen)) chosen,
    );
    at_execute =
        λ s screen a point shown chosen x. (performed_within a point s (x.1 a chosen) x.0, tt);
    at_update = λ s x. (updated s x.0, tt);
    at_success = λ s done x. x;
    at_budget = λ s x. x;
    at_check = λ s screen left x. checked screen s x.0;
  }

-- With a model that offers BACK only below three backtracks, as each of the four models does, a run that
-- `run_simulation` returns went back at most three times.
pub run_simulation-le-back_budget :
    (p : Platform) (executor : Executor (Config p)) (deps : SimulationDeps p.F)
    (participant : ParticipantDraft p.F) (task : TaskContext) (graph : ScreenGraph) (start : ℕ)
    (seed : String) (final : Sim p)
    → KeepsBudget deps.participant_model
    → run_simulation p executor deps participant task graph start seed ≡ ok final
    → final.backtrack_count ≤ back_budget
unfolding initial_state
run_simulation-le-back_budget p executor deps participant task graph start seed final keeps h =
    (run_keeps p deps (IsWithin p) (budget_rule p deps keeps) executor participant task graph start
      seed final h (omega arith, tt)).0
