-- ===== src/Simulation/FinishLine.antt =====
-- What COMPLETED means: `update_state` and `check_task` of app/agents/graphs/simulation_graph.py.
use syn_koala.Prelude.{
  ℕ, ◌≡◌, refl, sym, ap, ◌∙◌, String, Bool, true, false, ◌&&◌, Option, some, none, ok, Bool-cases,
  inl, inr, ltb, is_nonempty,
}
use syn_koala.Platform.{Platform, FloatLaws, py_min}
use syn_koala.Simulation.Navigation.{task-perform}
use syn_koala.Graph.{ElementView, ScreenView, ScreenGraph, ParticipantDraft, TaskContext}
use syn_koala.Participant.{AttentionCandidate}
use syn_koala.Simulation.{SimulationDeps, completed, is_in_progress}
use syn_koala.Simulation.Conditions.{
  intended_element_for_screen, has_recognized_success_condition, success_condition_met,
  critical_set,
}
use syn_koala.Simulation.Nodes.{
  Sim, orient, perceive_at, perceive, gaze_at, scan_exhausted, interpret,
}
use syn_koala.Simulation.Actions.{
  progress_by, progress_of, update_state, is_noted, succeed, abandon_with, is_stuck,
  abandon_pressure, check_screen,
}
use syn_koala.Simulation.Flow.{
  Node, perceive_node, update_node, check_node, end_node, Config, Executor, run_simulation,
  initial_state, route_after_perceive, route_after_attend, route_after_check_task, route_scan,
}
use syn_koala.Simulation.Invariant.{Rule, run_keeps, scanned}

module _ (p : Platform) where
  -- The success condition of the task is met in this state.
  abbrev pub ReachesLine : Sim p → Type 0
  ReachesLine s =
      success_condition_met s.screen_graph s.task.success_conditions s.current_screen_id
        s.action_history
      ≡ true

module _ (p : Platform) (laws : FloatLaws p) where
  open p use {F, lit, lt, le}

  -- The cap of an optimum keeps the progress below 1.
  capped_right : (raw : F) → le (lit 100) (py_min p raw (lit 99)) ≡ false
  unfolding py_min
  capped_right raw = elim (Bool-cases (lt (lit 99) raw)) [
    | inl e ↦ rw e (laws.lt→not_le (lit 99) (lit 100) laws.ninety_nine_lt_one)
    | inr e ↦ rw e (laws.not_lt→not_le (lit 99) raw (lit 100) e laws.ninety_nine_lt_one)
  ]

  pub capped_left : (x : F) → le (lit 100) (py_min p (lit 90) x) ≡ false
  unfolding py_min
  capped_left x = elim (Bool-cases (lt x (lit 90))) [
    | inl e ↦
        rw e (laws.lt→not_le x (lit 100) (laws.lt_trans x (lit 90) (lit 100) e laws.ninety_lt_one))
    | inr e ↦ rw e (laws.lt→not_le (lit 90) (lit 100) laws.ninety_lt_one)
  ]

  -- Short of the finish line the progress stays below 1.
  progress_by-unmet :
      (milestones : Bool) (raw explored : F)
      → le (lit 100) (progress_by p true false milestones raw explored) ≡ false
  unfolding progress_by
  progress_by-unmet true raw explored = capped_right raw
  progress_by-unmet false raw explored = capped_left explored

  progress_of-ReachesLine :
      (s : Sim p)
      → has_recognized_success_condition s.task.success_conditions ≡ true
      → le (lit 100) (progress_of p s) ≡ true
      → ReachesLine p s
  unfolding progress_of
  progress_of-ReachesLine s line reached =
      elim (Bool-cases (
        success_condition_met s.screen_graph s.task.success_conditions s.current_screen_id
          s.action_history)) [
            | inl met ↦ met
            | inr unmet ↦ cc (
                sym (progress_by-unmet (is_nonempty (critical_set s.task)) _ _)
                ∙ (rw unmet at (rw line at reached)))
          ]

  -- A task with a recognized success condition: past `check_task` a COMPLETED run has met it.
  abbrev Certified : Node → Sim p → Type 0
  Certified perceive_node s = is_in_progress s.outcome ≡ true
  Certified check_node s = le (lit 100) s.task_progress ≡ true → ReachesLine p s
  Certified end_node s = s.outcome ≡ completed → ReachesLine p s
  Certified _ s = Unit

  abbrev HasLine : Node → Sim p → Type 0
  HasLine node s =
      (has_recognized_success_condition s.task.success_conditions ≡ true) × Certified node s

  perceived :
      (o : Option ScreenView) (s : Sim p)
      → HasLine perceive_node s
      → HasLine (route_after_perceive (perceive_at p o s)) (perceive_at p o s)
  unfolding perceive_at route_after_perceive
  perceived none s x = (x.0, λ h. cc)
  perceived (some screen) s x = rw (x.1) (x.0, tt)

  pub gazed :
      (screen : ScreenView) (intended : Option ElementView)
      (sampled : Option (AttentionCandidate F)) (s : Sim p) (rng : p.Random)
      → (gaze_at p screen intended sampled s rng).0.task ≡ s.task
  unfolding gaze_at
  gazed screen intended none s rng = refl
  gazed screen intended (some c) s rng = refl

  routed :
      (o : Option ℕ) (found exhausted : Bool) (s : Sim p)
      → Certified (route_scan o found exhausted) s
  unfolding route_scan
  routed none found exhausted s = tt
  routed (some id) true exhausted s = tt
  routed (some id) false true s = tt
  routed (some id) false false s = tt

  updated : (s : Sim p) → HasLine update_node s → HasLine check_node (update_state p s)
  unfolding update_state
  updated s x = elim (Bool-cases (is_noted p (progress_of p s) s)) [
    | inl noted ↦ rw noted (x.0, progress_of-ReachesLine s x.0)
    | inr quiet ↦ rw quiet (x.0, progress_of-ReachesLine s x.0)
  ]

  checked :
      (screen : ScreenView) (s : Sim p)
      → HasLine check_node s
      → let t = check_screen p s screen in HasLine (route_after_check_task t) t
  unfolding check_screen route_after_check_task
  checked screen s x = elim (Bool-cases (is_stuck p screen s)) [
    | inl stuck ↦ rw stuck (x.0, λ h. cc)
    | inr free ↦ elim (Bool-cases (lt (lit 75) (abandon_pressure p s) && ltb 5 s.step)) [
      | inl tired ↦ rw free (rw tired (x.0, λ h. cc))
      | inr patient ↦ rw free (rw patient (x.0, refl))
    ]
  ]

  line_rule : (deps : SimulationDeps F) → Rule p deps HasLine
  unfolding orient perceive scan_exhausted interpret succeed abandon_with route_after_attend
  line_rule deps = record {
    at_orient = λ s x. (x.0, refl);
    at_perceive = λ s x. perceived _ s x;
    at_attend = λ s screen decision sampled rng shown x.
        let intended = intended_element_for_screen screen (critical_set s.task) in
        let start = scanned p s intended decision in
        (
          ap (λ t. has_recognized_success_condition t.success_conditions)
                (gazed screen intended sampled start rng)
              ∙ x.0,
          routed _ _ _ _,
        );
    at_act = λ s screen a shown chosen x. x;
    at_exhausted = λ s x. (x.0, λ h. cc);
    at_interpret = λ s x. x;
    at_select = λ s screen rng shown x. x;
    at_execute = λ s screen a point shown chosen x. (
      ap (λ t. has_recognized_success_condition t.success_conditions) (task-perform p a point s)
          ∙ x.0,
      tt,
    );
    at_update = λ s x. updated s x;
    at_success = λ s done x. (x.0, λ h. x.1 done);
    at_budget = λ s x. (x.0, λ h. cc);
    at_check = λ s screen left x. checked screen s x;
  }

-- A task with a recognized success condition: if `run_simulation` returns COMPLETED, under IEEE
-- comparison, the success condition is met in the final state: its final screen or one of its actions
-- is what the condition names.
pub run_simulation-ReachesLine :
    (p : Platform) (laws : FloatLaws p) (executor : Executor (Config p)) (deps : SimulationDeps p.F)
    (participant : ParticipantDraft p.F) (task : TaskContext) (graph : ScreenGraph) (start : ℕ)
    (seed : String) (final : Sim p)
    → has_recognized_success_condition task.success_conditions ≡ true
    → run_simulation p executor deps participant task graph start seed ≡ ok final
    → final.outcome ≡ completed
    → ReachesLine p final
unfolding initial_state
run_simulation-ReachesLine p laws executor deps participant task graph start seed final line h =
    (run_keeps p deps (HasLine p laws) (line_rule p laws deps) executor participant task graph start
      seed final h (line, tt)).1
