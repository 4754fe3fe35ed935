-- ===== src/Simulation/NoFinishLine.antt =====
-- A task without a finish line: `task_has_finish_line` of app/usecases/simulations.py refuses it, since
-- no run of app/agents/graphs/simulation_graph.py completes it.
use syn_koala.Prelude.{
  ℕ, ◌≡◌, ◌≢◌, sym, ap, subst, ◌∙◌, String, false, ◌&&◌, Option, some, none, ok, Bool-cases, inl,
  inr, ltb, is_nonempty,
}
use syn_koala.Platform.{Platform, FloatLaws}
use syn_koala.Graph.{ElementView, ScreenView, ScreenGraph, ParticipantDraft, TaskContext}
use syn_koala.Participant.{AttentionCandidate, ActionCandidate}
use syn_koala.Simulation.{SimulationDeps, completed}
use syn_koala.Simulation.Conditions.{
  intended_element_for_screen, has_recognized_success_condition, critical_set,
}
use syn_koala.Simulation.Nodes.{
  Sim, orient, perceive_at, perceive, gaze_at, scan_exhausted, interpret,
}
use syn_koala.Simulation.Actions.{
  progress_of, update_state, is_noted, perform, succeed, abandon_with, is_stuck, abandon_pressure,
  check_screen,
}
use syn_koala.Simulation.Flow.{Config, Executor, run_simulation, initial_state}
use syn_koala.Simulation.Navigation.{task-perform, outcome-perform, progress-perform}
use syn_koala.Simulation.Invariant.{Rule, run_keeps, scanned}
use syn_koala.Simulation.FinishLine.{capped_left}

-- Neither a recognized success condition nor a critical action.
abbrev pub HasNoLine : TaskContext → Type 0
HasNoLine task =
    (has_recognized_success_condition task.success_conditions ≡ false)
    × (is_nonempty (critical_set task) ≡ false)

module _ (p : Platform) (laws : FloatLaws p) where
  open p use {F, lit, lt, le}

  -- The progress is below 1, and the run is not COMPLETED.
  abbrev IsShort : Sim p → Type 0
  IsShort s = HasNoLine s.task × (le (lit 100) s.task_progress ≡ false) × (s.outcome ≢ completed)

  perceive_at-IsShort :
      (o : Option ScreenView) (s : Sim p) → IsShort s → IsShort (perceive_at p o s)
  unfolding perceive_at
  perceive_at-IsShort none s (line, short, open_still) = (line, short, λ h. cc)
  perceive_at-IsShort (some screen) s x = x

  gaze_at-IsShort :
      (screen : ScreenView) (intended : Option ElementView)
      (sampled : Option (AttentionCandidate F)) (s : Sim p) (rng : p.Random)
      → IsShort s
      → IsShort (gaze_at p screen intended sampled s rng).0
  unfolding gaze_at
  gaze_at-IsShort screen intended none s rng x = x
  gaze_at-IsShort screen intended (some c) s rng x = x

  perform-IsShort :
      (a : ActionCandidate F) (point : Option F × Option F) (s : Sim p)
      → IsShort s
      → IsShort (perform p a point s)
  perform-IsShort a point s (line, short, open_still) = (
    subst HasNoLine (sym (task-perform p a point s)) line,
    ap (le (lit 100)) (progress-perform p a point s) ∙ short,
    λ h. open_still (sym (outcome-perform p a point s) ∙ h),
  )

  progress_of-short : (s : Sim p) → HasNoLine s.task → le (lit 100) (progress_of p s) ≡ false
  unfolding progress_of
  progress_of-short s (unrecognized, no_milestones) =
      rw unrecognized (rw no_milestones (capped_left p laws _))

  update_state-IsShort : (s : Sim p) → IsShort s → IsShort (update_state p s)
  unfolding update_state
  update_state-IsShort s (line, short, open_still) =
      elim (Bool-cases (is_noted p (progress_of p s) s)) [
        | inl noted ↦ rw noted (line, progress_of-short s line, open_still)
        | inr quiet ↦ rw quiet (line, progress_of-short s line, open_still)
      ]

  check_screen-IsShort :
      (screen : ScreenView) (s : Sim p) → IsShort s → IsShort (check_screen p s screen)
  unfolding check_screen
  check_screen-IsShort screen s (line, short, open_still) =
      elim (Bool-cases (is_stuck p screen s)) [
        | inl stuck ↦ rw stuck (line, short, λ h. cc)
        | inr free ↦ elim (Bool-cases (lt (lit 75) (abandon_pressure p s) && ltb 5 s.step)) [
          | inl tired ↦ rw free (rw tired (line, short, λ h. cc))
          | inr patient ↦ rw free (rw patient (line, short, λ h. cc))
        ]
      ]

  no_line_rule : (deps : SimulationDeps F) → Rule p deps (λ node s. IsShort s)
  unfolding orient perceive scan_exhausted interpret succeed abandon_with
  no_line_rule deps = record {
    at_orient = λ s x. (x.0, x.1, λ h. cc);
    at_perceive = λ s x. perceive_at-IsShort _ s x;
    at_attend = λ s screen decision sampled rng shown x.
        gaze_at-IsShort screen (intended_element_for_screen screen (critical_set s.task)) sampled
          (scanned p s (intended_element_for_screen screen (critical_set s.task)) decision) rng x;
    at_act = λ s screen a shown chosen x. x;
    at_exhausted = λ s x. (x.0, x.1, λ h. cc);
    at_interpret = λ s x. x;
    at_select = λ s screen rng shown x. x;
    at_execute = λ s screen a point shown chosen x. perform-IsShort a point s x;
    at_update = λ s x. update_state-IsShort s x;
    at_success = λ s done x. cc (sym done ∙ x.1);
    at_budget = λ s x. (x.0, x.1, λ h. cc);
    at_check = λ s screen left x. check_screen-IsShort screen s x;
  }

-- A task with neither a recognized success condition nor an expected critical action: under IEEE
-- comparison, no run of it that `run_simulation` returns is COMPLETED.
pub run_simulation-ne-completed :
    (p : Platform) (laws : FloatLaws p) (executor : Executor (Config p)) (deps : SimulationDeps p.F)
    (participant : ParticipantDraft p.F) (task : TaskContext) (graph : ScreenGraph) (start : ℕ)
    (seed : String) (final : Sim p)
    → HasNoLine task
    → run_simulation p executor deps participant task graph start seed ≡ ok final
    → final.outcome ≢ completed
unfolding initial_state
run_simulation-ne-completed p laws executor deps participant task graph start seed final line h =
    (run_keeps p deps (λ node s. IsShort p laws s) (no_line_rule p laws deps) executor participant
      task graph start seed final h
      (line, laws.lt→not_le (p.lit 0) (p.lit 100) laws.zero_lt_one, λ e. cc)).2
