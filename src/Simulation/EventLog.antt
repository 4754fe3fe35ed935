-- ===== src/Simulation/EventLog.antt =====
-- The event log of a run: its events are numbered 0, 1, 2, … in the order in which they happened.
use syn_koala.Prelude.{
  ℕ, suc, ◌+◌, ◌≡◌, refl, arith, String, Option, none, some, List, [], ◌∷◌, ◌++◌, length,
  length-append, ok, Bool-cases, inl, inr, ◌==◌, ltb, ◌&&◌,
}
use syn_koala.Platform.{Platform}
use syn_koala.Graph.{ElementView, ScreenView, ScreenGraph, ParticipantDraft, TaskContext}
use syn_koala.Participant.{AttentionCandidate, ActionCandidate}
use syn_koala.Simulation.{SimulationState, SimulationDeps, Event, emit}
use syn_koala.Simulation.Nodes.{
  Sim, orient, perceive_at, perceive, gaze_at, scan_exhausted, interpret,
}
use syn_koala.Simulation.Actions.{
  navigate, enter_screen, action_event, perform, is_noted, progress_of, update_state, succeed,
  abandon_with, is_stuck, abandon_pressure, check_screen,
}
use syn_koala.Simulation.Flow.{Config, Executor, run_simulation, initial_state}
use syn_koala.Simulation.Navigation.{navigate-Frame}
use syn_koala.Simulation.Invariant.{Rule, run_keeps}

abbrev pub Numbered : {F : Type 0} → ℕ → List (Event F) → Type 0
Numbered k [] = Unit
Numbered k (e ∷ es) = (e.sequence_no ≡ k) × Numbered (suc k) es

-- The events are numbered from 0, and `n` is the next number.
abbrev pub Logged : {F : Type 0} → List (Event F) → ℕ → Type 0
Logged es n = Numbered 0 es × (n ≡ length es)

abbrev IsLogged : {F : Type 0} → SimulationState F → Type 0
IsLogged s = Logged s.events s.sequence_no

module _ {F : Type 0} where
  Numbered-snoc :
      (k : ℕ) (es : List (Event F)) (e : Event F)
      → Numbered k es
      → e.sequence_no ≡ k + length es
      → Numbered k (es ++ e ∷ [])
  Numbered-snoc k [] e n h = (omega arith, tt)
  Numbered-snoc k (x ∷ es) e n h = (n.0, Numbered-snoc (suc k) es e n.1 (omega arith))

  Logged-snoc :
      (es : List (Event F)) (e : Event F)
      → Logged es e.sequence_no
      → Logged (es ++ e ∷ []) (e.sequence_no + 1)
  Logged-snoc es e l =
      (Numbered-snoc 0 es e l.0 (omega (arith, l.1)), omega (arith, l.1, length-append es (e ∷ [])))

  enter_screen-IsLogged :
      (from : ℕ) (s : SimulationState F) → IsLogged s → IsLogged (enter_screen from s)
  unfolding enter_screen
  enter_screen-IsLogged from s l = elim (Bool-cases (s.current_screen_id == from)) [
    | inl same ↦ rw same l
    | inr moved ↦ rw moved (Logged-snoc _ _ (Logged-snoc s.events _ l))
  ]

module _ (p : Platform) where
  gaze_at-IsLogged :
      (screen : ScreenView) (intended : Option ElementView)
      (sampled : Option (AttentionCandidate p.F)) (s : Sim p) (rng : p.Random)
      → IsLogged s
      → IsLogged (gaze_at p screen intended sampled s rng).0
  unfolding gaze_at
  gaze_at-IsLogged screen intended none s rng l = l
  gaze_at-IsLogged screen intended (some c) s rng l = Logged-snoc s.events _ l

  perform-IsLogged :
      (a : ActionCandidate p.F) (point : Option p.F × Option p.F) (s : Sim p)
      → IsLogged s
      → IsLogged (perform p a point s)
  unfolding perform
  perform-IsLogged a point s l =
      let acted_on = emit (action_event p a s.current_screen_id point) s in
      let (_, _, _, e, n, _) = navigate-Frame a.action a.target acted_on in
      enter_screen-IsLogged s.current_screen_id (navigate a.action a.target acted_on)
        (rw e (rw n (Logged-snoc s.events _ l)))

  update_state-IsLogged : (s : Sim p) → IsLogged s → IsLogged (update_state p s)
  unfolding update_state
  update_state-IsLogged s l = elim (Bool-cases (is_noted p (progress_of p s) s)) [
    | inl noted ↦ rw noted (Logged-snoc s.events _ l)
    | inr quiet ↦ rw quiet l
  ]

  check_screen-IsLogged :
      (screen : ScreenView) (s : Sim p) → IsLogged s → IsLogged (check_screen p s screen)
  unfolding check_screen
  check_screen-IsLogged screen s l = elim (Bool-cases (is_stuck p screen s)) [
    | inl stuck ↦ rw stuck (Logged-snoc s.events _ l)
    | inr free ↦ elim (Bool-cases (p.lt (p.lit 75) (abandon_pressure p s) && ltb 5 s.step)) [
      | inl tired ↦ rw free (rw tired (Logged-snoc s.events _ l))
      | inr patient ↦ rw free (rw patient l)
    ]
  ]

  perceive_at-IsLogged :
      (o : Option ScreenView) (s : Sim p) → IsLogged s → IsLogged (perceive_at p o s)
  unfolding perceive_at
  perceive_at-IsLogged none s l = l
  perceive_at-IsLogged (some screen) s l = l

  log_rule : (deps : SimulationDeps p.F) → Rule p deps (λ node s. IsLogged s)
  unfolding orient perceive scan_exhausted interpret succeed abandon_with
  log_rule deps = record {
    at_orient = λ s l. Logged-snoc s.events _ l;
    at_perceive = λ s l. perceive_at-IsLogged _ s l;
    at_attend = λ s screen decision sampled rng shown l. gaze_at-IsLogged screen _ sampled _ rng l;
    at_act = λ s screen a shown chosen l. l;
    at_exhausted = λ s l. Logged-snoc s.events _ l;
    at_interpret = λ s l. l;
    at_select = λ s screen rng shown l. l;
    at_execute = λ s screen a point shown chosen l. perform-IsLogged a point s l;
    at_update = λ s l. update_state-IsLogged s l;
    at_success = λ s done l. Logged-snoc s.events _ l;
    at_budget = λ s l. Logged-snoc s.events _ l;
    at_check = λ s screen left l. check_screen-IsLogged screen s l;
  }

-- Whatever the executor, the model and the draws: if `run_simulation` returns a state, its events
-- are numbered 0, 1, 2, … in the order of the list, without a gap or a repetition, and its
-- `sequence_no` is their number.
pub run_simulation-Logged :
    (p : Platform) (executor : Executor (Config p)) (deps : SimulationDeps p.F)
    (participant : ParticipantDraft p.F) (task : TaskContext) (graph : ScreenGraph) (start : ℕ)
    (seed : String) (final : Sim p)
    → run_simulation p executor deps participant task graph start seed ≡ ok final
    → Logged final.events final.sequence_no
unfolding initial_state
run_simulation-Logged p executor deps participant task graph start seed final h =
    run_keeps p deps (λ node s. IsLogged s) (log_rule p deps) executor participant task graph start
      seed final h (tt, refl)
