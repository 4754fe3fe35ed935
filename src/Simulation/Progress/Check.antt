-- ===== src/Simulation/Progress/Check.antt =====
-- `check_task` ends a run or begins a round that the step budget pays for.
use syn_koala.Prelude.{
  ◌<◌, ◌≡◌, refl, arith, Bool, true, false, leb, ltb, ◌&&◌, Bool-cases, inl, inr, if◌then◌else◌,
}
use syn_koala.Platform.{Platform}
use syn_koala.Graph.{ScreenView}
use syn_koala.Simulation.{SimulationDeps, is_in_progress}
use syn_koala.Simulation.Nodes.{Sim}
use syn_koala.Simulation.Actions.{is_stuck, abandon_pressure, check_screen, check_task}
use syn_koala.Simulation.Flow.{
  perceive_node, check_node, end_node, route_after_check_task, run_node, at,
}
use syn_koala.Simulation.Measure.{measure, rounds_from-suc}
use syn_koala.Simulation.Navigation.{IsNavigable}
use syn_koala.Simulation.Progress.{Ready, Advances, not_leb, same_rounds}

module _ (p : Platform) (deps : SimulationDeps p.F) where
  check_screen-keeps :
      (screen : ScreenView) (s : Sim p)
      → IsNavigable s
      → IsNavigable (check_screen p s screen) × ((check_screen p s screen).step ≡ s.step)
  unfolding check_screen
  check_screen-keeps screen s n = elim (Bool-cases (is_stuck p screen s)) [
    | inl stuck ↦
        rw stuck (record { closed = n.closed; current = n.current; history = n.history }, refl)
    | inr free ↦ elim (Bool-cases (p.lt (p.lit 75) (abandon_pressure p s) && ltb 5 s.step)) [
      | inl tired ↦
          rw free (
            rw tired (record { closed = n.closed; current = n.current; history = n.history }, refl))
      | inr patient ↦ rw free (
          rw patient (record { closed = n.closed; current = n.current; history = n.history }, refl))
    ]
  ]

  after_check :
      (s t : Sim p)
      → t.step ≡ s.step
      → s.step < deps.max_steps
      → (going : Bool) → is_in_progress t.outcome ≡ going
      → let next = if going then perceive_node else end_node in
        Ready next t × (measure deps next t < measure deps check_node s)
  after_check s t k h true r =
      (r, omega (arith, same_rounds p deps s t k, rounds_from-suc deps s.step h))
  after_check s t k h false r = (r, omega arith)

  pub check-Advances :
      (s : Sim p) (rng : p.Random)
      → IsNavigable s
      → Ready check_node s
      → Advances p deps check_node s rng
  unfolding run_node check_task route_after_check_task
  check-Advances s rng n r = elim (Bool-cases (p.le (p.lit 100) s.task_progress)) [
    | inl done ↦ rw done (
      _,
      refl,
      record { closed = n.closed; current = n.current; history = n.history },
      refl,
      omega arith,
    )
    | inr more ↦ elim (Bool-cases (leb deps.max_steps s.step)) [
      | inl out ↦ rw more (
          rw out (
            _,
            refl,
            record { closed = n.closed; current = n.current; history = n.history },
            refl,
            omega arith,
          ))
      | inr left ↦
          let (screen, e) = n.current in
          let t = check_screen p s screen in
          let (n', k) = check_screen-keeps screen s n in
          let (ready, nearer) =
            after_check s t k (not_leb _ _ left) (is_in_progress t.outcome) refl in
          rw more (rw left (rw e (at p (route_after_check_task t) t rng, refl, n', ready, nearer)))
    ]
  ]
