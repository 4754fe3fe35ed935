-- ===== src/Simulation/Progress/Moves.antt =====
-- The nodes between the scan and the check bring a run nearer to its end.
use syn_koala.Prelude.{ℕ, cons_of_ne, ◌+◌, ◌≡◌, refl, ap, ◌∙◌, Option, arith, Bool-cases, inl, inr}
use syn_koala.Platform.{Platform}
use syn_koala.Participant.{Offers, ActionCandidate}
use syn_koala.Simulation.{SimulationDeps, is_in_progress, build_context}
use syn_koala.Simulation.Sampling.{softmax_sample-cons}
use syn_koala.Simulation.Nodes.{
  Sim, point_of, orient, perceive, element_opt, act_on_intended, scan_exhausted, interpret,
  select_action,
}
use syn_koala.Simulation.Actions.{perform, execute_action, is_noted, progress_of, update_state}
use syn_koala.Simulation.Flow.{
  orient_node, perceive_node, attend_node, act_node, exhausted_node, interpret_node, select_node,
  execute_node, update_node, end_node, route_after_perceive, run_node, at,
}
use syn_koala.Simulation.Measure.{rounds_from, attend-lt-perceive}
use syn_koala.Simulation.Navigation.{IsNavigable, perform-IsNavigable, outcome-perform}
use syn_koala.Simulation.Progress.{Ready, Advances}

module _ (p : Platform) (deps : SimulationDeps p.F) where
  pub orient-Advances :
      (s : Sim p) (rng : p.Random) → IsNavigable s → Advances p deps orient_node s rng
  unfolding run_node orient
  orient-Advances s rng n = (
    at p perceive_node (orient p s) rng,
    refl,
    record { closed = n.closed; current = n.current; history = n.history },
    refl,
    omega arith,
  )

  pub perceive-Advances :
      (s : Sim p) (rng : p.Random)
      → IsNavigable s
      → Ready perceive_node s
      → Advances p deps perceive_node s rng
  unfolding run_node perceive route_after_perceive
  perceive-Advances s rng n r =
      let (screen, e) = n.current in
      rw e (rw r (at p attend_node s rng, refl, n, r, omega (arith, attend-lt-perceive deps s)))

  pub act-Advances :
      (s : Sim p) (rng : p.Random)
      → IsNavigable s
      → Ready act_node s
      → Advances p deps act_node s rng
  unfolding run_node act_on_intended
  act-Advances s rng n (r, screen, e, here, there) = rw here (
      rw there (
        _,
        refl,
        record { closed = n.closed; current = n.current; history = n.history },
        (r, _, refl),
        omega arith,
      ))

  pub exhausted-Advances :
      (s : Sim p) (rng : p.Random) → IsNavigable s → Advances p deps exhausted_node s rng
  unfolding run_node scan_exhausted
  exhausted-Advances s rng n = (
    at p end_node (scan_exhausted p s) rng,
    refl,
    record { closed = n.closed; current = n.current; history = n.history },
    refl,
    omega arith,
  )

  pub interpret-Advances :
      (s : Sim p) (rng : p.Random)
      → IsNavigable s
      → Ready interpret_node s
      → Advances p deps interpret_node s rng
  unfolding run_node interpret
  interpret-Advances s rng n r = (
    at p select_node (interpret p s) rng,
    refl,
    record { closed = n.closed; current = n.current; history = n.history },
    r,
    omega arith,
  )

  pub select-Advances :
      Offers deps.participant_model
      → (s : Sim p) (rng : p.Random) → IsNavigable s
      → Ready select_node s
      → Advances p deps select_node s rng
  unfolding run_node select_action
  select-Advances m s rng n r =
      let (screen, e) = n.current in
      let context = build_context s screen in
      let (c, others, offered) = cons_of_ne _ (m context) in
      let (a, drawn) = softmax_sample-cons p c others (λ c. c.utility) rng in
      rw e (
        _,
        refl,
        record { closed = n.closed; current = n.current; history = n.history },
        (r, a, rw offered drawn),
        omega arith,
      )

  step-perform :
      (a : ActionCandidate p.F) (point : Option p.F × Option p.F) (s : Sim p)
      → (perform p a point s).step ≡ s.step + 1
  unfolding perform
  step-perform a point s = refl

  pub execute-Advances :
      (s : Sim p) (rng : p.Random)
      → IsNavigable s
      → Ready execute_node s
      → Advances p deps execute_node s rng
  unfolding run_node execute_action
  execute-Advances s rng n (r, a, chosen) =
      let (screen, e) = n.current in
      let drawn = point_of p (element_opt screen a.target) rng in
      let t = perform p a drawn.0 s in
      rw e (
        simp chosen (
          at p update_node t drawn.1,
          refl,
          perform-IsNavigable p a drawn.0 s n,
          ap is_in_progress (outcome-perform p a drawn.0 s) ∙ r,
          omega (arith, ap (λ (n : ℕ). rounds_from deps n) (step-perform a drawn.0 s)),
        ))

  pub update-Advances :
      (s : Sim p) (rng : p.Random)
      → IsNavigable s
      → Ready update_node s
      → Advances p deps update_node s rng
  unfolding run_node update_state
  update-Advances s rng n r = elim (Bool-cases (is_noted p (progress_of p s) s)) [
    | inl noted ↦ rw noted (
      _,
      refl,
      record { closed = n.closed; current = n.current; history = n.history },
      r,
      omega arith,
    )
    | inr quiet ↦ rw quiet (
      _,
      refl,
      record { closed = n.closed; current = n.current; history = n.history },
      r,
      omega arith,
    )
  ]
