-- ===== src/Simulation/Termination.antt =====
-- A run ends: the recursion limit of `run_simulation` is never reached, and no node raises.
use syn_koala.Prelude.{
  ℕ, zero, suc, ◌≤◌, ◌≡◌, ◌∙◌, refl, subst, inl, inr, ◌⊎◌, arith, String, false, ok, ap,
}
use syn_koala.Platform.{Platform}
use syn_koala.Graph.{ScreenGraph, ParticipantDraft, TaskContext}
use syn_koala.Participant.{Offers}
use syn_koala.Simulation.{SimulationDeps, is_in_progress}
use syn_koala.Simulation.Nodes.{Sim}
use syn_koala.Simulation.Flow.{
  Node, orient_node, perceive_node, attend_node, act_node, exhausted_node, interpret_node,
  select_node, execute_node, update_node, check_node, end_node, is_end, Config, Executor, halted,
  at, superstep, run_simulation, initial_state, recursion_limit,
}
use syn_koala.Simulation.Measure.{measure, measure-le-recursion_limit}
use syn_koala.Simulation.Navigation.{Shows, IsClosed, IsNavigable}
use syn_koala.Simulation.Progress.{Ready, Advances}
use syn_koala.Simulation.Progress.Scan.{attend-Advances}
use syn_koala.Simulation.Progress.Check.{check-Advances}
use syn_koala.Simulation.Progress.Moves.{
  orient-Advances, perceive-Advances, act-Advances, exhausted-Advances, interpret-Advances,
  select-Advances, execute-Advances, update-Advances,
}

module _ (p : Platform) (deps : SimulationDeps p.F) (m : Offers deps.participant_model) where
  advances :
      (node : Node) (s : Sim p) (rng : p.Random)
      → is_end node ≡ false
      → IsNavigable s
      → Ready node s
      → Advances p deps node s rng
  advances orient_node s rng h n r = orient-Advances p deps s rng n
  advances perceive_node s rng h n r = perceive-Advances p deps s rng n r
  advances attend_node s rng h n r = attend-Advances p deps s rng n r
  advances act_node s rng h n r = act-Advances p deps s rng n r
  advances exhausted_node s rng h n r = exhausted-Advances p deps s rng n
  advances interpret_node s rng h n r = interpret-Advances p deps s rng n r
  advances select_node s rng h n r = select-Advances p deps m s rng n r
  advances execute_node s rng h n r = execute-Advances p deps s rng n r
  advances update_node s rng h n r = update-Advances p deps s rng n r
  advances check_node s rng h n r = check-Advances p deps s rng n r
  advances end_node s rng h n r = cc

  abbrev Ends : Executor (Config p) → ℕ → Config p → Type 0
  Ends executor limit c =
      (f : Config p) × (executor.invoke (halted p) (superstep p deps) limit c ≡ ok f)
      × IsNavigable f.state
      × (is_in_progress f.state.outcome ≡ false)

  -- A configuration at `END` is the answer.
  end-Ends :
      (executor : Executor (Config p)) (limit : ℕ) (c : Config p)
      → c.node ≡ end_node
      → IsNavigable c.state
      → Ready c.node c.state
      → Ends executor limit c
  end-Ends executor limit c e n r = (
    c,
    executor.at_end (halted p) (superstep p deps) limit c (ap is_end e),
    n,
    subst (λ node. Ready node c.state) e r,
  )

  node-cases : (node : Node) → (node ≡ end_node) ⊎ (is_end node ≡ false)
  node-cases end_node = inl refl
  node-cases orient_node = inr refl
  node-cases _ = inr refl

  pub invoke-Ends :
      (executor : Executor (Config p)) (limit : ℕ) (c : Config p)
      → measure deps c.node c.state ≤ limit
      → IsNavigable c.state
      → Ready c.node c.state
      → Ends executor limit c
  unfolding superstep
  invoke-Ends executor zero c h n r = elim (node-cases c.node) [
    | inl e ↦ end-Ends executor zero c e n r
    | inr going ↦
        let (d, runs, n', r', nearer) = advances c.node c.state c.rng going n r in
        absurd (omega arith)
  ]
  invoke-Ends executor (suc limit) c h n r = elim (node-cases c.node) [
    | inl e ↦ end-Ends executor (suc limit) c e n r
    | inr going ↦
        let (d, runs, n', r', nearer) = advances c.node c.state c.rng going n r in
        let (f, answer, n'', r'') = invoke-Ends executor limit d (omega arith) n' r' in
        (f, executor.at_node (halted p) (superstep p deps) limit c d going runs ∙ answer, n'', r'')
  ]

-- `run_simulation` returns, for every executor that follows the graph: under the recursion limit
-- that it computes, with at least one step allowed, on a graph without dangling transitions, from a
-- screen of the graph, and with a model that offers an action on every context. The outcome is then
-- not IN_PROGRESS, and the final screen and every screen of the history are screens of its graph.
pub run_simulation-returns :
    (p : Platform) (executor : Executor (Config p)) (deps : SimulationDeps p.F)
    (participant : ParticipantDraft p.F) (task : TaskContext) (graph : ScreenGraph) (start : ℕ)
    (seed : String)
    → Offers deps.participant_model
    → 1 ≤ deps.max_steps
    → IsClosed graph
    → Shows graph start
    → (final : Sim p) × (run_simulation p executor deps participant task graph start seed
        ≡ ok final)
      × (is_in_progress final.outcome ≡ false)
      × IsNavigable final
unfolding run_simulation
run_simulation-returns p executor deps participant task graph start seed m h closed shown =
    let s = initial_state p participant task graph start in
    let n : IsNavigable s = record { closed = closed; current = shown; history = tt } in
    let (f, answer, n', ended) =
      invoke-Ends p deps m executor (recursion_limit deps) (at p orient_node s (p.seeded seed))
        (measure-le-recursion_limit deps s refl h) n tt in
    (f.state, rw answer, ended, n')
