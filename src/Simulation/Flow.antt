-- ===== src/Simulation/Flow.antt =====
-- The graph of app/agents/graphs/simulation_graph.py: its edges, and `run_simulation`.
use syn_koala.Prelude.{
  ℕ, zero, suc, ◌+◌, ◌*◌, String, ◌≡◌, Bool, true, false, Option, none, some, [], leb,
  if◌then◌else◌, Result, ok, err, ◌>>=◌,
}
use syn_koala.Platform.{Platform}
use syn_koala.Graph.{ScreenGraph, ParticipantDraft, TaskContext}
use syn_koala.Simulation.{SimulationState, SimulationDeps, is_in_progress, in_progress, NodeError}
use syn_koala.Simulation.Nodes.{
  Sim, orient, perceive, attend, act_on_intended, scan_exhausted, interpret, select_action,
}
use syn_koala.Simulation.Actions.{execute_action, update_state, check_task}

-- The nodes of the graph, and `END`.
pub data Node : Type 0 where
  orient_node perceive_node attend_node act_node exhausted_node interpret_node : Node
  select_node execute_node update_node check_node end_node : Node

abbrev pub is_end : Node → Bool
is_end end_node = true
is_end _ = false

unfoldable pub route_scan : Option ℕ → (found exhausted : Bool) → Node
route_scan none found exhausted = interpret_node
route_scan (some _) true exhausted = act_node
route_scan (some _) false true = exhausted_node
route_scan (some _) false false = attend_node

module _ {F : Type 0} where
  unfoldable pub route_after_perceive : SimulationState F → Node
  route_after_perceive state = if is_in_progress state.outcome then attend_node else end_node

  unfoldable pub route_after_attend : SimulationDeps F → SimulationState F → Node
  unfolding route_scan
  route_after_attend deps state =
      route_scan state.intended_element_id state.found_intended_action
        (leb deps.max_scan_attempts state.scan_count)

  unfoldable pub route_after_check_task : SimulationState F → Node
  route_after_check_task state = if is_in_progress state.outcome then perceive_node else end_node

  unfoldable pub recursion_limit : SimulationDeps F → ℕ
  recursion_limit deps = deps.max_steps * (8 + deps.max_scan_attempts) + 20

-- What LangGraph's executor is given and what it answers: the node to run next, the state, and the
-- generator that the dependencies hold.
pub record Config (p : Platform) : Type 0 where
  pub node : Node
  pub state : SimulationState p.F
  pub rng : p.Random

pub data RunError : Type 0 where
  raised : NodeError → RunError
  recursion_limit_reached : RunError

-- `CompiledStateGraph.ainvoke` of LangGraph, which is not in the repository: it runs the node,
-- follows the edge, and raises when `recursion_limit` supersteps have not reached `END`.
pub record Executor (C : Type 0) : Type 0 where
  pub invoke : (C → Bool) → (C → Result NodeError C) → ℕ → C → Result RunError C
  pub at_end :
      (halted : C → Bool) (step : C → Result NodeError C) (limit : ℕ) (c : C)
      → halted c ≡ true
      → invoke halted step limit c ≡ ok c
  pub at_node :
      (halted : C → Bool) (step : C → Result NodeError C) (limit : ℕ) (c d : C)
      → halted c ≡ false
      → step c ≡ ok d
      → invoke halted step (suc limit) c ≡ invoke halted step limit d
  pub at_raise :
      (halted : C → Bool) (step : C → Result NodeError C) (limit : ℕ) (c : C) (e : NodeError)
      → halted c ≡ false
      → step c ≡ err e
      → invoke halted step (suc limit) c ≡ err (raised e)
  pub at_limit :
      (halted : C → Bool) (step : C → Result NodeError C) (c : C)
      → halted c ≡ false
      → invoke halted step zero c ≡ err recursion_limit_reached

module _ (p : Platform) where
  open p use {F, lit, Random, seeded}

  abbrev pub halted : Config p → Bool
  halted c = is_end c.node

  -- The node `node` leaves for, with the state and the generator that it returned.
  abbrev pub at : Node → Sim p → Random → Config p
  at node state rng = record { node = node; state = state; rng = rng }

  -- One superstep, by the edges of `_build_graph`.
  unfoldable pub run_node : SimulationDeps F → Node → Sim p → Random → Result NodeError (Config p)
  unfolding route_after_perceive route_after_attend route_after_check_task
  run_node deps orient_node state rng = ok (at perceive_node (orient p state) rng)
  run_node deps perceive_node state rng =
      let state' = perceive p state in ok (at (route_after_perceive state') state' rng)
  run_node deps attend_node state rng = do
    r ← attend p deps state rng
    ok (at (route_after_attend deps r.0) r.0 r.1)
  run_node deps act_node state rng = do
    state' ← act_on_intended p state
    ok (at execute_node state' rng)
  run_node deps exhausted_node state rng = ok (at end_node (scan_exhausted p state) rng)
  run_node deps interpret_node state rng = ok (at select_node (interpret p state) rng)
  run_node deps select_node state rng = do
    r ← select_action p deps state rng
    ok (at execute_node r.0 r.1)
  run_node deps execute_node state rng = do
    r ← execute_action p state rng
    ok (at update_node r.0 r.1)
  run_node deps update_node state rng = ok (at check_node (update_state p state) rng)
  run_node deps check_node state rng = do
    state' ← check_task p deps state
    ok (at (route_after_check_task state') state' rng)
  run_node deps end_node state rng = ok (at end_node state rng)

  unfoldable pub superstep : SimulationDeps F → Config p → Result NodeError (Config p)
  unfolding run_node
  superstep deps c = run_node deps c.node c.state c.rng

  unfoldable pub initial_state : ParticipantDraft F → TaskContext → ScreenGraph → ℕ → Sim p
  initial_state participant task screen_graph starting_screen_id = record {
    participant = participant;
    task = task;
    screen_graph = screen_graph;
    current_screen_id = starting_screen_id;
    screen_history = [];
    task_progress = lit 0;
    confidence = lit 50;
    uncertainty = lit 30;
    attention_target = none;
    element_visit_counts = [];
    action_history = [];
    dead_end_count = 0;
    backtrack_count = 0;
    attention = none;
    action = none;
    events = [];
    sequence_no = 0;
    step = 0;
    outcome = in_progress;
    failure_reason = none;
    scan_count = 0;
    intended_element_id = none;
    found_intended_action = false;
  }

  unfoldable pub run_simulation :
      Executor (Config p)
      → SimulationDeps F
      → ParticipantDraft F
      → TaskContext
      → ScreenGraph
      → ℕ
      → String
      → Result RunError (Sim p)
  unfolding initial_state recursion_limit superstep
  run_simulation executor deps participant task screen_graph starting_screen_id seed =
      let start =
        at orient_node (initial_state participant task screen_graph starting_screen_id)
          (seeded seed) in
      do
        final ← executor.invoke halted (superstep deps) (recursion_limit deps) start
        ok final.state
