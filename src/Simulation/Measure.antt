-- ===== src/Simulation/Measure.antt =====
-- How many supersteps a run can still take, by the node it is at.
use syn_koala.Prelude.{ℕ, ◌+◌, ◌-◌, ◌*◌, ◌≤◌, ◌<◌, ◌≡◌, arith, max, ap}
use syn_koala.Simulation.{SimulationState, SimulationDeps}
use syn_koala.Simulation.Flow.{
  Node, orient_node, perceive_node, attend_node, act_node, exhausted_node, interpret_node,
  select_node, execute_node, update_node, check_node, end_node, recursion_limit,
}

rounds_bound : (n w c : ℕ) → 1 ≤ n → w ≤ c → (n - (0 + 1)) * w + w ≤ n * c
rounds_bound n w c h k = grind arith

module _ {F : Type 0} (deps : SimulationDeps F) where
  -- The supersteps of one round, from `perceive` to `check_task`, with every scan used.
  pub round_cost : ℕ
  round_cost = 6 + max 1 deps.max_scan_attempts

  -- What the rounds that begin at step `k` or later can take.
  pub rounds_from : ℕ → ℕ
  rounds_from k = (deps.max_steps - k) * round_cost

  pub scans_left : SimulationState F → ℕ
  scans_left s = max 1 (deps.max_scan_attempts - s.scan_count)

  abbrev pub measure : Node → SimulationState F → ℕ
  measure orient_node s = rounds_from (s.step + 1) + round_cost + 1
  measure perceive_node s = rounds_from (s.step + 1) + round_cost
  measure attend_node s = rounds_from (s.step + 1) + 5 + scans_left s
  measure interpret_node s = rounds_from (s.step + 1) + 5
  measure select_node s = rounds_from (s.step + 1) + 4
  measure act_node s = rounds_from (s.step + 1) + 4
  measure execute_node s = rounds_from (s.step + 1) + 3
  measure update_node s = rounds_from s.step + 2
  measure check_node s = rounds_from s.step + 1
  measure exhausted_node s = 1
  measure end_node s = 0

  pub attend-lt-perceive : (s : SimulationState F) → 5 + scans_left s < round_cost
  unfolding round_cost scans_left
  attend-lt-perceive s = omega arith

  pub rounds_from-suc :
      (k : ℕ) → k < deps.max_steps → rounds_from k ≡ rounds_from (k + 1) + round_cost
  unfolding rounds_from
  rounds_from-suc k h = omega (arith, ap (λ (n : ℕ). n * round_cost) (more k h))
    where
      more : (k : ℕ) → k < deps.max_steps → deps.max_steps - k ≡ (deps.max_steps - (k + 1)) + 1
      more k h = omega arith

  -- A rescan is taken only while scans are left.
  pub scans_left-rescan :
      (s t : SimulationState F)
      → t.scan_count ≡ s.scan_count + 1
      → t.scan_count < deps.max_scan_attempts
      → scans_left t < scans_left s
  unfolding scans_left
  scans_left-rescan s t e h = omega arith

  pub scans_left-pos : (s : SimulationState F) → 1 ≤ scans_left s
  unfolding scans_left
  scans_left-pos s = omega arith

  round_cost-le : round_cost ≤ 8 + deps.max_scan_attempts
  unfolding round_cost
  round_cost-le = omega arith

  -- From the first node the whole run fits under the recursion limit.
  pub measure-le-recursion_limit :
      (s : SimulationState F)
      → s.step ≡ 0
      → 1 ≤ deps.max_steps
      → measure orient_node s ≤ recursion_limit deps
  unfolding recursion_limit rounds_from
  measure-le-recursion_limit s e h = rw e (
      omega (
        arith,
        rounds_bound deps.max_steps round_cost (8 + deps.max_scan_attempts) h round_cost-le,
      ))
