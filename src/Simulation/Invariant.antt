-- ===== src/Simulation/Invariant.antt =====
-- A rule for what holds all through a run, whatever the participant model and the draws: one
-- obligation for each node, and the conclusion for every state that a run returns.
use syn_koala.Prelude.{
  ℕ, zero, suc, false, ◌≡◌, sym, subst, ◌∙◌, String, true, Option, some, get, Result, ok, >>=-eq-ok,
  ok-injective, Result-cases, Option-cases, Bool-cases, inl, inr, leb,
}
use syn_koala.Platform.{Platform}
use syn_koala.Graph.{ElementView, ScreenView, ScreenGraph, ParticipantDraft, TaskContext}
use syn_koala.Participant.{AttentionCandidate, AttentionDecision, ActionCandidate}
use syn_koala.Simulation.{SimulationDeps, NodeError, build_context}
use syn_koala.Simulation.Sampling.{softmax_sample}
use syn_koala.Simulation.Conditions.{intended_element_for_screen, critical_set}
use syn_koala.Simulation.Nodes.{
  Sim, orient, perceive, gaze_at, attend, intended_id, scans, element_opt, action_on,
  act_on_intended, scan_exhausted, interpret, select_action,
}
use syn_koala.Simulation.Actions.{
  perform, execute_action, update_state, succeed, abandon_with, check_screen, check_task,
}
use syn_koala.Simulation.Flow.{
  Node, orient_node, perceive_node, attend_node, act_node, exhausted_node, interpret_node,
  select_node, execute_node, update_node, check_node, end_node, is_end, Config, Executor, RunError,
  halted, at, superstep, run_node, run_simulation, initial_state, recursion_limit,
  route_after_perceive, route_after_attend, route_after_check_task,
}

-- The state in which `attend` gazes: the decision, the scan count and the intended element are set.
abbrev pub scanned : (p : Platform) → Sim p → Option ElementView → AttentionDecision p.F → Sim p
scanned p s intended decision = record s {
  attention = some decision;
  scan_count = scans intended s.scan_count;
  intended_element_id = intended_id intended;
}

pub record Rule (p : Platform) (deps : SimulationDeps p.F) (P : Node → Sim p → Type 0)
    : Type 0 where
  pub at_orient : (s : Sim p) → P orient_node s → P perceive_node (orient p s)
  pub at_perceive :
      (s : Sim p) → P perceive_node s → P (route_after_perceive (perceive p s)) (perceive p s)
  pub at_attend :
      (s : Sim p) (screen : ScreenView) (decision : AttentionDecision p.F)
      (sampled : Option (AttentionCandidate p.F)) (rng : p.Random)
      → get s.screen_graph.screens s.current_screen_id ≡ some screen
      → P attend_node s
      → let intended = intended_element_for_screen screen (critical_set s.task) in
        let t = (gaze_at p screen intended sampled (scanned p s intended decision) rng).0 in
        P (route_after_attend deps t) t
  pub at_act :
      (s : Sim p) (screen : ScreenView) (a : ActionCandidate p.F)
      → get s.screen_graph.screens s.current_screen_id ≡ some screen
      → action_on p (element_opt screen s.intended_element_id) ≡ ok a
      → P act_node s
      → P execute_node (record s { action = some a })
  pub at_exhausted : (s : Sim p) → P exhausted_node s → P end_node (scan_exhausted p s)
  pub at_interpret : (s : Sim p) → P interpret_node s → P select_node (interpret p s)
  pub at_select :
      (s : Sim p) (screen : ScreenView) (rng : p.Random)
      → get s.screen_graph.screens s.current_screen_id ≡ some screen
      → P select_node s
      → let decision = deps.participant_model.select_action (build_context s screen) in
        let chosen = (softmax_sample p decision.candidates (λ c. c.utility) rng).0 in
        P execute_node (record s { action = chosen })
  pub at_execute :
      (s : Sim p) (screen : ScreenView) (a : ActionCandidate p.F) (point : Option p.F × Option p.F)
      → get s.screen_graph.screens s.current_screen_id ≡ some screen
      → s.action ≡ some a
      → P execute_node s
      → P update_node (perform p a point s)
  pub at_update : (s : Sim p) → P update_node s → P check_node (update_state p s)
  pub at_success :
      (s : Sim p)
      → p.le (p.lit 100) s.task_progress ≡ true
      → P check_node s
      → P end_node (succeed p s)
  pub at_budget : (s : Sim p) → P check_node s → P end_node (abandon_with p "max_steps_exceeded" s)
  pub at_check :
      (s : Sim p) (screen : ScreenView)
      → leb deps.max_steps s.step ≡ false
      → P check_node s
      → let t = check_screen p s screen in P (route_after_check_task t) t

module _ (p : Platform) (deps : SimulationDeps p.F) (P : Node → Sim p → Type 0)
    (rule : Rule p deps P) where
  abbrev Holds : Config p → Type 0
  Holds c = P c.node c.state

  landed :
      (c d : Config p) → ◌≡◌ {A = Result NodeError (Config p)} (ok c) (ok d) → Holds c → Holds d
  landed c d h x = subst Holds (ok-injective c d h) x

  arrived :
      (c f : Config p)
      → is_end c.node ≡ true
      → ◌≡◌ {A = Result RunError (Config p)} (ok c) (ok f)
      → Holds c
      → Holds f × (is_end f.node ≡ true)
  arrived c f done h x =
      let same = ok-injective c f h in
      (subst Holds same x, subst (λ d. is_end d.node ≡ true) same done)

  at_end : (node : Node) (s : Sim p) → is_end node ≡ true → P node s → P end_node s
  at_end end_node s h x = x
  at_end orient_node s h x = cc
  at_end _ s h x = cc

  attend_step :
      (s : Sim p) (rng : p.Random) (c : Config p)
      → run_node p deps attend_node s rng ≡ ok c
      → P attend_node s
      → Holds c
  unfolding run_node attend
  attend_step s rng c h x = elim (Option-cases (get s.screen_graph.screens s.current_screen_id)) [
    | inl e ↦ cc (rw e at h)
    | inr (screen, e) ↦ landed _ c (rw e at h) (rule.at_attend s screen _ _ _ e x)
  ]

  act_step :
      (s : Sim p) (rng : p.Random) (c : Config p)
      → run_node p deps act_node s rng ≡ ok c
      → P act_node s
      → Holds c
  unfolding run_node act_on_intended
  act_step s rng c h x = elim (Option-cases (get s.screen_graph.screens s.current_screen_id)) [
    | inl e ↦ cc (rw e at h)
    | inr (screen, e) ↦
        elim (Result-cases (action_on p (element_opt screen s.intended_element_id))) [
          | inl (a, chosen) ↦
              landed _ c (rw chosen at (rw e at h)) (rule.at_act s screen a e chosen x)
          | inr (r, raised) ↦ cc (rw raised at (rw e at h))
        ]
  ]

  select_step :
      (s : Sim p) (rng : p.Random) (c : Config p)
      → run_node p deps select_node s rng ≡ ok c
      → P select_node s
      → Holds c
  unfolding run_node select_action
  select_step s rng c h x = elim (Option-cases (get s.screen_graph.screens s.current_screen_id)) [
    | inl e ↦ cc (rw e at h)
    | inr (screen, e) ↦ landed _ c (rw e at h) (rule.at_select s screen _ e x)
  ]

  execute_step :
      (s : Sim p) (rng : p.Random) (c : Config p)
      → run_node p deps execute_node s rng ≡ ok c
      → P execute_node s
      → Holds c
  unfolding run_node execute_action
  execute_step s rng c h x = elim (Option-cases (get s.screen_graph.screens s.current_screen_id)) [
    | inl e ↦ cc (rw e at h)
    | inr (screen, e) ↦ elim (Option-cases s.action) [
      | inl nothing ↦ cc (simp nothing at (rw e at h))
      | inr (a, chosen) ↦
          landed _ c (simp chosen at (rw e at h)) (rule.at_execute s screen a _ e chosen x)
    ]
  ]

  check_step :
      (s : Sim p) (rng : p.Random) (c : Config p)
      → run_node p deps check_node s rng ≡ ok c
      → P check_node s
      → Holds c
  unfolding run_node check_task route_after_check_task
  check_step s rng c h x = elim (Bool-cases (p.le (p.lit 100) s.task_progress)) [
    | inl done ↦ landed _ c (rw done at h) (rule.at_success s done x)
    | inr more ↦ elim (Bool-cases (leb deps.max_steps s.step)) [
      | inl out ↦ landed _ c (rw out at (rw more at h)) (rule.at_budget s x)
      | inr left ↦ elim (Option-cases (get s.screen_graph.screens s.current_screen_id)) [
        | inl e ↦ cc (rw e at (rw left at (rw more at h)))
        | inr (screen, e) ↦
            landed _ c (rw e at (rw left at (rw more at h))) (rule.at_check s screen left x)
      ]
    ]
  ]

  run_node-keeps :
      (node : Node) (s : Sim p) (rng : p.Random) (c : Config p)
      → run_node p deps node s rng ≡ ok c
      → P node s
      → Holds c
  unfolding run_node
  run_node-keeps attend_node s rng c h x = attend_step s rng c h x
  run_node-keeps act_node s rng c h x = act_step s rng c h x
  run_node-keeps select_node s rng c h x = select_step s rng c h x
  run_node-keeps execute_node s rng c h x = execute_step s rng c h x
  run_node-keeps check_node s rng c h x = check_step s rng c h x
  run_node-keeps orient_node s rng c h x = landed _ c h (rule.at_orient s x)
  run_node-keeps perceive_node s rng c h x = landed _ c h (rule.at_perceive s x)
  run_node-keeps exhausted_node s rng c h x = landed _ c h (rule.at_exhausted s x)
  run_node-keeps interpret_node s rng c h x = landed _ c h (rule.at_interpret s x)
  run_node-keeps update_node s rng c h x = landed _ c h (rule.at_update s x)
  run_node-keeps end_node s rng c h x = landed _ c h x

  pub invoke_keeps :
      (executor : Executor (Config p)) (limit : ℕ) (c f : Config p)
      → executor.invoke (halted p) (superstep p deps) limit c ≡ ok f
      → Holds c
      → Holds f × (is_end f.node ≡ true)
  unfolding superstep
  invoke_keeps executor zero c f h x = elim (Bool-cases (is_end c.node)) [
    | inl done ↦
        arrived c f done (sym (executor.at_end (halted p) (superstep p deps) zero c done) ∙ h) x
    | inr going ↦ cc (executor.at_limit (halted p) (superstep p deps) c going)
  ]
  invoke_keeps executor (suc limit) c f h x = elim (Bool-cases (is_end c.node)) [
    | inl done ↦
        arrived c f done
          (sym (executor.at_end (halted p) (superstep p deps) (suc limit) c done) ∙ h) x
    | inr going ↦ elim (Result-cases (run_node p deps c.node c.state c.rng)) [
      | inl (d, runs) ↦
          invoke_keeps executor limit d f
            (sym (executor.at_node (halted p) (superstep p deps) limit c d going runs) ∙ h)
            (run_node-keeps c.node c.state c.rng d runs x)
      | inr (e, raises) ↦
          cc (executor.at_raise (halted p) (superstep p deps) limit c e going raises)
    ]
  ]

  -- What `run_simulation` returns is a state at `END` for which the invariant holds.
  pub run_keeps :
      (executor : Executor (Config p)) (participant : ParticipantDraft p.F) (task : TaskContext)
      (graph : ScreenGraph) (start : ℕ) (seed : String) (final : Sim p)
      → run_simulation p executor deps participant task graph start seed ≡ ok final
      → P orient_node (initial_state p participant task graph start)
      → P end_node final
  unfolding run_simulation
  run_keeps executor participant task graph start seed final h x =
      let (f, answer, same) = >>=-eq-ok _ _ h in
      let (kept, ended) =
        invoke_keeps executor (recursion_limit deps)
          (at p orient_node (initial_state p participant task graph start) (p.seeded seed)) f answer
          x in
      subst (P end_node) (ok-injective f.state final same) (at_end f.node f.state ended kept)
