-- ===== src/Simulation/Actions.antt =====
-- The nodes of app/agents/graphs/simulation_graph.py that act: `execute_action`, `update_state` and
-- `check_task`.
use syn_koala.Prelude.{
  ℕ, ◌+◌, String, pos, Bool, true, false, not, Option, none, some, List, [], ◌∷◌, ◌++◌, ◌&&◌, leb,
  ltb, ◌==◌, if◌then◌else◌, length, find_first, any, is_nonempty, union, nat_eq, Result, ok, err,
  ◌>>=◌, lookup_or,
}
use syn_koala.Platform.{Platform, py_min}
use syn_koala.Graph.{ScreenView, TransitionView, element, transitions_from}
use syn_koala.Participant.{ActionType, click, back, open_action, select_option, ActionCandidate}
use syn_koala.Simulation.{
  SimulationDeps, SimulationState, Event, screen_enter, screen_exit, abandon, task_progress_event,
  task_success, task_failure, acted, performed, progressed, reason, make_event, emit, in_progress,
  completed, failed, abandoned, NodeError, attribute_error, Outcome,
}
use syn_koala.Simulation.Conditions.{
  critical_set, success_condition_met, matched_actions, has_recognized_success_condition,
}
use syn_koala.Simulation.Nodes.{Sim, current_screen, element_opt, point_of}

-- `screen_history.pop()`: the last screen, and the screens before it.
unfoldable pub pop_last : List ℕ → Option (List ℕ × ℕ)
pop_last [] = none
pop_last (x ∷ xs) = elim (pop_last xs) [
  | none ↦ some ([], x)
  | some (before, last) ↦ some (x ∷ before, last)
]

-- `action.action in ("CLICK", "TAP", "OPEN", "SELECT")`; no participant model offers a TAP.
abbrev pub follows_links : ActionType → Bool
follows_links click = true
follows_links open_action = true
follows_links select_option = true
follows_links _ = false

module _ {F : Type 0} where
  -- `screen_history.pop()`, if the history is not empty
  unfoldable pub back_to : Option (List ℕ × ℕ) → SimulationState F → SimulationState F
  back_to none state = state
  back_to (some (before, last)) state = record state {
    screen_history = before;
    current_screen_id = last;
    backtrack_count = state.backtrack_count + 1;
  }

  -- The transition that an element of the current screen triggers.
  unfoldable pub transition_of : SimulationState F → ℕ → Option TransitionView
  unfolding transitions_from
  transition_of state element_id =
      find_first (λ t. t.trigger_element_id == element_id)
        (transitions_from state.screen_graph state.current_screen_id)

  -- A transition, or a dead end.
  unfoldable pub follow : Option TransitionView → SimulationState F → SimulationState F
  follow none state = record state { dead_end_count = state.dead_end_count + 1 }
  follow (some t) state = record state {
    screen_history = state.screen_history ++ state.current_screen_id ∷ [];
    current_screen_id = t.to_screen_id;
  }

  -- Where the action leads: the fields of the navigation, and no event yet.
  unfoldable pub navigate : ActionType → Option ℕ → SimulationState F → SimulationState F
  unfolding back_to follow pop_last transition_of
  navigate back target state = back_to (pop_last state.screen_history) state
  navigate a none state = state
  navigate a (some element_id) state =
      if follows_links a then follow (transition_of state element_id) state else state

  -- The events of a change of screen, and the scan budget of the new screen.
  unfoldable pub enter_screen : ℕ → SimulationState F → SimulationState F
  unfolding emit make_event
  enter_screen from state =
      let exited = emit (λ n. record (make_event n screen_exit) { screen_id = some from }) state in
      let entered =
        emit (λ n. record (make_event n screen_enter) { screen_id = some state.current_screen_id })
          exited in
      if state.current_screen_id == from then state else record entered { scan_count = 0 }

module _ (p : Platform) where
  open p use {F, lit, of_int, ◌⊕◌, ◌⊖◌, ◌⊗◌, ◌⊘◌, abs, lt, le, Random}

  pub action_event : ActionCandidate F → ℕ → Option F × Option F → ℕ → Event F
  unfolding make_event
  action_event action screen_id point n = record (make_event n (acted action.action)) {
    screen_id = some screen_id;
    element_id = action.target;
    x = point.0;
    y = point.1;
    payload = some (performed action.confidence action.utility);
  }

  -- `execute_action` after its look-ups.
  unfoldable pub perform : ActionCandidate F → Option F × Option F → Sim p → Sim p
  unfolding action_event navigate enter_screen emit
  perform action point state =
      let from = state.current_screen_id in
      let acted_on = emit (action_event action from point) state in
      let moved = enter_screen from (navigate action.action action.target acted_on) in
      record moved {
        action_history =
            state.action_history
            ++ record { action = action.action; target = action.target; step = state.step } ∷ [];
        step = state.step + 1;
      }

  -- `state["action"]`, whose attributes are read next
  abbrev pub chosen_action : Option (ActionCandidate F) → Result NodeError (ActionCandidate F)
  chosen_action none = err attribute_error
  chosen_action (some action) = ok action

  unfoldable pub execute_action : Sim p → Random → Result NodeError (Sim p × Random)
  unfolding point_of element
  execute_action state rng = do
    screen ← current_screen p state
    action ← chosen_action state.action
    let drawn = point_of p (element_opt screen action.target) rng
    ok (perform action drawn.0 state, drawn.1)

  -- `len(set(screen_history) | {current_screen_id})`
  distinct_screens : Sim p → ℕ
  distinct_screens state = length (union state.screen_history (state.current_screen_id ∷ []))

  -- The branches of the progress, by whether the task has a finish line, whether it is reached, and
  -- whether the task has milestones.
  unfoldable pub progress_by : (finish_line met milestones : Bool) → (raw explored : F) → F
  unfolding py_min
  progress_by finish_line met milestones raw_progress explored =
      if finish_line && met
      then lit 100
      else if milestones
      then (if finish_line then py_min p raw_progress (lit 99) else raw_progress)
      else py_min p (lit 90) explored

  unfoldable pub progress_of : Sim p → F
  unfolding progress_by distinct_screens
  progress_of state =
      let critical = critical_set state.task in
      let conditions = state.task.success_conditions in
      progress_by (has_recognized_success_condition conditions)
        (success_condition_met state.screen_graph conditions state.current_screen_id
          state.action_history)
        (is_nonempty critical)
        (of_int (pos (length (matched_actions state.screen_graph critical state.action_history)))
          ⊘ of_int (pos (length critical)))
        (lit 15 ⊗ of_int (pos (distinct_screens state)))

  -- `abs(progress - state["task_progress"]) > 0.01`
  abbrev pub is_noted : F → Sim p → Bool
  is_noted progress state = lt (lit 1) (abs (progress ⊖ state.task_progress))

  unfoldable pub update_state : Sim p → Sim p
  unfolding emit make_event
  update_state state =
      let progress = progress_of state in
      let noted =
        emit
          (λ n. record (make_event n task_progress_event) { payload = some (progressed progress) })
          state in
      record (if is_noted progress state then noted else state) { task_progress = progress }

  -- The end of a run: its outcome, its reason and the event that says so.
  unfoldable pub finish : Outcome → Option String → (ℕ → Event F) → Sim p → Sim p
  unfolding emit
  finish outcome failure_reason event state = record (emit event state) {
    outcome = outcome;
    failure_reason = failure_reason;
  }

  pub is_stuck : ScreenView → Sim p → Bool
  is_stuck screen state =
      not (any (λ e. e.interactable) screen.elements) && not (is_nonempty state.screen_history)

  pub abandon_pressure : Sim p → F
  unfolding py_min
  abandon_pressure state =
      state.uncertainty
      ⊗ (of_int (pos 1) ⊖ lookup_or state.participant.traits "patience" (lit 50))
      ⊕ lit 10
      ⊗ py_min p (lit 100) (of_int (pos state.dead_end_count) ⊘ of_int (pos 4))

  unfoldable pub abandon_with : String → Sim p → Sim p
  unfolding finish make_event
  abandon_with why =
      finish abandoned (some why)
        (λ n. record (make_event n abandon) { payload = some (reason why) })

  unfoldable pub fail_with : String → Sim p → Sim p
  unfolding finish make_event
  fail_with why =
      finish failed (some why)
        (λ n. record (make_event n task_failure) { payload = some (reason why) })

  unfoldable pub succeed : Sim p → Sim p
  unfolding finish make_event
  succeed =
      finish completed none
        (λ n. record (make_event n task_success) { payload = some (progressed (lit 100)) })

  -- The last branch of `check_task`, where the screen is looked up.
  unfoldable pub check_screen : Sim p → ScreenView → Sim p
  unfolding abandon_with fail_with
  check_screen state screen =
      if is_stuck screen state
      then fail_with "dead_end_no_actions" state
      else if lt (lit 75) (abandon_pressure state) && ltb 5 state.step
      then abandon_with "low_patience_high_uncertainty" state
      else record state { outcome = in_progress; failure_reason = none }

  unfoldable pub check_task : SimulationDeps F → Sim p → Result NodeError (Sim p)
  unfolding succeed abandon_with check_screen
  check_task deps state =
      if le (lit 100) state.task_progress
      then ok (succeed state)
      else if leb deps.max_steps state.step
      then ok (abandon_with "max_steps_exceeded" state)
      else do screen ← current_screen p state; ok (check_screen state screen)
