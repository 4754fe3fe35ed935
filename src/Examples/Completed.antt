-- ===== src/Examples/Completed.antt =====
-- Runs of the sign-up flow: one that reaches its finish line, and one of a task without any.
use syn_koala.Prelude.{ok, err, Result, none, ◌≡◌, ◌≢◌, ◌≤◌, refl, arith, false}
use syn_koala.Graph.{TaskContext}
use syn_koala.Participant.{Offers}
use syn_koala.Participant.Choices.{
  KeepsBudget, back_budget, get_participant_model-Offers, get_participant_model-KeepsBudget,
}
use syn_koala.Simulation.{completed, is_in_progress}
use syn_koala.Simulation.Conditions.{
  has_recognized_success_condition, success_condition_met, critical_set,
}
use syn_koala.Simulation.Sampling.{softmax_sample}
use syn_koala.Simulation.Nodes.{Sim, orient, perceive, attend, act_on_intended}
use syn_koala.Simulation.Actions.{execute_action, check_task, update_state, progress_of, perform}
use syn_koala.Simulation.Flow.{run_simulation, RunError, initial_state}
use syn_koala.Simulation.Navigation.{IsNavigable}
use syn_koala.Simulation.Termination.{run_simulation-returns}
use syn_koala.Simulation.FinishLine.{ReachesLine, run_simulation-ReachesLine}
use syn_koala.Simulation.NoFinishLine.{HasNoLine, run_simulation-ne-completed}
use syn_koala.Simulation.Backtracks.{run_simulation-le-back_budget}
use syn_koala.Simulation.Steps.{IsNumbered, run_simulation-IsNumbered}
use syn_koala.Samples.Fixed.{fixed, fixed_laws, executor}
use syn_koala.Samples.Signup.{
  sign_up_graph, sign_up_task, tester, steady_deps, sign_up_deps, sign_up-IsClosed, sign_up_shown,
}

or_start : Result RunError (Sim fixed) → Sim fixed
unfolding fixed initial_state
or_start (ok s) = s
or_start (err e) = initial_state fixed tester sign_up_task sign_up_graph 1

signed_up : Sim fixed
unfolding or_start fixed steady_deps
signed_up =
    or_start (run_simulation fixed executor steady_deps tester sign_up_task sign_up_graph 1 "7:9")

ran :
    run_simulation fixed executor steady_deps tester sign_up_task sign_up_graph 1 "7:9"
    ≡ ok signed_up
unfolding signed_up run_simulation fixed executor steady_deps tester or_start perceive orient attend
    softmax_sample act_on_intended execute_action check_task update_state progress_of
    has_recognized_success_condition perform success_condition_met
ran = refl

ended_completed : signed_up.outcome ≡ completed
unfolding signed_up run_simulation fixed executor steady_deps tester or_start perceive orient attend
    softmax_sample act_on_intended execute_action check_task update_state progress_of
    has_recognized_success_condition perform success_condition_met
ended_completed = refl

run_simulation-ReachesLine_example : ReachesLine fixed signed_up
unfolding has_recognized_success_condition
run_simulation-ReachesLine_example =
    run_simulation-ReachesLine fixed fixed_laws executor steady_deps tester sign_up_task
      sign_up_graph 1 "7:9" signed_up refl ran ended_completed

abbrev aimless_task : TaskContext
aimless_task = record sign_up_task { success_conditions = none; expected_critical_actions = none }

aimless-Offers : Offers sign_up_deps.participant_model
unfolding sign_up_deps
aimless-Offers = get_participant_model-Offers fixed none

aimless_run :
    (final : Sim fixed) × (run_simulation fixed executor sign_up_deps tester aimless_task
        sign_up_graph 1 "7:9"
      ≡ ok final)
    × (is_in_progress final.outcome ≡ false)
    × IsNavigable final
unfolding fixed sign_up_deps
aimless_run =
    run_simulation-returns fixed executor sign_up_deps tester aimless_task sign_up_graph 1 "7:9"
      aimless-Offers (omega arith) sign_up-IsClosed sign_up_shown

aimless-HasNoLine : HasNoLine aimless_task
unfolding has_recognized_success_condition critical_set
aimless-HasNoLine = (refl, refl)

run_simulation-ne-completed_example : aimless_run.0.outcome ≢ completed
run_simulation-ne-completed_example =
    run_simulation-ne-completed fixed fixed_laws executor sign_up_deps tester aimless_task
      sign_up_graph 1 "7:9" aimless_run.0 aimless-HasNoLine aimless_run.1

aimless-KeepsBudget : KeepsBudget sign_up_deps.participant_model
unfolding sign_up_deps
aimless-KeepsBudget = get_participant_model-KeepsBudget fixed none

run_simulation-le-back_budget_example : aimless_run.0.backtrack_count ≤ back_budget
run_simulation-le-back_budget_example =
    run_simulation-le-back_budget fixed executor sign_up_deps tester aimless_task sign_up_graph 1
      "7:9" aimless_run.0 aimless-KeepsBudget aimless_run.1

run_simulation-IsNumbered_example :
    IsNumbered aimless_run.0 × (aimless_run.0.step ≤ sign_up_deps.max_steps)
unfolding sign_up_deps
run_simulation-IsNumbered_example =
    run_simulation-IsNumbered fixed executor sign_up_deps tester aimless_task sign_up_graph 1 "7:9"
      aimless_run.0 (omega arith) aimless_run.1
