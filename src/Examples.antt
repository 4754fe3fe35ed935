-- ===== src/Examples.antt =====
-- The theorems at concrete inputs: a sign-up flow of two screens, run on `fixed`.
pub mod Orchestration
pub mod Completed
pub mod Queueing
pub mod Paths
pub mod Flows
pub mod Reports
pub mod Requests
pub mod Rates
use syn_koala.Prelude.{arith, refl, ◌≡◌, ◌<◌, In, some, none, false, ok}
use syn_koala.Participant.{Offers, ActionCandidate, back}
use syn_koala.Participant.Baselines.{get_participant_model}
use syn_koala.Participant.Choices.{
  get_participant_model-Offers, get_participant_model-KeepsBudget, KeepsBudget, back_budget,
}
use syn_koala.Simulation.{is_in_progress, build_context}
use syn_koala.Simulation.Nodes.{Sim, select_action}
use syn_koala.Simulation.Flow.{run_simulation, initial_state}
use syn_koala.Simulation.Chosen.{select_action-Chooses}
use syn_koala.Simulation.Navigation.{IsNavigable}
use syn_koala.Simulation.Termination.{run_simulation-returns}
use syn_koala.Simulation.EventLog.{Logged, run_simulation-Logged}
use syn_koala.Samples.Fixed.{fixed, executor}
use syn_koala.Samples.Signup.{
  sign_up_graph, sign_up_task, tester, sign_up_deps, sign_up-IsClosed, sign_up_shown, form_screen,
}

get_participant_model-KeepsBudget_example :
    KeepsBudget (get_participant_model fixed (some "random"))
get_participant_model-KeepsBudget_example = get_participant_model-KeepsBudget fixed (some "random")

sign_up-Offers : Offers sign_up_deps.participant_model
unfolding sign_up_deps
sign_up-Offers = get_participant_model-Offers fixed none

run_simulation-returns_example :
    (final : Sim fixed) × (run_simulation fixed executor sign_up_deps tester sign_up_task
        sign_up_graph 1 "7:9"
      ≡ ok final)
    × (is_in_progress final.outcome ≡ false)
    × IsNavigable final
unfolding fixed sign_up_deps
run_simulation-returns_example =
    run_simulation-returns fixed executor sign_up_deps tester sign_up_task sign_up_graph 1 "7:9"
      sign_up-Offers (omega arith) sign_up-IsClosed sign_up_shown

run_simulation-Logged_example :
    Logged run_simulation-returns_example.0.events run_simulation-returns_example.0.sequence_no
run_simulation-Logged_example =
    run_simulation-Logged fixed executor sign_up_deps tester sign_up_task sign_up_graph 1 "7:9"
      run_simulation-returns_example.0 run_simulation-returns_example.1

select_action-Chooses_example :
    let state = initial_state fixed tester sign_up_task sign_up_graph 1 in
    (chosen : ActionCandidate fixed.F) × (rng' : fixed.Random) × (select_action fixed sign_up_deps
        state
        (fixed.seeded "7")
      ≡ ok (record state { action = some chosen }, rng'))
    × In chosen
        ((get_participant_model fixed none).select_action
          (build_context state form_screen)).candidates
    × (chosen.action ≡ back → state.backtrack_count < back_budget)
unfolding fixed sign_up_deps initial_state
select_action-Chooses_example =
    select_action-Chooses fixed none sign_up_deps
      (initial_state fixed tester sign_up_task sign_up_graph 1) (fixed.seeded "7") form_screen refl
      refl
