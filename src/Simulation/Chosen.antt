-- ===== src/Simulation/Chosen.antt =====
-- `select_action` of app/agents/graphs/simulation_graph.py, with the models of
-- app/agents/providers/participant_model.py.
use syn_koala.Prelude.{◌<◌, ◌≡◌, refl, String, Option, some, get, All-In, In, ok, cons_of_ne}
use syn_koala.Platform.{Platform}
use syn_koala.Graph.{ScreenView}
use syn_koala.Participant.{ActionCandidate, back}
use syn_koala.Participant.Baselines.{get_participant_model}
use syn_koala.Participant.Choices.{
  back_budget, get_participant_model-Offers, get_participant_model-KeepsBudget,
}
use syn_koala.Simulation.{SimulationDeps, build_context}
use syn_koala.Simulation.Sampling.{softmax_sample, softmax_sample-All, softmax_sample-cons}
use syn_koala.Simulation.Nodes.{Sim, select_action}

module _ (p : Platform) where
  -- On a state whose current screen is in its graph, and with the model that any name selects, known or
  -- not, `select_action` does not raise and chooses an action: it sets the state's action to one of the
  -- candidates that the model has for that screen, changes nothing else of the state, and chooses BACK only
  -- if fewer than three backtracks were made.
  pub select_action-Chooses :
      (name : Option String) (deps : SimulationDeps p.F) (state : Sim p) (rng : p.Random)
      (screen : ScreenView)
      → deps.participant_model ≡ get_participant_model p name
      → get state.screen_graph.screens state.current_screen_id ≡ some screen
      → (chosen : ActionCandidate p.F) × (rng' : p.Random) × (select_action p deps state rng
          ≡ ok (record state { action = some chosen }, rng'))
        × In chosen
            ((get_participant_model p name).select_action (build_context state screen)).candidates
        × (chosen.action ≡ back → state.backtrack_count < back_budget)
  unfolding select_action
  select_action-Chooses name deps state rng screen modelled current =
      let model = get_participant_model p name in
      let context = build_context state screen in
      let offered = (model.select_action context).candidates in
      let (c, others, e) = cons_of_ne _ (get_participant_model-Offers p name context) in
      let (a, drawn) = softmax_sample-cons p c others (λ c. c.utility) rng in
      let sampled : (softmax_sample p offered (λ c. c.utility) rng).0 ≡ some a = rw e drawn in
      rw current (
        rw modelled (
          rw sampled (
            a,
            _,
            refl,
            softmax_sample-All p (λ c. In c offered) offered (λ c. c.utility) rng a (All-In offered)
                sampled,
            softmax_sample-All p (λ c. c.action ≡ back → state.backtrack_count < back_budget)
                offered (λ c. c.utility) rng a (get_participant_model-KeepsBudget p name context)
                sampled,
          )))
