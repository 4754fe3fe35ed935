-- ===== src/Vision/Runnable.antt =====
-- From the analysis of app/workers/jobs/analyze_stimulus.py to a run of
-- app/agents/graphs/simulation_graph.py on the graph that it drew.
use syn_koala.Prelude.{
  ℕ, ◌≤◌, ◌≡◌, String, true, false, some, ◌==◌, any, find_first, is_nonempty, ok,
}
use syn_koala.Platform.{Platform}
use syn_koala.Graph.{TaskContext, ParticipantDraft, resolve_starting_screen}
use syn_koala.Graph.Starts.{resolve_starting_screen-Shows}
use syn_koala.Participant.{Offers}
use syn_koala.Simulation.{SimulationDeps, is_in_progress}
use syn_koala.Simulation.Nodes.{Sim}
use syn_koala.Simulation.Flow.{Executor, Config, run_simulation}
use syn_koala.Simulation.Navigation.{IsNavigable}
use syn_koala.Simulation.Termination.{run_simulation-returns}
use syn_koala.Stimuli.{Stimulus, Assets, get_screen_graph}
use syn_koala.Vision.Closed.{get_screen_graph-IsKeyed}
use syn_koala.Vision.Analyze.{Vision, handle_analyze_stimulus}
use syn_koala.Vision.Sound.{IsSoundGraph}
use syn_koala.Vision.Keeps.{handle_analyze_stimulus-IsSoundGraph}

-- After the analysis of a stimulus, whatever the vision model answered, the study's graph, if it has an
-- element on some screen and was sound before, can be run: every task has a starting screen on it, and a
-- simulation from there, with at least one step allowed and a model that offers an action on every
-- context, returns, its outcome decided and its screens all screens of that graph.
pub handle_analyze_stimulus-IsNavigable :
    (vision : Vision) (stimulus_id : ℕ) (stimulus : Stimulus) (a : Assets) (p : Platform)
    (executor : Executor (Config p)) (deps : SimulationDeps p.F)
    (participant : ParticipantDraft p.F) (task : TaskContext) (seed : String)
    → find_first (λ s. s.id == stimulus_id) a.stimuli ≡ some stimulus
    → IsSoundGraph stimulus.study_id a
    → any
        (λ s. is_nonempty s.1.elements)
        (get_screen_graph stimulus.study_id
          (handle_analyze_stimulus vision stimulus_id a).0).screens
      ≡ true
    → Offers deps.participant_model
    → 1 ≤ deps.max_steps
    → let graph =
        get_screen_graph stimulus.study_id (handle_analyze_stimulus vision stimulus_id a).0 in
      (start : ℕ) × (resolve_starting_screen graph task.starting_point ≡ some start)
      × (final : Sim p) × (run_simulation p executor deps participant task graph start seed
          ≡ ok final)
      × (is_in_progress final.outcome ≡ false)
      × IsNavigable final
handle_analyze_stimulus-IsNavigable vision stimulus_id stimulus a p executor deps participant task
      seed found sound analyzed offers steps =
    let after = (handle_analyze_stimulus vision stimulus_id a).0 in
    let graph = get_screen_graph stimulus.study_id after in
    let drawn = handle_analyze_stimulus-IsSoundGraph vision stimulus_id stimulus a found sound in
    let (start, resolved, shown, _) =
      resolve_starting_screen-Shows graph task.starting_point
        (get_screen_graph-IsKeyed stimulus.study_id after) analyzed in
    let (final, returned, ended, navigable) =
      run_simulation-returns p executor deps participant task graph start seed offers steps
        drawn.closed shown in
    (start, resolved, final, returned, ended, navigable)
