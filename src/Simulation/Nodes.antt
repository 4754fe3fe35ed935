-- ===== src/Simulation/Nodes.antt =====
-- The nodes of app/agents/graphs/simulation_graph.py. A node returns the state with the fields that
-- its dictionary names replaced, as the graph merges them.
use syn_koala.Prelude.{
  ℕ, ◌+◌, pos, Bool, false, Option, none, some, List, [], ◌∷◌, ◌==◌, length, get, put, map, nat_eq,
  Result, ok, err, ◌>>=◌,
}
use mathlib.Core.List.{foldl}
use syn_koala.Platform.{Platform, py_max, py_min}
use syn_koala.Graph.{ElementView, ScreenView, element}
use syn_koala.Participant.{AttentionCandidate, ActionCandidate, default_action_for}
use syn_koala.Simulation.{
  SimulationState, SimulationDeps, Event, screen_enter, gaze, abandon, gazed, reason_after_scans,
  make_event, emit, build_context, in_progress, failed, abandoned, NodeError, key_error,
  attribute_error,
}
use syn_koala.Simulation.Sampling.{sample_point_in_bbox, scan_duration_range_ms, softmax_sample}
use syn_koala.Simulation.Conditions.{intended_element_for_screen, critical_set}

-- A subscript of a dictionary.
abbrev pub found : Option ScreenView → Result NodeError ScreenView
found none = err key_error
found (some screen) = ok screen

abbrev pub intended_id : Option ElementView → Option ℕ
intended_id none = none
intended_id (some e) = some e.id

abbrev pub scans : Option ElementView → ℕ → ℕ
scans none n = n
scans (some _) n = n + 1

-- `screen.element(id)` at an optional id: `None` finds nothing.
abbrev pub element_opt : ScreenView → Option ℕ → Option ElementView
element_opt screen none = none
element_opt screen (some element_id) = element screen element_id

module _ (p : Platform) where
  open p use {F, lit, of_int, ◌⊕◌, ◌⊖◌, ◌⊗◌, ◌⊘◌, abs, lt, le, sum, trunc, Random, uniform}

  abbrev pub Sim : Type 0
  Sim = SimulationState F

  -- `state["screen_graph"].screens[state["current_screen_id"]]`
  abbrev pub current_screen : Sim → Result NodeError ScreenView
  current_screen state = found (get state.screen_graph.screens state.current_screen_id)

  unfoldable pub orient : Sim → Sim
  unfolding emit make_event
  orient state =
      record (emit
        (λ n. record (make_event n screen_enter) { screen_id = some state.current_screen_id })
        state) { outcome = in_progress }

  unfoldable pub perceive_at : Option ScreenView → Sim → Sim
  perceive_at none state = record state {
    outcome = failed;
    failure_reason = some "screen_not_found";
  }
  perceive_at (some _) state = state

  unfoldable pub perceive : Sim → Sim
  unfolding perceive_at
  perceive state = perceive_at (get state.screen_graph.screens state.current_screen_id) state

  -- `(x, y)` of an element, or `(None, None)` where the target is not on the screen.
  unfoldable pub point_of : Option ElementView → Random → (Option F × Option F) × Random
  unfolding sample_point_in_bbox
  point_of none rng = ((none, none), rng)
  point_of (some e) rng =
      let (point, rng') = sample_point_in_bbox p e.bbox rng in ((some point.0, some point.1), rng')

  gaze_event : ScreenView → AttentionCandidate F → ℕ → Option F × Option F → F → ℕ → Event F
  unfolding make_event
  gaze_event screen sampled scan_number point duration n = record (make_event n gaze) {
    screen_id = some screen.id;
    element_id = some sampled.element_id;
    x = point.0;
    y = point.1;
    duration_ms = some (trunc duration);
    payload = some (gazed sampled.attention_score scan_number);
  }

  is_intended : Option ElementView → ℕ → Bool
  is_intended none element_id = false
  is_intended (some e) element_id = element_id == e.id

  visits : List (ℕ × ℕ) → ℕ → ℕ
  visits counts element_id = elim (get counts element_id) [ none ↦ 0 | some n ↦ n ]

  -- `attend` after its sample: the gaze at the sampled candidate, if there is one.
  unfoldable pub gaze_at :
      ScreenView → Option ElementView → Option (AttentionCandidate F) → Sim → Random → Sim × Random
  unfolding element point_of gaze_event is_intended visits emit scan_duration_range_ms
  gaze_at screen intended none state rng = (record state { found_intended_action = false }, rng)
  gaze_at screen intended (some sampled) state rng =
      let (point, rng') = point_of (element screen sampled.element_id) rng in
      let (low, high) = scan_duration_range_ms p state.participant.traits in
      let (duration, rng'') = uniform (of_int low) (of_int high) rng' in
      let counts = state.element_visit_counts in
      (
        record (emit (gaze_event screen sampled state.scan_count point duration) state) {
          attention_target = some sampled.element_id;
          element_visit_counts =
              put counts sampled.element_id (visits counts sampled.element_id + 1);
          found_intended_action = is_intended intended sampled.element_id;
        },
        rng'',
      )

  unfoldable pub attend : SimulationDeps F → Sim → Random → Result NodeError (Sim × Random)
  unfolding gaze_at intended_element_for_screen critical_set build_context
  attend deps state rng = do
    screen ← current_screen state
    let decision = deps.participant_model.select_attention (build_context state screen)
    let drawn = softmax_sample p decision.candidates (λ c. c.attention_score) rng
    let intended = intended_element_for_screen screen (critical_set state.task)
    let scanned = record state {
      attention = some decision;
      scan_count = scans intended state.scan_count;
      intended_element_id = intended_id intended;
    }
    ok (gaze_at screen intended drawn.0 scanned drawn.1)

  unfoldable pub action_on : Option ElementView → Result NodeError (ActionCandidate F)
  unfolding default_action_for
  action_on none = err attribute_error
  action_on (some e) = ok (record {
    action = default_action_for e;
    target = some e.id;
    utility = lit 100;
    confidence = lit 100;
  })

  unfoldable pub act_on_intended : Sim → Result NodeError Sim
  unfolding element action_on
  act_on_intended state = do
    screen ← current_screen state
    action ← action_on (element_opt screen state.intended_element_id)
    ok (record state { action = some action })

  unfoldable pub scan_exhausted : Sim → Sim
  unfolding emit make_event
  scan_exhausted state =
      record (emit
        (λ n. record (make_event n abandon) {
          screen_id = some state.current_screen_id;
          payload = some (reason_after_scans "intended_action_not_discovered" state.scan_count);
        })
        state) { outcome = abandoned; failure_reason = some "intended_action_not_discovered" }

  abbrev pub clamp : F → F
  unfolding py_max py_min
  clamp value = py_max p (lit 0) (py_min p (lit 100) value)

  -- `max(scores) - (sum(scores) / len(scores))`, at a list that is not empty
  spread : F → List F → F
  unfolding py_max
  spread score scores =
      foldl (py_max p) score scores ⊖ sum (score ∷ scores) ⊘ of_int (pos (length (score ∷ scores)))

  next_uncertainty : List F → F → F
  unfolding spread py_min
  next_uncertainty [] uncertainty = py_min p (lit 100) (uncertainty ⊕ lit 10)
  next_uncertainty (score ∷ scores) uncertainty = clamp (lit 60 ⊖ spread score scores)

  unfoldable pub interpret : Sim → Sim
  unfolding next_uncertainty
  interpret state =
      let scores : List F = elim state.attention [
        | none ↦ []
        | some decision ↦ map (λ c. c.attention_score) decision.candidates
      ] in
      let uncertainty = next_uncertainty scores state.uncertainty in
      record state { uncertainty = uncertainty; confidence = clamp (lit 100 ⊖ uncertainty) }

  unfoldable pub select_action : SimulationDeps F → Sim → Random → Result NodeError (Sim × Random)
  unfolding build_context
  select_action deps state rng = do
    screen ← current_screen state
    let decision = deps.participant_model.select_action (build_context state screen)
    let drawn = softmax_sample p decision.candidates (λ c. c.utility) rng
    ok (record state { action = drawn.0 }, drawn.1)
