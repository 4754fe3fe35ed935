-- ===== src/Simulation/Progress/Scan.antt =====
-- `attend` brings a run nearer to its end: it scans while scans are left.
use syn_koala.Prelude.{
  String, ◌<◌, ◌≡◌, refl, sym, ap, ◌∙◌, subst, Option, none, some, List, [], ◌∷◌, arith, get, Bool,
  true, false, find_first, ◌==◌, leb, Bool-cases, inl, inr, is_nonempty, ==_iff,
}
use mathlib.Core.Option.{some-injective}
use syn_koala.Platform.{Platform}
use syn_koala.Graph.{ElementView, ScreenView, element}
use syn_koala.Participant.{AttentionCandidate}
use syn_koala.Simulation.{SimulationDeps, is_in_progress, build_context}
use syn_koala.Simulation.Sampling.{softmax_sample}
use syn_koala.Simulation.Conditions.{intended_element_for_screen, is_critical, critical_set}
use syn_koala.Simulation.Nodes.{Sim, gaze_at, attend, intended_id, scans, element_opt}
use syn_koala.Simulation.Flow.{attend_node, route_scan, route_after_attend, run_node, at}
use syn_koala.Simulation.Measure.{measure, scans_left-rescan, scans_left-pos}
use syn_koala.Simulation.Navigation.{IsNavigable}
use syn_koala.Simulation.Progress.{Ready, Advances, not_leb, same_rounds}

-- An element of the screen is found again by its id.
element-found :
    (p : ElementView → Bool) (es : List ElementView) (e : ElementView)
    → find_first p es ≡ some e
    → (f : ElementView) × (find_first (λ x. x.id == e.id) es ≡ some f)
element-found p [] e h = cc
element-found p (x ∷ es) e h = elim (Bool-cases (p x)) [
  | inl hit ↦
      let same : x.id ≡ e.id = ap (λ y. y.id) (some-injective x e (rw hit at h)) in
      (x, rw ((==_iff x.id e.id).1 same))
  | inr miss ↦
      let (f, found) = element-found p es e (rw miss at h) in
      elim (Bool-cases (x.id == e.id)) [ inl same ↦ (x, rw same) | inr other ↦ (f, rw other found) ]
]

module _ (p : Platform) (deps : SimulationDeps p.F) where
  -- What `gaze_at` leaves as `attend` set it.
  gaze_at-keeps :
      (screen : ScreenView) (intended : Option ElementView)
      (sampled : Option (AttentionCandidate p.F)) (s : Sim p) (rng : p.Random)
      → let t = (gaze_at p screen intended sampled s rng).0 in
        (IsNavigable s → IsNavigable t)
        × (t.intended_element_id ≡ s.intended_element_id)
        × (t.scan_count ≡ s.scan_count)
        × (t.step ≡ s.step)
        × (t.outcome ≡ s.outcome)
        × (t.screen_graph ≡ s.screen_graph)
        × (t.current_screen_id ≡ s.current_screen_id)
  unfolding gaze_at
  gaze_at-keeps screen intended none s rng = (
    λ n. record { closed = n.closed; current = n.current; history = n.history },
    refl,
    refl,
    refl,
    refl,
    refl,
    refl,
  )
  gaze_at-keeps screen intended (some c) s rng = (
    λ n. record { closed = n.closed; current = n.current; history = n.history },
    refl,
    refl,
    refl,
    refl,
    refl,
    refl,
  )

  -- The next node after a scan of a screen without an intended element, and of one with it.
  after_scan :
      (intended : Option ElementView) (screen : ScreenView) (s t : Sim p)
      → ((e : ElementView) → intended ≡ some e → (f : ElementView) × (element screen e.id ≡ some f))
      → t.intended_element_id ≡ intended_id intended
      → t.scan_count ≡ scans intended s.scan_count
      → t.step ≡ s.step
      → is_in_progress t.outcome ≡ true
      → get t.screen_graph.screens t.current_screen_id ≡ some screen
      → (found exhausted : Bool) → leb deps.max_scan_attempts t.scan_count ≡ exhausted
      → let next = route_scan (intended_id intended) found exhausted in
        Ready next t × (measure deps next t < measure deps attend_node s)
  unfolding route_scan
  after_scan none screen s t shown i c k r g found exhausted x =
      (r, omega (arith, same_rounds p deps s t k, scans_left-pos deps s))
  after_scan (some e) screen s t shown i c k r g true exhausted x =
      let (f, there) = shown e refl in
      (
        (r, screen, f, g, subst (λ o. element_opt screen o ≡ some f) (sym i) there),
        omega (arith, same_rounds p deps s t k, scans_left-pos deps s),
      )
  after_scan (some e) screen s t shown i c k r g false true x =
      (r, omega (arith, scans_left-pos deps s))
  after_scan (some e) screen s t shown i c k r g false false x =
      (r, omega (arith, same_rounds p deps s t k, scans_left-rescan deps s t c (not_leb _ _ x)))

  -- The intended element of a screen is found on it again.
  intended-shown :
      (screen : ScreenView) (critical : List String) (e : ElementView)
      → intended_element_for_screen screen critical ≡ some e
      → (f : ElementView) × (element screen e.id ≡ some f)
  unfolding intended_element_for_screen element
  intended-shown screen critical e h = elim (Bool-cases (is_nonempty critical)) [
    | inl some_critical ↦
        element-found (is_critical critical) screen.elements e (rw some_critical at h)
    | inr no_critical ↦ cc (rw no_critical at h)
  ]

  pub attend-Advances :
      (s : Sim p) (rng : p.Random)
      → IsNavigable s
      → Ready attend_node s
      → Advances p deps attend_node s rng
  unfolding run_node attend
  attend-Advances s rng n r =
      let (screen, e) = n.current in
      let critical = critical_set s.task in
      let intended = intended_element_for_screen screen critical in
      let decision = deps.participant_model.select_attention (build_context s screen) in
      let drawn = softmax_sample p decision.candidates (λ c. c.attention_score) rng in
      let scanned : Sim p = record s {
        attention = some decision;
        scan_count = scans intended s.scan_count;
        intended_element_id = intended_id intended;
      } in
      let result = gaze_at p screen intended drawn.0 scanned drawn.1 in
      let t = result.0 in
      let (keeps, i, c, k, o, g, here) = gaze_at-keeps screen intended drawn.0 scanned drawn.1 in
      let shown : get t.screen_graph.screens t.current_screen_id ≡ some screen =
        ap (λ x. get x.screens t.current_screen_id) g
        ∙ ap (λ i. get s.screen_graph.screens i) here
        ∙ e in
      let (ready, nearer) =
        subst
          (λ o.
            let next =
              route_scan o t.found_intended_action (leb deps.max_scan_attempts t.scan_count) in
            Ready next t × (measure deps next t < measure deps attend_node s))
          (sym i)
          (after_scan intended screen s t (intended-shown screen critical) i c k
            (ap is_in_progress o ∙ r) shown t.found_intended_action
            (leb deps.max_scan_attempts t.scan_count) refl) in
      rw e (
        at p (route_after_attend deps t) t result.1,
        refl,
        keeps (record { closed = n.closed; current = n.current; history = n.history }),
        ready,
        nearer,
      )
