-- ===== src/Simulation/Navigation.antt =====
-- Every screen that a run can show or go back to is a screen of its graph.
use syn_koala.Prelude.{
  ℕ, ◌≡◌, refl, Option, none, some, List, [], ◌∷◌, All, All-append, get, Bool, true, ◌==◌,
  Bool-cases, inl, inr, if◌then◌else◌, select, false, find_first-All, Option-cases, subst, ◌∙◌,
}
use mathlib.Core.Option.{some-injective}
use syn_koala.Graph.{ScreenView, ScreenGraph, TransitionView, transitions_from}
use syn_koala.Participant.{ActionCandidate, ActionType, back, click}
use syn_koala.Platform.{Platform}
use syn_koala.Simulation.{SimulationState, emit}
use syn_koala.Simulation.Actions.{
  pop_last, back_to, follow, navigate, follows_links, transition_of, enter_screen, action_event,
  perform,
}

abbrev pub Shows : ScreenGraph → ℕ → Type 0
Shows graph screen_id = (screen : ScreenView) × (get graph.screens screen_id ≡ some screen)

-- No transition leads out of the graph.
abbrev pub IsClosed : ScreenGraph → Type 0
IsClosed graph = All (λ t. Shows graph t.to_screen_id) graph.transitions

pub record IsNavigable {F : Type 0} (s : SimulationState F) : Type 0 where
  pub closed : IsClosed s.screen_graph
  pub current : Shows s.screen_graph s.current_screen_id
  pub history : All (Shows s.screen_graph) s.screen_history

All-select :
    {A : Type 0} (P : A → Type 0) (p : A → Bool) (xs : List A) → All P xs → All P (select p xs)
All-select P p [] all = tt
All-select P p (x ∷ xs) all = elim (Bool-cases (p x)) [
  | inl e ↦ rw e (all.0, All-select P p xs all.1)
  | inr e ↦ rw e (All-select P p xs all.1)
]

pop_last-All :
    (P : ℕ → Type 0) (xs : List ℕ) {before : List ℕ} {last : ℕ}
    → All P xs
    → pop_last xs ≡ some (before, last)
    → All P before × P last
unfolding pop_last
pop_last-All P [] all h = cc
pop_last-All P (x ∷ xs) all h = elim (Option-cases (pop_last xs)) [
  | inl e ↦ subst (λ r. All P r.0 × P r.1) (some-injective ([], x) _ (rw e at h)) (tt, all.0)
  | inr ((b, l), e) ↦
      let ih : All P b × P l = pop_last-All P xs all.1 e in
      subst (λ r. All P r.0 × P r.1) (some-injective (x ∷ b, l) _ (rw e at h)) ((all.0, ih.0), ih.1)
]

module _ {F : Type 0} where
  back_to-IsNavigable :
      (o : Option (List ℕ × ℕ)) (s : SimulationState F)
      → pop_last s.screen_history ≡ o
      → IsNavigable s
      → IsNavigable (back_to o s)
  unfolding back_to
  back_to-IsNavigable none s e n = n
  back_to-IsNavigable (some (before, last)) s e n =
      let split = pop_last-All (Shows s.screen_graph) s.screen_history n.history e in
      record { closed = n.closed; current = split.1; history = split.0 }

  follow-IsNavigable :
      (o : Option TransitionView) (s : SimulationState F) (element_id : ℕ)
      → transition_of s element_id ≡ o
      → IsNavigable s
      → IsNavigable (follow o s)
  unfolding follow transition_of
  follow-IsNavigable none s element_id e n = record {
    closed = n.closed;
    current = n.current;
    history = n.history;
  }
  follow-IsNavigable (some t) s element_id e n =
      let from_here = transitions_from s.screen_graph s.current_screen_id in
      record {
        closed = n.closed;
        current =
            find_first-All (λ u. Shows s.screen_graph u.to_screen_id)
              (λ u. u.trigger_element_id == element_id) from_here t
              (All-select (λ u. Shows s.screen_graph u.to_screen_id)
                (λ u. u.from_screen_id == s.current_screen_id) s.screen_graph.transitions n.closed)
              e;
        history = All-append (Shows s.screen_graph) s.screen_history _ n.history (n.current, tt);
      }

  link-IsNavigable :
      (test : Bool) (s : SimulationState F) (element_id : ℕ)
      → IsNavigable s
      → IsNavigable (if test then follow (transition_of s element_id) s else s)
  link-IsNavigable true s element_id n =
      follow-IsNavigable (transition_of s element_id) s element_id refl n
  link-IsNavigable false s element_id n = n

  -- No action leads out of the graph.
  pub navigate-IsNavigable :
      (a : ActionType) (target : Option ℕ) (s : SimulationState F)
      → IsNavigable s
      → IsNavigable (navigate a target s)
  unfolding navigate
  navigate-IsNavigable back target s n = back_to-IsNavigable (pop_last s.screen_history) s refl n
  navigate-IsNavigable click none s n = n
  navigate-IsNavigable click (some i) s n = link-IsNavigable true s i n
  navigate-IsNavigable _ none s n = n
  navigate-IsNavigable a (some i) s n = link-IsNavigable (follows_links a) s i n

  enter_screen-IsNavigable :
      (from : ℕ) (s : SimulationState F) → IsNavigable s → IsNavigable (enter_screen from s)
  unfolding enter_screen
  enter_screen-IsNavigable from s n = elim (Bool-cases (s.current_screen_id == from)) [
    | inl same ↦ rw same n
    | inr moved ↦ rw moved (record { closed = n.closed; current = n.current; history = n.history })
  ]

-- What an action leaves as it was.
abbrev pub Frame : {F : Type 0} → SimulationState F → SimulationState F → Type 0
Frame s t =
    (t.outcome ≡ s.outcome)
    × (t.screen_graph ≡ s.screen_graph)
    × (t.task ≡ s.task)
    × (t.events ≡ s.events)
    × (t.sequence_no ≡ s.sequence_no)
    × (t.task_progress ≡ s.task_progress)

module _ {F : Type 0} where
  back_to-Frame : (o : Option (List ℕ × ℕ)) (s : SimulationState F) → Frame s (back_to o s)
  unfolding back_to
  back_to-Frame none s = (refl, refl, refl, refl, refl, refl)
  back_to-Frame (some (before, last)) s = (refl, refl, refl, refl, refl, refl)

  link-Frame :
      (test : Bool) (o : Option TransitionView) (s : SimulationState F)
      → Frame s (if test then follow o s else s)
  unfolding follow
  link-Frame true none s = (refl, refl, refl, refl, refl, refl)
  link-Frame true (some t) s = (refl, refl, refl, refl, refl, refl)
  link-Frame false o s = (refl, refl, refl, refl, refl, refl)

  pub navigate-Frame :
      (a : ActionType) (target : Option ℕ) (s : SimulationState F) → Frame s (navigate a target s)
  unfolding navigate
  navigate-Frame back target s = back_to-Frame (pop_last s.screen_history) s
  navigate-Frame click none s = (refl, refl, refl, refl, refl, refl)
  navigate-Frame _ none s = (refl, refl, refl, refl, refl, refl)
  navigate-Frame a (some i) s = link-Frame (follows_links a) (transition_of s i) s

  pub outcome-enter_screen :
      (from : ℕ) (s : SimulationState F) → (enter_screen from s).outcome ≡ s.outcome
  unfolding enter_screen
  outcome-enter_screen from s = elim (Bool-cases (s.current_screen_id == from)) [
    | inl same ↦ rw same
    | inr moved ↦ rw moved
  ]

  pub task-enter_screen : (from : ℕ) (s : SimulationState F) → (enter_screen from s).task ≡ s.task
  unfolding enter_screen
  task-enter_screen from s = elim (Bool-cases (s.current_screen_id == from)) [
    | inl same ↦ rw same
    | inr moved ↦ rw moved
  ]

  pub progress-enter_screen :
      (from : ℕ) (s : SimulationState F) → (enter_screen from s).task_progress ≡ s.task_progress
  unfolding enter_screen
  progress-enter_screen from s = elim (Bool-cases (s.current_screen_id == from)) [
    | inl same ↦ rw same
    | inr moved ↦ rw moved
  ]

module _ (p : Platform) where
  pub progress-perform :
      (a : ActionCandidate p.F) (point : Option p.F × Option p.F) (s : SimulationState p.F)
      → (perform p a point s).task_progress ≡ s.task_progress
  unfolding perform
  progress-perform a point s =
      let acted_on = emit (action_event p a s.current_screen_id point) s in
      progress-enter_screen s.current_screen_id (navigate a.action a.target acted_on)
      ∙ (navigate-Frame a.action a.target acted_on).5

  pub task-perform :
      (a : ActionCandidate p.F) (point : Option p.F × Option p.F) (s : SimulationState p.F)
      → (perform p a point s).task ≡ s.task
  unfolding perform
  task-perform a point s =
      let acted_on = emit (action_event p a s.current_screen_id point) s in
      task-enter_screen s.current_screen_id (navigate a.action a.target acted_on)
      ∙ (navigate-Frame a.action a.target acted_on).2

  pub perform-IsNavigable :
      (a : ActionCandidate p.F) (point : Option p.F × Option p.F) (s : SimulationState p.F)
      → IsNavigable s
      → IsNavigable (perform p a point s)
  unfolding perform
  perform-IsNavigable a point s n =
      let acted_on = emit (action_event p a s.current_screen_id point) s in
      let moved =
        enter_screen-IsNavigable s.current_screen_id (navigate a.action a.target acted_on) (
          navigate-IsNavigable a.action a.target acted_on
            (record { closed = n.closed; current = n.current; history = n.history })) in
      record { closed = moved.closed; current = moved.current; history = moved.history }

  pub outcome-perform :
      (a : ActionCandidate p.F) (point : Option p.F × Option p.F) (s : SimulationState p.F)
      → (perform p a point s).outcome ≡ s.outcome
  unfolding perform
  outcome-perform a point s =
      let acted_on = emit (action_event p a s.current_screen_id point) s in
      outcome-enter_screen s.current_screen_id (navigate a.action a.target acted_on)
      ∙ (navigate-Frame a.action a.target acted_on).0
