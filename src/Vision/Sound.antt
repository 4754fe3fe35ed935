-- ===== src/Vision/Sound.antt =====
-- The graph that app/workers/jobs/analyze_stimulus.py leaves in place of the study's.
use mathlib.Core.Path.{fun_ext}
use syn_koala.Prelude.{
  select-append, ℕ, ◌≡◌, ◌⊎◌, refl, sym, ap, subst, ◌∙◌, Bool, true, false, not, ◌||◌, List, [],
  ◌∷◌, ◌++◌, ◌==◌, select, any, All, In, In-of-All, select-All, Bool-cases, inl, inr,
}
use syn_koala.Graph.{TransitionView}
use syn_koala.Simulation.Navigation.{IsClosed}
use syn_koala.Stimuli.{
  Screen, Assets, list_screens_for_study, leaves_study, list_transitions_for_study,
  get_screen_graph,
}
use syn_koala.Stimuli.Screens.{replace_transitions_for_study}
use syn_koala.Vision.Edges.{trigger_of, same_trigger}
use syn_koala.Vision.Backed.{IsBacked, HasOneDestination}
use syn_koala.Vision.Closed.{
  ids_of, Leads, In-any, study_ids, IsClosed-Leads, Leads-IsClosed, SamePlaces, same_ids,
}
use syn_koala.Vision.Drawn.{Good}

-- The graph of a study that a run can use.
pub record IsSoundGraph (study_id : ℕ) (a : Assets) : Type 0 where
  pub closed : IsClosed (get_screen_graph study_id a)
  pub one : HasOneDestination (get_screen_graph study_id a).transitions

module _ (study_id : ℕ) where
  leaves_of : List ℕ → TransitionView → Bool
  leaves_of ids t = any (λ i. i == t.from_screen_id) ids

  any-ids :
      (k : ℕ) (screens : List Screen)
      → any (λ s. s.id == k) screens ≡ any (λ i. i == k) (ids_of screens)
  any-ids k [] = refl
  any-ids k (s ∷ screens) = ap (λ b. (s.id == k) || b) (any-ids k screens)

  listed :
      (a : Assets)
      → list_transitions_for_study study_id a
        ≡ select (leaves_of (study_ids study_id a)) a.transitions
  unfolding list_transitions_for_study leaves_study leaves_of
  listed a =
      ap (λ p. select p a.transitions)
        (fun_ext (λ t. any-ids t.from_screen_id (list_screens_for_study study_id a)))

  same_listed :
      (a b : Assets)
      → SamePlaces study_id a b
      → list_transitions_for_study study_id b ≡ list_transitions_for_study study_id a
  same_listed a b h =
      listed b
      ∙ (ap (λ ids. select (leaves_of ids) b.transitions) (same_ids study_id a b h)
          ∙ (ap (select (leaves_of (study_ids study_id a))) h.transitions ∙ sym (listed a)))

  pub SamePlaces-IsSoundGraph :
      (a b : Assets) → SamePlaces study_id a b → IsSoundGraph study_id a → IsSoundGraph study_id b
  unfolding get_screen_graph
  SamePlaces-IsSoundGraph a b h g = record {
    closed = Leads-IsClosed study_id b (
        subst (λ ids. Leads ids b.transitions) (sym (same_ids study_id a b h))
          (subst (Leads (study_ids study_id a)) (sym h.transitions)
            (IsClosed-Leads study_id a g.closed)));
    one = subst HasOneDestination (sym (same_listed a b h)) g.one;
  }

  select-not :
      (p : TransitionView → Bool) (xs : List TransitionView)
      → select p (select (λ t. not (p t)) xs) ≡ []
  select-not p [] = refl
  select-not p (x ∷ xs) = elim (Bool-cases (p x)) [
    | inl e ↦ rw e (select-not p xs)
    | inr e ↦ rw e (rw e (select-not p xs))
  ]

  select-HasOneDestination :
      (p : TransitionView → Bool) (ts : List TransitionView)
      → HasOneDestination ts
      → HasOneDestination (select p ts)
  select-HasOneDestination p [] h = tt
  select-HasOneDestination p (t ∷ ts) (others, h) = elim (Bool-cases (p t)) [
    | inl e ↦ rw e (
      select-All (λ u. same_trigger (trigger_of t) (trigger_of u) ≡ false) _ p (λ u k l. k) ts
          others,
      select-HasOneDestination p ts h,
    )
    | inr e ↦ rw e (select-HasOneDestination p ts h)
  ]

  In-ids_of : (s : Screen) (screens : List Screen) → In s screens → In s.id (ids_of screens)
  In-ids_of s [] i = cc
  In-ids_of s (x ∷ screens) (inl e) = inl (ap (λ y. y.id) e)
  In-ids_of s (x ∷ screens) (inr i) = inr (In-ids_of s screens i)

  In-append-cases :
      (t : TransitionView) (xs ys : List TransitionView) → In t (xs ++ ys) → In t xs ⊎ In t ys
  In-append-cases t [] ys i = inr i
  In-append-cases t (x ∷ xs) ys (inl e) = inl (inl e)
  In-append-cases t (x ∷ xs) ys (inr i) = elim (In-append-cases t xs ys i) [
    | inl j ↦ inl (inr j)
    | inr j ↦ inr j
  ]

  -- A wholesale replacement by transitions that stand on the screens of the study.
  pub replace-IsSoundGraph :
      (b : Assets) (screens : List Screen) (ts : List TransitionView)
      → ids_of screens ≡ study_ids study_id b
      → Good screens ts
      → IsSoundGraph study_id (replace_transitions_for_study study_id ts b)
  unfolding replace_transitions_for_study get_screen_graph list_screens_for_study leaves_study
      list_transitions_for_study
  replace-IsSoundGraph b screens ts ids (backed, one) =
      let leaves = leaves_study b study_id in
      record {
        closed = Leads-IsClosed study_id (replace_transitions_for_study study_id ts b) leads;
        one =
            subst HasOneDestination
              (sym (
                select-append leaves (select (λ t. not (leaves t)) b.transitions) ts
                ∙ ap (λ xs. xs ++ select leaves ts) (select-not leaves b.transitions)))
              (select-HasOneDestination leaves ts one);
      }
    where
      everything : (xs : List TransitionView) → All (λ u. Unit {0}) xs
      everything [] = tt
      everything (x ∷ xs) = (tt, everything xs)

      arrives : (t : TransitionView) → IsBacked screens t → In t.to_screen_id (study_ids study_id b)
      arrives t (source, target, trigger, i, e, j, f, g, h, k) =
          subst (In t.to_screen_id) ids
            (subst (λ k. In k (ids_of screens)) f (In-ids_of target screens j))

      leads :
          (t : TransitionView)
          → In t (select (λ u. not (leaves_study b study_id u)) b.transitions ++ ts)
          → In t.from_screen_id (study_ids study_id b)
          → In t.to_screen_id (study_ids study_id b)
      leads t i from = elim (In-append-cases t _ ts i) [
        | inl j ↦
            let stays =
              In-of-All (λ u. not (leaves_study b study_id u) ≡ true) _ t
                (select-All (λ u. Unit {0}) _ (λ u. not (leaves_study b study_id u)) (λ u k l. l)
                  b.transitions (everything b.transitions))
                j in
            cc (rw (In-any t.from_screen_id (list_screens_for_study study_id b) from) at stays)
        | inr j ↦ arrives t (In-of-All (IsBacked screens) ts t backed j)
      ]
