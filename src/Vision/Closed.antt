-- ===== src/Vision/Closed.antt =====
-- The graph that app/workers/jobs/analyze_stimulus.py draws has no transition out of it.
use syn_koala.Prelude.{
  get-put, In-select, select-All, All-In, ℕ, ◌≡◌, ◌⊎◌, refl, sym, ap, ◌∙◌, arith, Bool, true, ◌&&◌,
  some, List, [], ◌∷◌, ◌==◌, ==_iff, map, select, any, All, In, In-of-All, put, get, Bool-cases,
  inl, inr,
}
use syn_koala.Graph.{ScreenView, TransitionView}
use syn_koala.Graph.Starts.{IsKeyed}
use syn_koala.Database.Rows.{amend}
use syn_koala.Simulation.Navigation.{Shows, IsClosed}
use syn_koala.Stimuli.{
  Screen, Assets, screen_view, in_study, list_screens_for_study, leaves_study,
  list_transitions_for_study, screens_by_id, get_screen_graph,
}

abbrev pub ids_of : List Screen → List ℕ
ids_of screens = map (λ s. s.id) screens

abbrev Has : List (ℕ × ScreenView) → ℕ → Type 0
Has views k = (v : ScreenView) × (get views k ≡ some v)

Has-put :
    (views : List (ℕ × ScreenView)) (j k : ℕ) (v : ScreenView) → Has views k → Has (put views j v) k
Has-put views j k v (w, h) = elim (Bool-cases (j == k)) [
  | inl e ↦ (v, get-put views j k v ∙ rw e refl)
  | inr e ↦ (w, get-put views j k v ∙ rw e h)
]

put-Has :
    (views : List (ℕ × ScreenView)) (j k : ℕ) (v : ScreenView)
    → Has (put views j v) k
    → (k ≡ j) ⊎ Has views k
put-Has views j k v (w, h) = elim (Bool-cases (j == k)) [
  | inl e ↦ inl (sym ((==_iff j k).0 e))
  | inr e ↦ inr (w, rw e at (sym (get-put views j k v) ∙ h))
]

-- The dictionary has a view for the screens, and for what was in it.
screens_by_id-Has_old :
    (screens : List Screen) (views : List (ℕ × ScreenView)) (k : ℕ)
    → Has views k
    → Has (screens_by_id views screens) k
unfolding screens_by_id
screens_by_id-Has_old [] views k h = h
screens_by_id-Has_old (s ∷ screens) views k h =
    screens_by_id-Has_old screens _ k (Has-put views s.id k (screen_view s) h)

screens_by_id-Has :
    (screens : List Screen) (views : List (ℕ × ScreenView)) (k : ℕ)
    → In k (ids_of screens)
    → Has (screens_by_id views screens) k
unfolding screens_by_id
screens_by_id-Has [] views k i = cc
screens_by_id-Has (s ∷ screens) views k (inl e) =
    screens_by_id-Has_old screens _ k
      (screen_view s, get-put views s.id k (screen_view s) ∙ rw ((==_iff s.id k).1 (sym e)) refl)
screens_by_id-Has (s ∷ screens) views k (inr i) = screens_by_id-Has screens _ k i

Has-screens_by_id :
    (screens : List Screen) (views : List (ℕ × ScreenView)) (k : ℕ)
    → Has (screens_by_id views screens) k
    → In k (ids_of screens) ⊎ Has views k
unfolding screens_by_id
Has-screens_by_id [] views k h = inr h
Has-screens_by_id (s ∷ screens) views k h = elim (Has-screens_by_id screens _ k h) [
  | inl i ↦ inl (inr i)
  | inr old ↦ elim (put-Has views s.id k (screen_view s) old) [
    | inl e ↦ inl (inl e)
    | inr older ↦ inr older
  ]
]

put-keyed :
    (views : List (ℕ × ScreenView)) (j : ℕ) (v : ScreenView)
    → v.id ≡ j
    → All (λ e. e.1.id ≡ e.0) views
    → All (λ e. e.1.id ≡ e.0) (put views j v)
put-keyed [] j v same all = (same, tt)
put-keyed ((i, w) ∷ views) j v same all = elim (Bool-cases (i == j)) [
  | inl e ↦ rw e (same ∙ sym ((==_iff i j).0 e), all.1)
  | inr e ↦ rw e (all.0, put-keyed views j v same all.1)
]

screens_by_id-keyed :
    (screens : List Screen) (views : List (ℕ × ScreenView))
    → All (λ e. e.1.id ≡ e.0) views
    → All (λ e. e.1.id ≡ e.0) (screens_by_id views screens)
unfolding screens_by_id screen_view
screens_by_id-keyed [] views all = all
screens_by_id-keyed (s ∷ screens) views all =
    screens_by_id-keyed screens _ (put-keyed views s.id (screen_view s) refl all)

-- `get_screen_graph` has each screen under its own id.
pub get_screen_graph-IsKeyed : (study_id : ℕ) (a : Assets) → IsKeyed (get_screen_graph study_id a)
unfolding get_screen_graph
get_screen_graph-IsKeyed study_id a = screens_by_id-keyed (list_screens_for_study study_id a) [] tt

pub any-In :
    (k : ℕ) (screens : List Screen) → any (λ s. s.id == k) screens ≡ true → In k (ids_of screens)
any-In k [] h = cc
any-In k (s ∷ screens) h = elim (Bool-cases (s.id == k)) [
  | inl e ↦ inl (sym ((==_iff s.id k).0 e))
  | inr e ↦ inr (any-In k screens (rw e at h))
]

pub In-any :
    (k : ℕ) (screens : List Screen) → In k (ids_of screens) → any (λ s. s.id == k) screens ≡ true
In-any k [] i = cc
In-any k (s ∷ screens) (inl e) = rw ((==_iff s.id k).1 (sym e)) refl
In-any k (s ∷ screens) (inr i) = ground (arith, In-any k screens i)

-- A transition that leaves one of the screens leads to one of them.
abbrev pub Leads : List ℕ → List TransitionView → Type 0
Leads ids ts = (t : TransitionView) → In t ts → In t.from_screen_id ids → In t.to_screen_id ids

abbrev pub places_of : List Screen → List (ℕ × ℕ)
places_of [] = []
places_of (s ∷ screens) = (s.id, s.stimulus_id) ∷ places_of screens

abbrev first_of : List (ℕ × ℕ) → List ℕ
first_of places = map (λ k. k.0) places

module _ (study_id : ℕ) where
  abbrev pub study_ids : Assets → List ℕ
  study_ids a = ids_of (list_screens_for_study study_id a)

  pub IsClosed-Leads :
      (a : Assets) → IsClosed (get_screen_graph study_id a) → Leads (study_ids a) a.transitions
  unfolding get_screen_graph list_transitions_for_study leaves_study
  IsClosed-Leads a closed t i from =
      let leaves = In-any t.from_screen_id (list_screens_for_study study_id a) from in
      let shown =
        In-of-All (λ u. Shows (get_screen_graph study_id a) u.to_screen_id)
          (list_transitions_for_study study_id a) t closed
          (In-select (leaves_study a study_id) t a.transitions i leaves) in
      elim (Has-screens_by_id (list_screens_for_study study_id a) [] t.to_screen_id shown) [
        | inl found ↦ found
        | inr old ↦ cc old.1
      ]

  pub Leads-IsClosed :
      (a : Assets) → Leads (study_ids a) a.transitions → IsClosed (get_screen_graph study_id a)
  unfolding get_screen_graph list_transitions_for_study leaves_study
  Leads-IsClosed a leads =
      select-All (λ t. In t a.transitions) (λ t. Shows (get_screen_graph study_id a) t.to_screen_id)
        (leaves_study a study_id)
        (λ t i leaves.
          screens_by_id-Has (list_screens_for_study study_id a) [] t.to_screen_id
            (leads t i (any-In t.from_screen_id (list_screens_for_study study_id a) leaves)))
        a.transitions (All-In a.transitions)

  -- What the analysis of screens leaves: the stimuli, the transitions, and the place of every screen.
  pub record SamePlaces (a b : Assets) : Type 0 where
    pub stimuli : b.stimuli ≡ a.stimuli
    pub transitions : b.transitions ≡ a.transitions
    pub places : places_of b.screens ≡ places_of a.screens

  ids-places :
      (q : ℕ → Bool) (screens : List Screen)
      → ids_of (select (λ s. q s.stimulus_id) screens)
        ≡ first_of (select (λ k. q k.1) (places_of screens))
  ids-places q [] = refl
  ids-places q (s ∷ screens) = elim (Bool-cases (q s.stimulus_id)) [
    | inl e ↦ rw e (ap (λ ids. s.id ∷ ids) (ids-places q screens))
    | inr e ↦ rw e (ids-places q screens)
  ]

  pub same_ids : (a b : Assets) → SamePlaces a b → study_ids b ≡ study_ids a
  unfolding list_screens_for_study in_study
  same_ids a b h =
      ids-places (in_study b study_id) b.screens
      ∙ (ap (λ ks. first_of (select (λ k. in_study b study_id k.1) ks)) h.places
          ∙ (ap
                (λ st. first_of (
                  select (λ k. any (λ s. (s.id == k.1) && (s.study_id == study_id)) st)
                    (places_of a.screens)))
                h.stimuli
              ∙ sym (ids-places (in_study a study_id) a.screens)))

  pub amend-places :
      (test : Screen → Bool) (change : Screen → Screen) (screens : List Screen)
      → ((s : Screen) → ((change s).id ≡ s.id) × ((change s).stimulus_id ≡ s.stimulus_id))
      → places_of (amend test change screens) ≡ places_of screens
  amend-places test change [] same = refl
  amend-places test change (s ∷ screens) same = elim (Bool-cases (test s)) [
    | inl e ↦ rw e (rw (amend-places test change screens same) (rw (same s).0 (rw (same s).1 refl)))
    | inr e ↦ rw e (ap (λ xs. (s.id, s.stimulus_id) ∷ xs) (amend-places test change screens same))
  ]
