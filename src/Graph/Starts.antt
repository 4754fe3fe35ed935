-- ===== src/Graph/Starts.antt =====
-- Where a run starts: `ScreenGraph.resolve_starting_screen` of app/agents/types.py.
use mathlib.Core.Option.{some-injective}
use syn_koala.Prelude.{
  ℕ, ◌≡◌, ◌⊎◌, refl, sym, ap, subst, ◌∙◌, String, true, false, Option, none, some, List, [], ◌∷◌,
  ◌==◌, ==_iff, str_eq, get, any, is_nonempty, nonempty, Bool-cases, Option-cases, inl, inr, All,
  In, eq_iff,
}
use syn_koala.Graph.{ScreenView, ScreenGraph, screen_named, first_key, resolve_starting_screen}

-- The dictionary of screens has each screen under its own id, as `get_screen_graph` builds it.
abbrev pub IsKeyed : ScreenGraph → Type 0
IsKeyed graph = All (λ entry. entry.1.id ≡ entry.0) graph.screens

abbrev pub Has : List (ℕ × ScreenView) → ℕ → Type 0
Has screens id = (screen : ScreenView) × (get screens id ≡ some screen)

Has-cons :
    (key id : ℕ) (screen : ScreenView) (screens : List (ℕ × ScreenView))
    → Has screens id
    → Has ((key, screen) ∷ screens) id
Has-cons key id screen screens (v, h) = elim (Bool-cases (key == id)) [
  | inl e ↦ (screen, rw e refl)
  | inr e ↦ (v, rw e h)
]

Has-head :
    (key id : ℕ) (screen : ScreenView) (screens : List (ℕ × ScreenView))
    → key ≡ id
    → Has ((key, screen) ∷ screens) id
Has-head key id screen screens e = (screen, rw ((==_iff key id).1 e) refl)

screen_named-Has :
    (key : String) (screens : List (ℕ × ScreenView)) (id : ℕ)
    → All (λ entry. entry.1.id ≡ entry.0) screens
    → screen_named key screens ≡ some id
    → Has screens id
unfolding screen_named
screen_named-Has key [] id keyed h = cc
screen_named-Has key ((j, screen) ∷ screens) id keyed h =
    elim (Bool-cases (str_eq screen.screen_key key)) [
      | inl e ↦ Has-head j id screen screens (sym keyed.0 ∙ some-injective screen.id id (rw e at h))
      | inr e ↦ Has-cons j id screen screens (screen_named-Has key screens id keyed.1 (rw e at h))
    ]

first_key-Has :
    (screens : List (ℕ × ScreenView)) (id : ℕ) → first_key screens ≡ some id → Has screens id
unfolding first_key
first_key-Has [] id h = cc
first_key-Has ((j, screen) ∷ screens) id h = Has-head j id screen screens (some-injective j id h)

first_key-some :
    (screens : List (ℕ × ScreenView))
    → any (λ s. is_nonempty s.1.elements) screens ≡ true
    → (id : ℕ) × (first_key screens ≡ some id)
unfolding first_key
first_key-some [] h = cc
first_key-some ((j, screen) ∷ screens) h = (j, refl)

-- What the starting point asks for: a screen that has its key, or, where it is not set or no screen has
-- that key, the first screen of the graph.
abbrev pub Starts : List (ℕ × ScreenView) → Option String → ℕ → Type 0
Starts screens starting_point start =
    ((key : String) × (screen : ScreenView) × (nonempty starting_point ≡ some key)
      × In (start, screen) screens
      × (screen.screen_key ≡ key))
    ⊎ (((key : String)
          → nonempty starting_point ≡ some key
          → All (λ entry. str_eq entry.1.screen_key key ≡ false) screens)
        × ((screen : ScreenView) × (rest : List (ℕ × ScreenView)) × (screens
              ≡ (start, screen) ∷ rest)))

screen_named-In :
    (key : String) (screens : List (ℕ × ScreenView)) (id : ℕ)
    → All (λ entry. entry.1.id ≡ entry.0) screens
    → screen_named key screens ≡ some id
    → (screen : ScreenView) × In (id, screen) screens × (screen.screen_key ≡ key)
unfolding screen_named
screen_named-In key [] id keyed h = cc
screen_named-In key ((j, screen) ∷ screens) id keyed h =
    elim (Bool-cases (str_eq screen.screen_key key)) [
      | inl e ↦
          let at : id ≡ j = sym (some-injective screen.id id (rw e at h)) ∙ keyed.0 in
          (screen, inl (ap (λ i. (i, screen)) at), (eq_iff screen.screen_key key).0 e)
      | inr e ↦
          let (v, i, named) = screen_named-In key screens id keyed.1 (rw e at h) in
          (v, inr i, named)
    ]

screen_named-none :
    (key : String) (screens : List (ℕ × ScreenView))
    → screen_named key screens ≡ none
    → All (λ entry. str_eq entry.1.screen_key key ≡ false) screens
unfolding screen_named
screen_named-none key [] h = tt
screen_named-none key ((j, screen) ∷ screens) h = elim (Bool-cases (str_eq screen.screen_key key)) [
  | inl e ↦ cc (rw e at h)
  | inr e ↦ (e, screen_named-none key screens (rw e at h))
]

first_key-shape :
    (screens : List (ℕ × ScreenView)) (id : ℕ)
    → first_key screens ≡ some id
    → (screen : ScreenView) × (rest : List (ℕ × ScreenView)) × (screens ≡ (id, screen) ∷ rest)
unfolding first_key
first_key-shape [] id h = cc
first_key-shape ((j, screen) ∷ screens) id h =
    (screen, screens, ap (λ i. (i, screen) ∷ screens) (some-injective j id h))

-- On a graph that has its screens under their own ids and an analyzed screen among them, the starting
-- screen of a task is a screen of the graph. Where the starting point is set and a screen has it as its
-- key, it is such a screen, and otherwise the first of the graph.
pub resolve_starting_screen-Shows :
    (graph : ScreenGraph) (starting_point : Option String)
    → IsKeyed graph
    → any (λ s. is_nonempty s.1.elements) graph.screens ≡ true
    → (start : ℕ) × (resolve_starting_screen graph starting_point ≡ some start)
      × Has graph.screens start
      × Starts graph.screens starting_point start
unfolding resolve_starting_screen
resolve_starting_screen-Shows graph starting_point keyed analyzed =
    let (first, f) = first_key-some graph.screens analyzed in
    elim (Option-cases (nonempty starting_point)) [
      | inl e ↦ (
        first,
        rw e f,
        first_key-Has graph.screens first f,
        inr ((λ key h. cc (rw e at h)), first_key-shape graph.screens first f),
      )
      | inr (key, e) ↦ elim (Option-cases (screen_named key graph.screens)) [
        | inl missing ↦ (
          first,
          rw e (rw missing f),
          first_key-Has graph.screens first f,
          inr (
            (λ other h.
                subst (λ k. All (λ entry. str_eq entry.1.screen_key k ≡ false) graph.screens)
                  (some-injective key other (sym e ∙ h))
                  (screen_named-none key graph.screens missing)),
            first_key-shape graph.screens first f,
          ),
        )
        | inr (id, named) ↦
            let (screen, i, keyed_so) = screen_named-In key graph.screens id keyed named in
            (
              id,
              rw e (rw named refl),
              screen_named-Has key graph.screens id keyed named,
              inl (key, screen, e, i, keyed_so),
            )
      ]
    ]
