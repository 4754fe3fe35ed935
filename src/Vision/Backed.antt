-- ===== src/Vision/Backed.antt =====
-- `_resolve_transitions` of app/workers/jobs/analyze_stimulus.py: every edge that it keeps stands on
-- rows that exist, and a trigger has one destination.
use mathlib.Core.List.{foldl}
use mathlib.Core.Option.{some-injective}
use syn_koala.Prelude.{
  find_last-In, ℕ, ◌≡◌, ◌≢◌, refl, sym, subst, arith, String, false, Option, none, some, List, [],
  ◌∷◌, ◌++◌, ◌==◌, ==_iff, str_eq, eq_iff, All, All-append, In, lookup_or, Bool-cases, Option-cases,
  inl, inr,
}
use syn_koala.Graph.{TransitionView}
use syn_koala.Stimuli.{Screen, UiElement}
use syn_koala.Vision.Edges.{
  InferredTransition, screen_by_key, element_by_key, between, resolve_edge, Resolved, trigger_of,
  same_trigger, is_seen, accept_edge, resolve_transitions,
}

-- An element of a screen with that key.
abbrev ShownBy : List Screen → String → UiElement → Type 0
ShownBy screens screen_key e =
    (s : Screen) × In s screens × (s.screen_key ≡ screen_key) × In e s.elements

element_by_key-ShownBy :
    (screens : List Screen) (screen_key element_key : String) (e : UiElement)
    → element_by_key screens screen_key element_key ≡ some e
    → ShownBy screens screen_key e
unfolding element_by_key
element_by_key-ShownBy [] screen_key element_key e h = cc
element_by_key-ShownBy (s ∷ screens) screen_key element_key e h =
    elim (Option-cases (element_by_key screens screen_key element_key)) [
      | inr (b, found) ↦
          let (t, i, k, j) = element_by_key-ShownBy screens screen_key element_key b found in
          (
            t,
            inr i,
            k,
            subst (λ x. In x t.elements) (some-injective b e (rw (found, element_by_key) at h)) j,
          )
      | inl nothing ↦ elim (Bool-cases (str_eq s.screen_key screen_key)) [
        | inl same ↦ (
          s,
          inl refl,
          (eq_iff s.screen_key screen_key).0 same,
          (find_last-In _ s.elements e (rw same at (rw (nothing, element_by_key) at h))).0,
        )
        | inr other ↦ cc (rw other at (rw (nothing, element_by_key) at h))
      ]
    ]

module _ (screens : List Screen) where
  -- Both ends are screens and are different ones; the trigger is an element of a screen that has the
  -- key of the one the edge leaves.
  abbrev pub IsBacked : TransitionView → Type 0
  IsBacked t =
      (source : Screen) × (target : Screen) × (trigger : UiElement) × In source screens
      × (source.id ≡ t.from_screen_id)
      × In target screens
      × (target.id ≡ t.to_screen_id)
      × ShownBy screens source.screen_key trigger
      × (trigger.id ≡ t.trigger_element_id)
      × (t.from_screen_id ≢ t.to_screen_id)

  between-IsBacked :
      (source target : Option Screen) (trigger : Option UiElement) (key : String) (action : String)
      (t : TransitionView)
      → ((s : Screen) → source ≡ some s → In s screens × (s.screen_key ≡ key))
      → ((s : Screen) → target ≡ some s → In s screens)
      → ((e : UiElement) → trigger ≡ some e → ShownBy screens key e)
      → between source target trigger action ≡ some t
      → IsBacked t
  between-IsBacked none target trigger key action t f g k h = cc
  between-IsBacked (some s) none trigger key action t f g k h = cc
  between-IsBacked (some s) (some u) none key action t f g k h = cc
  between-IsBacked (some s) (some u) (some e) key action t f g k h =
      elim (Bool-cases (s.id == u.id)) [
        | inl same ↦ cc (rw same at h)
        | inr other ↦
            let view = some-injective _ t (rw other at h) in
            let (i, keyed) = f s refl in
            let apart = λ (e : s.id ≡ u.id). different s.id u.id other e in
            subst IsBacked view (
              s,
              u,
              e,
              i,
              refl,
              g u refl,
              refl,
              subst (λ x. ShownBy screens x e) (sym keyed) (k e refl),
              refl,
              apart,
            )
      ]
    where
      different : (a b : ℕ) → (a == b) ≡ false → a ≡ b → ⊥
      different a b ne e = cc ((==_iff a b).1 e)

  resolve_edge-IsBacked :
      (canonical : List (String × String)) (edge : InferredTransition) (t : TransitionView)
      → resolve_edge screens canonical edge ≡ some t
      → IsBacked t
  unfolding resolve_edge screen_by_key
  resolve_edge-IsBacked canonical edge t h =
      let from_key = lookup_or canonical edge.from_screen_key edge.from_screen_key in
      between-IsBacked _ _ _ from_key edge.action t
        (λ s e.
          let (i, p) = find_last-In (λ x. str_eq x.screen_key from_key) screens s e in
          (i, (eq_iff s.screen_key from_key).0 p))
        (λ s e. (find_last-In _ screens s e).0)
        (λ e found. element_by_key-ShownBy screens from_key edge.element_key e found) h

-- No two transitions have the same screen and the same trigger.
abbrev pub HasOneDestination : List TransitionView → Type 0
HasOneDestination [] = Unit
HasOneDestination (t ∷ ts) =
    All (λ u. same_trigger (trigger_of t) (trigger_of u) ≡ false) ts × HasOneDestination ts

same_sym : (a b : ℕ × ℕ) → same_trigger a b ≡ false → same_trigger b a ≡ false
same_sym (a, b) (c, d) h = ground arith

HasOneDestination-append :
    (ts : List TransitionView) (t : TransitionView)
    → HasOneDestination ts
    → All (λ u. same_trigger (trigger_of u) (trigger_of t) ≡ false) ts
    → HasOneDestination (ts ++ t ∷ [])
HasOneDestination-append [] t h new = (tt, tt)
HasOneDestination-append (u ∷ ts) t (others, h) (first, new) = (
  All-append (λ x. same_trigger (trigger_of u) (trigger_of x) ≡ false) ts (t ∷ []) others
      (first, tt),
  HasOneDestination-append ts t h new,
)

module _ (screens : List Screen) (canonical : List (String × String)) where
  record IsSound (r : Resolved) : Type 0 where
    backed : All (IsBacked screens) r.transitions
    one : HasOneDestination r.transitions
    seen :
        (trigger : ℕ × ℕ)
        → is_seen r.seen_triggers trigger ≡ false
        → All (λ u. same_trigger (trigger_of u) trigger ≡ false) r.transitions

  is_seen-append :
      (seen : List ((ℕ × ℕ) × ℕ)) (key trigger : ℕ × ℕ) (destination : ℕ)
      → is_seen (seen ++ (key, destination) ∷ []) trigger ≡ false
      → (is_seen seen trigger ≡ false) × (same_trigger key trigger ≡ false)
  unfolding is_seen
  is_seen-append [] key trigger destination h = elim (Bool-cases (same_trigger key trigger)) [
    | inl e ↦ cc (rw e at h)
    | inr e ↦ (refl, e)
  ]
  is_seen-append ((k, d) ∷ seen) key trigger destination h =
      elim (Bool-cases (same_trigger k trigger)) [
        | inl e ↦ cc (rw e at h)
        | inr e ↦
            let (old, new) = is_seen-append seen key trigger destination (rw e at h) in
            (rw e old, new)
      ]

  accept_edge-IsSound :
      (r : Resolved) (edge : InferredTransition)
      → IsSound r
      → IsSound (accept_edge screens canonical r edge)
  unfolding accept_edge
  accept_edge-IsSound r edge h = elim (Option-cases (resolve_edge screens canonical edge)) [
    | inl e ↦ rw (e, accept_edge) h
    | inr (t, e) ↦ elim (Bool-cases (is_seen r.seen_triggers (trigger_of t))) [
      | inl old ↦ rw (e, accept_edge) (rw old h)
      | inr new ↦
          rw (e, accept_edge)
            (rw new (record {
              backed =
                  All-append (IsBacked screens) r.transitions (t ∷ []) h.backed
                    (resolve_edge-IsBacked screens canonical edge t e, tt);
              one = HasOneDestination-append r.transitions t h.one (h.seen (trigger_of t) new);
              seen = λ trigger free.
                  let (old, other) =
                    is_seen-append r.seen_triggers (trigger_of t) trigger t.to_screen_id free in
                  All-append (λ u. same_trigger (trigger_of u) trigger ≡ false) r.transitions
                    (t ∷ []) (h.seen trigger old) (other, tt);
            }))
    ]
  ]

  folded :
      (inferred : List InferredTransition) (r : Resolved)
      → IsSound r
      → IsSound (foldl (accept_edge screens canonical) r inferred)
  folded [] r h = h
  folded (edge ∷ inferred) r h =
      folded inferred (accept_edge screens canonical r edge) (accept_edge-IsSound r edge h)

-- Whatever the model reports, each transition that `_resolve_transitions` keeps leads between two
-- different screens that exist, from an element of a screen with the key of the first; and no two of
-- them share their screen and trigger.
pub resolve_transitions-IsBacked :
    (screens : List Screen) (canonical : List (String × String))
    (inferred : List InferredTransition)
    → All (IsBacked screens) (resolve_transitions screens canonical inferred)
      × HasOneDestination (resolve_transitions screens canonical inferred)
unfolding resolve_transitions
resolve_transitions-IsBacked screens canonical inferred =
    let sound =
      folded screens canonical inferred (record { transitions = []; seen_triggers = [] })
        (record { backed = tt; one = tt; seen = λ trigger free. tt }) in
    (sound.backed, sound.one)
