-- ===== src/Analytics/Shortest.antt =====
-- `shortest_path_baseline` of app/services/analytics_engine.py against the walks of the graph: no walk
-- to a critical action is shorter than its answer.
use syn_koala.Prelude.{
  ℕ, ◌≡◌, ◌⊎◌, refl, sym, subst, ◌∙◌, arith, String, true, false, List, [], ◌∷◌, ◌++◌, contains,
  nat_eq, map, Bool-cases, inl, inr, In,
}
use mathlib.Core.List.{append_assoc, append-nil}
use syn_koala.Graph.{ScreenGraph, TransitionView}
use syn_koala.Analytics.{Visit, hit, onward, has_critical, visit}
use syn_koala.Analytics.Baseline.{visit_new, visit_hit, visit_seen}

abbrev pub tagged : ℕ → List ℕ → List (ℕ × ℕ)
tagged hops screens = map (λ s. (s, hops)) screens

module _ (graph : ScreenGraph) (critical : List String) where
  -- What the loop over the transitions of a screen adds to the visited screens and to the queue.
  pub record Grown (next_hops : ℕ) (ts : List TransitionView) (visited : List ℕ)
      (queue : List (ℕ × ℕ)) (visited' : List ℕ) (queue' : List (ℕ × ℕ)) : Type 0 where
    pub new : List ℕ
    pub queued : queue' ≡ queue ++ tagged next_hops new
    pub grows : (s : ℕ) → contains visited s ≡ true → contains visited' s ≡ true
    pub reached : (t : TransitionView) → In t ts → contains visited' t.to_screen_id ≡ true
    pub fresh : (s : ℕ) → contains visited' s ≡ true → (contains visited s ≡ true) ⊎ In s new
    pub plain :
        (s : ℕ)
        → contains visited' s ≡ true
        → (contains visited s ≡ true) ⊎ (has_critical graph critical s ≡ false)

  unfoldable pub Grows : ℕ → List TransitionView → List ℕ → List (ℕ × ℕ) → Visit → Type 0
  Grows next_hops ts visited queue (hit n) = n ≡ next_hops
  Grows next_hops ts visited queue (onward visited' queue') =
      Grown next_hops ts visited queue visited' queue'

  reached_old :
      (visited' : List ℕ) (t u : TransitionView) (ts : List TransitionView)
      → contains visited' t.to_screen_id ≡ true
      → ((x : TransitionView) → In x ts → contains visited' x.to_screen_id ≡ true)
      → In u (t ∷ ts)
      → contains visited' u.to_screen_id ≡ true
  reached_old visited' t u ts seen others (inl same) =
      subst (λ x. contains visited' x.to_screen_id ≡ true) (sym same) seen
  reached_old visited' t u ts seen others (inr i) = others u i

  skipped :
      (next_hops : ℕ) (t : TransitionView) (ts : List TransitionView) (visited : List ℕ)
      (queue : List (ℕ × ℕ)) (o : Visit)
      → contains visited t.to_screen_id ≡ true
      → Grows next_hops ts visited queue o
      → Grows next_hops (t ∷ ts) visited queue o
  unfolding Grows
  skipped next_hops t ts visited queue (hit n) seen g = g
  skipped next_hops t ts visited queue (onward visited' queue') seen g = record {
    new = g.new;
    queued = g.queued;
    grows = g.grows;
    reached = λ u i. reached_old visited' t u ts (g.grows t.to_screen_id seen) g.reached i;
    fresh = g.fresh;
    plain = g.plain;
  }

  contains-cons :
      (x s : ℕ) (xs : List ℕ) → contains (x ∷ xs) s ≡ true → (x ≡ s) ⊎ (contains xs s ≡ true)
  contains-cons x s xs h = ground arith

  added :
      (next_hops : ℕ) (t : TransitionView) (ts : List TransitionView) (visited : List ℕ)
      (queue : List (ℕ × ℕ)) (o : Visit)
      → has_critical graph critical t.to_screen_id ≡ false
      → Grows next_hops ts (t.to_screen_id ∷ visited) (queue ++ (t.to_screen_id, next_hops) ∷ []) o
      → Grows next_hops (t ∷ ts) visited queue o
  unfolding Grows
  added next_hops t ts visited queue (hit n) p g = g
  added next_hops t ts visited queue (onward visited' queue') p g =
      let first : contains (t.to_screen_id ∷ visited) t.to_screen_id ≡ true = ground arith in
      record {
        new = t.to_screen_id ∷ g.new;
        queued = g.queued ∙ append_assoc queue _ _;
        grows = λ s h. g.grows s (ground arith);
        reached = λ u i. reached_old visited' t u ts (g.grows t.to_screen_id first) g.reached i;
        fresh = λ s h. elim (g.fresh s h) [
          | inl old ↦ elim (contains-cons t.to_screen_id s visited old) [
            | inl same ↦ inr (inl (sym same))
            | inr older ↦ inl older
          ]
          | inr i ↦ inr (inr i)
        ];
        plain = λ s h. elim (g.plain s h) [
          | inl old ↦ elim (contains-cons t.to_screen_id s visited old) [
            | inl same ↦ inr (subst (λ x. has_critical graph critical x ≡ false) same p)
            | inr older ↦ inl older
          ]
          | inr e ↦ inr e
        ];
      }

  pub visit-Grows :
      (next_hops : ℕ) (ts : List TransitionView) (visited : List ℕ) (queue : List (ℕ × ℕ))
      → Grows next_hops ts visited queue (visit graph critical next_hops ts visited queue)
  unfolding Grows visit
  visit-Grows next_hops [] visited queue = record {
    new = [];
    queued = sym (append-nil queue);
    grows = λ s h. h;
    reached = λ t i. cc;
    fresh = λ s h. inl h;
    plain = λ s h. inl h;
  }
  visit-Grows next_hops (t ∷ ts) visited queue =
      elim (Bool-cases (contains visited t.to_screen_id)) [
        | inl seen ↦
            subst (Grows next_hops (t ∷ ts) visited queue)
              (sym (visit_seen graph 0 critical next_hops t ts visited queue seen))
              (skipped next_hops t ts visited queue _ seen (visit-Grows next_hops ts visited queue))
        | inr new ↦ elim (Bool-cases (has_critical graph critical t.to_screen_id)) [
          | inl shown ↦
              subst (Grows next_hops (t ∷ ts) visited queue)
                (sym (visit_hit graph 0 critical next_hops t ts visited queue new shown)) refl
          | inr p ↦
              subst (Grows next_hops (t ∷ ts) visited queue)
                (sym (visit_new graph 0 critical next_hops t ts visited queue new p))
                (added next_hops t ts visited queue _ p
                  (visit-Grows next_hops ts (t.to_screen_id ∷ visited) _))
        ]
      ]
