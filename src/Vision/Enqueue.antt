-- ===== src/Vision/Enqueue.antt =====
-- The two inner loops of `_reachable_screen_ids` of app/workers/jobs/analyze_stimulus.py: the neighbours
-- of a screen, and what looking at them adds to the queue.
use mathlib.Core.List.{append_assoc, append-nil}
use syn_koala.Prelude.{
  get-put, ℕ, suc, ◌+◌, ◌≤◌, ◌≡◌, ◌⊎◌, refl, sym, subst, ◌∙◌, arith, true, false, List, [], ◌∷◌,
  ◌++◌, if◌then◌else◌, ◌==◌, ==_iff, map, All, In, length, length-append, contains, nat_eq, put,
  select, Bool-cases, inl, inr,
}
use syn_koala.Graph.{TransitionView}
use syn_koala.Analytics.Baseline.{unvisited, unvisited-lt}
use syn_koala.Vision.Edges.{neighbours, adjacency_of, enqueue_new}

neighbours-put :
    (d : List (ℕ × List ℕ)) (k j : ℕ) (v : List ℕ)
    → neighbours (put d k v) j ≡ (if k == j then v else neighbours d j)
neighbours-put d k j v = elim (Bool-cases (k == j)) [
  | inl e ↦ rw (get-put d k j v, neighbours) (rw e refl)
  | inr e ↦ rw (get-put d k j v, neighbours) (rw e refl)
]

module _ (ts : List TransitionView) where
  abbrev pub targets : ℕ → List TransitionView → List ℕ
  targets id edges = map (λ t. t.to_screen_id) (select (λ t. t.from_screen_id == id) edges)

  neighbours_after :
      (adjacency : List (ℕ × List ℕ)) (t : TransitionView) (edges : List TransitionView) (id : ℕ)
      → neighbours
            (put adjacency t.from_screen_id
              (neighbours adjacency t.from_screen_id ++ t.to_screen_id ∷ []))
            id
          ++ targets id edges
        ≡ neighbours adjacency id ++ targets id (t ∷ edges)
  neighbours_after adjacency t edges id = elim (Bool-cases (t.from_screen_id == id)) [
    | inl e ↦
        let same = (==_iff t.from_screen_id id).0 e in
        rw (neighbours-put adjacency t.from_screen_id id _) (
          rw e (
            subst
              (λ x.
                (neighbours adjacency x ++ t.to_screen_id ∷ []) ++ targets id edges
                ≡ neighbours adjacency id ++ (t.to_screen_id ∷ targets id edges))
              (sym same) (append_assoc (neighbours adjacency id) _ _)))
    | inr e ↦ rw (neighbours-put adjacency t.from_screen_id id _) (rw e refl)
  ]

  -- The dictionary has the targets of each screen, in order.
  pub neighbours-targets :
      (edges : List TransitionView) (adjacency : List (ℕ × List ℕ)) (id : ℕ)
      → neighbours (adjacency_of adjacency edges) id ≡ neighbours adjacency id ++ targets id edges
  unfolding adjacency_of
  neighbours-targets [] adjacency id = sym (append-nil (neighbours adjacency id))
  neighbours-targets (t ∷ edges) adjacency id =
      neighbours-targets edges _ id ∙ neighbours_after adjacency t edges id

-- What the loop over the neighbours adds to the seen screens and to the queue.
pub record Added (ids seen queue seen' queue' : List ℕ) : Type 0 where
  pub new : List ℕ
  pub queued : queue' ≡ queue ++ new
  pub grows : (s : ℕ) → contains seen s ≡ true → contains seen' s ≡ true
  pub reached : (s : ℕ) → In s ids → contains seen' s ≡ true
  pub fresh : (s : ℕ) → contains seen' s ≡ true → (contains seen s ≡ true) ⊎ In s new
  pub from_ids : (s : ℕ) → In s new → In s ids
  pub are_seen : (s : ℕ) → In s new → contains seen' s ≡ true

pub contains-cons :
    (x s : ℕ) (xs : List ℕ) → contains (x ∷ xs) s ≡ true → (x ≡ s) ⊎ (contains xs s ≡ true)
contains-cons x s xs h = ground arith

reached_old :
    (x s : ℕ) (ids seen : List ℕ)
    → contains seen x ≡ true
    → ((u : ℕ) → In u ids → contains seen u ≡ true)
    → In s (x ∷ ids)
    → contains seen s ≡ true
reached_old x s ids seen old others (inl e) = subst (λ u. contains seen u ≡ true) (sym e) old
reached_old x s ids seen old others (inr i) = others s i

pub enqueue_new-Added :
    (ids seen queue : List ℕ)
    → Added ids seen queue (enqueue_new ids seen queue).0 (enqueue_new ids seen queue).1
unfolding enqueue_new
enqueue_new-Added [] seen queue = record {
  new = [];
  queued = sym (append-nil queue);
  grows = λ s h. h;
  reached = λ s i. cc;
  fresh = λ s h. inl h;
  from_ids = λ s i. i;
  are_seen = λ s i. cc;
}
enqueue_new-Added (x ∷ ids) seen queue = elim (Bool-cases (contains seen x)) [
  | inl old ↦
      let a = enqueue_new-Added ids seen queue in
      rw (old, enqueue_new)
        (record {
          new = a.new;
          queued = a.queued;
          grows = a.grows;
          reached = λ s i. reached_old x s ids _ (a.grows x old) a.reached i;
          fresh = a.fresh;
          from_ids = λ s i. inr (a.from_ids s i);
          are_seen = a.are_seen;
        })
  | inr absent ↦
      let a = enqueue_new-Added ids (x ∷ seen) (queue ++ x ∷ []) in
      let first : contains (x ∷ seen) x ≡ true = ground arith in
      rw (absent, enqueue_new)
        (record {
          new = x ∷ a.new;
          queued = a.queued ∙ append_assoc queue _ _;
          grows = λ s h. a.grows s (ground arith);
          reached = λ s i. reached_old x s ids _ (a.grows x first) a.reached i;
          fresh = λ s h. elim (a.fresh s h) [
            | inl old ↦ elim (contains-cons x s seen old) [
              | inl e ↦ inr (inl (sym e))
              | inr older ↦ inl older
            ]
            | inr i ↦ inr (inr i)
          ];
          from_ids = λ s i. elim i [ inl e ↦ inl e | inr j ↦ inr (a.from_ids s j) ];
          are_seen = λ s i. elim i [
            | inl e ↦
                subst (λ u. contains (enqueue_new ids (x ∷ seen) (queue ++ x ∷ [])).0 u ≡ true)
                  (sym e) (a.grows x first)
            | inr j ↦ a.are_seen s j
          ];
        })
]

-- The queue grows by what it takes from the targets that were not seen.
pub enqueue_new-le :
    (ids seen queue : List ℕ) (ts : List TransitionView)
    → All (λ id. (t : TransitionView) × In t ts × (t.to_screen_id ≡ id)) ids
    → length (enqueue_new ids seen queue).1 + unvisited (enqueue_new ids seen queue).0 ts
      ≤ length queue + unvisited seen ts
unfolding enqueue_new
enqueue_new-le [] seen queue ts all = omega arith
enqueue_new-le (x ∷ ids) seen queue ts ((t, i, e), all) = elim (Bool-cases (contains seen x)) [
  | inl old ↦ rw (old, enqueue_new) (enqueue_new-le ids seen queue ts all)
  | inr absent ↦
      let falls = unvisited-lt t seen ts i (subst (λ u. contains seen u ≡ false) (sym e) absent) in
      let less : suc (unvisited (x ∷ seen) ts) ≤ unvisited seen ts =
        subst (λ u. suc (unvisited (u ∷ seen) ts) ≤ unvisited seen ts) e falls in
      rw (absent, enqueue_new)
        (omega (
          arith,
          enqueue_new-le ids (x ∷ seen) (queue ++ x ∷ []) ts all,
          length-append queue (x ∷ []),
          less,
        ))
]
