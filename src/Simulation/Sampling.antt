-- ===== src/Simulation/Sampling.antt =====
-- The draws of app/agents/graphs/simulation_graph.py.
use mathlib.Core.List.{foldl}
use mathlib.Core.Option.{some-injective}
use syn_koala.Prelude.{
  String, ℤ, pos, ◌≡◌, Option, none, some, List, [], ◌∷◌, map, if◌then◌else◌, lookup_or, Bool-cases,
  All, refl, subst, inl, inr,
}
use syn_koala.Platform.{Platform, py_max, py_min}

module _ (p : Platform) where
  open p use {F, lit, of_int, ◌⊕◌, ◌⊖◌, ◌⊗◌, ◌⊘◌, exp, sum, le, trunc, Random, random, uniform}

  unfoldable pub sample_point_in_bbox : ℤ × ℤ × ℤ × ℤ → Random → (F × F) × Random
  sample_point_in_bbox (x1, y1, x2, y2) rng =
      let (x, rng') = uniform (of_int x1) (of_int x2) rng in
      let (y, rng'') = uniform (of_int y1) (of_int y2) rng' in ((x, y), rng'')

  unfoldable pub scan_duration_range_ms : List (String × F) → ℤ × ℤ
  unfolding py_max py_min
  scan_duration_range_ms traits =
      let digital_confidence = lookup_or traits "digital_confidence" (lit 50) in
      let product_familiarity = lookup_or traits "product_familiarity" (lit 50) in
      let speed =
        py_max p (lit 0)
          (py_min p (lit 100) ((digital_confidence ⊕ product_familiarity) ⊘ of_int (pos 2))) in
      let slowness = of_int (pos 1) ⊖ speed in
      (
        trunc (of_int (pos 150) ⊕ slowness ⊗ of_int (pos 250)),
        trunc (of_int (pos 500) ⊕ slowness ⊗ of_int (pos 900)),
      )

  module _ {A : Type 0} where
    -- The loop over items and probabilities; `latest` ends as `items[-1]`.
    pub pick : F → F → A → List (A × F) → A
    pick draw cumulative latest [] = latest
    pick draw cumulative latest ((item, probability) ∷ rest) =
        let cumulative' = cumulative ⊕ probability in
        let later = pick draw cumulative' item rest in if le draw cumulative' then item else later

    pub softmax_weights : (A → F) → A → List A → List F
    unfolding py_max
    softmax_weights score item items =
        let scores = map score items in
        let max_score = foldl (py_max p) (score item) scores in
        map (λ s. exp ((s ⊖ max_score) ⊗ lit 400)) (score item ∷ scores)

    pub zip_probabilities : F → List A → List F → List (A × F)
    zip_probabilities total (a ∷ items) (w ∷ weights) =
        (a, w ⊘ total) ∷ zip_probabilities total items weights
    zip_probabilities total _ _ = []

    -- Every caller takes the scores as `[score(c) for c in items]`.
    unfoldable pub softmax_sample : List A → (A → F) → Random → Option A × Random
    unfolding pick softmax_weights zip_probabilities
    softmax_sample [] score rng = (none, rng)
    softmax_sample (item ∷ items) score rng =
        let weights = softmax_weights score item items in
        let probabilities = zip_probabilities (sum weights) (item ∷ items) weights in
        let (draw, rng') = random rng in (some (pick draw (lit 0) item probabilities), rng')

    -- What is sampled has every property that all candidates have.
    pick-All :
        (P : A → Type 0) (draw cumulative total : F) (latest : A) (items : List A)
        (weights : List F)
        → P latest
        → All P items
        → P (pick draw cumulative latest (zip_probabilities total items weights))
    unfolding pick zip_probabilities
    pick-All P draw cumulative total latest [] ws h all = h
    pick-All P draw cumulative total latest (a ∷ items) [] h all = h
    pick-All P draw cumulative total latest (a ∷ items) (w ∷ ws) h all =
        let next = cumulative ⊕ w ⊘ total in
        elim (Bool-cases (le draw next)) [
          | inl e ↦ rw e all.0
          | inr e ↦ rw e (pick-All P draw next total a items ws all.0 all.1)
        ]

    pub softmax_sample-All :
        (P : A → Type 0) (items : List A) (score : A → F) (rng : Random) (a : A)
        → All P items
        → (softmax_sample items score rng).0 ≡ some a
        → P a
    unfolding softmax_sample
    softmax_sample-All P [] score rng a all h = cc
    softmax_sample-All P (item ∷ items) score rng a all h =
        let weights = softmax_weights score item items in
        let (draw, _) = random rng in
        subst P (some-injective _ a h)
          (pick-All P draw (lit 0) (sum weights) item (item ∷ items) weights all.0 all)

    -- Something is sampled from candidates that are not empty.
    pub softmax_sample-cons :
        (item : A) (items : List A) (score : A → F) (rng : Random)
        → (a : A) × ((softmax_sample (item ∷ items) score rng).0 ≡ some a)
    unfolding softmax_sample
    softmax_sample-cons item items score rng = (_, refl)
