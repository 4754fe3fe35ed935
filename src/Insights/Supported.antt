-- ===== src/Insights/Supported.antt =====
-- `InsightEngine.validate` of app/services/insight_engine.py accepts exactly what the rows support.
use mathlib.Core.Option.{some-injective}
use syn_koala.Prelude.{
  ℕ, ◌≤◌, ◌≡◌, refl, sym, ap, subst, ◌∙◌, arith, String, true, false, not, Option, none, some, List,
  [], ◌∷◌, ltb, str_eq, eq_iff, any, is_nonempty, find_last, All, In, Bool-cases, Option-cases, inl,
  inr,
}
use syn_koala.Platform.{Platform}
use syn_koala.Insights.{
  Rounding, EvidenceRef, InsightDraft, MetricRecord, SegmentRecord, Kind, of_metric, of_segment,
  EvidenceLink, ValidatedInsight,
}
use syn_koala.Insights.Engine.{
  has_metric_key, has_segment_key, is_known, check_row, link_of, links_of, validate,
}

module _ (p : Platform) (d : Rounding p.F) (metrics : List (MetricRecord p.F))
    (segments : List (SegmentRecord p.F)) (least : ℕ) where
  -- A row with this value and sample size backs the citation.
  abbrev Backs : EvidenceRef p.F → p.F → ℕ → Type 0
  Backs ref value size = (d.equals (d.round value 6) (d.round ref.value 6) ≡ true) × (least ≤ size)

  -- The link leads to the last row with the key of the citation, which backs it.
  abbrev pub CitesIn : Option String → EvidenceRef p.F → EvidenceLink p.F → Type 0
  CitesIn none ref link =
      (m : MetricRecord p.F) × (find_last (has_metric_key ref) metrics ≡ some m)
      × Backs ref m.value m.sample_size
      × (record { kind = of_metric; row_id = m.id; value = m.value } ≡ link)
  CitesIn (some name) ref link =
      (s : SegmentRecord p.F) × (find_last (has_segment_key name ref) segments ≡ some s)
      × Backs ref s.value s.sample_size
      × (record { kind = of_segment; row_id = s.id; value = s.value } ≡ link)

  abbrev pub Cites : EvidenceRef p.F → EvidenceLink p.F → Type 0
  Cites ref link = CitesIn ref.segment ref link

  -- Citation by citation, in order.
  abbrev pub CitesAll : List (EvidenceRef p.F) → List (EvidenceLink p.F) → Type 0
  CitesAll [] [] = Unit
  CitesAll [] (link ∷ links) = true ≡ false
  CitesAll (ref ∷ refs) [] = true ≡ false
  CitesAll (ref ∷ refs) (link ∷ links) = Cites ref link × CitesAll refs links

  -- What an insight must be to be shown.
  pub record IsSupported (draft : InsightDraft p.F) (v : ValidatedInsight p.F) : Type 0 where
    pub same : v.draft ≡ draft
    pub evident : is_nonempty draft.evidence ≡ true
    pub known :
        All
          (λ name. (s : SegmentRecord p.F) × In s segments × (s.segment ≡ name))
          draft.affected_segments
    pub cited : CitesAll draft.evidence v.evidence_links

  check_row-Backs :
      (ref : EvidenceRef p.F) (kind : Kind) (id : ℕ) (value : p.F) (size : ℕ)
      (link : EvidenceLink p.F)
      → check_row p d least ref kind id value size ≡ some link
      → Backs ref value size × (record { kind = kind; row_id = id; value = value } ≡ link)
  unfolding check_row
  check_row-Backs ref kind id value size link h =
      elim (Bool-cases (d.equals (d.round value 6) (d.round ref.value 6))) [
        | inr e ↦ cc (rw e at h)
        | inl e ↦ elim (Bool-cases (ltb size least)) [
          | inl few ↦ cc (rw few at (rw e at h))
          | inr enough ↦
              let at_least : least ≤ size = ground (arith, enough) in
              ((e, at_least), some-injective _ link (rw enough at (rw e at h)))
        ]
      ]

  Backs-check_row :
      (ref : EvidenceRef p.F) (kind : Kind) (id : ℕ) (value : p.F) (size : ℕ)
      → Backs ref value size
      → check_row p d least ref kind id value size
        ≡ some (record { kind = kind; row_id = id; value = value })
  unfolding check_row
  Backs-check_row ref kind id value size (same, at_least) =
      let enough : ltb size least ≡ false = ground (arith, at_least) in rw same (rw enough refl)

  link_of-Cites :
      (ref : EvidenceRef p.F) (link : EvidenceLink p.F)
      → link_of p d metrics segments least ref ≡ some link
      → Cites ref link
  unfolding link_of
  link_of-Cites ref link h = elim (Option-cases ref.segment) [
    | inl e ↦ elim (Option-cases (find_last (has_metric_key ref) metrics)) [
      | inl missing ↦ cc (rw (missing, link_of) at (rw (e, link_of) at h))
      | inr (m, found) ↦
          let (backs, same) =
            check_row-Backs ref of_metric m.id m.value m.sample_size link
              (rw (found, link_of) at (rw (e, link_of) at h)) in
          rw (e, CitesIn) (m, found, backs, same)
    ]
    | inr (name, e) ↦ elim (Option-cases (find_last (has_segment_key name ref) segments)) [
      | inl missing ↦ cc (rw (missing, link_of) at (rw (e, link_of) at h))
      | inr (s, found) ↦
          let (backs, same) =
            check_row-Backs ref of_segment s.id s.value s.sample_size link
              (rw (found, link_of) at (rw (e, link_of) at h)) in
          rw (e, CitesIn) (s, found, backs, same)
    ]
  ]

  Cites-link_of :
      (ref : EvidenceRef p.F) (link : EvidenceLink p.F)
      → Cites ref link
      → link_of p d metrics segments least ref ≡ some link
  unfolding link_of
  Cites-link_of ref link h = elim (Option-cases ref.segment) [
    | inl e ↦
        let (m, found, backs, same) = rw (e, CitesIn) at h in
        rw (e, link_of)
          (rw (found, link_of)
            (Backs-check_row ref of_metric m.id m.value m.sample_size backs ∙ ap some same))
    | inr (name, e) ↦
        let (s, found, backs, same) = rw (e, CitesIn) at h in
        rw (e, link_of)
          (rw (found, link_of)
            (Backs-check_row ref of_segment s.id s.value s.sample_size backs ∙ ap some same))
  ]

  links_of-CitesAll :
      (refs : List (EvidenceRef p.F)) (links : List (EvidenceLink p.F))
      → links_of p d metrics segments least refs ≡ some links
      → CitesAll refs links
  unfolding links_of
  links_of-CitesAll [] links h = subst (CitesAll []) (some-injective [] links h) tt
  links_of-CitesAll (ref ∷ refs) links h =
      elim (Option-cases (link_of p d metrics segments least ref)) [
        | inl e ↦ cc (rw (e, links_of) at h)
        | inr (link, e) ↦ elim (Option-cases (links_of p d metrics segments least refs)) [
          | inl f ↦ cc (rw (f, links_of) at (rw (e, links_of) at h))
          | inr (rest, f) ↦
              subst (CitesAll (ref ∷ refs))
                (some-injective (link ∷ rest) links (rw (f, links_of) at (rw (e, links_of) at h)))
                (link_of-Cites ref link e, links_of-CitesAll refs rest f)
        ]
      ]

  CitesAll-links_of :
      (refs : List (EvidenceRef p.F)) (links : List (EvidenceLink p.F))
      → CitesAll refs links
      → links_of p d metrics segments least refs ≡ some links
  unfolding links_of
  CitesAll-links_of [] [] h = refl
  CitesAll-links_of [] (link ∷ links) h = cc
  CitesAll-links_of (ref ∷ refs) [] h = cc
  CitesAll-links_of (ref ∷ refs) (link ∷ links) (here, there) =
      rw (Cites-link_of ref link here, links_of)
        (rw (CitesAll-links_of refs links there, links_of) refl)

  is_known-Known :
      (name : String) (rows : List (SegmentRecord p.F))
      → is_known p d rows name ≡ true
      → (s : SegmentRecord p.F) × In s rows × (s.segment ≡ name)
  is_known-Known name [] h = cc
  is_known-Known name (s ∷ rows) h = elim (Bool-cases (str_eq s.segment name)) [
    | inl e ↦ (s, inl refl, (eq_iff s.segment name).0 e)
    | inr e ↦ let (t, i, same) = is_known-Known name rows (rw e at h) in (t, inr i, same)
  ]

  Known-is_known :
      (name : String) (rows : List (SegmentRecord p.F)) (s : SegmentRecord p.F)
      → In s rows
      → s.segment ≡ name
      → is_known p d rows name ≡ true
  Known-is_known name [] s i same = cc
  Known-is_known name (t ∷ rows) s (inl e) same =
      rw ((eq_iff t.segment name).1 (ap (λ r. r.segment) (sym e) ∙ same)) refl
  Known-is_known name (t ∷ rows) s (inr i) same = ground (arith, Known-is_known name rows s i same)

  -- `any` finds no unknown name exactly where every name is known.
  known-All :
      (names : List String)
      → any (λ name. not (is_known p d segments name)) names ≡ false
      → All (λ name. (s : SegmentRecord p.F) × In s segments × (s.segment ≡ name)) names
  known-All [] h = tt
  known-All (name ∷ names) h = elim (Bool-cases (is_known p d segments name)) [
    | inl e ↦ (is_known-Known name segments e, known-All names (rw e at h))
    | inr e ↦ cc (rw e at h)
  ]

  All-known :
      (names : List String)
      → All (λ name. (s : SegmentRecord p.F) × In s segments × (s.segment ≡ name)) names
      → any (λ name. not (is_known p d segments name)) names ≡ false
  All-known [] h = refl
  All-known (name ∷ names) ((s, i, same), h) =
      rw (Known-is_known name segments s i same) (All-known names h)

  -- `validate` accepts an insight exactly where it has evidence, names only segments that there are, and
  -- each of its citations is of a row, the last one with its key, that has the cited value up to rounding
  -- and a large enough sample; it then links each citation, in order, to that row and its value.
  pub validate-IsSupported :
      (draft : InsightDraft p.F) (v : ValidatedInsight p.F)
      → (validate p d draft metrics segments least ≡ some v → IsSupported draft v)
        × (IsSupported draft v → validate p d draft metrics segments least ≡ some v)
  unfolding validate
  validate-IsSupported draft v = (accepted, accepts)
    where
      accepted : validate p d draft metrics segments least ≡ some v → IsSupported draft v
      accepted h = elim (Bool-cases (is_nonempty draft.evidence)) [
        | inr none_given ↦ cc (rw none_given at h)
        | inl given ↦
            elim (Bool-cases
              (any (λ name. not (is_known p d segments name)) draft.affected_segments)) [
                | inl unknown ↦ cc (rw unknown at (rw given at h))
                | inr known ↦
                    elim (Option-cases (links_of p d metrics segments least draft.evidence)) [
                      | inl e ↦ cc (rw (e, validate) at (rw known at (rw given at h)))
                      | inr (links, e) ↦
                          let same =
                            some-injective (record { draft = draft; evidence_links = links }) v
                              (rw (e, validate) at (rw known at (rw given at h))) in
                          record {
                            same = ap (λ w. w.draft) (sym same);
                            evident = given;
                            known = known-All draft.affected_segments known;
                            cited =
                                subst (CitesAll draft.evidence) (ap (λ w. w.evidence_links) same)
                                  (links_of-CitesAll draft.evidence links e);
                          }
                    ]
              ]
      ]

      accepts : IsSupported draft v → validate p d draft metrics segments least ≡ some v
      accepts s = rw s.evident (
          rw (All-known draft.affected_segments s.known) (
            rw (CitesAll-links_of draft.evidence v.evidence_links s.cited) (
              ap (λ x. some (record { draft = x; evidence_links = v.evidence_links }))
                (sym s.same))))
