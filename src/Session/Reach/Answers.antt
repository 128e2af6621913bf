-- ===== src/Session/Reach/Answers.antt =====
-- What stands behind the answer `true` of a verb.
use rdf_reasoner_konclude.Base.{
  ℕ, ◌≡◌, refl, ap, ◌∙◌, subst, Bool, true, false, leb, arith, nat_eq, bool_eq, pair_eq, list_eq,
  Bool-cases, inl, inr,
}
use rdf_reasoner_konclude.Base.Sets.{contains, SameSet}
use rdf_reasoner_konclude.Content.Check.{Buffers}
use rdf_reasoner_konclude.Content.Digest.{digest_of}
use rdf_reasoner_konclude.Session.Kernel.{Kernel}
use rdf_reasoner_konclude.Session.State.{Impl, impl_reset, build_ontology, run_pipeline}
use rdf_reasoner_konclude.Session.Verbs.{
  build_content, content, revalidate, reuse_or_rebuild, is_built, unhide, prepare_build, rebuild,
  ensure_built,
}
use rdf_reasoner_konclude.Session.Invariant.{From}
use rdf_reasoner_konclude.Session.State.{finish_pipeline}
use rdf_reasoner_konclude.Session.Verbs.{classify_built, classification, realization, build_content}
use rdf_reasoner_konclude.Session.Reach.{
  Reachable, classify, realize, called, run_call, never_stale,
}
use rdf_reasoner_konclude.Session.Reach.Reuse.{classification-IsSettled, realization-IsSettled}

module _ (k : Kernel) where
  content-revalidate : (im : Impl k) → content k (revalidate k im) ≡ content k im
  unfolding content revalidate
  content-revalidate im = ground arith

  content-unhide : (im : Impl k) → content k (unhide k im) ≡ content k im
  unfolding content unhide
  content-unhide im = ground arith

  content-prepare_build : (im : Impl k) → content k (prepare_build k im) ≡ content k im
  unfolding content prepare_build impl_reset
  content-prepare_build im = ground arith

  module _ (real : Bool) where
    content-build_content : (im : Impl k) → content k (build_content k real im).1 ≡ content k im
    unfolding content build_content build_ontology
    content-build_content im = ground arith

    content-reuse : (im : Impl k) → content k (reuse_or_rebuild k real im).1 ≡ content k im
    unfolding reuse_or_rebuild rebuild
    content-reuse im = elim (Bool-cases (is_built k real im)) [
      | inl q ↦ simp (q, reuse_or_rebuild) (content-unhide im)
      | inr q ↦
          simp (q, reuse_or_rebuild)
            (content-build_content (prepare_build k im) ∙ content-prepare_build im)
    ]

    content-ensure_built : (im : Impl k) → content k (ensure_built k real im).1 ≡ content k im
    unfolding ensure_built
    content-ensure_built im = elim (Bool-cases im.legacy_loaded) [
      | inl q ↦ simp (q, ensure_built) refl
      | inr q ↦ simp (q, ensure_built) (content-reuse (revalidate k im) ∙ content-revalidate im)
    ]

    content-run_pipeline : (im : Impl k) → content k (run_pipeline k real im).1 ≡ content k im
    unfolding content run_pipeline finish_pipeline
    content-run_pipeline im = ground arith

    content-classify_built :
        (level : ℕ) (im : Impl k) → content k (classify_built k real level im).1 ≡ content k im
    unfolding classify_built content
    content-classify_built level im = elim (Bool-cases (leb level im.pipe_level)) [
      | inl q ↦ simp (q, classify_built) refl
      | inr q ↦ elim (Bool-cases (run_pipeline k real im).0) [
        | inl ran ↦ simp (q, ran, classify_built) (content-run_pipeline im)
        | inr failed ↦ simp (q, failed, classify_built) (content-run_pipeline im)
      ]
    ]

  content-classification : (im : Impl k) → content k (classification k im).1 ≡ content k im
  unfolding classification
  content-classification im = elim (Bool-cases (ensure_built k false im).0) [
    | inl q ↦
        simp (q, classification)
          (content-classify_built false 1 (ensure_built k false im).1
            ∙ content-ensure_built false im)
    | inr q ↦ simp (q, classification) (content-ensure_built false im)
  ]

  content-realization : (im : Impl k) → content k (realization k im).1 ≡ content k im
  unfolding realization
  content-realization im = elim (Bool-cases (ensure_built k true im).0) [
    | inl q ↦
        simp (q, realization)
          (content-classify_built true 2 (ensure_built k true im).1 ∙ content-ensure_built true im)
    | inr q ↦ simp (q, realization) (content-ensure_built true im)
  ]

  -- What stands behind an answer.
  abbrev pub IsAbout : Bool → Impl k → Impl k → Type 0
  IsAbout real im after =
      (b : Buffers) × (From k b real after.ontology
        × SameSet (digest_of b) (digest_of (content k im)))

  -- When `classification` answers true in a reached state, its ontology comes from buffers with the
  -- statements of the content that was retained before the call (by their digests), loaded in the
  -- variant for classification.
  pub classification-IsAbout :
      (im : Impl k)
      → Reachable k im
      → (classification k im).0 ≡ true
      → IsAbout false im (classification k im).1
  unfolding run_call
  classification-IsAbout im r h =
      let s = classification-IsSettled k im r h in
      let (b, (f, e)) =
        never_stale k (classification k im).1 (called classify r refl) (inl s.is_classified) in
      (
        b,
        (
          subst (λ flag. From k b flag (classification k im).1.ontology) s.built.variant f,
          λ a. e a ∙ ap (λ c. contains (digest_of c) a) (content-classification im),
        ),
      )

  -- When `realization` answers true in a reached state, its ontology comes from buffers with the
  -- statements of the content that was retained before the call (by their digests), loaded in the
  -- variant for realization.
  pub realization-IsAbout :
      (im : Impl k)
      → Reachable k im
      → (realization k im).0 ≡ true
      → IsAbout true im (realization k im).1
  unfolding run_call
  realization-IsAbout im r h =
      let s = realization-IsSettled k im r h in
      let (b, (f, e)) =
        never_stale k (realization k im).1 (called realize r refl) (inl s.is_classified) in
      (
        b,
        (
          subst (λ flag. From k b flag (realization k im).1.ontology) s.built.variant f,
          λ a. e a ∙ ap (λ c. contains (digest_of c) a) (content-realization im),
        ),
      )
