-- ===== src/Session/Reach/Reuse.antt =====
-- Verbs that are called again.
use rdf_reasoner_konclude.Base.{
  bool_beq_iff, ℕ, ◌≡◌, refl, ap, ◌∙◌, Bool, true, false, leb, arith, nat_eq, bool_eq, pair_eq,
  list_eq, nat_beq_iff, ◌==◌, Bool-cases, inl, inr,
}
use rdf_reasoner_konclude.Session.Kernel.{Kernel}
use rdf_reasoner_konclude.Session.State.{Impl, run_pipeline}
use rdf_reasoner_konclude.Session.Verbs.{
  revalidate, reuse_or_rebuild, is_built, unhide, ensure_built,
}
use rdf_reasoner_konclude.Session.Invariant.{IsCurrent}
use rdf_reasoner_konclude.Session.Verbs.{classify_built, classification, realization}
use rdf_reasoner_konclude.Session.Invariant.Build.{IsBuilt, ensure_built-IsBuilt, ensure_built-eq}
use rdf_reasoner_konclude.Session.Invariant.Pipeline.{
  IsRun, run_pipeline-IsRun, run_pipeline-indexed, done-IsCurrent, run_pipeline-classified,
}
use rdf_reasoner_konclude.Session.Invariant.Calls.{IsLevel, not_yet_classified}
use rdf_reasoner_konclude.Session.Reach.{Reachable, reachable-IsCurrent}

module _ (k : Kernel) where
  -- A built ontology with the pipeline run to a level, and visible results.
  pub record IsSettled (real : Bool) (level : ℕ) (im : Impl k) : Type 0 where
    pub built : IsBuilt k real im
    pub reached : leb level im.pipe_level ≡ true
    pub is_classified : im.classified ≡ true

  module _ (real : Bool) (im : Impl k) (v : IsBuilt k real im) where
    same_generation_test : (im.generation == im.generation) ≡ true
    same_generation_test = (nat_beq_iff im.generation im.generation).1 refl

    revalidate-settled : revalidate k im ≡ im
    unfolding revalidate
    revalidate-settled = ground (arith, v.at_generation, same_generation_test)

    unhide-settled : unhide k im ≡ im
    unfolding unhide
    unhide-settled = ground (arith, v.shown)

    is_built-settled : is_built k real im ≡ true
    unfolding is_built
    is_built-settled = ground (
      arith,
      v.at_generation,
      same_generation_test,
      v.current.good im.generation v.at_generation,
      v.variant,
      bool_beq_iff im.built_real real,
    )

    pub ensure_built-settled : ensure_built k real im ≡ (true, im)
    unfolding reuse_or_rebuild
    ensure_built-settled =
        ensure_built-eq k real im v.current
        ∙ ap (reuse_or_rebuild k real) revalidate-settled
        ∙ simp (is_built-settled, reuse_or_rebuild) (ap (λ x. (true, x)) unhide-settled)

  module _ (real : Bool) (level : ℕ) (f : IsLevel k real level) (im : Impl k)
      (v : IsBuilt k real im) where
    classify_built-IsSettled :
        (classify_built k real level im).0 ≡ true
        → IsSettled real level (classify_built k real level im).1
    unfolding classify_built
    classify_built-IsSettled = elim (Bool-cases (leb level im.pipe_level)) [
      | inl q ↦ simp (q, classify_built) (λ h. record { built = v; reached = q; is_classified = h })
      | inr q ↦ elim (Bool-cases (run_pipeline k real im).0) [
        | inr failed ↦ simp (q, failed, classify_built) (λ h. absurd (cc))
        | inl ran ↦
            simp (q, ran, classify_built)
              (λ h.
                let im' = (run_pipeline k real im).1 in
                let r : IsRun k real im v im' = run_pipeline-IsRun k real im v in
                record {
                  built = record {
                    current = done-IsCurrent k real im v im' r level f (
                        run_pipeline-indexed k real im v
                          (not_yet_classified k real level f im v q));
                    at_generation =
                        ground (arith, v.at_generation, r.same_generation, r.same_built_gen);
                    variant = r.same_real ∙ v.variant;
                    shown = r.same_hidden ∙ v.shown;
                  };
                  reached = ground arith;
                  is_classified =
                      run_pipeline-classified k real im v (not_yet_classified k real level f im v q)
                      ∙ ran;
                })
      ]
    ]

    classify_built-settled : IsSettled real level im → classify_built k real level im ≡ (true, im)
    unfolding classify_built
    classify_built-settled s = simp (s.reached, s.is_classified, classify_built) refl

  module _ (im : Impl k) (r : Reachable k im) where
    abbrev v : IsCurrent k im
    v = reachable-IsCurrent k r

    -- a successful verb leaves a settled state
    pub classification-IsSettled :
        (classification k im).0 ≡ true → IsSettled false 1 (classification k im).1
    unfolding classification
    classification-IsSettled = elim (Bool-cases (ensure_built k false im).0) [
      | inl q ↦
          simp (q, classification)
            (classify_built-IsSettled false 1 (inl (refl, refl)) (ensure_built k false im).1
              (ensure_built-IsBuilt k false im v q))
      | inr q ↦ simp (q, classification) (λ h. absurd (cc))
    ]

    pub realization-IsSettled : (realization k im).0 ≡ true → IsSettled true 2 (realization k im).1
    unfolding realization
    realization-IsSettled = elim (Bool-cases (ensure_built k true im).0) [
      | inl q ↦
          simp (q, realization)
            (classify_built-IsSettled true 2 (inr (refl, refl)) (ensure_built k true im).1
              (ensure_built-IsBuilt k true im v q))
      | inr q ↦ simp (q, realization) (λ h. absurd (cc))
    ]

  classification-settled : (im : Impl k) → IsSettled false 1 im → classification k im ≡ (true, im)
  unfolding classification
  classification-settled im s =
      simp
        (
          ensure_built-settled false im s.built,
          classify_built-settled false 1 (inl (refl, refl)) im s.built s,
          classification,
        )
        refl

  realization-settled : (im : Impl k) → IsSettled true 2 im → realization k im ≡ (true, im)
  unfolding realization
  realization-settled im s =
      simp
        (
          ensure_built-settled true im s.built,
          classify_built-settled true 2 (inr (refl, refl)) im s.built s,
          realization,
        )
        refl

  -- In a reached state a successful `classification` can be repeated: the second answers true again
  -- and changes nothing of the state.
  pub classification-again :
      (im : Impl k)
      → Reachable k im
      → (classification k im).0 ≡ true
      → classification k (classification k im).1 ≡ (true, (classification k im).1)
  classification-again im r h =
      classification-settled (classification k im).1 (classification-IsSettled im r h)

  -- In a reached state a successful `realization` can be repeated: the second answers true again and
  -- changes nothing of the state.
  pub realization-again :
      (im : Impl k)
      → Reachable k im
      → (realization k im).0 ≡ true
      → realization k (realization k im).1 ≡ (true, (realization k im).1)
  realization-again im r h = realization-settled (realization k im).1 (realization-IsSettled im r h)
