-- ===== src/Session/Invariant/Calls.antt =====
-- The verbs and what holds between calls.
use rdf_reasoner_konclude.Base.{
  ℕ, ◌≡◌, refl, ◌∙◌, Bool, true, false, leb, arith, Option, some, nat_eq, bool_eq, pair_eq, list_eq,
  ◌==◌, Option-cases, Bool-cases, ◌⊎◌, inl, inr,
}
use rdf_reasoner_konclude.Session.Kernel.{Kernel}
use rdf_reasoner_konclude.Session.State.{Impl, run_pipeline}
use rdf_reasoner_konclude.Session.Verbs.{content, ensure_built}
use rdf_reasoner_konclude.Session.Invariant.{IsCurrent}
use rdf_reasoner_konclude.Session.Verbs.{
  kernel_consistent, classify_built, classification, realization, decide_consistency,
  remember_consistency, consistency,
}
use rdf_reasoner_konclude.Session.Invariant.Build.{
  IsBuilt, ensure_built-IsCurrent, ensure_built-IsBuilt,
}
use rdf_reasoner_konclude.Session.Invariant.Pipeline.{
  run_pipeline-IsRun, run_pipeline-classified, run_pipeline-indexed, done-IsCurrent,
  failed-IsCurrent,
}

module _ (k : Kernel) where
  -- The variant of the ontology and the level of the pipeline that belong together.
  abbrev pub IsLevel : Bool → ℕ → Type 0
  IsLevel real level = ((real ≡ false) × (level ≡ 1)) ⊎ ((real ≡ true) × (level ≡ 2))

  module _ (real : Bool) (level : ℕ) (f : IsLevel real level) (im : Impl k)
      (v : IsBuilt k real im) where
    -- Below its level nothing is classified yet.
    pub not_yet_classified : leb level im.pipe_level ≡ false → im.classified ≡ false
    not_yet_classified h =
        ground
          (arith, f, h, v.current.level_zero, v.current.level_one, v.current.level_max, v.variant)

    pub classify_built-IsCurrent : IsCurrent k (classify_built k real level im).1
    unfolding classify_built
    classify_built-IsCurrent = elim (Bool-cases (leb level im.pipe_level)) [
      | inl q ↦ simp (q, classify_built) v.current
      | inr q ↦ elim (Bool-cases (run_pipeline k real im).0) [
        | inl ran ↦
            simp (q, ran, classify_built)
              (done-IsCurrent k real im v (run_pipeline k real im).1
                (run_pipeline-IsRun k real im v) level f
                (run_pipeline-indexed k real im v (not_yet_classified q)))
        | inr failed ↦
            simp (q, failed, classify_built)
              (failed-IsCurrent k real im v (run_pipeline k real im).1
                (run_pipeline-IsRun k real im v)
                (run_pipeline-classified k real im v (not_yet_classified q) ∙ failed))
      ]
    ]

    -- The answer is the flag `classified` of the new state.
    pub classify_built-classified :
        (classify_built k real level im).1.classified ≡ (classify_built k real level im).0
    unfolding classify_built
    classify_built-classified = elim (Bool-cases (leb level im.pipe_level)) [
      | inl q ↦ simp (q, classify_built) refl
      | inr q ↦ elim (Bool-cases (run_pipeline k real im).0) [
        | inl ran ↦
            simp (q, ran, classify_built)
              (run_pipeline-classified k real im v (not_yet_classified q) ∙ ran)
        | inr failed ↦
            simp (q, failed, classify_built)
              (run_pipeline-classified k real im v (not_yet_classified q) ∙ failed)
      ]
    ]

  -- A verb that is `ensure_built` and then the pipeline.
  module _ (im : Impl k) (v : IsCurrent k im) where
    pub classification-IsCurrent : IsCurrent k (classification k im).1
    unfolding classification
    classification-IsCurrent = elim (Bool-cases (ensure_built k false im).0) [
      | inl q ↦
          simp (q, classification)
            (classify_built-IsCurrent false 1 (inl (refl, refl)) (ensure_built k false im).1
              (ensure_built-IsBuilt k false im v q))
      | inr q ↦ simp (q, classification) (ensure_built-IsCurrent k false im v)
    ]

    pub realization-IsCurrent : IsCurrent k (realization k im).1
    unfolding realization
    realization-IsCurrent = elim (Bool-cases (ensure_built k true im).0) [
      | inl q ↦
          simp (q, realization)
            (classify_built-IsCurrent true 2 (inr (refl, refl)) (ensure_built k true im).1
              (ensure_built-IsBuilt k true im v q))
      | inr q ↦ simp (q, realization) (ensure_built-IsCurrent k true im v)
    ]

    pub classification-classified :
        (classification k im).0 ≡ true → (classification k im).1.classified ≡ true
    unfolding classification
    classification-classified = elim (Bool-cases (ensure_built k false im).0) [
      | inl q ↦
          simp (q, classification)
            (λ h.
              classify_built-classified false 1 (inl (refl, refl)) (ensure_built k false im).1
                (ensure_built-IsBuilt k false im v q)
              ∙ h)
      | inr q ↦ simp (q, classification) (λ h. absurd (cc))
    ]

    pub realization-classified :
        (realization k im).0 ≡ true → (realization k im).1.classified ≡ true
    unfolding realization
    realization-classified = elim (Bool-cases (ensure_built k true im).0) [
      | inl q ↦
          simp (q, realization)
            (λ h.
              classify_built-classified true 2 (inr (refl, refl)) (ensure_built k true im).1
                (ensure_built-IsBuilt k true im v q)
              ∙ h)
      | inr q ↦ simp (q, realization) (λ h. absurd (cc))
    ]

  module _ (im : Impl k) (v : IsCurrent k im) where
    -- A remembered answer is no part of what is stated.
    remembered-IsCurrent :
        (answer : Option Bool) → IsCurrent k (record im { consist_state = answer })
    unfolding content
    remembered-IsCurrent answer = record {
      modern = v.modern;
      clean = v.clean;
      no_error = v.no_error;
      synced = v.synced;
      loaded_from = v.loaded_from;
      good = v.good;
      dirty = v.dirty;
      older = v.older;
      agrees = v.agrees;
      visible = v.visible;
      realized_now = v.realized_now;
      realized_masked = v.realized_masked;
      level_zero = v.level_zero;
      hidden_zero = v.hidden_zero;
      masked = v.masked;
      level_one = v.level_one;
      level_two = v.level_two;
      level_max = v.level_max;
      indexed = v.indexed;
      hidden_indexed = v.hidden_indexed;
    }

    remember_consistency-IsCurrent : IsCurrent k (remember_consistency k im).1
    unfolding remember_consistency
    remember_consistency-IsCurrent = remembered-IsCurrent (some (kernel_consistent k im))

  module _ (im : Impl k) (v : IsCurrent k im) where
    decide_consistency-IsCurrent : IsCurrent k (decide_consistency k im).1
    unfolding decide_consistency
    decide_consistency-IsCurrent = elim (Bool-cases im.findings.trivially_inconsistent) [
      | inl q ↦ simp (q, decide_consistency) (remembered-IsCurrent im v (some false))
      | inr q ↦ elim (Bool-cases (im.pipe_level == 0)) [
        | inr p ↦ simp (q, p, decide_consistency) (remember_consistency-IsCurrent im v)
        | inl p ↦ elim (Bool-cases (classification k im).0) [
          | inl ran ↦
              simp (q, p, ran, decide_consistency)
                (remember_consistency-IsCurrent (classification k im).1
                  (classification-IsCurrent im v))
          | inr failed ↦ simp (q, p, failed, decide_consistency) (classification-IsCurrent im v)
        ]
      ]
    ]

  pub consistency-IsCurrent : (im : Impl k) → IsCurrent k im → IsCurrent k (consistency k im).1
  unfolding consistency
  consistency-IsCurrent im v = elim (Bool-cases (ensure_built k false im).0) [
    | inr q ↦ simp (q, consistency) (ensure_built-IsCurrent k false im v)
    | inl q ↦ elim (Option-cases (ensure_built k false im).1.consist_state) [
      | inl e ↦
          simp (q, e, consistency)
            (decide_consistency-IsCurrent (ensure_built k false im).1
              (ensure_built-IsCurrent k false im v))
      | inr (known, e) ↦ simp (q, e, consistency) (ensure_built-IsCurrent k false im v)
    ]
  ]
