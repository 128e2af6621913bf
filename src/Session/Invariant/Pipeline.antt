-- ===== src/Session/Invariant/Pipeline.antt =====
-- `runPipeline` and the verbs `classification`, `realization` and `consistency`.
use rdf_reasoner_konclude.Base.{
  [], ℕ, ◌+◌, ◌≡◌, sym, ap, ◌∙◌, subst, Bool, true, false, arith, none, nat_eq, bool_eq, pair_eq,
  list_eq, ◌⊎◌,
}
use rdf_reasoner_konclude.Base.Sets.{SameSet}
use rdf_reasoner_konclude.Content.Digest.{digest_of}
use rdf_reasoner_konclude.Session.Kernel.{Kernel}
use rdf_reasoner_konclude.Session.State.{index_by_iri, Impl, run_pipeline}
use rdf_reasoner_konclude.Session.Verbs.{content}
use rdf_reasoner_konclude.Session.Invariant.{From, prepared, Loaded, IsCurrent}
use rdf_reasoner_konclude.Session.State.{finish_pipeline, requirements}
use rdf_reasoner_konclude.Session.Invariant.Build.{IsBuilt}

module _ (k : Kernel) where
  open k use {concepts, Ontology, prepare}

  module _ (real : Bool) (im : Impl k) (v : IsBuilt k real im) where
    abbrev prepared_ontology : Ontology × Bool
    prepared_ontology = prepare (im.call_generation + 1) (requirements real) im.ontology

    -- What a run keeps of the state.
    pub record IsRun (im' : Impl k) : Type 0 where
      pub same_modern : im'.legacy_loaded ≡ im.legacy_loaded
      pub same_dirty : im'.built_dirty ≡ im.built_dirty
      pub same_error : im'.load_error ≡ im.load_error
      pub same_digest_field : im'.digest ≡ im.digest
      same_content : content k im' ≡ content k im
      pub same_generation : im'.generation ≡ im.generation
      pub same_built_digest : im'.built_digest ≡ im.built_digest
      pub same_real : im'.built_real ≡ im.built_real
      pub same_hidden : im'.hidden ≡ im.hidden
      pub same_level : im'.pipe_level ≡ im.pipe_level
      pub same_built_gen : im'.built_gen ≡ im.built_gen
      pub is_prepared : im'.ontology ≡ prepared_ontology.0

    pub run_pipeline-IsRun : IsRun (run_pipeline k real im).1
    unfolding run_pipeline finish_pipeline content
    run_pipeline-IsRun = record {
      same_modern = ground arith;
      same_dirty = ground arith;
      same_error = ground arith;
      same_digest_field = ground arith;
      same_content = ground arith;
      same_generation = ground arith;
      same_built_digest = ground arith;
      same_real = ground arith;
      same_hidden = ground arith;
      same_level = ground arith;
      same_built_gen = ground arith;
      is_prepared = ground arith;
    }

    pub run_pipeline-classified :
        im.classified ≡ false → (run_pipeline k real im).1.classified ≡ (run_pipeline k real im).0
    unfolding run_pipeline finish_pipeline
    run_pipeline-classified h = ground (arith, h)

    pub run_pipeline-indexed :
        im.classified ≡ false
        → (run_pipeline k real im).1.classified ≡ true
        → (run_pipeline k real im).1.concept_by_iri
          ≡ index_by_iri (concepts (run_pipeline k real im).1.ontology) []
    unfolding run_pipeline finish_pipeline
    run_pipeline-indexed h = ground (arith, h)

    abbrev c : IsCurrent k im
    c = v.current

    was_dirty : im.built_dirty ≡ true
    was_dirty = c.dirty im.generation v.at_generation

    -- The ontology still comes from the content that was loaded.
    run-Loaded : (im' : Impl k) → IsRun im' → Loaded k im'
    run-Loaded im' r =
        let (b, f, e) = c.loaded_from im.generation v.at_generation in
        (
          b,
          subst (λ flag. From k b flag im'.ontology) (sym r.same_real)
              (prepared (im.call_generation + 1) (requirements real) f (sym r.is_prepared)),
          r.same_built_digest ∙ e,
        )

    run-agrees : (im' : Impl k) → IsRun im' → SameSet im'.built_digest im'.digest
    run-agrees im' r = rw (r.same_built_digest, r.same_digest_field) (c.agrees v.at_generation)

    module _ (im' : Impl k) (r : IsRun im') where
      pub done-IsCurrent :
          (level : ℕ)
          → ((real ≡ false) × (level ≡ 1)) ⊎ ((real ≡ true) × (level ≡ 2))
          → (im'.classified ≡ true → im'.concept_by_iri ≡ index_by_iri (concepts im'.ontology) [])
          → IsCurrent k (record im' { pipe_level = level })
      unfolding content
      done-IsCurrent level f x = record {
        modern = ground (arith, r.same_modern, c.modern);
        clean = λ h. absurd (ground (arith, h, r.same_dirty, was_dirty));
        no_error = λ h. absurd (ground (arith, h, r.same_dirty, was_dirty));
        synced = r.same_digest_field ∙ c.synced ∙ ap digest_of (sym r.same_content);
        loaded_from = λ n h. run-Loaded im' r;
        good = λ n h. ground (arith, r.same_error, c.good im.generation v.at_generation);
        dirty = λ n h. r.same_dirty ∙ was_dirty;
        older = λ n h. ground (arith, h, v.at_generation, r.same_generation, r.same_built_gen);
        agrees = λ h. run-agrees im' r;
        visible = λ h. ground (arith, v.at_generation, r.same_generation, r.same_built_gen);
        realized_now =
            λ n h q. ground (arith, h, v.at_generation, r.same_generation, r.same_built_gen);
        realized_masked = λ h. absurd (ground (arith, h, v.shown, r.same_hidden));
        level_zero = λ h. absurd (ground (arith, h, f));
        hidden_zero = λ h. absurd (ground (arith, h, v.shown, r.same_hidden));
        masked = λ h. absurd (ground (arith, h, v.shown, r.same_hidden));
        level_one = λ h. ground (arith, h, f, v.variant, r.same_real);
        level_two = λ h. ground (arith, h, f, v.variant, r.same_real);
        level_max = ground (arith, f);
        indexed = x;
        hidden_indexed = λ h. absurd (ground (arith, h, v.shown, r.same_hidden));
      }

      pub failed-IsCurrent : im'.classified ≡ false → IsCurrent k (record im' { built_gen = none })
      unfolding content
      failed-IsCurrent q = record {
        modern = ground (arith, r.same_modern, c.modern);
        clean = λ h. absurd (ground (arith, h, r.same_dirty, was_dirty));
        no_error = λ h. absurd (ground (arith, h, r.same_dirty, was_dirty));
        synced = r.same_digest_field ∙ c.synced ∙ ap digest_of (sym r.same_content);
        loaded_from = λ n h. absurd (cc);
        good = λ n h. absurd (cc);
        dirty = λ n h. absurd (cc);
        older = λ n h. absurd (cc);
        agrees = λ h. absurd (cc);
        visible = λ h. absurd (cc);
        realized_now = λ n h. absurd (cc);
        realized_masked = λ h. absurd (ground (arith, h, v.shown, r.same_hidden));
        level_zero = λ h. q;
        hidden_zero = λ h. absurd (ground (arith, h, v.shown, r.same_hidden));
        masked = λ h. q;
        level_one = λ h. ground (arith, h, c.level_one, r.same_real, r.same_level);
        level_two = λ h. ground (arith, h, c.level_two, r.same_real, r.same_level);
        level_max = ground (arith, c.level_max, r.same_level);
        indexed = λ h. absurd (cc (q));
        hidden_indexed = λ h. absurd (ground (arith, h, v.shown, r.same_hidden));
      }
