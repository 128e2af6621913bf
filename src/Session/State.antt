-- ===== src/Session/State.antt =====
-- `KoncludeReasoner::Impl`: the state, its reset, the build and the pipeline. Left out are the tables
-- of the scans that are not modelled, with their clearing, the maps that `buildAxiomMap` makes, and
-- the objects of Konclude that only run the pipeline.
use rdf_reasoner_konclude.Base.{
  ℕ, ◌+◌, List, [], ◌∷◌, ◌++◌, Bool, true, false, ◌&&◌, if◌then◌else◌, length, Option, none, some,
  nat_eq, pair_eq, list_eq, ◌==◌,
}
use rdf_reasoner_konclude.Base.Dicts.{assign}
use rdf_reasoner_konclude.Wire.Table.{Text}
use rdf_reasoner_konclude.Content.Hash.{H128}
use rdf_reasoner_konclude.Content.Check.{Buffers}
use rdf_reasoner_konclude.Scan.Clashes.{Clashes, no_clashes, scan_clashes}
use rdf_reasoner_konclude.Session.Kernel.{
  Kernel, Step, triples_mapping, active_count, build, preprocess, consistency,
  precompute_saturation, class_classify, object_property_classify, data_property_classify,
  init_realize, concept_realize, role_realize, same_individuals_realize,
}

-- The requirements of `buildBaseRequirements`, and those that realization appends.
abbrev pub base_requirements : List Step
base_requirements =
    triples_mapping ∷ active_count ∷ build ∷ preprocess ∷ consistency ∷ precompute_saturation
    ∷ class_classify ∷ object_property_classify ∷ data_property_classify ∷ []

abbrev pub realization_requirements : List Step
realization_requirements =
    init_realize ∷ concept_realize ∷ role_realize ∷ same_individuals_realize ∷ []

-- what runPipeline passes to prepareOntology()
abbrev pub requirements : Bool → List Step
requirements include_realization =
    if include_realization then base_requirements ++ realization_requirements else base_requirements

-- buildConceptIndex, buildIndividualIndex: things without an IRI are left out
unfoldable pub index_by_iri {ℓ} : {A : Type ℓ} → List (Text × A) → List (Text × A) → List (Text × A)
index_by_iri [] m = m
index_by_iri ((iri, a) ∷ rest) m = index_by_iri rest (if length iri == 0 then m else assign iri a m)

module _ (k : Kernel) where
  open k use {
    Ontology, Concept, Individual, fresh, load, prepare, step_done, concepts, individuals,
    has_individuals,
  }

  -- An `int` field in which -1 means "none" is an `Option`.
  pub record Impl : Type 0 where
    pub ontology : Ontology
    pub previous_ontology : Option Ontology
    pub call_generation : ℕ
    pub reset_count : ℕ
    pub stalled : Bool
    pub classified : Bool
    pub load_error : Bool
    pub realized : Bool
    pub result_buffer : List ℕ
    pub findings : Clashes
    pub concept_by_iri : List (Text × Concept)
    pub individual_by_iri : List (Text × Individual)
    pub digest : List H128
    pub built_digest : List H128
    pub pending : Option Buffers
    pub has_content : Bool
    pub generation : ℕ
    pub built_gen : Option ℕ
    pub built_dirty : Bool
    pub built_real : Bool
    pub pipe_level : ℕ
    pub consist_state : Option Bool
    pub hidden : Bool
    pub hidden_classified : Bool
    pub hidden_realized : Bool
    pub last_added : ℕ
    pub last_removed : ℕ
    pub rebuilds : ℕ
    pub legacy_loaded : Bool

  -- Impl::Impl, the defaults of the fields
  unfoldable pub initial : Impl
  initial = record {
    ontology = fresh 0;
    previous_ontology = none;
    call_generation = 0;
    reset_count = 0;
    stalled = false;
    classified = false;
    load_error = false;
    realized = false;
    result_buffer = [];
    findings = no_clashes;
    concept_by_iri = [];
    individual_by_iri = [];
    digest = [];
    built_digest = [];
    pending = none;
    has_content = false;
    generation = 0;
    built_gen = none;
    built_dirty = false;
    built_real = false;
    pipe_level = 0;
    consist_state = none;
    hidden = false;
    hidden_classified = false;
    hidden_realized = false;
    last_added = 0;
    last_removed = 0;
    rebuilds = 0;
    legacy_loaded = false;
  }

  -- Impl::reset: a fresh ontology, and every result forgotten
  unfoldable pub impl_reset : Impl → Impl
  impl_reset im = record im {
    reset_count = im.reset_count + 1;
    previous_ontology = some im.ontology;
    ontology = fresh (im.reset_count + 1);
    classified = false;
    load_error = false;
    realized = false;
    result_buffer = [];
    findings = no_clashes;
    concept_by_iri = [];
    individual_by_iri = [];
  }

  -- What `buildOntology` does to the fields: at the return when there is no model, in the scan for
  -- clashes behind the insertion, and at its end.
  abbrev pub no_model : Impl → Impl
  no_model im = record im { load_error = true }

  abbrev pub find_clashes : Buffers → Impl → Impl
  find_clashes b im = record im { findings = scan_clashes im.findings b }

  abbrev pub finish_build : Ontology → Impl → Impl
  finish_build o im = record im { ontology = o; classified = false }

  -- buildOntology
  unfoldable pub build_ontology : Buffers → Bool → Impl → Impl
  build_ontology b for_realization im = elim (load im.ontology b for_realization) [
    | none ↦ no_model im
    | some o ↦ finish_build o (find_clashes b im)
  ]

  -- runPipeline behind prepareOntology(), if that did not give up
  unfoldable pub finish_pipeline : Bool → Impl → Impl
  unfolding index_by_iri
  finish_pipeline include_realization im =
      let done = step_done im.ontology class_classify in
      let real =
        include_realization
        && has_individuals im.ontology
        && step_done im.ontology concept_realize in
      record im {
        classified = done;
        concept_by_iri = if done then index_by_iri (concepts im.ontology) [] else im.concept_by_iri;
        realized = real;
        individual_by_iri =
            if real then index_by_iri (individuals im.ontology) [] else im.individual_by_iri;
        previous_ontology = none;
      }

  -- runPipeline: the new state, and whether classification is complete
  unfoldable pub run_pipeline : Bool → Impl → Bool × Impl
  unfolding finish_pipeline
  run_pipeline include_realization im =
      let (o, gave_up) =
        prepare (im.call_generation + 1) (requirements include_realization) im.ontology in
      let prepared = record im { call_generation = im.call_generation + 1; ontology = o } in
      if gave_up
      then (false, record prepared { stalled = true })
      else let finished = finish_pipeline include_realization prepared in
        (finished.classified, finished)
