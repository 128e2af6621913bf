-- ===== src/Session/Kernel.antt =====
-- What the wrapper takes from Konclude and from the Redland library, neither of which is part of
-- this repository: an ontology object and the calls on it. What a call answers may depend on the
-- number of the call, so nothing is assumed to be repeatable.
use rdf_reasoner_konclude.Base.{ℕ, List, Bool, Option, nat_eq, pair_eq, list_eq}
use rdf_reasoner_konclude.Wire.Table.{Text}
use rdf_reasoner_konclude.Content.Check.{Buffers}

-- COntologyProcessingStep
pub data Step : Type 0 where
  triples_mapping active_count build preprocess consistency precompute_saturation : Step
  class_classify object_property_classify data_property_classify : Step
  init_realize concept_realize role_realize same_individuals_realize : Step

pub record Kernel : Type 1 where
  pub Ontology : Type 0
  pub Concept : Type 0
  pub Individual : Type 0
  -- buildFreshOntology(), at the given count of resets
  pub fresh : ℕ → Ontology
  -- the librdf model and the triple mapper; `none` if no model could be made
  pub load : Ontology → Buffers → Bool → Option Ontology
  -- prepareOntology() at a call generation: the ontology after it, and whether it gave up
  pub prepare : ℕ → List Step → Ontology → Ontology × Bool
  -- getProcessingStepData(t)->…->hasPartialProcessingFlags(PSCOMPLETELYYPROCESSED)
  pub step_done : Ontology → Step → Bool
  -- the keys of the concept hierarchy's hash and the individual vector, with their IRI names
  pub concepts : Ontology → List (Text × Concept)
  pub individuals : Ontology → List (Text × Individual)
  -- getIndividualVector(false)->getItemCount() > 0
  pub has_individuals : Ontology → Bool
  -- getConsistence(): none if there is no such object
  pub consistence : Ontology → Option Bool
  -- isSubsumption and isSatisfiable of the concept taxonomy, isConceptInstance of the concept
  -- realization; none if there is no such object
  pub is_subsumption : Ontology → Concept → Concept → Option Bool
  pub is_satisfiable : Ontology → Concept → Option Bool
  pub is_concept_instance : Ontology → Individual → Concept → Option Bool
  -- the equivalent concepts of the bottom node, none if there is no taxonomy, node, hash or list;
  -- whether the hash of the taxonomy has a concept; the recent IRI name of a concept
  pub bottom_concepts : Ontology → Option (List (Option Concept))
  pub in_taxonomy : Ontology → Concept → Bool
  pub class_name : Concept → Text
