-- ===== src/Examples/Sessions.antt =====
-- Calls of a reasoner, at small inputs.
use rdf_reasoner_konclude.Base.{
  inl, nat_eq, ◌==◌, ◌∙◌, sym, ap, list_eq, pair_eq, ℕ, ◌≡◌, ◌+◌, ◌↔◌, ◌⊎◌, refl, List, [], ◌∷◌,
  some, none, Option, true, false,
}
use rdf_reasoner_konclude.Base.Sets.{contains, SameSet, count_missing}
use rdf_reasoner_konclude.Base.Ints.{pos}
use rdf_reasoner_konclude.Content.Check.{Buffers, buffers_ok}
use rdf_reasoner_konclude.Content.Digest.{digest_of}
use rdf_reasoner_konclude.Content.Digest.Meaning.{digest-SameSet}
use rdf_reasoner_konclude.Base.{Bool}
use rdf_reasoner_konclude.Session.Kernel.{Step, concept_realize, Kernel}
use rdf_reasoner_konclude.Session.State.{index_by_iri, build_ontology, Impl, initial, run_pipeline}
use rdf_reasoner_konclude.Session.Queries.{
  is_sub_class_of, is_satisfiable_class, join_lines, build_unsatisfiable_class_buffer,
}
use rdf_reasoner_konclude.Session.Queries.Lines.{split_lines, split_lines-join_lines}
use rdf_reasoner_konclude.Session.Reach.Lookups.{
  IsOfContent, Names, is_sub_class_of-IsOfContent, is_satisfiable_class-IsOfContent,
}
use rdf_reasoner_konclude.Session.Sync.{take_content, hide_results, sync_buffers, triple_count}
use rdf_reasoner_konclude.Session.Verbs.{empty_buffers, content, classification, realization}
use rdf_reasoner_konclude.Session.Invariant.{From}
use rdf_reasoner_konclude.Session.Reach.{
  sync, classify, Reachable, start, called, run_call, never_stale,
}
use rdf_reasoner_konclude.Session.Reach.Answers.{
  IsAbout, classification-IsAbout, realization-IsAbout,
}
use rdf_reasoner_konclude.Session.Reach.Back.{sync_all, change_back}
use rdf_reasoner_konclude.Session.Reach.Reuse.{classification-again, realization-again}
use rdf_reasoner_konclude.Session.Reach.Syncing.{
  digest-sync_buffers, sync_buffers-same, sync_buffers-changed_iff, sync_buffers-counts,
}
use rdf_reasoner_konclude.Examples.Contents.{
  one_order, other_order, orders-SameSet, one_order_ok, other_order_ok,
}

-- An ontology that only remembers what was loaded, and a pipeline that always finishes.
abbrev toy : Kernel
toy = record {
  Ontology = Option Buffers;
  Concept = ℕ;
  Individual = ℕ;
  fresh = λ n. none;
  load = λ o b real. some (some b);
  prepare = λ g steps o. (o, false);
  step_done = λ o step. true;
  concepts = λ o. (97 ∷ [], 1) ∷ (98 ∷ [], 2) ∷ [];
  individuals = λ o. [];
  has_individuals = λ o. true;
  consistence = λ o. some true;
  is_subsumption = λ o c d. some (c == d);
  is_satisfiable = λ o c. some (c == 1);
  is_concept_instance = λ o i c. some false;
  bottom_concepts = λ o. some (some 1 ∷ some 2 ∷ none ∷ []);
  in_taxonomy = λ o c. c == 1;
  class_name = λ c. c ∷ [];
}

-- after one sync
abbrev synced_once : Impl toy
synced_once = take_content toy one_order (digest_of one_order) (initial toy)

first_sync : sync_buffers toy one_order (initial toy) ≡ (pos 1, synced_once)
unfolding sync_buffers initial hide_results
first_sync = simp (one_order_ok, sync_buffers) refl

synced_once-Reachable : Reachable toy synced_once
unfolding run_call
synced_once-Reachable = called (sync one_order) start (ap (λ x. x.1) first_sync)

sync_buffers-same_example : sync_buffers toy other_order synced_once ≡ (pos 0, synced_once)
unfolding content initial take_content
sync_buffers-same_example =
    sync_buffers-same toy other_order synced_once synced_once-Reachable refl other_order_ok
      (λ a. sym (orders-SameSet a))

sync_buffers-changed_iff_example : ((sync_buffers toy empty_buffers synced_once).0 ≡ pos 1) ↔ (
    (buffers_ok empty_buffers ≡ true)
    × ((synced_once.has_content ≡ false)
        ⊎ (SameSet (digest_of empty_buffers) synced_once.digest → ⊥)))
sync_buffers-changed_iff_example =
    sync_buffers-changed_iff toy empty_buffers synced_once synced_once-Reachable

sync_buffers-counts_example :
    (((sync_buffers toy one_order (initial toy)).1.last_added
        ≡ count_missing (digest_of one_order) (initial toy).digest)
      × ((sync_buffers toy one_order (initial toy)).1.last_removed
          ≡ count_missing (initial toy).digest (digest_of one_order)))
    × (triple_count toy (initial toy) + (sync_buffers toy one_order (initial toy)).1.last_added
        ≡ triple_count toy (sync_buffers toy one_order (initial toy)).1
          + (sync_buffers toy one_order (initial toy)).1.last_removed)
sync_buffers-counts_example =
    sync_buffers-counts toy one_order (initial toy) start (ap (λ x. x.0) first_sync)

classified_once : (classification toy synced_once).0 ≡ true
unfolding classification run_pipeline initial build_ontology take_content
classified_once = refl

realized_once : (realization toy synced_once).0 ≡ true
unfolding realization run_pipeline initial build_ontology take_content
realized_once = refl

classification-again_example :
    classification toy (classification toy synced_once).1
    ≡ (true, (classification toy synced_once).1)
classification-again_example =
    classification-again toy synced_once synced_once-Reachable classified_once

realization-again_example :
    realization toy (realization toy synced_once).1 ≡ (true, (realization toy synced_once).1)
realization-again_example = realization-again toy synced_once synced_once-Reachable realized_once

classification-IsAbout_example : IsAbout toy false synced_once (classification toy synced_once).1
classification-IsAbout_example =
    classification-IsAbout toy synced_once synced_once-Reachable classified_once

realization-IsAbout_example : IsAbout toy true synced_once (realization toy synced_once).1
realization-IsAbout_example =
    realization-IsAbout toy synced_once synced_once-Reachable realized_once

abbrev classified_state : Impl toy
classified_state = (classification toy synced_once).1

classified_state-Reachable : Reachable toy classified_state
unfolding run_call
classified_state-Reachable = called classify synced_once-Reachable refl

classified_state_classified : classified_state.classified ≡ true
unfolding classification run_pipeline initial build_ontology take_content
classified_state_classified = refl

never_stale_example :
    (b : Buffers) × (From toy b classified_state.built_real classified_state.ontology
      × SameSet (digest_of b) (digest_of (content toy classified_state)))
never_stale_example =
    never_stale toy classified_state classified_state-Reachable (inl classified_state_classified)

abbrev realized_state : Impl toy
realized_state = (realization toy synced_once).1

shown_realization : (realized_state.built_gen ≡ some 1) × (realized_state.realized ≡ true)
unfolding realization run_pipeline initial build_ontology take_content
shown_realization = (refl, refl)

-- A pipeline that realizes, but does not classify.
abbrev only_realized : Step → Bool
only_realized concept_realize = true
only_realized _ = false

abbrev half_done : Kernel
half_done = record {
  Ontology = Option Buffers;
  Concept = ℕ;
  Individual = ℕ;
  fresh = λ n. none;
  load = λ o b real. some (some b);
  prepare = λ g steps o. (o, false);
  step_done = λ o step. only_realized step;
  concepts = λ o. [];
  individuals = λ o. [];
  has_individuals = λ o. true;
  consistence = λ o. some true;
  is_subsumption = λ o c d. none;
  is_satisfiable = λ o c. none;
  is_concept_instance = λ o i c. some true;
  bottom_concepts = λ o. none;
  in_taxonomy = λ o c. false;
  class_name = λ c. [];
}

abbrev after_failure : Impl half_done
after_failure =
    (realization half_done
      (take_content half_done one_order (digest_of one_order) (initial half_done))).1

-- After the failed realization a changing sync leaves `realized` over the old ontology.
left_realized :
    (hide_results half_done (take_content half_done empty_buffers [] after_failure)).realized ≡ true
unfolding realization run_pipeline initial build_ontology take_content hide_results
left_realized = refl

left_ontology :
    (hide_results half_done (take_content half_done empty_buffers [] after_failure)).ontology
    ≡ some one_order
unfolding realization run_pipeline initial build_ontology take_content hide_results
left_ontology = refl

-- nothing, and then the first content again
abbrev there_and_back : List Buffers
there_and_back = empty_buffers ∷ other_order ∷ []

after_nothing-Reachable : Reachable toy (sync_buffers toy empty_buffers classified_state).1
unfolding run_call
after_nothing-Reachable = called (sync empty_buffers) classified_state-Reachable refl

classified_digest : classified_state.digest ≡ digest_of one_order
unfolding classification run_pipeline initial build_ontology take_content
classified_digest = refl

back_again : SameSet (sync_all toy there_and_back classified_state).digest classified_state.digest
unfolding sync_all
back_again a =
    digest-sync_buffers toy other_order (sync_buffers toy empty_buffers classified_state).1
      after_nothing-Reachable other_order_ok a
    ∙ sym (digest-SameSet one_order other_order orders-SameSet a)
    ∙ ap (λ d. contains d a) (sym classified_digest)

change_back_example :
    ((classification toy (sync_all toy there_and_back classified_state)).0 ≡ true)
    × (((classification toy (sync_all toy there_and_back classified_state)).1.ontology
          ≡ classified_state.ontology)
        × (((classification toy (sync_all toy there_and_back classified_state)).1.call_generation
              ≡ classified_state.call_generation)
            × ((classification toy (sync_all toy there_and_back classified_state)).1.rebuilds
                ≡ classified_state.rebuilds)))
change_back_example =
    change_back toy synced_once synced_once-Reachable classified_once there_and_back back_again

digest-sync_buffers_example :
    SameSet (sync_buffers toy other_order synced_once).1.digest (digest_of other_order)
digest-sync_buffers_example =
    digest-sync_buffers toy other_order synced_once synced_once-Reachable other_order_ok

queried : is_sub_class_of toy classified_state (97 ∷ []) (97 ∷ []) ≡ true
unfolding is_sub_class_of index_by_iri classification run_pipeline initial build_ontology
    take_content
queried = refl

is_sub_class_of-IsOfContent_example :
    IsOfContent toy classified_state
    × ((c : ℕ) × ((d : ℕ) × (Names toy classified_state.ontology (97 ∷ []) c
            × (Names toy classified_state.ontology (97 ∷ []) d × (some (c == d) ≡ some true)))))
is_sub_class_of-IsOfContent_example =
    is_sub_class_of-IsOfContent toy classified_state classified_state-Reachable (97 ∷ []) (97 ∷ [])
      queried

doubted : is_satisfiable_class toy classified_state (98 ∷ []) ≡ false
unfolding is_satisfiable_class index_by_iri classification run_pipeline initial build_ontology
    take_content
doubted = refl

is_satisfiable_class-IsOfContent_example :
    IsOfContent toy classified_state
    × ((c : ℕ) × (Names toy classified_state.ontology (98 ∷ []) c × (some (c == 1) ≡ some false)))
is_satisfiable_class-IsOfContent_example =
    is_satisfiable_class-IsOfContent toy classified_state classified_state-Reachable (98 ∷ [])
      doubted

split_lines-join_lines_example :
    split_lines (join_lines ((97 ∷ []) ∷ (98 ∷ 99 ∷ []) ∷ [])) ≡ (97 ∷ []) ∷ (98 ∷ 99 ∷ []) ∷ []
split_lines-join_lines_example =
    split_lines-join_lines (97 ∷ []) ((98 ∷ 99 ∷ []) ∷ []) (refl, (refl, tt))

-- one unsatisfiable class
bottom_example : build_unsatisfiable_class_buffer toy classified_state ≡ 1 ∷ []
unfolding build_unsatisfiable_class_buffer classification run_pipeline initial build_ontology
    take_content
bottom_example = refl
