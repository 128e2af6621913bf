-- ===== src/Session/Queries.antt =====
-- The queries on classes and individuals: `isSubClassOf`, `isSatisfiableClass`, `isInstanceOf` and
-- `buildUnsatisfiableClassBuffer`.
pub mod Lines
use rdf_reasoner_konclude.Base.{
  ℕ, ◌≡◌, refl, List, [], ◌∷◌, ◌++◌, Bool, true, false, not, ◌||◌, ◌&&◌, if◌then◌else◌, Option,
  none, some, length, nat_eq, list_eq, ◌==◌, arith,
}
use rdf_reasoner_konclude.Base.Dicts.{lookup}
use rdf_reasoner_konclude.Wire.Table.{Text}
use rdf_reasoner_konclude.Scan.Terms.{bytes}
use rdf_reasoner_konclude.Session.Kernel.{Kernel}
use rdf_reasoner_konclude.Session.State.{Impl}

-- `value`, or the default where an object on the way is missing
abbrev pub or_default : Bool → Option Bool → Bool
or_default d none = d
or_default d (some b) = b

-- push_back of each IRI with '\n' between them
unfoldable pub join_lines : List Text → Text
join_lines [] = []
join_lines (iri ∷ []) = iri
join_lines (iri ∷ more) = let rest = join_lines more in iri ++ (10 ∷ rest)

abbrev pub owl_nothing : Text
owl_nothing = bytes "http://www.w3.org/2002/07/owl#Nothing"

module _ (k : Kernel) where
  open k use {
    Concept, is_subsumption, is_satisfiable, is_concept_instance, bottom_concepts, in_taxonomy,
    class_name,
  }

  unfoldable pub is_sub_class_of : Impl k → Text → Text → Bool
  is_sub_class_of im sub super =
      if im.classified
      then elim (lookup sub im.concept_by_iri) [
        | none ↦ false
        | some c ↦ elim (lookup super im.concept_by_iri) [
          | none ↦ false
          | some d ↦ or_default false (is_subsumption im.ontology c d)
        ]
      ]
      else false

  unfoldable pub is_satisfiable_class : Impl k → Text → Bool
  is_satisfiable_class im iri =
      if im.classified
      then elim (lookup iri im.concept_by_iri) [
        | none ↦ true
        | some c ↦ or_default true (is_satisfiable im.ontology c)
      ]
      else true

  unfoldable pub is_instance_of : Impl k → Text → Text → Bool
  is_instance_of im individual class =
      if im.realized
      then elim (lookup individual im.individual_by_iri) [
        | none ↦ false
        | some i ↦ elim (lookup class im.concept_by_iri) [
          | none ↦ false
          | some c ↦ or_default false (is_concept_instance im.ontology i c)
        ]
      ]
      else false

  -- The loop over the equivalent concepts of the bottom node.
  unfoldable pub unsatisfiable_iris : k.Ontology → List (Option Concept) → List Text
  unsatisfiable_iris o [] = []
  unsatisfiable_iris o (none ∷ cs) = unsatisfiable_iris o cs
  unsatisfiable_iris o (some c ∷ cs) =
      let rest = unsatisfiable_iris o cs in
      if not (in_taxonomy o c) || length (class_name c) == 0 || class_name c == owl_nothing
      then rest
      else class_name c ∷ rest

  unfoldable pub build_unsatisfiable_class_buffer : Impl k → Text
  unfolding unsatisfiable_iris join_lines
  build_unsatisfiable_class_buffer im =
      if im.classified
      then elim (bottom_concepts im.ontology) [
        | none ↦ []
        | some cs ↦ join_lines (unsatisfiable_iris im.ontology cs)
      ]
      else []
