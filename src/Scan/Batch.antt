-- ===== src/Scan/Batch.antt =====
-- The scan of `buildOntology` for the features that the reasoner's own code adds to the result:
-- owl:someValuesFrom, owl:oneOf, minimal cardinalities and owl:disjointUnionOf.
pub mod Maps
pub mod Lists
pub mod SomeValues
pub mod MinCards
pub mod Backing
pub mod Whole
pub mod Roles
use rdf_reasoner_konclude.Base.{
  ltb, ℕ, ◌≡◌, zero, suc, List, [], ◌∷◌, ◌++◌, Bool, true, false, not, ◌&&◌, ◌||◌, if◌then◌else◌,
  Option, none, some, nat_eq, list_eq, pair_eq, ◌==◌, length,
}
use rdf_reasoner_konclude.Base.Dicts.{lookup, assign}
use rdf_reasoner_konclude.Base.Sets.{insert, contains}
use rdf_reasoner_konclude.Base.Loops.{for_each, when_some}
use rdf_reasoner_konclude.Base.Entries.{push_value}
use rdf_reasoner_konclude.Wire.Table.{Text}
use rdf_reasoner_konclude.Wire.Intern.{id_index, id_tag}
use rdf_reasoner_konclude.Wire.Emit.{Triple}
use rdf_reasoner_konclude.Scan.Terms.{bytes, find_term, text_at, is_named, is_term}
use rdf_reasoner_konclude.Scan.Lines.{
  nt_line, work_key, put_first, rdf_type_iri, domain_iri, range_iri, has_value_iri, inverse_of_iri,
}
use rdf_reasoner_konclude.Scan.Lines.{Justifications}

-- The indices of the known IRIs; `none` is UINT32_MAX
pub record BatchVocabulary : Type 0 where
  pub rdf_type : Option ℕ
  pub restriction : Option ℕ
  pub on_property : Option ℕ
  pub some_values_from : Option ℕ
  pub equivalent_class : Option ℕ
  pub sub_class_of : Option ℕ
  pub disjoint_union_of : Option ℕ
  pub rdf_first : Option ℕ
  pub rdf_rest : Option ℕ
  pub one_of : Option ℕ
  pub min_cardinality : Option ℕ
  pub min_qualified_cardinality : Option ℕ
  pub on_class : Option ℕ

unfoldable pub batch_vocabulary : List Text → BatchVocabulary
unfolding find_term
batch_vocabulary terms = record {
  rdf_type = find_term (bytes "http://www.w3.org/1999/02/22-rdf-syntax-ns#type") terms 0;
  restriction = find_term (bytes "http://www.w3.org/2002/07/owl#Restriction") terms 0;
  on_property = find_term (bytes "http://www.w3.org/2002/07/owl#onProperty") terms 0;
  some_values_from = find_term (bytes "http://www.w3.org/2002/07/owl#someValuesFrom") terms 0;
  equivalent_class = find_term (bytes "http://www.w3.org/2002/07/owl#equivalentClass") terms 0;
  sub_class_of = find_term (bytes "http://www.w3.org/2000/01/rdf-schema#subClassOf") terms 0;
  disjoint_union_of = find_term (bytes "http://www.w3.org/2002/07/owl#disjointUnionOf") terms 0;
  rdf_first = find_term (bytes "http://www.w3.org/1999/02/22-rdf-syntax-ns#first") terms 0;
  rdf_rest = find_term (bytes "http://www.w3.org/1999/02/22-rdf-syntax-ns#rest") terms 0;
  one_of = find_term (bytes "http://www.w3.org/2002/07/owl#oneOf") terms 0;
  min_cardinality = find_term (bytes "http://www.w3.org/2002/07/owl#minCardinality") terms 0;
  min_qualified_cardinality =
      find_term (bytes "http://www.w3.org/2002/07/owl#minQualifiedCardinality") terms 0;
  on_class = find_term (bytes "http://www.w3.org/2002/07/owl#onClass") terms 0;
}

-- The maps that one pass over the triples fills: svfRestBnodes, svfOnPropMap, svfSvfMap,
-- rdfFirstMap, rdfRestMap, oneOfHeadMap, minCardValueMap, minQCardValueMap and onClassMap
pub record BatchMaps : Type 0 where
  pub nodes : List ℕ
  pub properties : List (ℕ × ℕ)
  pub fillers : List (ℕ × ℕ)
  pub firsts : List (ℕ × ℕ)
  pub rests : List (ℕ × ℕ)
  pub one_of_heads : List (ℕ × ℕ)
  pub min_values : List (ℕ × ℕ)
  pub min_qualified_values : List (ℕ × ℕ)
  pub on_classes : List (ℕ × ℕ)

abbrev pub no_maps : BatchMaps
no_maps = record {
  nodes = [];
  properties = [];
  fillers = [];
  firsts = [];
  rests = [];
  one_of_heads = [];
  min_values = [];
  min_qualified_values = [];
  on_classes = [];
}

-- (id >> 30) == 1 and (id >> 30) == 2
unfoldable pub is_blank : ℕ → Bool
is_blank id = id_tag id == 1

unfoldable pub is_literal : ℕ → Bool
is_literal id = id_tag id == 2

-- The branches of the chain of tests.
pub data Branch : Type 0 where
  a_node a_property a_filler a_first a_rest a_head a_min a_min_qualified a_class nothing : Branch

abbrev pub first_of : List (Bool × Branch) → Branch
first_of [] = nothing
first_of ((test, b) ∷ rest) = if test then b else first_of rest

abbrev pub branch_tests : BatchVocabulary → Triple → List (Bool × Branch)
branch_tests v (s, (p, o)) =
    (is_term v.rdf_type p && is_blank s && is_named o, a_node)
    ∷ (is_term v.on_property p && is_blank s && is_named o, a_property)
    ∷ (is_term v.some_values_from p && is_blank s && is_named o, a_filler)
    ∷ (is_term v.rdf_first p && is_blank s && is_named o, a_first)
    ∷ (is_term v.rdf_rest p && is_blank s, a_rest)
    ∷ (is_term v.one_of p && is_named s, a_head)
    ∷ (is_term v.min_cardinality p && is_blank s && is_literal o, a_min)
    ∷ (is_term v.min_qualified_cardinality p && is_blank s && is_literal o, a_min_qualified)
    ∷ (is_term v.on_class p && is_blank s && is_named o, a_class)
    ∷ []

abbrev pub branch : BatchVocabulary → Triple → Branch
branch v (s, (p, o)) = first_of (branch_tests v (s, (p, o)))

abbrev pub take_branch : BatchVocabulary → Branch → ℕ → ℕ → BatchMaps → BatchMaps
take_branch v a_node s o m =
    if is_term v.restriction (id_index o) then record m { nodes = insert s m.nodes } else m
take_branch v a_property s o m = record m { properties = assign s (id_index o) m.properties }
take_branch v a_filler s o m = record m { fillers = assign s (id_index o) m.fillers }
take_branch v a_first s o m = record m { firsts = assign s (id_index o) m.firsts }
take_branch v a_rest s o m = record m { rests = assign s o m.rests }
take_branch v a_head s o m = record m { one_of_heads = assign (id_index s) o m.one_of_heads }
take_branch v a_min s o m = record m { min_values = assign s o m.min_values }
take_branch v a_min_qualified s o m = record m {
  min_qualified_values = assign s o m.min_qualified_values;
}
take_branch v a_class s o m = record m { on_classes = assign s (id_index o) m.on_classes }
take_branch v nothing s o m = m

abbrev pub add_to_maps : BatchVocabulary → Triple → BatchMaps → BatchMaps
add_to_maps v (s, (p, o)) m = take_branch v (branch v (s, (p, o))) s o m

unfoldable pub batch_maps : BatchVocabulary → List Triple → BatchMaps
unfolding is_term is_named is_blank is_literal
batch_maps v ts = for_each (add_to_maps v) ts no_maps

-- MinCardEntry
pub record MinCardinality : Type 0 where
  pub class_iri : Text
  pub property_iri : Text
  pub least : ℕ
  pub on_class_iri : Text

-- What the scan writes: mSvfIndex, mSvfRoleAssertions, mSvfABoxTypes, mOneOfMemberships,
-- mMinCardRestrictions, mMinCardRoleAssertions, mDisjointUnionOf and mWorkaroundJustifications
pub record Batch : Type 0 where
  pub svf_index : List (Text × List (Text × Text))
  pub svf_role_assertions : List (Text × List Text)
  pub svf_abox_types : List (Text × Text)
  pub one_of_memberships : List (Text × Text)
  pub min_card_restrictions : List MinCardinality
  pub min_card_role_assertions : List (Text × List Text)
  pub disjoint_union_of : List (Text × Text)
  pub justifications : Justifications

-- An axiom by equivalentClass or subClassOf has its node as the object; one by equivalentClass may
-- also have it as the subject.
abbrev pub class_axiom : Bool → Bool → (ℕ → ℕ → Batch → Batch) → ℕ → ℕ → Batch → Batch
class_axiom is_equivalent is_sub f s o d =
    let first = (if is_named s && is_blank o then f s o d else d) in
    if is_equivalent || is_sub
    then (if is_equivalent && is_blank s && is_named o then f o s first else first)
    else d

abbrev pub on_class_axiom : BatchVocabulary → (ℕ → ℕ → Batch → Batch) → Triple → Batch → Batch
on_class_axiom v f (s, (p, o)) d =
    class_axiom (is_term v.equivalent_class p) (is_term v.sub_class_of p) f s o d

-- The indices of the properties whose assertions are kept: svfPropTermIdxs or mcPropIdxs
abbrev pub add_property : List Text → Text → List ℕ → List ℕ
add_property terms iri props = when_some insert (find_term iri terms 0) props

unfoldable pub property_indices : List Text → List Text → List ℕ
unfolding find_term
property_indices terms iris = for_each (add_property terms) iris []

-- sIri + '\0' + pIri
unfoldable pub role_key : Text → Text → Text
role_key s p = s ++ (0 ∷ p)

-- Whether a triple is an assertion of one of the properties that are asked for.
abbrev pub is_role : List Text → List ℕ → Triple → Bool
is_role terms props (s, (p, o)) =
    is_named s
    && is_named o
    && contains props p
    && ltb (id_index s) (length terms)
    && ltb (id_index o) (length terms)

abbrev pub add_role :
    List Text → List ℕ → Triple → List (Text × List Text) → List (Text × List Text)
add_role terms props (s, (p, o)) m =
    if is_role terms props (s, (p, o))
    then push_value (role_key (text_at terms (id_index s)) (text_at terms p))
        (text_at terms (id_index o)) m
    else m

unfoldable pub role_assertions :
    List Text → List ℕ → List Triple → List (Text × List Text) → List (Text × List Text)
unfolding role_key is_named
role_assertions terms props ts m = for_each (add_role terms props) ts m
