-- ===== src/Scan/Prescan.antt =====
-- The scan of `buildOntology` before the triples are inserted: its vocabulary and its indices of the
-- triples. It justifies types that domains, ranges, restrictions and intersections imply. The index
-- by objects and the index of owl:Restriction, which nothing reads, are left out.
pub mod Domains
pub mod Restrictions
pub mod Intersections
pub mod Walk
pub mod Rules
pub mod Backed
pub mod Whole
use rdf_reasoner_konclude.Base.{
  ℕ, List, [], ◌∷◌, Bool, true, false, not, ◌&&◌, ◌||◌, if◌then◌else◌, Option, none, some, nat_eq,
  list_eq, pair_eq, ◌==◌,
}
use rdf_reasoner_konclude.Base.Dicts.{lookup, assign}
use rdf_reasoner_konclude.Base.Loops.{for_each}
use rdf_reasoner_konclude.Base.Entries.{push_value}
use rdf_reasoner_konclude.Wire.Table.{Text}
use rdf_reasoner_konclude.Wire.Intern.{id_index, id_tag}
use rdf_reasoner_konclude.Wire.Emit.{Triple}
use rdf_reasoner_konclude.Scan.Terms.{bytes, find_term, text_at, is_named, is_term}
use rdf_reasoner_konclude.Scan.Lines.{Justifications, put_first, work_key, rdf_type_iri}

-- domIdx, rngIdx, …; `none` is UINT32_MAX
pub record PreVocabulary : Type 0 where
  pub domain : Option ℕ
  pub range : Option ℕ
  pub rdf_type : Option ℕ
  pub on_property : Option ℕ
  pub has_value : Option ℕ
  pub all_values_from : Option ℕ
  pub some_values_from : Option ℕ
  pub intersection_of : Option ℕ
  pub has_self : Option ℕ
  pub equivalent_class : Option ℕ
  pub sub_class_of : Option ℕ
  pub rdf_first : Option ℕ
  pub rdf_rest : Option ℕ
  pub rdf_nil : Option ℕ
  pub inverse_of : Option ℕ

unfoldable pub pre_vocabulary : List Text → PreVocabulary
unfolding find_term
pre_vocabulary terms = record {
  domain = find_term (bytes "http://www.w3.org/2000/01/rdf-schema#domain") terms 0;
  range = find_term (bytes "http://www.w3.org/2000/01/rdf-schema#range") terms 0;
  rdf_type = find_term (bytes "http://www.w3.org/1999/02/22-rdf-syntax-ns#type") terms 0;
  on_property = find_term (bytes "http://www.w3.org/2002/07/owl#onProperty") terms 0;
  has_value = find_term (bytes "http://www.w3.org/2002/07/owl#hasValue") terms 0;
  all_values_from = find_term (bytes "http://www.w3.org/2002/07/owl#allValuesFrom") terms 0;
  some_values_from = find_term (bytes "http://www.w3.org/2002/07/owl#someValuesFrom") terms 0;
  intersection_of = find_term (bytes "http://www.w3.org/2002/07/owl#intersectionOf") terms 0;
  has_self = find_term (bytes "http://www.w3.org/2002/07/owl#hasSelf") terms 0;
  equivalent_class = find_term (bytes "http://www.w3.org/2002/07/owl#equivalentClass") terms 0;
  sub_class_of = find_term (bytes "http://www.w3.org/2000/01/rdf-schema#subClassOf") terms 0;
  rdf_first = find_term (bytes "http://www.w3.org/1999/02/22-rdf-syntax-ns#first") terms 0;
  rdf_rest = find_term (bytes "http://www.w3.org/1999/02/22-rdf-syntax-ns#rest") terms 0;
  rdf_nil = find_term (bytes "http://www.w3.org/1999/02/22-rdf-syntax-ns#nil") terms 0;
  inverse_of = find_term (bytes "http://www.w3.org/2002/07/owl#inverseOf") terms 0;
}

-- What the scan writes: mWorkaroundJustifications, mHasSelfTypes and mIntersectionOfTypes.
pub record Derived : Type 0 where
  pub justifications : Justifications
  pub self_types : List (Text × Text)
  pub intersection_types : List (Text × Text)

-- inverseMap
abbrev pub add_inverse : PreVocabulary → Triple → List (ℕ × ℕ) → List (ℕ × ℕ)
add_inverse v (s, (p, o)) m =
    if is_term v.inverse_of p && is_named s && is_named o
    then assign (id_index o) (id_index s) (assign (id_index s) (id_index o) m)
    else m

unfoldable pub inverse_map : PreVocabulary → List Triple → List (ℕ × ℕ)
unfolding is_term is_named
inverse_map v ts = for_each (add_inverse v) ts []

-- spo: by the encoded subject, the predicate and the object of each triple
abbrev pub Index : Type 0
Index = List (ℕ × List (ℕ × ℕ))

abbrev pub add_to_index : Triple → Index → Index
add_to_index (s, (p, o)) m = push_value s (p, o) m

unfoldable pub triples_by_subject : List Triple → Index
triples_by_subject ts = for_each add_to_index ts []

-- One justified type, unless the key has a justification already.
abbrev pub justify : Text → Text → Text → Derived → Derived
justify indi class just d = record d {
  justifications = put_first (work_key indi rdf_type_iri class) just d.justifications;
}

-- idx != UINT32_MAX
abbrev pub is_present : Option ℕ → Bool
is_present none = false
is_present (some i) = true
