-- ===== src/Scan/Lines.antt =====
-- The texts of justifications: N-Triples lines, and the keys under which they are kept.
use rdf_reasoner_konclude.Base.{List, [], ◌∷◌, ◌++◌, none, some, list_eq, nat_eq}
use rdf_reasoner_konclude.Base.Dicts.{lookup, assign}
use rdf_reasoner_konclude.Wire.Table.{Text}
use rdf_reasoner_konclude.Scan.Terms.{bytes}

-- wkJustKey
unfoldable pub work_key : Text → Text → Text → Text
work_key s p o = s ++ (0 ∷ (p ++ (0 ∷ o)))

-- "<s> <p> <o> .\n"
unfoldable pub nt_line : Text → Text → Text → Text
nt_line s p o =
    bytes "<" ++ (s ++ (bytes "> <" ++ (p ++ (bytes "> <" ++ (o ++ (bytes "> ." ++ (10 ∷ [])))))))

abbrev pub rdf_type_iri : Text
rdf_type_iri = bytes "http://www.w3.org/1999/02/22-rdf-syntax-ns#type"

abbrev pub domain_iri : Text
domain_iri = bytes "http://www.w3.org/2000/01/rdf-schema#domain"

abbrev pub range_iri : Text
range_iri = bytes "http://www.w3.org/2000/01/rdf-schema#range"

abbrev pub sub_class_of_iri : Text
sub_class_of_iri = bytes "http://www.w3.org/2000/01/rdf-schema#subClassOf"

abbrev pub has_value_iri : Text
has_value_iri = bytes "http://www.w3.org/2002/07/owl#hasValue"

abbrev pub inverse_of_iri : Text
inverse_of_iri = bytes "http://www.w3.org/2002/07/owl#inverseOf"

abbrev pub one_of_iri : Text
one_of_iri = bytes "http://www.w3.org/2002/07/owl#oneOf"

abbrev pub disjoint_union_of_iri : Text
disjoint_union_of_iri = bytes "http://www.w3.org/2002/07/owl#disjointUnionOf"

-- mWorkaroundJustifications
abbrev pub Justifications : Type 0
Justifications = List (Text × Text)

-- if (m.find(key) == m.end()) m[key] = just
abbrev pub put_first : Text → Text → Justifications → Justifications
put_first key just m = elim (lookup key m) [ none ↦ assign key just m | some old ↦ m ]
